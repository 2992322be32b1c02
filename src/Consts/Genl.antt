-- ===== src/Consts/Genl.antt =====
-- src/consts/genl.rs: the commands of the generic netlink controller.
use neli.Base.{ℕ, ◌%◌, ◌^◌, List, [], ◌∷◌}
use neli.Buffering.{Libc}
use neli.Consts.{ImplVar}

pub data CtrlCmd : Type 0 where
  unspec newfamily delfamily getfamily newops delops getops newmcast_grp : CtrlCmd
  delmcast_grp getmcast_grp : CtrlCmd
  unrecognized_variant : ℕ → CtrlCmd

module _ ⦃c : Libc⦄ where
  abbrev pub ctrl_cmd_into : CtrlCmd → ℕ
  ctrl_cmd_into CtrlCmd.unspec = c.constant "CTRL_CMD_UNSPEC" % 2 ^ 8
  ctrl_cmd_into CtrlCmd.newfamily = c.constant "CTRL_CMD_NEWFAMILY" % 2 ^ 8
  ctrl_cmd_into CtrlCmd.delfamily = c.constant "CTRL_CMD_DELFAMILY" % 2 ^ 8
  ctrl_cmd_into CtrlCmd.getfamily = c.constant "CTRL_CMD_GETFAMILY" % 2 ^ 8
  ctrl_cmd_into CtrlCmd.newops = c.constant "CTRL_CMD_NEWOPS" % 2 ^ 8
  ctrl_cmd_into CtrlCmd.delops = c.constant "CTRL_CMD_DELOPS" % 2 ^ 8
  ctrl_cmd_into CtrlCmd.getops = c.constant "CTRL_CMD_GETOPS" % 2 ^ 8
  ctrl_cmd_into CtrlCmd.newmcast_grp = c.constant "CTRL_CMD_NEWMCAST_GRP" % 2 ^ 8
  ctrl_cmd_into CtrlCmd.delmcast_grp = c.constant "CTRL_CMD_DELMCAST_GRP" % 2 ^ 8
  ctrl_cmd_into CtrlCmd.getmcast_grp = c.constant "CTRL_CMD_GETMCAST_GRP" % 2 ^ 8
  ctrl_cmd_into (CtrlCmd.unrecognized_variant i) = i

  abbrev pub ctrl_cmd_variants : List CtrlCmd
  ctrl_cmd_variants =
      CtrlCmd.unspec ∷ CtrlCmd.newfamily ∷ CtrlCmd.delfamily ∷ CtrlCmd.getfamily ∷ CtrlCmd.newops
      ∷ CtrlCmd.delops ∷ CtrlCmd.getops ∷ CtrlCmd.newmcast_grp ∷ CtrlCmd.delmcast_grp
      ∷ CtrlCmd.getmcast_grp ∷ []

  abbrev pub ctrl_cmd : ImplVar CtrlCmd
  ctrl_cmd = record {
    width = 1;
    variants = ctrl_cmd_variants;
    unrecognized_variant = CtrlCmd.unrecognized_variant;
    into = ctrl_cmd_into;
  }
