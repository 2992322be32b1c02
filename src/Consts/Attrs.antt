-- ===== src/Consts/Attrs.antt =====
-- src/consts/nlattr.rs: the attribute types of the generic netlink controller.
use neli.Base.{ℕ, ◌%◌, ◌^◌, List, [], ◌∷◌}
use neli.Buffering.{Libc}
use neli.Consts.{ImplVar}

pub data CtrlAttr : Type 0 where
  unspec family_id family_name version hdrsize maxattr ops mcast_groups : CtrlAttr
  unrecognized_variant : ℕ → CtrlAttr

pub data CtrlAttrMcastGrp : Type 0 where
  unspec name id : CtrlAttrMcastGrp
  unrecognized_variant : ℕ → CtrlAttrMcastGrp

module _ ⦃c : Libc⦄ where
  abbrev pub ctrl_attr_into : CtrlAttr → ℕ
  ctrl_attr_into CtrlAttr.unspec = c.constant "CTRL_ATTR_UNSPEC" % 2 ^ 16
  ctrl_attr_into CtrlAttr.family_id = c.constant "CTRL_ATTR_FAMILY_ID" % 2 ^ 16
  ctrl_attr_into CtrlAttr.family_name = c.constant "CTRL_ATTR_FAMILY_NAME" % 2 ^ 16
  ctrl_attr_into CtrlAttr.version = c.constant "CTRL_ATTR_VERSION" % 2 ^ 16
  ctrl_attr_into CtrlAttr.hdrsize = c.constant "CTRL_ATTR_HDRSIZE" % 2 ^ 16
  ctrl_attr_into CtrlAttr.maxattr = c.constant "CTRL_ATTR_MAXATTR" % 2 ^ 16
  ctrl_attr_into CtrlAttr.ops = c.constant "CTRL_ATTR_OPS" % 2 ^ 16
  ctrl_attr_into CtrlAttr.mcast_groups = c.constant "CTRL_ATTR_MCAST_GROUPS" % 2 ^ 16
  ctrl_attr_into (CtrlAttr.unrecognized_variant i) = i

  abbrev pub ctrl_attr_variants : List CtrlAttr
  ctrl_attr_variants =
      CtrlAttr.unspec ∷ CtrlAttr.family_id ∷ CtrlAttr.family_name ∷ CtrlAttr.version
      ∷ CtrlAttr.hdrsize ∷ CtrlAttr.maxattr ∷ CtrlAttr.ops ∷ CtrlAttr.mcast_groups ∷ []

  abbrev pub ctrl_attr : ImplVar CtrlAttr
  ctrl_attr = record {
    width = 2;
    variants = ctrl_attr_variants;
    unrecognized_variant = CtrlAttr.unrecognized_variant;
    into = ctrl_attr_into;
  }

  abbrev pub ctrl_attr_mcast_grp_into : CtrlAttrMcastGrp → ℕ
  ctrl_attr_mcast_grp_into CtrlAttrMcastGrp.unspec =
      c.constant "CTRL_ATTR_MCAST_GRP_UNSPEC" % 2 ^ 16
  ctrl_attr_mcast_grp_into CtrlAttrMcastGrp.name = c.constant "CTRL_ATTR_MCAST_GRP_NAME" % 2 ^ 16
  ctrl_attr_mcast_grp_into CtrlAttrMcastGrp.id = c.constant "CTRL_ATTR_MCAST_GRP_ID" % 2 ^ 16
  ctrl_attr_mcast_grp_into (CtrlAttrMcastGrp.unrecognized_variant i) = i

  abbrev pub ctrl_attr_mcast_grp_variants : List CtrlAttrMcastGrp
  ctrl_attr_mcast_grp_variants =
      CtrlAttrMcastGrp.unspec ∷ CtrlAttrMcastGrp.name ∷ CtrlAttrMcastGrp.id ∷ []

  abbrev pub ctrl_attr_mcast_grp : ImplVar CtrlAttrMcastGrp
  ctrl_attr_mcast_grp = record {
    width = 2;
    variants = ctrl_attr_mcast_grp_variants;
    unrecognized_variant = CtrlAttrMcastGrp.unrecognized_variant;
    into = ctrl_attr_mcast_grp_into;
  }
