-- ===== src/Consts/Netfilter.antt =====
-- src/consts/netfilter.rs: message and attribute types of NFLOG.
use neli.Base.{ℕ, ◌%◌, ◌*◌, bit_or, ◌^◌, List, [], ◌∷◌}
use neli.Buffering.{Libc}
use neli.Consts.{ImplVar}

pub data NfLogAttr : Type 0 where
  packet_hdr mark timestamp ifindex_indev ifindex_outdev ifindex_phyindev : NfLogAttr
  ifindex_phyoutdev hwaddr payload prefix uid seq seq_global gid hwtype hwheader : NfLogAttr
  hwlen ct ct_info : NfLogAttr
  unrecognized_variant : ℕ → NfLogAttr

pub data NfLogCfg : Type 0 where
  cmd mode nl_buf_size timeout q_thresh flags : NfLogCfg
  unrecognized_variant : ℕ → NfLogCfg

pub data NetfilterMsg : Type 0 where
  log_packet log_config : NetfilterMsg
  unrecognized_variant : ℕ → NetfilterMsg

pub data LogCmd : Type 0 where
  bind unbind pf_bind pf_unbind : LogCmd
  unrecognized_variant : ℕ → LogCmd

pub data LogCopyMode : Type 0 where
  none meta packet : LogCopyMode
  unrecognized_variant : ℕ → LogCopyMode

-- `((subsys as u16) << 8) | (msg as u16)`
abbrev pub nfnl_msg_type : ℕ → ℕ → ℕ
nfnl_msg_type subsys msg = bit_or (subsys * 2 ^ 8) msg

module _ ⦃c : Libc⦄ where
  abbrev pub nf_log_attr_into : NfLogAttr → ℕ
  nf_log_attr_into NfLogAttr.packet_hdr = c.constant "NFULA_PACKET_HDR" % 2 ^ 16
  nf_log_attr_into NfLogAttr.mark = c.constant "NFULA_MARK" % 2 ^ 16
  nf_log_attr_into NfLogAttr.timestamp = c.constant "NFULA_TIMESTAMP" % 2 ^ 16
  nf_log_attr_into NfLogAttr.ifindex_indev = c.constant "NFULA_IFINDEX_INDEV" % 2 ^ 16
  nf_log_attr_into NfLogAttr.ifindex_outdev = c.constant "NFULA_IFINDEX_OUTDEV" % 2 ^ 16
  nf_log_attr_into NfLogAttr.ifindex_phyindev = c.constant "NFULA_IFINDEX_PHYSINDEV" % 2 ^ 16
  nf_log_attr_into NfLogAttr.ifindex_phyoutdev = c.constant "NFULA_IFINDEX_PHYSOUTDEV" % 2 ^ 16
  nf_log_attr_into NfLogAttr.hwaddr = c.constant "NFULA_HWADDR" % 2 ^ 16
  nf_log_attr_into NfLogAttr.payload = c.constant "NFULA_PAYLOAD" % 2 ^ 16
  nf_log_attr_into NfLogAttr.prefix = c.constant "NFULA_PREFIX" % 2 ^ 16
  nf_log_attr_into NfLogAttr.uid = c.constant "NFULA_UID" % 2 ^ 16
  nf_log_attr_into NfLogAttr.seq = c.constant "NFULA_SEQ" % 2 ^ 16
  nf_log_attr_into NfLogAttr.seq_global = c.constant "NFULA_SEQ_GLOBAL" % 2 ^ 16
  nf_log_attr_into NfLogAttr.gid = c.constant "NFULA_GID" % 2 ^ 16
  nf_log_attr_into NfLogAttr.hwtype = c.constant "NFULA_HWTYPE" % 2 ^ 16
  nf_log_attr_into NfLogAttr.hwheader = c.constant "NFULA_HWHEADER" % 2 ^ 16
  nf_log_attr_into NfLogAttr.hwlen = c.constant "NFULA_HWLEN" % 2 ^ 16
  nf_log_attr_into NfLogAttr.ct = c.constant "NFULA_CT" % 2 ^ 16
  nf_log_attr_into NfLogAttr.ct_info = c.constant "NFULA_CT_INFO" % 2 ^ 16
  nf_log_attr_into (NfLogAttr.unrecognized_variant i) = i

  abbrev pub nf_log_attr_variants : List NfLogAttr
  nf_log_attr_variants =
      NfLogAttr.packet_hdr ∷ NfLogAttr.mark ∷ NfLogAttr.timestamp ∷ NfLogAttr.ifindex_indev
      ∷ NfLogAttr.ifindex_outdev ∷ NfLogAttr.ifindex_phyindev ∷ NfLogAttr.ifindex_phyoutdev
      ∷ NfLogAttr.hwaddr ∷ NfLogAttr.payload ∷ NfLogAttr.prefix ∷ NfLogAttr.uid ∷ NfLogAttr.seq
      ∷ NfLogAttr.seq_global ∷ NfLogAttr.gid ∷ NfLogAttr.hwtype ∷ NfLogAttr.hwheader
      ∷ NfLogAttr.hwlen ∷ NfLogAttr.ct ∷ NfLogAttr.ct_info ∷ []

  abbrev pub nf_log_attr : ImplVar NfLogAttr
  nf_log_attr = record {
    width = 2;
    variants = nf_log_attr_variants;
    unrecognized_variant = NfLogAttr.unrecognized_variant;
    into = nf_log_attr_into;
  }

  abbrev pub nf_log_cfg_into : NfLogCfg → ℕ
  nf_log_cfg_into NfLogCfg.cmd = c.constant "NFULA_CFG_CMD" % 2 ^ 16
  nf_log_cfg_into NfLogCfg.mode = c.constant "NFULA_CFG_MODE" % 2 ^ 16
  nf_log_cfg_into NfLogCfg.nl_buf_size = c.constant "NFULA_CFG_NLBUFSIZ" % 2 ^ 16
  nf_log_cfg_into NfLogCfg.timeout = c.constant "NFULA_CFG_TIMEOUT" % 2 ^ 16
  nf_log_cfg_into NfLogCfg.q_thresh = c.constant "NFULA_CFG_QTHRESH" % 2 ^ 16
  nf_log_cfg_into NfLogCfg.flags = c.constant "NFULA_CFG_FLAGS" % 2 ^ 16
  nf_log_cfg_into (NfLogCfg.unrecognized_variant i) = i

  abbrev pub nf_log_cfg_variants : List NfLogCfg
  nf_log_cfg_variants =
      NfLogCfg.cmd ∷ NfLogCfg.mode ∷ NfLogCfg.nl_buf_size ∷ NfLogCfg.timeout ∷ NfLogCfg.q_thresh
      ∷ NfLogCfg.flags ∷ []

  abbrev pub nf_log_cfg : ImplVar NfLogCfg
  nf_log_cfg = record {
    width = 2;
    variants = nf_log_cfg_variants;
    unrecognized_variant = NfLogCfg.unrecognized_variant;
    into = nf_log_cfg_into;
  }

  abbrev pub netfilter_msg_into : NetfilterMsg → ℕ
  netfilter_msg_into NetfilterMsg.log_packet =
      nfnl_msg_type (c.constant "NFNL_SUBSYS_ULOG" % 2 ^ 8) (c.constant "NFULNL_MSG_PACKET" % 2 ^ 8)
  netfilter_msg_into NetfilterMsg.log_config =
      nfnl_msg_type (c.constant "NFNL_SUBSYS_ULOG" % 2 ^ 8) (c.constant "NFULNL_MSG_CONFIG" % 2 ^ 8)
  netfilter_msg_into (NetfilterMsg.unrecognized_variant i) = i

  abbrev pub netfilter_msg_variants : List NetfilterMsg
  netfilter_msg_variants = NetfilterMsg.log_packet ∷ NetfilterMsg.log_config ∷ []

  abbrev pub netfilter_msg : ImplVar NetfilterMsg
  netfilter_msg = record {
    width = 2;
    variants = netfilter_msg_variants;
    unrecognized_variant = NetfilterMsg.unrecognized_variant;
    into = netfilter_msg_into;
  }

  abbrev pub log_cmd_into : LogCmd → ℕ
  log_cmd_into LogCmd.bind = c.constant "NFULNL_CFG_CMD_BIND" % 2 ^ 8
  log_cmd_into LogCmd.unbind = c.constant "NFULNL_CFG_CMD_UNBIND" % 2 ^ 8
  log_cmd_into LogCmd.pf_bind = c.constant "NFULNL_CFG_CMD_PF_BIND" % 2 ^ 8
  log_cmd_into LogCmd.pf_unbind = c.constant "NFULNL_CFG_CMD_PF_UNBIND" % 2 ^ 8
  log_cmd_into (LogCmd.unrecognized_variant i) = i

  abbrev pub log_cmd_variants : List LogCmd
  log_cmd_variants = LogCmd.bind ∷ LogCmd.unbind ∷ LogCmd.pf_bind ∷ LogCmd.pf_unbind ∷ []

  abbrev pub log_cmd : ImplVar LogCmd
  log_cmd = record {
    width = 1;
    variants = log_cmd_variants;
    unrecognized_variant = LogCmd.unrecognized_variant;
    into = log_cmd_into;
  }

  abbrev pub log_copy_mode_into : LogCopyMode → ℕ
  log_copy_mode_into LogCopyMode.none = c.constant "NFULNL_COPY_NONE" % 2 ^ 8
  log_copy_mode_into LogCopyMode.meta = c.constant "NFULNL_COPY_META" % 2 ^ 8
  log_copy_mode_into LogCopyMode.packet = c.constant "NFULNL_COPY_PACKET" % 2 ^ 8
  log_copy_mode_into (LogCopyMode.unrecognized_variant i) = i

  abbrev pub log_copy_mode_variants : List LogCopyMode
  log_copy_mode_variants = LogCopyMode.none ∷ LogCopyMode.meta ∷ LogCopyMode.packet ∷ []

  abbrev pub log_copy_mode : ImplVar LogCopyMode
  log_copy_mode = record {
    width = 1;
    variants = log_copy_mode_variants;
    unrecognized_variant = LogCopyMode.unrecognized_variant;
    into = log_copy_mode_into;
  }
