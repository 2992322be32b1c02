-- ===== src/Consts/Rtnl/Links.antt =====
-- src/consts/rtnl.rs: link attributes.
use neli.Base.{ℕ, List, [], ◌∷◌}
use neli.Buffering.{Libc}
use neli.Consts.{ImplVar}

pub data Ifla : Type 0 where
  unspec address broadcast ifname mtu link qdisc stats cost priority master : Ifla
  wireless protinfo txqlen map weight operstate linkmode linkinfo net_ns_pid : Ifla
  ifalias num_vf vfinfo_list stats64 vf_ports port_self af_spec group net_ns_fd : Ifla
  ext_mask promiscuity num_tx_queues num_rx_queues carrier phys_port_id : Ifla
  carrier_changes phys_switch_id link_netnsid phys_port_name proto_down : Ifla
  unrecognized_variant : ℕ → Ifla

pub data IflaInfo : Type 0 where
  unspec kind data_ xstats slave_kind slave_data : IflaInfo
  unrecognized_variant : ℕ → IflaInfo

module _ ⦃c : Libc⦄ where
  abbrev pub ifla_into : Ifla → ℕ
  ifla_into Ifla.unspec = c.constant "IFLA_UNSPEC"
  ifla_into Ifla.address = c.constant "IFLA_ADDRESS"
  ifla_into Ifla.broadcast = c.constant "IFLA_BROADCAST"
  ifla_into Ifla.ifname = c.constant "IFLA_IFNAME"
  ifla_into Ifla.mtu = c.constant "IFLA_MTU"
  ifla_into Ifla.link = c.constant "IFLA_LINK"
  ifla_into Ifla.qdisc = c.constant "IFLA_QDISC"
  ifla_into Ifla.stats = c.constant "IFLA_STATS"
  ifla_into Ifla.cost = c.constant "IFLA_COST"
  ifla_into Ifla.priority = c.constant "IFLA_PRIORITY"
  ifla_into Ifla.master = c.constant "IFLA_MASTER"
  ifla_into Ifla.wireless = c.constant "IFLA_WIRELESS"
  ifla_into Ifla.protinfo = c.constant "IFLA_PROTINFO"
  ifla_into Ifla.txqlen = c.constant "IFLA_TXQLEN"
  ifla_into Ifla.map = c.constant "IFLA_MAP"
  ifla_into Ifla.weight = c.constant "IFLA_WEIGHT"
  ifla_into Ifla.operstate = c.constant "IFLA_OPERSTATE"
  ifla_into Ifla.linkmode = c.constant "IFLA_LINKMODE"
  ifla_into Ifla.linkinfo = c.constant "IFLA_LINKINFO"
  ifla_into Ifla.net_ns_pid = c.constant "IFLA_NET_NS_PID"
  ifla_into Ifla.ifalias = c.constant "IFLA_IFALIAS"
  ifla_into Ifla.num_vf = c.constant "IFLA_NUM_VF"
  ifla_into Ifla.vfinfo_list = c.constant "IFLA_VFINFO_LIST"
  ifla_into Ifla.stats64 = c.constant "IFLA_STATS64"
  ifla_into Ifla.vf_ports = c.constant "IFLA_VF_PORTS"
  ifla_into Ifla.port_self = c.constant "IFLA_PORT_SELF"
  ifla_into Ifla.af_spec = c.constant "IFLA_AF_SPEC"
  ifla_into Ifla.group = c.constant "IFLA_GROUP"
  ifla_into Ifla.net_ns_fd = c.constant "IFLA_NET_NS_FD"
  ifla_into Ifla.ext_mask = c.constant "IFLA_EXT_MASK"
  ifla_into Ifla.promiscuity = c.constant "IFLA_PROMISCUITY"
  ifla_into Ifla.num_tx_queues = c.constant "IFLA_NUM_TX_QUEUES"
  ifla_into Ifla.num_rx_queues = c.constant "IFLA_NUM_RX_QUEUES"
  ifla_into Ifla.carrier = c.constant "IFLA_CARRIER"
  ifla_into Ifla.phys_port_id = c.constant "IFLA_PHYS_PORT_ID"
  ifla_into Ifla.carrier_changes = c.constant "IFLA_CARRIER_CHANGES"
  ifla_into Ifla.phys_switch_id = c.constant "IFLA_PHYS_SWITCH_ID"
  ifla_into Ifla.link_netnsid = c.constant "IFLA_LINK_NETNSID"
  ifla_into Ifla.phys_port_name = c.constant "IFLA_PHYS_PORT_NAME"
  ifla_into Ifla.proto_down = c.constant "IFLA_PROTO_DOWN"
  ifla_into (Ifla.unrecognized_variant i) = i

  abbrev pub ifla_variants : List Ifla
  ifla_variants =
      Ifla.unspec ∷ Ifla.address ∷ Ifla.broadcast ∷ Ifla.ifname ∷ Ifla.mtu ∷ Ifla.link ∷ Ifla.qdisc
      ∷ Ifla.stats ∷ Ifla.cost ∷ Ifla.priority ∷ Ifla.master ∷ Ifla.wireless ∷ Ifla.protinfo
      ∷ Ifla.txqlen ∷ Ifla.map ∷ Ifla.weight ∷ Ifla.operstate ∷ Ifla.linkmode ∷ Ifla.linkinfo
      ∷ Ifla.net_ns_pid ∷ Ifla.ifalias ∷ Ifla.num_vf ∷ Ifla.vfinfo_list ∷ Ifla.stats64
      ∷ Ifla.vf_ports ∷ Ifla.port_self ∷ Ifla.af_spec ∷ Ifla.group ∷ Ifla.net_ns_fd ∷ Ifla.ext_mask
      ∷ Ifla.promiscuity ∷ Ifla.num_tx_queues ∷ Ifla.num_rx_queues ∷ Ifla.carrier
      ∷ Ifla.phys_port_id ∷ Ifla.carrier_changes ∷ Ifla.phys_switch_id ∷ Ifla.link_netnsid
      ∷ Ifla.phys_port_name ∷ Ifla.proto_down ∷ []

  abbrev pub ifla : ImplVar Ifla
  ifla = record {
    width = 2;
    variants = ifla_variants;
    unrecognized_variant = Ifla.unrecognized_variant;
    into = ifla_into;
  }

  abbrev pub ifla_info_into : IflaInfo → ℕ
  ifla_info_into IflaInfo.unspec = c.constant "IFLA_INFO_UNSPEC"
  ifla_info_into IflaInfo.kind = c.constant "IFLA_INFO_KIND"
  ifla_info_into IflaInfo.data_ = c.constant "IFLA_INFO_DATA"
  ifla_info_into IflaInfo.xstats = c.constant "IFLA_INFO_XSTATS"
  ifla_info_into IflaInfo.slave_kind = c.constant "IFLA_INFO_SLAVE_KIND"
  ifla_info_into IflaInfo.slave_data = c.constant "IFLA_INFO_SLAVE_DATA"
  ifla_info_into (IflaInfo.unrecognized_variant i) = i

  abbrev pub ifla_info_variants : List IflaInfo
  ifla_info_variants =
      IflaInfo.unspec ∷ IflaInfo.kind ∷ IflaInfo.data_ ∷ IflaInfo.xstats ∷ IflaInfo.slave_kind
      ∷ IflaInfo.slave_data ∷ []

  abbrev pub ifla_info : ImplVar IflaInfo
  ifla_info = record {
    width = 2;
    variants = ifla_info_variants;
    unrecognized_variant = IflaInfo.unrecognized_variant;
    into = ifla_info_into;
  }
