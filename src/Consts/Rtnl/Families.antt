-- ===== src/Consts/Rtnl/Families.antt =====
-- src/consts/rtnl.rs: address families and address flags.
use neli.Base.{ℕ, ◌%◌, ◌^◌, List, [], ◌∷◌}
use neli.Buffering.{Libc}
use neli.Consts.{ImplVar}

pub data Af : Type 0 where
  inet inet6 : Af
  unrecognized_variant : ℕ → Af

pub data RtAddrFamily : Type 0 where
  unspecified unix_or_local inet inet6 ipx netlink x25 ax25 atmpvc appletalk packet : RtAddrFamily
  alg : RtAddrFamily
  unrecognized_variant : ℕ → RtAddrFamily

pub data IfaF : Type 0 where
  secondary temporary nodad optimistic dadfailed homeaddress deprecated tentative : IfaF
  permanent managetempaddr noprefixroute mcautojoin stable_privacy : IfaF
  unrecognized_variant : ℕ → IfaF

module _ ⦃c : Libc⦄ where
  abbrev pub af_into : Af → ℕ
  af_into Af.inet = c.constant "AF_INET" % 2 ^ 8
  af_into Af.inet6 = c.constant "AF_INET6" % 2 ^ 8
  af_into (Af.unrecognized_variant i) = i

  abbrev pub af_variants : List Af
  af_variants = Af.inet ∷ Af.inet6 ∷ []

  abbrev pub af : ImplVar Af
  af = record {
    width = 1;
    variants = af_variants;
    unrecognized_variant = Af.unrecognized_variant;
    into = af_into;
  }

  abbrev pub rt_addr_family_into : RtAddrFamily → ℕ
  rt_addr_family_into RtAddrFamily.unspecified = c.constant "AF_UNSPEC" % 2 ^ 8
  rt_addr_family_into RtAddrFamily.unix_or_local = c.constant "AF_UNIX" % 2 ^ 8
  rt_addr_family_into RtAddrFamily.inet = c.constant "AF_INET" % 2 ^ 8
  rt_addr_family_into RtAddrFamily.inet6 = c.constant "AF_INET6" % 2 ^ 8
  rt_addr_family_into RtAddrFamily.ipx = c.constant "AF_IPX" % 2 ^ 8
  rt_addr_family_into RtAddrFamily.netlink = c.constant "AF_NETLINK" % 2 ^ 8
  rt_addr_family_into RtAddrFamily.x25 = c.constant "AF_X25" % 2 ^ 8
  rt_addr_family_into RtAddrFamily.ax25 = c.constant "AF_AX25" % 2 ^ 8
  rt_addr_family_into RtAddrFamily.atmpvc = c.constant "AF_ATMPVC" % 2 ^ 8
  rt_addr_family_into RtAddrFamily.appletalk = c.constant "AF_APPLETALK" % 2 ^ 8
  rt_addr_family_into RtAddrFamily.packet = c.constant "AF_PACKET" % 2 ^ 8
  rt_addr_family_into RtAddrFamily.alg = c.constant "AF_ALG" % 2 ^ 8
  rt_addr_family_into (RtAddrFamily.unrecognized_variant i) = i

  abbrev pub rt_addr_family_variants : List RtAddrFamily
  rt_addr_family_variants =
      RtAddrFamily.unspecified ∷ RtAddrFamily.unix_or_local ∷ RtAddrFamily.inet ∷ RtAddrFamily.inet6
      ∷ RtAddrFamily.ipx ∷ RtAddrFamily.netlink ∷ RtAddrFamily.x25 ∷ RtAddrFamily.ax25
      ∷ RtAddrFamily.atmpvc ∷ RtAddrFamily.appletalk ∷ RtAddrFamily.packet ∷ RtAddrFamily.alg ∷ []

  abbrev pub rt_addr_family : ImplVar RtAddrFamily
  rt_addr_family = record {
    width = 1;
    variants = rt_addr_family_variants;
    unrecognized_variant = RtAddrFamily.unrecognized_variant;
    into = rt_addr_family_into;
  }

  abbrev pub ifa_f_into : IfaF → ℕ
  ifa_f_into IfaF.secondary = c.constant "IFA_F_SECONDARY"
  ifa_f_into IfaF.temporary = c.constant "IFA_F_TEMPORARY"
  ifa_f_into IfaF.nodad = c.constant "IFA_F_NODAD"
  ifa_f_into IfaF.optimistic = c.constant "IFA_F_OPTIMISTIC"
  ifa_f_into IfaF.dadfailed = c.constant "IFA_F_DADFAILED"
  ifa_f_into IfaF.homeaddress = c.constant "IFA_F_HOMEADDRESS"
  ifa_f_into IfaF.deprecated = c.constant "IFA_F_DEPRECATED"
  ifa_f_into IfaF.tentative = c.constant "IFA_F_TENTATIVE"
  ifa_f_into IfaF.permanent = c.constant "IFA_F_PERMANENT"
  ifa_f_into IfaF.managetempaddr = c.constant "IFA_F_MANAGETEMPADDR"
  ifa_f_into IfaF.noprefixroute = c.constant "IFA_F_NOPREFIXROUTE"
  ifa_f_into IfaF.mcautojoin = c.constant "IFA_F_MCAUTOJOIN"
  ifa_f_into IfaF.stable_privacy = c.constant "IFA_F_STABLE_PRIVACY"
  ifa_f_into (IfaF.unrecognized_variant i) = i

  abbrev pub ifa_f_variants : List IfaF
  ifa_f_variants =
      IfaF.secondary ∷ IfaF.temporary ∷ IfaF.nodad ∷ IfaF.optimistic ∷ IfaF.dadfailed
      ∷ IfaF.homeaddress ∷ IfaF.deprecated ∷ IfaF.tentative ∷ IfaF.permanent ∷ IfaF.managetempaddr
      ∷ IfaF.noprefixroute ∷ IfaF.mcautojoin ∷ IfaF.stable_privacy ∷ []

  abbrev pub ifa_f : ImplVar IfaF
  ifa_f = record {
    width = 4;
    variants = ifa_f_variants;
    unrecognized_variant = IfaF.unrecognized_variant;
    into = ifa_f_into;
  }
