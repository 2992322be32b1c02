-- ===== src/Consts/Socket.antt =====
-- src/consts/socket.rs: address and netlink families.
use neli.Base.{ℕ, List, [], ◌∷◌}
use neli.Buffering.{Libc}
use neli.Consts.{ImplVar}

pub data AddrFamily : Type 0 where
  unix_or_local inet inet6 ipx netlink x25 ax25 atmpvc appletalk packet alg : AddrFamily
  unrecognized_variant : ℕ → AddrFamily

pub data NlFamily : Type 0 where
  route unused usersock firewall sock_or_inet_diag nflog xfrm selinux iscsi audit : NlFamily
  fib_lookup connector netfilter ip6_fw dnrtmsg kobject_uevent generic : NlFamily
  scsitransport ecryptfs rdma crypto : NlFamily
  unrecognized_variant : ℕ → NlFamily

module _ ⦃c : Libc⦄ where
  abbrev pub addr_family_into : AddrFamily → ℕ
  addr_family_into AddrFamily.unix_or_local = c.constant "AF_UNIX"
  addr_family_into AddrFamily.inet = c.constant "AF_INET"
  addr_family_into AddrFamily.inet6 = c.constant "AF_INET6"
  addr_family_into AddrFamily.ipx = c.constant "AF_IPX"
  addr_family_into AddrFamily.netlink = c.constant "AF_NETLINK"
  addr_family_into AddrFamily.x25 = c.constant "AF_X25"
  addr_family_into AddrFamily.ax25 = c.constant "AF_AX25"
  addr_family_into AddrFamily.atmpvc = c.constant "AF_ATMPVC"
  addr_family_into AddrFamily.appletalk = c.constant "AF_APPLETALK"
  addr_family_into AddrFamily.packet = c.constant "AF_PACKET"
  addr_family_into AddrFamily.alg = c.constant "AF_ALG"
  addr_family_into (AddrFamily.unrecognized_variant i) = i

  abbrev pub addr_family_variants : List AddrFamily
  addr_family_variants =
      AddrFamily.unix_or_local ∷ AddrFamily.inet ∷ AddrFamily.inet6 ∷ AddrFamily.ipx
      ∷ AddrFamily.netlink ∷ AddrFamily.x25 ∷ AddrFamily.ax25 ∷ AddrFamily.atmpvc
      ∷ AddrFamily.appletalk ∷ AddrFamily.packet ∷ AddrFamily.alg ∷ []

  abbrev pub addr_family : ImplVar AddrFamily
  addr_family = record {
    width = 4;
    variants = addr_family_variants;
    unrecognized_variant = AddrFamily.unrecognized_variant;
    into = addr_family_into;
  }

  abbrev pub nl_family_into : NlFamily → ℕ
  nl_family_into NlFamily.route = c.constant "NETLINK_ROUTE"
  nl_family_into NlFamily.unused = c.constant "NETLINK_UNUSED"
  nl_family_into NlFamily.usersock = c.constant "NETLINK_USERSOCK"
  nl_family_into NlFamily.firewall = c.constant "NETLINK_FIREWALL"
  nl_family_into NlFamily.sock_or_inet_diag = c.constant "NETLINK_SOCK_DIAG"
  nl_family_into NlFamily.nflog = c.constant "NETLINK_NFLOG"
  nl_family_into NlFamily.xfrm = c.constant "NETLINK_XFRM"
  nl_family_into NlFamily.selinux = c.constant "NETLINK_SELINUX"
  nl_family_into NlFamily.iscsi = c.constant "NETLINK_ISCSI"
  nl_family_into NlFamily.audit = c.constant "NETLINK_AUDIT"
  nl_family_into NlFamily.fib_lookup = c.constant "NETLINK_FIB_LOOKUP"
  nl_family_into NlFamily.connector = c.constant "NETLINK_CONNECTOR"
  nl_family_into NlFamily.netfilter = c.constant "NETLINK_NETFILTER"
  nl_family_into NlFamily.ip6_fw = c.constant "NETLINK_IP6_FW"
  nl_family_into NlFamily.dnrtmsg = c.constant "NETLINK_DNRTMSG"
  nl_family_into NlFamily.kobject_uevent = c.constant "NETLINK_KOBJECT_UEVENT"
  nl_family_into NlFamily.generic = c.constant "NETLINK_GENERIC"
  nl_family_into NlFamily.scsitransport = c.constant "NETLINK_SCSITRANSPORT"
  nl_family_into NlFamily.ecryptfs = c.constant "NETLINK_ECRYPTFS"
  nl_family_into NlFamily.rdma = c.constant "NETLINK_RDMA"
  nl_family_into NlFamily.crypto = c.constant "NETLINK_CRYPTO"
  nl_family_into (NlFamily.unrecognized_variant i) = i

  abbrev pub nl_family_variants : List NlFamily
  nl_family_variants =
      NlFamily.route ∷ NlFamily.unused ∷ NlFamily.usersock ∷ NlFamily.firewall
      ∷ NlFamily.sock_or_inet_diag ∷ NlFamily.nflog ∷ NlFamily.xfrm ∷ NlFamily.selinux
      ∷ NlFamily.iscsi ∷ NlFamily.audit ∷ NlFamily.fib_lookup ∷ NlFamily.connector
      ∷ NlFamily.netfilter ∷ NlFamily.ip6_fw ∷ NlFamily.dnrtmsg ∷ NlFamily.kobject_uevent
      ∷ NlFamily.generic ∷ NlFamily.scsitransport ∷ NlFamily.ecryptfs ∷ NlFamily.rdma
      ∷ NlFamily.crypto ∷ []

  abbrev pub nl_family : ImplVar NlFamily
  nl_family = record {
    width = 4;
    variants = nl_family_variants;
    unrecognized_variant = NlFamily.unrecognized_variant;
    into = nl_family_into;
  }
