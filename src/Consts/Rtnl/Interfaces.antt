-- ===== src/Consts/Rtnl/Interfaces.antt =====
-- src/consts/rtnl.rs: interface types and flags.
use neli.Base.{ℕ, ◌%◌, ◌^◌, List, [], ◌∷◌}
use neli.Buffering.{Libc}
use neli.Consts.{ImplVar}

pub data Arphrd : Type 0 where
  netrom ether eether ax25 pronet chaos ieee802 arcnet appletlk dlci atm metricom : Arphrd
  ieee1394 eui64 infiniband void none : Arphrd
  unrecognized_variant : ℕ → Arphrd

pub data Iff : Type 0 where
  up broadcast debug loopback pointopoint running noarp promisc notrailers allmulti : Iff
  master slave multicast portsel automedia dynamic lower_up dormant echo : Iff
  unrecognized_variant : ℕ → Iff

module _ ⦃c : Libc⦄ where
  abbrev pub arphrd_into : Arphrd → ℕ
  arphrd_into Arphrd.netrom = c.constant "ARPHRD_NETROM"
  arphrd_into Arphrd.ether = c.constant "ARPHRD_ETHER"
  arphrd_into Arphrd.eether = c.constant "ARPHRD_EETHER"
  arphrd_into Arphrd.ax25 = c.constant "ARPHRD_AX25"
  arphrd_into Arphrd.pronet = c.constant "ARPHRD_PRONET"
  arphrd_into Arphrd.chaos = c.constant "ARPHRD_CHAOS"
  arphrd_into Arphrd.ieee802 = c.constant "ARPHRD_IEEE802"
  arphrd_into Arphrd.arcnet = c.constant "ARPHRD_ARCNET"
  arphrd_into Arphrd.appletlk = c.constant "ARPHRD_APPLETLK"
  arphrd_into Arphrd.dlci = c.constant "ARPHRD_DLCI"
  arphrd_into Arphrd.atm = c.constant "ARPHRD_APPLETLK"
  arphrd_into Arphrd.metricom = c.constant "ARPHRD_METRICOM"
  arphrd_into Arphrd.ieee1394 = c.constant "ARPHRD_IEEE1394"
  arphrd_into Arphrd.eui64 = c.constant "ARPHRD_EUI64"
  arphrd_into Arphrd.infiniband = c.constant "ARPHRD_INFINIBAND"
  arphrd_into Arphrd.void = c.constant "ARPHRD_VOID"
  arphrd_into Arphrd.none = c.constant "ARPHRD_NONE"
  arphrd_into (Arphrd.unrecognized_variant i) = i

  abbrev pub arphrd_variants : List Arphrd
  arphrd_variants =
      Arphrd.netrom ∷ Arphrd.ether ∷ Arphrd.eether ∷ Arphrd.ax25 ∷ Arphrd.pronet ∷ Arphrd.chaos
      ∷ Arphrd.ieee802 ∷ Arphrd.arcnet ∷ Arphrd.appletlk ∷ Arphrd.dlci ∷ Arphrd.atm
      ∷ Arphrd.metricom ∷ Arphrd.ieee1394 ∷ Arphrd.eui64 ∷ Arphrd.infiniband ∷ Arphrd.void
      ∷ Arphrd.none ∷ []

  abbrev pub arphrd : ImplVar Arphrd
  arphrd = record {
    width = 2;
    variants = arphrd_variants;
    unrecognized_variant = Arphrd.unrecognized_variant;
    into = arphrd_into;
  }

  abbrev pub iff_into : Iff → ℕ
  iff_into Iff.up = c.constant "IFF_UP" % 2 ^ 32
  iff_into Iff.broadcast = c.constant "IFF_BROADCAST" % 2 ^ 32
  iff_into Iff.debug = c.constant "IFF_DEBUG" % 2 ^ 32
  iff_into Iff.loopback = c.constant "IFF_LOOPBACK" % 2 ^ 32
  iff_into Iff.pointopoint = c.constant "IFF_POINTOPOINT" % 2 ^ 32
  iff_into Iff.running = c.constant "IFF_RUNNING" % 2 ^ 32
  iff_into Iff.noarp = c.constant "IFF_NOARP" % 2 ^ 32
  iff_into Iff.promisc = c.constant "IFF_PROMISC" % 2 ^ 32
  iff_into Iff.notrailers = c.constant "IFF_NOTRAILERS" % 2 ^ 32
  iff_into Iff.allmulti = c.constant "IFF_ALLMULTI" % 2 ^ 32
  iff_into Iff.master = c.constant "IFF_MASTER" % 2 ^ 32
  iff_into Iff.slave = c.constant "IFF_SLAVE" % 2 ^ 32
  iff_into Iff.multicast = c.constant "IFF_MULTICAST" % 2 ^ 32
  iff_into Iff.portsel = c.constant "IFF_PORTSEL" % 2 ^ 32
  iff_into Iff.automedia = c.constant "IFF_AUTOMEDIA" % 2 ^ 32
  iff_into Iff.dynamic = c.constant "IFF_DYNAMIC" % 2 ^ 32
  iff_into Iff.lower_up = c.constant "IFF_LOWER_UP" % 2 ^ 32
  iff_into Iff.dormant = c.constant "IFF_DORMANT" % 2 ^ 32
  iff_into Iff.echo = c.constant "IFF_ECHO" % 2 ^ 32
  iff_into (Iff.unrecognized_variant i) = i

  abbrev pub iff_variants : List Iff
  iff_variants =
      Iff.up ∷ Iff.broadcast ∷ Iff.debug ∷ Iff.loopback ∷ Iff.pointopoint ∷ Iff.running ∷ Iff.noarp
      ∷ Iff.promisc ∷ Iff.notrailers ∷ Iff.allmulti ∷ Iff.master ∷ Iff.slave ∷ Iff.multicast
      ∷ Iff.portsel ∷ Iff.automedia ∷ Iff.dynamic ∷ Iff.lower_up ∷ Iff.dormant ∷ Iff.echo ∷ []

  abbrev pub iff : ImplVar Iff
  iff = record {
    width = 4;
    variants = iff_variants;
    unrecognized_variant = Iff.unrecognized_variant;
    into = iff_into;
  }
