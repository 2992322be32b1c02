-- ===== src/Consts/Rtnl/Attrs.antt =====
-- src/consts/rtnl.rs: address, route and queueing attributes.
use neli.Base.{ℕ, List, [], ◌∷◌}
use neli.Buffering.{Libc}
use neli.Consts.{ImplVar}

pub data Ifa : Type 0 where
  unspec address local label broadcast anycast cacheinfo multicast flags : Ifa
  unrecognized_variant : ℕ → Ifa

pub data Rta : Type 0 where
  unspec dst src iif oif gateway priority prefsrc metrics multipath protoinfo flow : Rta
  cacheinfo session mp_algo table mark mfc_stats via newdst pref encap_type encap : Rta
  expires pad uid ttl_propagate : Rta
  unrecognized_variant : ℕ → Rta

pub data Tca : Type 0 where
  unspec kind options stats xstats rate fcnt stats2 stab : Tca
  unrecognized_variant : ℕ → Tca

module _ ⦃c : Libc⦄ where
  abbrev pub ifa_into : Ifa → ℕ
  ifa_into Ifa.unspec = c.constant "IFA_UNSPEC"
  ifa_into Ifa.address = c.constant "IFA_ADDRESS"
  ifa_into Ifa.local = c.constant "IFA_LOCAL"
  ifa_into Ifa.label = c.constant "IFA_LABEL"
  ifa_into Ifa.broadcast = c.constant "IFA_BROADCAST"
  ifa_into Ifa.anycast = c.constant "IFA_ANYCAST"
  ifa_into Ifa.cacheinfo = c.constant "IFA_CACHEINFO"
  ifa_into Ifa.multicast = c.constant "IFA_MULTICAST"
  ifa_into Ifa.flags = c.constant "IFA_FLAGS"
  ifa_into (Ifa.unrecognized_variant i) = i

  abbrev pub ifa_variants : List Ifa
  ifa_variants =
      Ifa.unspec ∷ Ifa.address ∷ Ifa.local ∷ Ifa.label ∷ Ifa.broadcast ∷ Ifa.anycast ∷ Ifa.cacheinfo
      ∷ Ifa.multicast ∷ Ifa.flags ∷ []

  abbrev pub ifa : ImplVar Ifa
  ifa = record {
    width = 2;
    variants = ifa_variants;
    unrecognized_variant = Ifa.unrecognized_variant;
    into = ifa_into;
  }

  abbrev pub rta_into : Rta → ℕ
  rta_into Rta.unspec = c.constant "RTA_UNSPEC"
  rta_into Rta.dst = c.constant "RTA_DST"
  rta_into Rta.src = c.constant "RTA_SRC"
  rta_into Rta.iif = c.constant "RTA_IIF"
  rta_into Rta.oif = c.constant "RTA_OIF"
  rta_into Rta.gateway = c.constant "RTA_GATEWAY"
  rta_into Rta.priority = c.constant "RTA_PRIORITY"
  rta_into Rta.prefsrc = c.constant "RTA_PREFSRC"
  rta_into Rta.metrics = c.constant "RTA_METRICS"
  rta_into Rta.multipath = c.constant "RTA_MULTIPATH"
  rta_into Rta.protoinfo = c.constant "RTA_PROTOINFO"
  rta_into Rta.flow = c.constant "RTA_FLOW"
  rta_into Rta.cacheinfo = c.constant "RTA_CACHEINFO"
  rta_into Rta.session = c.constant "RTA_SESSION"
  rta_into Rta.mp_algo = c.constant "RTA_MP_ALGO"
  rta_into Rta.table = c.constant "RTA_TABLE"
  rta_into Rta.mark = c.constant "RTA_MARK"
  rta_into Rta.mfc_stats = c.constant "RTA_MFC_STATS"
  rta_into Rta.via = c.constant "RTA_VIA"
  rta_into Rta.newdst = c.constant "RTA_NEWDST"
  rta_into Rta.pref = c.constant "RTA_PREF"
  rta_into Rta.encap_type = c.constant "RTA_ENCAP_TYPE"
  rta_into Rta.encap = c.constant "RTA_ENCAP"
  rta_into Rta.expires = c.constant "RTA_EXPIRES"
  rta_into Rta.pad = c.constant "RTA_PAD"
  rta_into Rta.uid = c.constant "RTA_UID"
  rta_into Rta.ttl_propagate = c.constant "RTA_TTL_PROPAGATE"
  rta_into (Rta.unrecognized_variant i) = i

  abbrev pub rta_variants : List Rta
  rta_variants =
      Rta.unspec ∷ Rta.dst ∷ Rta.src ∷ Rta.iif ∷ Rta.oif ∷ Rta.gateway ∷ Rta.priority ∷ Rta.prefsrc
      ∷ Rta.metrics ∷ Rta.multipath ∷ Rta.protoinfo ∷ Rta.flow ∷ Rta.cacheinfo ∷ Rta.session
      ∷ Rta.mp_algo ∷ Rta.table ∷ Rta.mark ∷ Rta.mfc_stats ∷ Rta.via ∷ Rta.newdst ∷ Rta.pref
      ∷ Rta.encap_type ∷ Rta.encap ∷ Rta.expires ∷ Rta.pad ∷ Rta.uid ∷ Rta.ttl_propagate ∷ []

  abbrev pub rta : ImplVar Rta
  rta = record {
    width = 2;
    variants = rta_variants;
    unrecognized_variant = Rta.unrecognized_variant;
    into = rta_into;
  }

  abbrev pub tca_into : Tca → ℕ
  tca_into Tca.unspec = c.constant "TCA_UNSPEC"
  tca_into Tca.kind = c.constant "TCA_KIND"
  tca_into Tca.options = c.constant "TCA_OPTIONS"
  tca_into Tca.stats = c.constant "TCA_STATS"
  tca_into Tca.xstats = c.constant "TCA_XSTATS"
  tca_into Tca.rate = c.constant "TCA_RATE"
  tca_into Tca.fcnt = c.constant "TCA_FCNT"
  tca_into Tca.stats2 = c.constant "TCA_STATS2"
  tca_into Tca.stab = c.constant "TCA_STAB"
  tca_into (Tca.unrecognized_variant i) = i

  abbrev pub tca_variants : List Tca
  tca_variants =
      Tca.unspec ∷ Tca.kind ∷ Tca.options ∷ Tca.stats ∷ Tca.xstats ∷ Tca.rate ∷ Tca.fcnt
      ∷ Tca.stats2 ∷ Tca.stab ∷ []

  abbrev pub tca : ImplVar Tca
  tca = record {
    width = 2;
    variants = tca_variants;
    unrecognized_variant = Tca.unrecognized_variant;
    into = tca_into;
  }
