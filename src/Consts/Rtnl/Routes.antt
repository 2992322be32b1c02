-- ===== src/Consts/Rtnl/Routes.antt =====
-- src/consts/rtnl.rs: the fields of a route message.
use neli.Base.{ℕ, List, [], ◌∷◌}
use neli.Buffering.{Libc}
use neli.Consts.{ImplVar}

pub data Rtn : Type 0 where
  unspec unicast local broadcast anycast multicast blackhole unreachable prohibit : Rtn
  throw nat xresolve : Rtn
  unrecognized_variant : ℕ → Rtn

pub data Rtprot : Type 0 where
  unspec redirect kernel boot static : Rtprot
  unrecognized_variant : ℕ → Rtprot

pub data RtScope : Type 0 where
  universe site link host nowhere : RtScope
  unrecognized_variant : ℕ → RtScope

pub data RtTable : Type 0 where
  unspec compat default main local : RtTable
  unrecognized_variant : ℕ → RtTable

pub data RtmF : Type 0 where
  notify cloned equalize prefix lookup_table fib_match : RtmF
  unrecognized_variant : ℕ → RtmF

module _ ⦃c : Libc⦄ where
  abbrev pub rtn_into : Rtn → ℕ
  rtn_into Rtn.unspec = c.constant "RTN_UNSPEC"
  rtn_into Rtn.unicast = c.constant "RTN_UNICAST"
  rtn_into Rtn.local = c.constant "RTN_LOCAL"
  rtn_into Rtn.broadcast = c.constant "RTN_BROADCAST"
  rtn_into Rtn.anycast = c.constant "RTN_ANYCAST"
  rtn_into Rtn.multicast = c.constant "RTN_MULTICAST"
  rtn_into Rtn.blackhole = c.constant "RTN_BLACKHOLE"
  rtn_into Rtn.unreachable = c.constant "RTN_UNREACHABLE"
  rtn_into Rtn.prohibit = c.constant "RTN_PROHIBIT"
  rtn_into Rtn.throw = c.constant "RTN_THROW"
  rtn_into Rtn.nat = c.constant "RTN_NAT"
  rtn_into Rtn.xresolve = c.constant "RTN_XRESOLVE"
  rtn_into (Rtn.unrecognized_variant i) = i

  abbrev pub rtn_variants : List Rtn
  rtn_variants =
      Rtn.unspec ∷ Rtn.unicast ∷ Rtn.local ∷ Rtn.broadcast ∷ Rtn.anycast ∷ Rtn.multicast
      ∷ Rtn.blackhole ∷ Rtn.unreachable ∷ Rtn.prohibit ∷ Rtn.throw ∷ Rtn.nat ∷ Rtn.xresolve ∷ []

  abbrev pub rtn : ImplVar Rtn
  rtn = record {
    width = 1;
    variants = rtn_variants;
    unrecognized_variant = Rtn.unrecognized_variant;
    into = rtn_into;
  }

  abbrev pub rtprot_into : Rtprot → ℕ
  rtprot_into Rtprot.unspec = c.constant "RTPROT_UNSPEC"
  rtprot_into Rtprot.redirect = c.constant "RTPROT_REDIRECT"
  rtprot_into Rtprot.kernel = c.constant "RTPROT_KERNEL"
  rtprot_into Rtprot.boot = c.constant "RTPROT_BOOT"
  rtprot_into Rtprot.static = c.constant "RTPROT_STATIC"
  rtprot_into (Rtprot.unrecognized_variant i) = i

  abbrev pub rtprot_variants : List Rtprot
  rtprot_variants =
      Rtprot.unspec ∷ Rtprot.redirect ∷ Rtprot.kernel ∷ Rtprot.boot ∷ Rtprot.static ∷ []

  abbrev pub rtprot : ImplVar Rtprot
  rtprot = record {
    width = 1;
    variants = rtprot_variants;
    unrecognized_variant = Rtprot.unrecognized_variant;
    into = rtprot_into;
  }

  abbrev pub rt_scope_into : RtScope → ℕ
  rt_scope_into RtScope.universe = c.constant "RT_SCOPE_UNIVERSE"
  rt_scope_into RtScope.site = c.constant "RT_SCOPE_SITE"
  rt_scope_into RtScope.link = c.constant "RT_SCOPE_LINK"
  rt_scope_into RtScope.host = c.constant "RT_SCOPE_HOST"
  rt_scope_into RtScope.nowhere = c.constant "RT_SCOPE_NOWHERE"
  rt_scope_into (RtScope.unrecognized_variant i) = i

  abbrev pub rt_scope_variants : List RtScope
  rt_scope_variants =
      RtScope.universe ∷ RtScope.site ∷ RtScope.link ∷ RtScope.host ∷ RtScope.nowhere ∷ []

  abbrev pub rt_scope : ImplVar RtScope
  rt_scope = record {
    width = 1;
    variants = rt_scope_variants;
    unrecognized_variant = RtScope.unrecognized_variant;
    into = rt_scope_into;
  }

  abbrev pub rt_table_into : RtTable → ℕ
  rt_table_into RtTable.unspec = c.constant "RT_TABLE_UNSPEC"
  rt_table_into RtTable.compat = c.constant "RT_TABLE_COMPAT"
  rt_table_into RtTable.default = c.constant "RT_TABLE_DEFAULT"
  rt_table_into RtTable.main = c.constant "RT_TABLE_MAIN"
  rt_table_into RtTable.local = c.constant "RT_TABLE_LOCAL"
  rt_table_into (RtTable.unrecognized_variant i) = i

  abbrev pub rt_table_variants : List RtTable
  rt_table_variants =
      RtTable.unspec ∷ RtTable.compat ∷ RtTable.default ∷ RtTable.main ∷ RtTable.local ∷ []

  abbrev pub rt_table : ImplVar RtTable
  rt_table = record {
    width = 1;
    variants = rt_table_variants;
    unrecognized_variant = RtTable.unrecognized_variant;
    into = rt_table_into;
  }

  abbrev pub rtm_f_into : RtmF → ℕ
  rtm_f_into RtmF.notify = c.constant "RTM_F_NOTIFY"
  rtm_f_into RtmF.cloned = c.constant "RTM_F_CLONED"
  rtm_f_into RtmF.equalize = c.constant "RTM_F_EQUALIZE"
  rtm_f_into RtmF.prefix = c.constant "RTM_F_PREFIX"
  rtm_f_into RtmF.lookup_table = c.constant "RTM_F_LOOKUP_TABLE"
  rtm_f_into RtmF.fib_match = c.constant "RTM_F_FIB_MATCH"
  rtm_f_into (RtmF.unrecognized_variant i) = i

  abbrev pub rtm_f_variants : List RtmF
  rtm_f_variants =
      RtmF.notify ∷ RtmF.cloned ∷ RtmF.equalize ∷ RtmF.prefix ∷ RtmF.lookup_table ∷ RtmF.fib_match
      ∷ []

  abbrev pub rtm_f : ImplVar RtmF
  rtm_f = record {
    width = 4;
    variants = rtm_f_variants;
    unrecognized_variant = RtmF.unrecognized_variant;
    into = rtm_f_into;
  }
