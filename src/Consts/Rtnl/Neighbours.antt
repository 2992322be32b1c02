-- ===== src/Consts/Rtnl/Neighbours.antt =====
-- src/consts/rtnl.rs: the neighbour table.
use neli.Base.{ℕ, List, [], ◌∷◌}
use neli.Buffering.{Libc}
use neli.Consts.{ImplVar}

pub data Nud : Type 0 where
  none incomplete reachable stale delay probe failed noarp permanent : Nud
  unrecognized_variant : ℕ → Nud

pub data Ntf : Type 0 where
  use_ self_ master proxy ext_learned offloaded router : Ntf
  unrecognized_variant : ℕ → Ntf

pub data Nda : Type 0 where
  unspec dst lladdr cacheinfo probes vlan port vni ifindex master link_netnsid : Nda
  src_vni : Nda
  unrecognized_variant : ℕ → Nda

module _ ⦃c : Libc⦄ where
  abbrev pub nud_into : Nud → ℕ
  nud_into Nud.none = c.constant "NUD_NONE"
  nud_into Nud.incomplete = c.constant "NUD_INCOMPLETE"
  nud_into Nud.reachable = c.constant "NUD_REACHABLE"
  nud_into Nud.stale = c.constant "NUD_STALE"
  nud_into Nud.delay = c.constant "NUD_DELAY"
  nud_into Nud.probe = c.constant "NUD_PROBE"
  nud_into Nud.failed = c.constant "NUD_FAILED"
  nud_into Nud.noarp = c.constant "NUD_NOARP"
  nud_into Nud.permanent = c.constant "NUD_PERMANENT"
  nud_into (Nud.unrecognized_variant i) = i

  abbrev pub nud_variants : List Nud
  nud_variants =
      Nud.none ∷ Nud.incomplete ∷ Nud.reachable ∷ Nud.stale ∷ Nud.delay ∷ Nud.probe ∷ Nud.failed
      ∷ Nud.noarp ∷ Nud.permanent ∷ []

  abbrev pub nud : ImplVar Nud
  nud = record {
    width = 2;
    variants = nud_variants;
    unrecognized_variant = Nud.unrecognized_variant;
    into = nud_into;
  }

  abbrev pub ntf_into : Ntf → ℕ
  ntf_into Ntf.use_ = c.constant "NTF_USE"
  ntf_into Ntf.self_ = c.constant "NTF_SELF"
  ntf_into Ntf.master = c.constant "NTF_MASTER"
  ntf_into Ntf.proxy = c.constant "NTF_PROXY"
  ntf_into Ntf.ext_learned = c.constant "NTF_EXT_LEARNED"
  ntf_into Ntf.offloaded = c.constant "NTF_OFFLOADED"
  ntf_into Ntf.router = c.constant "NTF_ROUTER"
  ntf_into (Ntf.unrecognized_variant i) = i

  abbrev pub ntf_variants : List Ntf
  ntf_variants =
      Ntf.use_ ∷ Ntf.self_ ∷ Ntf.master ∷ Ntf.proxy ∷ Ntf.ext_learned ∷ Ntf.offloaded ∷ Ntf.router
      ∷ []

  abbrev pub ntf : ImplVar Ntf
  ntf = record {
    width = 1;
    variants = ntf_variants;
    unrecognized_variant = Ntf.unrecognized_variant;
    into = ntf_into;
  }

  abbrev pub nda_into : Nda → ℕ
  nda_into Nda.unspec = c.constant "NDA_UNSPEC"
  nda_into Nda.dst = c.constant "NDA_DST"
  nda_into Nda.lladdr = c.constant "NDA_LLADDR"
  nda_into Nda.cacheinfo = c.constant "NDA_CACHEINFO"
  nda_into Nda.probes = c.constant "NDA_PROBES"
  nda_into Nda.vlan = c.constant "NDA_VLAN"
  nda_into Nda.port = c.constant "NDA_PORT"
  nda_into Nda.vni = c.constant "NDA_VNI"
  nda_into Nda.ifindex = c.constant "NDA_IFINDEX"
  nda_into Nda.master = c.constant "NDA_MASTER"
  nda_into Nda.link_netnsid = c.constant "NDA_LINK_NETNSID"
  nda_into Nda.src_vni = c.constant "NDA_SRC_VNI"
  nda_into (Nda.unrecognized_variant i) = i

  abbrev pub nda_variants : List Nda
  nda_variants =
      Nda.unspec ∷ Nda.dst ∷ Nda.lladdr ∷ Nda.cacheinfo ∷ Nda.probes ∷ Nda.vlan ∷ Nda.port ∷ Nda.vni
      ∷ Nda.ifindex ∷ Nda.master ∷ Nda.link_netnsid ∷ Nda.src_vni ∷ []

  abbrev pub nda : ImplVar Nda
  nda = record {
    width = 2;
    variants = nda_variants;
    unrecognized_variant = Nda.unrecognized_variant;
    into = nda_into;
  }
