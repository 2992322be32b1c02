-- ===== src/Consts/Rtm.antt =====
-- src/consts/nl.rs: the rtnetlink message types.
use neli.Base.{ℕ, List, [], ◌∷◌}
use neli.Buffering.{Libc}
use neli.Consts.{ImplVar}

pub data Rtm : Type 0 where
  newlink dellink getlink setlink newaddr deladdr getaddr newroute delroute : Rtm
  getroute newneigh delneigh getneigh newrule delrule getrule newqdisc delqdisc : Rtm
  getqdisc newtclass deltclass gettclass newtfilter deltfilter gettfilter newaction : Rtm
  delaction getaction newprefix getmulticast getanycast newneightbl getneightbl : Rtm
  setneightbl newnduseropt newaddrlabel deladdrlabel getaddrlabel getdcb setdcb : Rtm
  newnetconf getnetconf newmdb delmdb getmdb newnsid delnsid getnsid : Rtm
  unrecognized_variant : ℕ → Rtm

module _ ⦃c : Libc⦄ where
  abbrev pub rtm_into : Rtm → ℕ
  rtm_into Rtm.newlink = c.constant "RTM_NEWLINK"
  rtm_into Rtm.dellink = c.constant "RTM_DELLINK"
  rtm_into Rtm.getlink = c.constant "RTM_GETLINK"
  rtm_into Rtm.setlink = c.constant "RTM_SETLINK"
  rtm_into Rtm.newaddr = c.constant "RTM_NEWADDR"
  rtm_into Rtm.deladdr = c.constant "RTM_DELADDR"
  rtm_into Rtm.getaddr = c.constant "RTM_GETADDR"
  rtm_into Rtm.newroute = c.constant "RTM_NEWROUTE"
  rtm_into Rtm.delroute = c.constant "RTM_DELROUTE"
  rtm_into Rtm.getroute = c.constant "RTM_GETROUTE"
  rtm_into Rtm.newneigh = c.constant "RTM_NEWNEIGH"
  rtm_into Rtm.delneigh = c.constant "RTM_DELNEIGH"
  rtm_into Rtm.getneigh = c.constant "RTM_GETNEIGH"
  rtm_into Rtm.newrule = c.constant "RTM_NEWRULE"
  rtm_into Rtm.delrule = c.constant "RTM_DELRULE"
  rtm_into Rtm.getrule = c.constant "RTM_GETRULE"
  rtm_into Rtm.newqdisc = c.constant "RTM_NEWQDISC"
  rtm_into Rtm.delqdisc = c.constant "RTM_DELQDISC"
  rtm_into Rtm.getqdisc = c.constant "RTM_GETQDISC"
  rtm_into Rtm.newtclass = c.constant "RTM_NEWTCLASS"
  rtm_into Rtm.deltclass = c.constant "RTM_DELTCLASS"
  rtm_into Rtm.gettclass = c.constant "RTM_GETTCLASS"
  rtm_into Rtm.newtfilter = c.constant "RTM_NEWTFILTER"
  rtm_into Rtm.deltfilter = c.constant "RTM_DELTFILTER"
  rtm_into Rtm.gettfilter = c.constant "RTM_GETTFILTER"
  rtm_into Rtm.newaction = c.constant "RTM_NEWACTION"
  rtm_into Rtm.delaction = c.constant "RTM_DELACTION"
  rtm_into Rtm.getaction = c.constant "RTM_GETACTION"
  rtm_into Rtm.newprefix = c.constant "RTM_NEWPREFIX"
  rtm_into Rtm.getmulticast = c.constant "RTM_GETMULTICAST"
  rtm_into Rtm.getanycast = c.constant "RTM_GETANYCAST"
  rtm_into Rtm.newneightbl = c.constant "RTM_NEWNEIGHTBL"
  rtm_into Rtm.getneightbl = c.constant "RTM_GETNEIGHTBL"
  rtm_into Rtm.setneightbl = c.constant "RTM_SETNEIGHTBL"
  rtm_into Rtm.newnduseropt = c.constant "RTM_NEWNDUSEROPT"
  rtm_into Rtm.newaddrlabel = c.constant "RTM_NEWADDRLABEL"
  rtm_into Rtm.deladdrlabel = c.constant "RTM_DELADDRLABEL"
  rtm_into Rtm.getaddrlabel = c.constant "RTM_GETADDRLABEL"
  rtm_into Rtm.getdcb = c.constant "RTM_GETDCB"
  rtm_into Rtm.setdcb = c.constant "RTM_SETDCB"
  rtm_into Rtm.newnetconf = c.constant "RTM_NEWNETCONF"
  rtm_into Rtm.getnetconf = c.constant "RTM_GETNETCONF"
  rtm_into Rtm.newmdb = c.constant "RTM_NEWMDB"
  rtm_into Rtm.delmdb = c.constant "RTM_DELMDB"
  rtm_into Rtm.getmdb = c.constant "RTM_GETMDB"
  rtm_into Rtm.newnsid = c.constant "RTM_NEWNSID"
  rtm_into Rtm.delnsid = c.constant "RTM_DELNSID"
  rtm_into Rtm.getnsid = c.constant "RTM_GETNSID"
  rtm_into (Rtm.unrecognized_variant i) = i

  abbrev pub rtm_variants : List Rtm
  rtm_variants =
      Rtm.newlink ∷ Rtm.dellink ∷ Rtm.getlink ∷ Rtm.setlink ∷ Rtm.newaddr ∷ Rtm.deladdr
      ∷ Rtm.getaddr ∷ Rtm.newroute ∷ Rtm.delroute ∷ Rtm.getroute ∷ Rtm.newneigh ∷ Rtm.delneigh
      ∷ Rtm.getneigh ∷ Rtm.newrule ∷ Rtm.delrule ∷ Rtm.getrule ∷ Rtm.newqdisc ∷ Rtm.delqdisc
      ∷ Rtm.getqdisc ∷ Rtm.newtclass ∷ Rtm.deltclass ∷ Rtm.gettclass ∷ Rtm.newtfilter
      ∷ Rtm.deltfilter ∷ Rtm.gettfilter ∷ Rtm.newaction ∷ Rtm.delaction ∷ Rtm.getaction
      ∷ Rtm.newprefix ∷ Rtm.getmulticast ∷ Rtm.getanycast ∷ Rtm.newneightbl ∷ Rtm.getneightbl
      ∷ Rtm.setneightbl ∷ Rtm.newnduseropt ∷ Rtm.newaddrlabel ∷ Rtm.deladdrlabel ∷ Rtm.getaddrlabel
      ∷ Rtm.getdcb ∷ Rtm.setdcb ∷ Rtm.newnetconf ∷ Rtm.getnetconf ∷ Rtm.newmdb ∷ Rtm.delmdb
      ∷ Rtm.getmdb ∷ Rtm.newnsid ∷ Rtm.delnsid ∷ Rtm.getnsid ∷ []

  abbrev pub rtm : ImplVar Rtm
  rtm = record {
    width = 2;
    variants = rtm_variants;
    unrecognized_variant = Rtm.unrecognized_variant;
    into = rtm_into;
  }
