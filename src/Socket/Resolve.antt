-- ===== src/Socket/Resolve.antt =====
-- src/socket.rs: the numbers of a generic netlink family and of its multicast groups, asked from the
-- kernel by name.
pub mod Laws
pub mod Groups
pub mod Tracked
pub mod Frame
use native.Mathlib.Decide.{ℕ_discrete}
use neli.Base.{
  ℕ, ◌==◌, ◌&&◌, if◌then◌else◌, Option, none, some, List, [], ◌∷◌, Bool, true, false, ◌≡◌, refl,
}
use neli.Outcome.{Result, ok, err, panic, out_of_fuel, bind, map_err, pure, lift, ◌>>=◌, ◌>>◌}
use neli.Err.{DeError, NlError, msg, nl_of_ser, nl_of_de}
use neli.Buffering.{Libc, Buffering}
use neli.Nl.{Nl}
use neli.Nl.Uint.{u16, u32}
use neli.Nl.Text.{str, string}
use neli.Consts.{var}
use neli.Consts.Attrs.{CtrlAttr, ctrl_attr, CtrlAttrMcastGrp, ctrl_attr_mcast_grp}
use neli.Consts.Genl.{CtrlCmd, ctrl_cmd, getfamily}
use neli.Consts.Messages.{GenlId, genl_id, ctrl, request, ack}
use neli.Nlattr.{Nlattr}
use neli.Nlattr.Build
use neli.Nlattr.Handle.{nested_of, get_nested_attributes, get_attr_payload_as, iter}
use neli.Nlmsghdr
use neli.Nlmsghdr.{Nlmsghdr}
use neli.Genlmsghdr
use neli.Genlmsghdr.{Genlmsghdr, genlmsghdr}
use neli.Kernel.{Kernel}
use neli.Socket.{Method}
use neli.Socket.Messages.{send_nl, recv_nl, recv_ack}

-- `PartialEq`, as it is derived
unfoldable ctrl_attr_discrete : Discrete CtrlAttr
unfolding ℕ_discrete
ctrl_attr_discrete = hlevel ℕ_discrete

unfoldable mcast_grp_discrete : Discrete CtrlAttrMcastGrp
unfolding ℕ_discrete
mcast_grp_discrete = hlevel ℕ_discrete

abbrev decided {ℓ} : {A : Type ℓ} → Dec A → Bool
decided (yes a) = true
decided (no f) = false

unfoldable pub eq_attr : CtrlAttr → CtrlAttr → Bool
unfolding ctrl_attr_discrete
eq_attr x y = decided (ctrl_attr_discrete x y)

unfoldable pub eq_mcast_grp : CtrlAttrMcastGrp → CtrlAttrMcastGrp → Bool
unfolding mcast_grp_discrete
eq_mcast_grp x y = decided (mcast_grp_discrete x y)

-- `==` on strings
unfoldable pub eq_bytes : List ℕ → List ℕ → Bool
eq_bytes [] [] = true
eq_bytes [] (y ∷ ys) = false
eq_bytes (x ∷ xs) [] = false
eq_bytes (x ∷ xs) (y ∷ ys) = (x == y) && eq_bytes xs ys

same_variant : eq_attr (CtrlAttr.unrecognized_variant 3) (CtrlAttr.unrecognized_variant 3) ≡ true
unfolding eq_attr
same_variant = refl

other_variant : eq_attr (CtrlAttr.unrecognized_variant 3) (CtrlAttr.ops) ≡ false
unfolding eq_attr
other_variant = refl

-- `.ok()` with `?` in a function that returns an option
abbrev pub ok_or_none : {A : Type 0} → Result DeError A → Result NlError (Option A)
ok_or_none (ok a) = ok (some a)
ok_or_none (err e) = ok none
ok_or_none panic = panic
ok_or_none out_of_fuel = out_of_fuel

abbrev pub and_some :
    {A B : Type 0}
    → Result NlError (Option A)
    → (A → Result NlError (Option B))
    → Result NlError (Option B)
and_some (ok (some a)) f = f a
and_some (ok none) f = ok none
and_some (err e) f = err e
and_some panic f = panic
and_some out_of_fuel f = out_of_fuel

abbrev pub Family : Type 0
Family = Nlmsghdr GenlId (Genlmsghdr CtrlCmd CtrlAttr)

module _ ⦃c : Libc⦄ ⦃b : Buffering⦄ where
  abbrev pub family : Nl (Genlmsghdr CtrlCmd CtrlAttr)
  family = genlmsghdr (var ctrl_cmd) (var ctrl_attr)

  -- The request for a family.
  unfoldable pub family_request : List ℕ → Result NlError Family
  family_request family_name =
      bind (map_err nl_of_ser (Build.new (var ctrl_attr) str none CtrlAttr.family_name family_name))
        λ attr. bind (map_err nl_of_ser (Genlmsghdr.new getfamily 2 (attr ∷ []))) λ genlhdr.
          ok (Nlmsghdr.new (var genl_id) family none ctrl (request ∷ ack ∷ []) none none genlhdr)

  -- The closure of `filter_map`.
  unfoldable pub group_id : List ℕ → Nlattr CtrlAttrMcastGrp (List ℕ) → Result NlError (Option ℕ)
  unfolding eq_mcast_grp eq_bytes
  group_id mcast_name item =
      and_some (ok_or_none (nested_of (var ctrl_attr_mcast_grp) item.payload)) λ nested_attrs.
        and_some
          (ok_or_none (
            get_attr_payload_as eq_mcast_grp (var ctrl_attr_mcast_grp) string nested_attrs
              CtrlAttrMcastGrp.name))
          λ name.
            if eq_bytes name mcast_name
            then ok_or_none (
                get_attr_payload_as eq_mcast_grp (var ctrl_attr_mcast_grp) u32 nested_attrs
                  CtrlAttrMcastGrp.id)
            else ok none

  -- `filter_map(…).next()`, which goes no further than the first that is found
  unfoldable pub first_group : List ℕ → List (Nlattr CtrlAttrMcastGrp (List ℕ)) → Result NlError ℕ
  unfolding group_id
  first_group mcast_name [] = err (msg "Failed to resolve multicast group ID")
  first_group mcast_name (item ∷ items) = elim (group_id mcast_name item) [
    | ok found ↦ elim found [ some id ↦ ok id | none ↦ first_group mcast_name items ]
    | err e ↦ err e
    | panic ↦ panic
    | out_of_fuel ↦ out_of_fuel
  ]

module _ ⦃c : Libc⦄ ⦃b : Buffering⦄ (k : Kernel) where
  unfoldable pub get_genl_family : List ℕ → Method k NlError Family
  unfolding family_request send_nl recv_nl recv_ack
  get_genl_family family_name = do
    nlhdr ← lift (family_request family_name)
    send_nl k (var genl_id) family nlhdr
    reply ← recv_nl k (var genl_id) family none
    recv_ack k
    pure reply

  unfoldable pub resolve_genl_family : List ℕ → Method k NlError ℕ
  unfolding get_genl_family eq_attr
  resolve_genl_family family_name = do
    nlhdr ← get_genl_family family_name
    let handle = Genlmsghdr.get_attr_handle nlhdr.nl_payload
    lift (
        map_err nl_of_de
          (get_attr_payload_as eq_attr (var ctrl_attr) u16 handle CtrlAttr.family_id))

  unfoldable pub resolve_nl_mcast_group : List ℕ → List ℕ → Method k NlError ℕ
  unfolding get_genl_family eq_attr first_group
  resolve_nl_mcast_group family_name mcast_name = do
    nlhdr ← get_genl_family family_name
    let handle = Genlmsghdr.get_attr_handle nlhdr.nl_payload
    mcast_groups ← lift (
        get_nested_attributes eq_attr (var ctrl_attr) (var ctrl_attr_mcast_grp) handle
          CtrlAttr.mcast_groups)
    lift (first_group mcast_name (iter mcast_groups))
