-- ===== src/Socket/Resolve/Groups.antt =====
-- src/socket.rs: `resolve_nl_mcast_group` is a lookup in the groups that the kernel describes.
use neli.Base.{ℕ, ◌^◌, ◌<◌, ◌≡◌, refl, if◌then◌else◌, Bool-cases, inl, inr}
use neli.Base.{Option, none, some, List, [], ◌∷◌}
use neli.Outcome.{Result, ok, err, ◌>>=◌}
use neli.Err.{NlError, msg}
use neli.Buffering.{Libc, Buffering, All}
use neli.Nl.{Nl}
use neli.Nl.Laws.{Payload, vec_laws, uint_laws, payload_of_fixed}
use neli.Nl.Text.Laws.{IsText, string_laws}
use neli.Nl.Padding.{IsSmall}
use neli.Consts.{var}
use neli.Consts.Laws.{var_laws}
use neli.Consts.Attrs.{CtrlAttr, CtrlAttrMcastGrp, ctrl_attr_mcast_grp}
use neli.Consts.Messages.{genl_id}
use neli.Nlattr.{Nlattr}
use neli.Nlattr.RoundTrip.{IsValid}
use neli.Nlattr.Lists.{bytes_all}
use neli.Nlattr.Build.Laws.{made, get_payload_as-made}
use neli.Nlattr.Handle
use neli.Nlattr.Handle.{owned, get_attribute, get_attr_payload_as, get_nested_attributes}
use neli.Nlattr.Handle.Laws.{nested_of-bytes_all}
use neli.Nlmsghdr
use neli.Genlmsghdr
use neli.Kernel.{Kernel}
use neli.Socket.{Host}
use neli.Socket.Messages.Receive.Queue.{with_queue}
use neli.Socket.Resolve.{
  Family, family, eq_attr, eq_bytes, eq_mcast_grp, group_id, first_group, resolve_nl_mcast_group,
}
use neli.Socket.Resolve.Laws.{families, request_for, Answers, get_genl_family_lem}

pub record Group : Type 0 where
  pub name : List ℕ
  pub id : ℕ

-- The number of the first group of that name.
abbrev pub lookup : List ℕ → List Group → Result NlError ℕ
lookup mcast_name [] = err (msg "Failed to resolve multicast group ID")
lookup mcast_name (group ∷ groups) =
    if eq_bytes group.name mcast_name then ok group.id else lookup mcast_name groups

module _ ⦃c : Libc⦄ ⦃b : Buffering⦄ where
  -- The attributes that `new` makes of the name and the number of a group.
  abbrev pub name_of : Group → Nlattr CtrlAttrMcastGrp (List ℕ)
  name_of group = made (var_laws ctrl_attr_mcast_grp) string_laws CtrlAttrMcastGrp.name group.name

  abbrev pub id_of : Group → Nlattr CtrlAttrMcastGrp (List ℕ)
  id_of group =
      made (var_laws ctrl_attr_mcast_grp) (payload_of_fixed (uint_laws 4)) CtrlAttrMcastGrp.id
        group.id

  -- An attribute holds well-formed attributes, in any order, of which the first of the type Name and the
  -- first of the type Id are those of a group, whose name is a string.
  pub record Describes (item : Nlattr CtrlAttrMcastGrp (List ℕ)) (group : Group) : Type 0 where
    pub attrs : List (Nlattr CtrlAttrMcastGrp (List ℕ))
    pub holds : item.payload ≡ bytes_all (var_laws ctrl_attr_mcast_grp) vec_laws attrs
    pub attrs_AreValid : All (IsValid (var_laws ctrl_attr_mcast_grp) vec_laws) attrs
    pub named :
        get_attribute eq_mcast_grp (owned attrs) CtrlAttrMcastGrp.name ≡ some (name_of group)
    pub numbered : get_attribute eq_mcast_grp (owned attrs) CtrlAttrMcastGrp.id ≡ some (id_of group)
    pub name_IsText : IsText group.name
    pub id_fits : group.id < 2 ^ 32

  abbrev pub DescribeAll : List (Nlattr CtrlAttrMcastGrp (List ℕ)) → List Group → Type 0
  DescribeAll [] [] = Unit
  DescribeAll [] (group ∷ groups) = ⊥
  DescribeAll (item ∷ items) [] = ⊥
  DescribeAll (item ∷ items) (group ∷ groups) = Describes item group × DescribeAll items groups

  -- The first attribute of a type, where it is the one that `new` makes of a value.
  found_payload :
      {A : Type 0} {n : Nl A} (laws : Payload n) (attrs : List (Nlattr CtrlAttrMcastGrp (List ℕ)))
      (ty : CtrlAttrMcastGrp) (value : A)
      → laws.IsValid value
      → get_attribute eq_mcast_grp (owned attrs) ty
        ≡ some (made (var_laws ctrl_attr_mcast_grp) laws ty value)
      → get_attr_payload_as eq_mcast_grp (var ctrl_attr_mcast_grp) n (owned attrs) ty ≡ ok value
  unfolding get_attr_payload_as
  found_payload laws attrs ty value v found =
      rw (found, get_attr_payload_as)
        (rw (get_payload_as-made (var_laws ctrl_attr_mcast_grp) laws ty value v) refl)

  group_id_lem :
      (mcast_name : List ℕ) (item : Nlattr CtrlAttrMcastGrp (List ℕ)) (group : Group)
      → Describes item group
      → group_id mcast_name item
        ≡ ok (if eq_bytes group.name mcast_name then some group.id else none)
  unfolding group_id
  group_id_lem mcast_name item group d =
      let name =
        found_payload string_laws d.attrs CtrlAttrMcastGrp.name group.name d.name_IsText d.named in
      let id =
        found_payload (payload_of_fixed (uint_laws 4)) d.attrs CtrlAttrMcastGrp.id group.id
          d.id_fits d.numbered in
      rw (d.holds) (
        rw (nested_of-bytes_all (var_laws ctrl_attr_mcast_grp) d.attrs d.attrs_AreValid) (
          rw name (elim (Bool-cases (eq_bytes group.name mcast_name)) [
            | inl same ↦ rw same (rw id refl)
            | inr other ↦ rw other refl
          ])))

  first_group-lookup :
      (mcast_name : List ℕ) (items : List (Nlattr CtrlAttrMcastGrp (List ℕ))) (groups : List Group)
      → DescribeAll items groups
      → first_group mcast_name items ≡ lookup mcast_name groups
  unfolding first_group
  first_group-lookup mcast_name [] [] d = refl
  first_group-lookup mcast_name [] (group ∷ groups) d = absurd d
  first_group-lookup mcast_name (item ∷ items) [] d = absurd d
  first_group-lookup mcast_name (item ∷ items) (group ∷ groups) (d, ds) =
      rw (group_id_lem mcast_name item group d, first_group)
        (elim (Bool-cases (eq_bytes group.name mcast_name)) [
          | inl same ↦ rw same refl
          | inr other ↦ rw other (first_group-lookup mcast_name items groups ds)
        ])

module _ ⦃c : Libc⦄ ⦃b : Buffering⦄ (k : Kernel) where
  -- A socket that does not count its messages and has no buffer asks for a family, and the kernel
  -- answers: with the family, whose first attribute of the type McastGroups holds well-formed
  -- attributes, each of which holds the well-formed attributes of a group, in any order, where the first
  -- of the type Name and the first of the type Id are those that `new` makes of its name and its number;
  -- and with an ack, in which the header of the request may stand. Then `resolve_nl_mcast_group` is the number of
  -- the first of the groups that has the name, or an error where none has. The socket is left with no
  -- buffer, and its process is as the two messages leave it. The request is valid and no longer than
  -- lengths can be.
  pub resolve_nl_mcast_group-lookup :
      (h : Host k) (family_name mcast_name : List ℕ) (reply : Family)
      (attr : Nlattr CtrlAttr (List ℕ)) (items : List (Nlattr CtrlAttrMcastGrp (List ℕ)))
      (groups : List Group) (after : Option ℕ) (w : k.World)
      → h.socket.seq ≡ none
      → h.socket.buffer ≡ none
      → families.IsValid (request_for family_name).nl_payload
      → IsSmall (Nlmsghdr.size (var genl_id) family (request_for family_name))
      → Answers k h family_name reply after w
      → get_attribute eq_attr (Genlmsghdr.get_attr_handle reply.nl_payload) CtrlAttr.mcast_groups
        ≡ some attr
      → attr.payload ≡ bytes_all (var_laws ctrl_attr_mcast_grp) vec_laws items
      → All (IsValid (var_laws ctrl_attr_mcast_grp) vec_laws) items
      → DescribeAll items groups
      → resolve_nl_mcast_group k family_name mcast_name h
        ≡ (lookup mcast_name groups, with_queue k (record h { world = w }) none after)
  unfolding resolve_nl_mcast_group ◌>>=◌ get_nested_attributes Genlmsghdr.get_attr_handle
      Handle.new_borrowed Handle.iter Handle.get_slice
  resolve_nl_mcast_group-lookup h family_name mcast_name reply attr items groups after w untracked
        empty v small kernel found holds vs ds =
      rw (get_genl_family_lem k h family_name reply after w untracked empty v small kernel) (
        rw (found, holds)
          (rw (nested_of-bytes_all (var_laws ctrl_attr_mcast_grp) items vs)
            (rw (first_group-lookup mcast_name items groups ds) refl)))
