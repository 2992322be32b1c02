-- ===== src/Rtnl/Rtattr/Lists.antt =====
-- Lists of routing attributes with bytes for payloads: what they are on the wire, and that they read
-- back with their size as the hint.
use neli.Base.{ℕ, zero, suc, ◌+◌, ◌-◌, ◌%◌, ◌<◌, ◌≡◌, refl, ap, arith, le→leb, lt→ltb}
use neli.Base.{if◌then◌else◌, Bool, none, some, List, [], ◌∷◌, ◌++◌, length, length-append}
use neli.Outcome.{ok, pure, ◌>>=◌, checked_sub, ok_or}
use neli.Buffering.{Libc, Buffering, All}
use neli.Nl.{Nl, ReadsBuffer}
use neli.Nl.Runs.{
  Writes, Reads, Writes-then, Writes-nil, Reads-bind, Reads-last, Reads-pure, Reads-silent,
}
use neli.Nl.Padding.{IsSmall, alignto_lem, alignto_bounds}
use neli.Nl.Bytes.{vec_u8}
use neli.Nl.Laws.{Fixed, vec_laws}
use neli.Rtnl.Rtattr
use neli.Rtnl.Rtattr.{Rtattr, Rtattrs, new, rtattrs, overflowed}
use neli.Rtnl.Rtattr.RoundTrip
use neli.Rtnl.Rtattr.RoundTrip.{
  IsValid, IsValid-IsSmall, serialize-Writes, deserialize-Reads, length-bytes, size_lem,
}
use mathlib.Core.Path.{fun_ext}

module _ ⦃c : Libc⦄ ⦃b : Buffering⦄ {T : Type 0} {t : Nl T} (tl : Fixed t 2) where
  abbrev pub AreValid : List (Rtattr T (List ℕ)) → Type 0
  AreValid xs = All (IsValid tl vec_laws) xs

  abbrev pub sizes : List (Rtattr T (List ℕ)) → ℕ
  sizes xs = Rtattr.size_items t vec_u8 xs

  unfoldable pub bytes_items : List (Rtattr T (List ℕ)) → List ℕ
  bytes_items [] = []
  bytes_items (x ∷ xs) = RoundTrip.bytes tl vec_laws x ++ bytes_items xs

  pub length-bytes_items :
      (xs : List (Rtattr T (List ℕ))) → AreValid xs → length (bytes_items xs) ≡ sizes xs
  unfolding bytes_items Rtattr.size_items
  length-bytes_items [] v = refl
  length-bytes_items (x ∷ xs) (vx, vs) = omega (
    arith,
    length-append (RoundTrip.bytes tl vec_laws x) (bytes_items xs),
    length-bytes tl vec_laws x vx,
    length-bytes_items xs vs,
  )

  -- The sum of the aligned sizes is a multiple of 4.
  pub size_items_aligned : (xs : List (Rtattr T (List ℕ))) → AreValid xs → sizes xs % 4 ≡ 0
  unfolding Rtattr.size_items
  size_items_aligned [] v = refl
  size_items_aligned (x ∷ xs) (vx, vs) = omega (
    arith,
    alignto_lem (Rtattr.size t vec_u8 x) (IsValid-IsSmall tl vec_laws x vx),
    size_items_aligned xs vs,
  )

  pub serialize_items-Writes :
      (xs : List (Rtattr T (List ℕ)))
      → AreValid xs
      → Writes (Rtattr.serialize_items t vec_u8 xs) (bytes_items xs)
  unfolding bytes_items Rtattr.serialize_items
  serialize_items-Writes [] v = Writes-nil
  serialize_items-Writes (x ∷ xs) (vx, vs) =
      Writes-then _ _ (serialize-Writes tl vec_laws x vx) (serialize_items-Writes xs vs)

  asize_pos : (x : Rtattr T (List ℕ)) → IsValid tl vec_laws x → 0 < Rtattr.asize t vec_u8 x
  asize_pos x v = omega (
    arith,
    alignto_bounds (Rtattr.size t vec_u8 x) (IsValid-IsSmall tl vec_laws x v),
    size_lem tl vec_laws x,
  )

  abbrev round : ℕ → ℕ → ReadsBuffer (List (Rtattr T (List ℕ)))
  round fuel size_hint = do
    attr ← Rtattr.deserialize t vec_u8
    size_hint' ←
        ok_or (checked_sub size_hint (Rtattr.asize t vec_u8 attr))
          (overflowed (Rtattr.size t vec_u8 attr) size_hint)
    rest ← Rtattr.deserialize_loop t vec_u8 fuel size_hint'
    pure (attr ∷ rest)

  loop_round : (fuel n : ℕ) → 0 < n → Rtattr.deserialize_loop t vec_u8 (suc fuel) n ≡ round fuel n
  unfolding Rtattr.deserialize_loop
  loop_round fuel n h =
      fun_ext
        λ mem. ap (λ (go : Bool). if go then round fuel n mem else (ok [], mem)) (lt→ltb 0 n h)

  loop-Reads :
      (fuel : ℕ) (xs : List (Rtattr T (List ℕ)))
      → sizes xs < fuel
      → AreValid xs
      → Reads (Rtattr.deserialize_loop t vec_u8 fuel (sizes xs)) none (bytes_items xs) xs none
  unfolding bytes_items Rtattr.size_items
  loop-Reads zero xs enough v = absurd (omega arith)
  loop-Reads (suc fuel) [] enough v = unfold Rtattr.deserialize_loop in Reads-pure []
  loop-Reads (suc fuel) (x ∷ xs) enough (vx, vs) =
      rw (loop_round fuel total (omega (arith, asize_pos x vx))) (
        Reads-bind _ _ (deserialize-Reads tl vec_laws x none vx) (
          Reads-silent _ _ (sizes xs) left (
            Reads-last _ _ (loop-Reads fuel xs (omega (arith, asize_pos x vx)) vs)
              (Reads-pure (x ∷ xs)))))
    where
      total : ℕ
      total = Rtattr.asize t vec_u8 x + sizes xs

      left :
          (f r : List ℕ)
          → ok_or
              (checked_sub total (Rtattr.asize t vec_u8 x))
              (overflowed (Rtattr.size t vec_u8 x) total)
              (b.reader f r none)
            ≡ (ok (sizes xs), b.reader f r none)
      left f r =
          let back : total - Rtattr.asize t vec_u8 x ≡ sizes xs = omega arith in
          rw (le→leb (Rtattr.asize t vec_u8 x) total (omega arith)) (rw back)

  -- The size of a list needs no rounding.
  pub asize_all_lem :
      (self : Rtattrs T (List ℕ))
      → AreValid self.items
      → IsSmall (sizes self.items)
      → Rtattr.asize_all t vec_u8 self ≡ sizes self.items
  unfolding Rtattr.size_all
  asize_all_lem self v small =
      omega (arith, alignto_lem (sizes self.items) small, size_items_aligned self.items v)

  -- With their whole size as the hint, the attributes read back.
  pub deserialize_all-Reads :
      (xs : List (Rtattr T (List ℕ)))
      → AreValid xs
      → Reads (Rtattr.deserialize_all t vec_u8) (some (sizes xs)) (bytes_items xs) (new xs) none
  unfolding Rtattr.deserialize_all
  deserialize_all-Reads xs v =
      Reads-silent _ _ (some (sizes xs)) (λ f r. rw (b.take_size_hint_lem f r (some (sizes xs))))
        (Reads-silent _ _ (sizes xs) (λ f r. refl)
          (Reads-last _ _ (loop-Reads (suc (sizes xs)) xs (omega arith) v) (Reads-pure (new xs))))

  pub serialize_all-Writes :
      (self : Rtattrs T (List ℕ))
      → AreValid self.items
      → Writes (Rtattr.serialize_all t vec_u8 self) (bytes_items self.items)
  unfolding Rtattr.serialize_all
  serialize_all-Writes self v = serialize_items-Writes self.items v

  -- Well-formed routing attributes of bytes are written one after the other, as many bytes as `size`
  -- says; and with that number as the hint just those attributes read back, whatever follows.
  pub rtattrs_round_trip :
      (self : Rtattrs T (List ℕ))
      → AreValid self.items
      → Writes (Rtattr.serialize_all t vec_u8 self) (bytes_items self.items)
        × (length (bytes_items self.items) ≡ Rtattr.size_all t vec_u8 self)
        × Reads
            (Rtattr.deserialize_all t vec_u8)
            (some (Rtattr.size_all t vec_u8 self))
            (bytes_items self.items)
            self
            none
  unfolding Rtattr.size_all
  rtattrs_round_trip self v = (
    serialize_all-Writes self v,
    length-bytes_items self.items v,
    deserialize_all-Reads self.items v,
  )
