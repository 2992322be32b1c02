-- ===== src/Nlattr/Lists.antt =====
-- Lists of attributes: what they are on the wire, and that they read back, with a hint and without.
use neli.Base.{ℕ, zero, suc, ◌+◌, ◌-◌, ◌%◌, ◌<◌, ◌≡◌, refl, ap, ◌∙◌, arith}
use neli.Base.{if◌then◌else◌, true, false, le→leb, lt→ltb}
use neli.Base.{Option, none, some, List, [], ◌∷◌, ◌++◌, length, length-append}
use mathlib.Core.Path.{fun_ext}
use neli.Base.{Bool, append-nil, append_assoc}
use neli.Outcome.{ok, pure, ◌>>=◌}
use neli.Buffering.{Libc, Buffering, All}
use neli.Nl.{Nl, ReadsBuffer}
use neli.Nl.Runs.{
  Writes, Reads, Writes-then, Writes-nil, Reads-bind, Reads-last, Reads-pure, Reads-silent,
}
use neli.Nl.Padding.{alignto_bounds, alignto_lem}
use neli.Nl.Laws.{Fixed, Payload, vec_laws}
use neli.Nlattr
use neli.Nlattr.{Nlattr}
use neli.Nlattr.RoundTrip
use neli.Nlattr.RoundTrip.{
  IsValid, IsValid-IsSmall, serialize-Writes, deserialize-Reads, length-bytes, size_lem,
}

module _ ⦃b : Buffering⦄ where
  at_end_pos : (f r : List ℕ) (h : Option ℕ) → 0 < length r → b.at_end (b.reader f r h) ≡ false
  at_end_pos f [] h e = absurd (omega arith)
  at_end_pos f (x ∷ r) h e = b.at_end_cons f r x h

module _ ⦃c : Libc⦄ ⦃b : Buffering⦄ {T P : Type 0} {t : Nl T} {p : Nl P} {w : ℕ} (tl : Fixed t w)
    (pl : Payload p) where
  unfoldable pub bytes_all : List (Nlattr T P) → List ℕ
  bytes_all [] = []
  bytes_all (x ∷ xs) = RoundTrip.bytes tl pl x ++ bytes_all xs

  -- The hint that the last attribute leaves.
  pub after_all : Option ℕ → List (Nlattr T P) → Option ℕ
  after_all h [] = h
  after_all h (x ∷ xs) = after_all (pl.after x.payload) xs

  pub length-bytes_all :
      (xs : List (Nlattr T P))
      → All (IsValid tl pl) xs
      → length (bytes_all xs) ≡ Nlattr.asize_all t p xs
  unfolding bytes_all Nlattr.asize_all
  length-bytes_all [] v = refl
  length-bytes_all (x ∷ xs) (vx, vs) = omega (
    arith,
    length-append (RoundTrip.bytes tl pl x) (bytes_all xs),
    length-bytes tl pl x vx.payload_IsValid (IsValid-IsSmall tl pl x vx),
    length-bytes_all xs vs,
  )

  pub asize_pos : (x : Nlattr T P) → IsValid tl pl x → 0 < Nlattr.asize t p x
  asize_pos x v =
      omega
        (arith, alignto_bounds (Nlattr.size t p x) (IsValid-IsSmall tl pl x v), size_lem tl pl x)

  pub serialize_all-Writes :
      (xs : List (Nlattr T P))
      → All (IsValid tl pl) xs
      → Writes (Nlattr.serialize_all t p xs) (bytes_all xs)
  unfolding bytes_all Nlattr.serialize_all
  serialize_all-Writes [] v = Writes-nil
  serialize_all-Writes (x ∷ xs) (vx, vs) =
      Writes-then _ _ (serialize-Writes tl pl x vx.payload_IsValid (IsValid-IsSmall tl pl x vx))
        (serialize_all-Writes xs vs)

  -- A round of the loop, and its end.
  abbrev round : ℕ → Option ℕ → ReadsBuffer (List (Nlattr T P))
  round fuel size_hint = do
    next ← Nlattr.deserialize t p
    size_hint' ← Nlattr.hint_left size_hint (Nlattr.asize t p next)
    rest ← Nlattr.deserialize_loop t p fuel size_hint'
    pure (next ∷ rest)

  loop_step :
      (fuel : ℕ) (size_hint : Option ℕ) (mem : b.ReadBuffer) {go : Bool}
      → Nlattr.goes_on size_hint mem ≡ go
      → Nlattr.deserialize_loop t p (suc fuel) size_hint mem
        ≡ (if go then round fuel size_hint mem else (ok [], mem))
  unfolding Nlattr.deserialize_loop
  loop_step fuel size_hint mem h =
      ap (λ (g : Bool). if g then round fuel size_hint mem else (ok [], mem)) h

  hinted_round :
      (fuel n : ℕ) → 0 < n → Nlattr.deserialize_loop t p (suc fuel) (some n) ≡ round fuel (some n)
  hinted_round fuel n h = fun_ext λ mem. loop_step fuel (some n) mem (lt→ltb 0 n h)

  not_at_end : (mem : b.ReadBuffer) → b.at_end mem ≡ false → Nlattr.goes_on none mem ≡ true
  not_at_end mem h = rw h

  just_at_end : (mem : b.ReadBuffer) → b.at_end mem ≡ true → Nlattr.goes_on none mem ≡ false
  just_at_end mem h = rw h

  -- With what is left of the hint, the loop reads the attributes that are left.
  loop-Reads :
      (fuel : ℕ) (xs : List (Nlattr T P)) (h : Option ℕ)
      → Nlattr.asize_all t p xs < fuel
      → All (IsValid tl pl) xs
      → Reads
          (Nlattr.deserialize_loop t p fuel (some (Nlattr.asize_all t p xs)))
          h
          (bytes_all xs)
          xs
          (after_all h xs)
  unfolding bytes_all after_all Nlattr.asize_all
  loop-Reads zero xs h enough v = absurd (omega arith)
  loop-Reads (suc fuel) [] h enough v = unfold Nlattr.deserialize_loop in Reads-pure []
  loop-Reads (suc fuel) (x ∷ xs) h enough (vx, vs) =
      rw (hinted_round fuel total (omega (arith, asize_pos x vx))) (
        Reads-bind _ _ (deserialize-Reads tl pl x h vx) (
          Reads-silent _ _ (some (Nlattr.asize_all t p xs)) hint (
            Reads-last _ _
              (loop-Reads fuel xs (pl.after x.payload) (omega (arith, asize_pos x vx)) vs)
              (Reads-pure (x ∷ xs)))))
    where
      total : ℕ
      total = Nlattr.asize t p x + Nlattr.asize_all t p xs

      hint :
          (f r : List ℕ)
          → Nlattr.hint_left (some total) (Nlattr.asize t p x) (b.reader f r (pl.after x.payload))
            ≡ (ok (some (Nlattr.asize_all t p xs)), b.reader f r (pl.after x.payload))
      hint f r =
          let back : total - Nlattr.asize t p x ≡ Nlattr.asize_all t p xs = omega arith in
          unfold ◌>>=◌ in
          rw (lt→ltb 0 total (omega (arith, asize_pos x vx)))
            (rw (le→leb (Nlattr.asize t p x) total (omega arith)) (rw back))

  -- A hint of the attributes' whole size is read as just those attributes.
  pub deserialize_all-Reads :
      (xs : List (Nlattr T P))
      → All (IsValid tl pl) xs
      → Reads
          (Nlattr.deserialize_all t p)
          (some (Nlattr.asize_all t p xs))
          (bytes_all xs)
          xs
          (after_all none xs)
  unfolding Nlattr.deserialize_all
  deserialize_all-Reads xs v =
      let total = Nlattr.asize_all t p xs in
      Reads-silent _ _ (some total) (λ f r. rw (b.take_size_hint_lem f r (some total)))
        (loop-Reads (suc total) xs none (omega arith) v)

  -- Well-formed attributes are written one after the other, as many bytes as `asize` says; and with
  -- that number as the hint just those attributes read back, whatever follows.
  pub nlattrs_round_trip :
      (xs : List (Nlattr T P))
      → All (IsValid tl pl) xs
      → Writes (Nlattr.serialize_all t p xs) (bytes_all xs)
        × (length (bytes_all xs) ≡ Nlattr.asize_all t p xs)
        × Reads
            (Nlattr.deserialize_all t p)
            (some (Nlattr.asize_all t p xs))
            (bytes_all xs)
            xs
            (after_all none xs)
  nlattrs_round_trip xs v =
      (serialize_all-Writes xs v, length-bytes_all xs v, deserialize_all-Reads xs v)

  unhinted_rest :
      (fuel : ℕ) (x : Nlattr T P) (xs : List (Nlattr T P)) (f : List ℕ) (h : Option ℕ)
      → IsValid tl pl x
      → Nlattr.deserialize_loop t p fuel none
          (b.reader (f ++ RoundTrip.bytes tl pl x) (bytes_all xs) (pl.after x.payload))
        ≡ (
          ok xs,
          b.reader ((f ++ RoundTrip.bytes tl pl x) ++ bytes_all xs) [] (after_all h (x ∷ xs)),
        )
      → round fuel none (b.reader f (RoundTrip.bytes tl pl x ++ bytes_all xs) h)
        ≡ (ok (x ∷ xs), b.reader (f ++ bytes_all (x ∷ xs)) [] (after_all h (x ∷ xs)))
  unfolding ◌>>=◌ bytes_all after_all
  unhinted_rest fuel x xs f h vx ih =
      rw ((deserialize-Reads tl pl x h vx).at f (bytes_all xs)) (rw ih (rw append_assoc))

  -- With no hint, the loop reads attributes to the end of the buffer.
  unhinted_loop :
      (fuel : ℕ) (xs : List (Nlattr T P)) (f : List ℕ) (h : Option ℕ)
      → length (bytes_all xs) < fuel
      → All (IsValid tl pl) xs
      → Nlattr.deserialize_loop t p fuel none (b.reader f (bytes_all xs) h)
        ≡ (ok xs, b.reader (f ++ bytes_all xs) [] (after_all h xs))
  unfolding bytes_all after_all
  unhinted_loop zero xs f h enough v = absurd (omega arith)
  unhinted_loop (suc fuel) [] f h enough v =
      loop_step fuel none (b.reader f [] h) (just_at_end _ (b.at_end_nil f h)) ∙ rw append-nil
  unhinted_loop (suc fuel) (x ∷ xs) f h enough (vx, vs) =
      loop_step fuel none (b.reader f (RoundTrip.bytes tl pl x ++ bytes_all xs) h)
        (not_at_end _ not_end)
      ∙ unhinted_rest fuel x xs f h vx
          (unhinted_loop fuel xs (f ++ RoundTrip.bytes tl pl x) (pl.after x.payload) lens vs)
    where
      first_pos : 0 < length (RoundTrip.bytes tl pl x)
      first_pos = omega (
        arith,
        asize_pos x vx,
        length-bytes tl pl x vx.payload_IsValid (IsValid-IsSmall tl pl x vx),
      )

      lens : length (bytes_all xs) < fuel
      lens = omega (arith, first_pos, length-append (RoundTrip.bytes tl pl x) (bytes_all xs))

      not_end : b.at_end (b.reader f (RoundTrip.bytes tl pl x ++ bytes_all xs) h) ≡ false
      not_end =
          at_end_pos f (RoundTrip.bytes tl pl x ++ bytes_all xs) h
            (omega (arith, first_pos, length-append (RoundTrip.bytes tl pl x) (bytes_all xs)))

  -- With no hint, a buffer with just these well-formed attributes left reads back as them, to its end.
  pub deserialize_all_unhinted :
      (xs : List (Nlattr T P)) (f : List ℕ)
      → All (IsValid tl pl) xs
      → Nlattr.deserialize_all t p (b.reader f (bytes_all xs) none)
        ≡ (ok xs, b.reader (f ++ bytes_all xs) [] (after_all none xs))
  unfolding Nlattr.deserialize_all ◌>>=◌
  deserialize_all_unhinted xs f v = rw (b.take_size_hint_lem f (bytes_all xs) none) (
      rw (b.left_lem f (bytes_all xs) none)
        (unhinted_loop (suc (length (bytes_all xs))) xs f none (omega arith) v))

  -- The aligned sizes are multiples of 4, and so is their sum.
  pub asize_all_aligned :
      (xs : List (Nlattr T P)) → All (IsValid tl pl) xs → Nlattr.asize_all t p xs % 4 ≡ 0
  unfolding Nlattr.asize_all
  asize_all_aligned [] v = refl
  asize_all_aligned (x ∷ xs) (vx, vs) =
      omega (
        arith,
        alignto_lem (Nlattr.size t p x) (IsValid-IsSmall tl pl x vx),
        asize_all_aligned xs vs,
      )

module _ ⦃c : Libc⦄ ⦃b : Buffering⦄ {T : Type 0} {t : Nl T} {w : ℕ} (tl : Fixed t w) where
  pub after_all-vec : (xs : List (Nlattr T (List ℕ))) → after_all tl vec_laws none xs ≡ none
  unfolding after_all
  after_all-vec [] = refl
  after_all-vec (x ∷ xs) = after_all-vec xs
