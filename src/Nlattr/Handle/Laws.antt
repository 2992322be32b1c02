-- ===== src/Nlattr/Handle/Laws.antt =====
-- Looking attributes up, and reading back what was nested.
use neli.Base.{ℕ, ◌+◌, ◌^◌, ◌<◌, ◌≡◌, ◌≢◌, ◌↔◌, ◌⊎◌, inl, inr, refl, sym, ap, arith}
use neli.Base.{Bool, true, false, Bool-cases, none, some, List, [], ◌∷◌, ◌++◌}
use native.Mathlib.Nat.{add_assoc, add-zero}
use neli.Base.{append-nil, append_assoc}
use neli.Outcome.{ok, ◌>>=◌}
use neli.Buffering.{Libc, Buffering, All}
use neli.Nl.{Nl}
use neli.Nl.Bytes.{vec_u8}
use neli.Nl.Laws.{Fixed, vec_laws}
use neli.Nlattr
use neli.Nlattr.{Nlattr}
use neli.Nlattr.RoundTrip
use neli.Nlattr.RoundTrip.{IsValid}
use neli.Nlattr.Lists.{bytes_all, deserialize_all_unhinted}
use neli.Nlattr.Build.{add_nested_attribute, Builds}
use neli.Nlattr.Build.Laws.{nested, add_nested_attribute_lem}
use neli.Nlattr.Handle.{AttrHandle, owned, borrowed, new, get_slice, find, get_attribute, find_mut}
use neli.Nlattr.Handle.{get_attribute_mut, nested_of, past}

module _ {T : Type 0} (eq : T → T → Bool) (eq_iff : (x y : T) → (eq x y ≡ true) ↔ (x ≡ y)) where
  -- An attribute is the first of its type in a list.
  pub record IsFirst (t : T) (items : List (Nlattr T (List ℕ))) (a : Nlattr T (List ℕ))
      : Type 0 where
    pub front : List (Nlattr T (List ℕ))
    pub back : List (Nlattr T (List ℕ))
    pub split : items ≡ front ++ (a ∷ back)
    pub type_is : a.nla_type ≡ t
    pub others : All (λ x. x.nla_type ≢ t) front

  eq-ne : (x y : T) → eq x y ≡ false → x ≢ y
  eq-ne x y h e = cc ((eq_iff x y).1 e)

  find_cases :
      (t : T) (items : List (Nlattr T (List ℕ)))
      → ((a : Nlattr T (List ℕ)) × (find eq t items ≡ some a) × IsFirst t items a)
        ⊎ ((find eq t items ≡ none) × All (λ x. x.nla_type ≢ t) items)
  unfolding find
  find_cases t [] = inr (refl, tt)
  find_cases t (item ∷ items) = go (find_cases t items) (Bool-cases (eq item.nla_type t))
    where
      go :
          ((a : Nlattr T (List ℕ)) × (find eq t items ≡ some a) × IsFirst t items a)
            ⊎ ((find eq t items ≡ none) × All (λ x. x.nla_type ≢ t) items)
          → (eq item.nla_type t ≡ true) ⊎ (eq item.nla_type t ≡ false)
          → ((a : Nlattr T (List ℕ)) × (find eq t (item ∷ items) ≡ some a)
              × IsFirst t (item ∷ items) a)
            ⊎ ((find eq t (item ∷ items) ≡ none) × All (λ x. x.nla_type ≢ t) (item ∷ items))
      go rest (inl same) = inl (
        item,
        rw same,
        record {
          front = [];
          back = items;
          split = refl;
          type_is = (eq_iff item.nla_type t).0 same;
          others = tt;
        },
      )
      go (inl (a, found, first)) (inr other) = inl (
        a,
        rw other found,
        record {
          front = item ∷ first.front;
          back = first.back;
          split = ap (λ l. item ∷ l) first.split;
          type_is = first.type_is;
          others = (eq-ne item.nla_type t other, first.others);
        },
      )
      go (inr (absent, all)) (inr other) = inr (rw other absent, (eq-ne item.nla_type t other, all))

  -- Where `eq` decides equality of types, `get_attribute` gives the first attribute of the type, and
  -- nothing only when there is none.
  pub get_attribute_cases :
      (self : AttrHandle T) (t : T)
      → ((a : Nlattr T (List ℕ)) × (get_attribute eq self t ≡ some a)
          × IsFirst t (get_slice self) a)
        ⊎ ((get_attribute eq self t ≡ none) × All (λ x. x.nla_type ≢ t) (get_slice self))
  unfolding get_attribute
  get_attribute_cases self t = find_cases t (get_slice self)

  ne-eq : (x y : T) → x ≢ y → eq x y ≡ false
  ne-eq x y h = elim (Bool-cases (eq x y)) [ inl e ↦ absurd (h ((eq_iff x y).0 e)) | inr e ↦ e ]

  find_mut-split :
      (t : T) (front : List (Nlattr T (List ℕ))) (a : Nlattr T (List ℕ))
      (back : List (Nlattr T (List ℕ)))
      → a.nla_type ≡ t
      → All (λ x. x.nla_type ≢ t) front
      → (put : Nlattr T (List ℕ) → List (Nlattr T (List ℕ))) × (find_mut eq t (front ++ (a ∷ back))
          ≡ some (a, put))
        × ((fresh : Nlattr T (List ℕ)) → put fresh ≡ front ++ (fresh ∷ back))
  unfolding find_mut
  find_mut-split t [] a back e others =
      (λ fresh. fresh ∷ back, rw ((eq_iff a.nla_type t).1 e), λ fresh. refl)
  find_mut-split t (x ∷ front) a back e (other, others) =
      let (put, found, written) = find_mut-split t front a back e others in
      (
        λ fresh. x ∷ put fresh,
        rw (ne-eq x.nla_type t other) (ap (past x) found),
        λ fresh. ap (λ l. x ∷ l) (written fresh),
      )

  -- Where `eq` decides equality of types and `a` is the first attribute of the type: on an owned vector
  -- the reference is to the attribute that `get_attribute` gives, and a write
  -- through it changes that attribute alone; on a borrowed slice there is none.
  pub get_attribute_mut_lem :
      (items : List (Nlattr T (List ℕ))) (t : T) (a : Nlattr T (List ℕ))
      → (first : IsFirst t items a)
      → ((put : Nlattr T (List ℕ) → List (Nlattr T (List ℕ))) × (get_attribute_mut eq
              (owned items)
              t
            ≡ some (a, put))
          × ((fresh : Nlattr T (List ℕ)) → put fresh ≡ first.front ++ (fresh ∷ first.back)))
        × (get_attribute_mut eq (borrowed items) t ≡ none)
  unfolding get_attribute_mut
  get_attribute_mut_lem items t a first =
      (rw first.split (find_mut-split t first.front a first.back first.type_is first.others), refl)

module _ ⦃c : Libc⦄ ⦃b : Buffering⦄ {S : Type 0} {s : Nl S} {w : ℕ} (sl : Fixed s w) where
  pub nested_of-bytes_all :
      (xs : List (Nlattr S (List ℕ)))
      → All (IsValid sl vec_laws) xs
      → nested_of s (bytes_all sl vec_laws xs) ≡ ok (owned xs)
  unfolding nested_of new
  nested_of-bytes_all xs v =
      rw (b.new_read_lem (bytes_all sl vec_laws xs))
        (rw (deserialize_all_unhinted sl vec_laws xs [] v))

module _ ⦃c : Libc⦄ ⦃b : Buffering⦄ {T S : Type 0} {t : Nl T} {s : Nl S} {w w' : ℕ} (tl : Fixed t w)
    (sl : Fixed s w') where
  -- Adding attributes one after the other.
  pub add_all : List (Nlattr S (List ℕ)) → Builds T Unit
  add_all [] self = (ok tt, self)
  add_all (x ∷ xs) self = (add_nested_attribute t s vec_u8 x >>= λ _. add_all xs) self

  abbrev pub with_all : List (Nlattr S (List ℕ)) → Nlattr T (List ℕ) → Nlattr T (List ℕ)
  with_all xs self = record {
    nla_len = self.nla_len + Nlattr.asize_all s vec_u8 xs;
    nla_type = self.nla_type;
    payload = self.payload ++ bytes_all sl vec_laws xs;
  }

  with_all-nested :
      (x : Nlattr S (List ℕ)) (xs : List (Nlattr S (List ℕ))) (self : Nlattr T (List ℕ))
      → with_all xs (nested tl sl vec_laws x self) ≡ with_all (x ∷ xs) self
  unfolding nested bytes_all Nlattr.asize_all
  with_all-nested x xs self =
      let lens = add_assoc self.nla_len (Nlattr.asize s vec_u8 x) (Nlattr.asize_all s vec_u8 xs) in
      let payloads =
        append_assoc self.payload (RoundTrip.bytes sl vec_laws x) (bytes_all sl vec_laws xs) in
      λ i. record { nla_len = lens i; nla_type = self.nla_type; payload = payloads i }

  add_all_lem :
      (xs : List (Nlattr S (List ℕ))) (self : Nlattr T (List ℕ))
      → All (IsValid sl vec_laws) xs
      → self.nla_len + Nlattr.asize_all s vec_u8 xs < 2 ^ 16
      → add_all xs self ≡ (ok tt, with_all xs self)
  unfolding add_all bytes_all Nlattr.asize_all ◌>>=◌
  add_all_lem [] self v fits = λ i. (
    ok tt,
    record {
      nla_len = sym (add-zero self.nla_len) i;
      nla_type = self.nla_type;
      payload = sym (append-nil self.payload) i;
    },
  )
  add_all_lem (x ∷ xs) self (vx, vs) fits =
      rw (add_nested_attribute_lem {t = t} tl sl vec_laws x self vx (omega arith)) (
        rw (add_all_lem xs (nested tl sl vec_laws x self) vs (unfold nested in omega arith))
          (ap (λ q. (ok tt, q)) (with_all-nested x xs self)))

  -- Well-formed attributes of bytes added one after the other to an attribute with an empty payload,
  -- where the length that results fits 16 bits, are read back as they were, and the length has grown
  -- by their aligned sizes.
  pub get_nested_attributes-add_all :
      (xs : List (Nlattr S (List ℕ))) (self : Nlattr T (List ℕ))
      → self.payload ≡ []
      → All (IsValid sl vec_laws) xs
      → self.nla_len + Nlattr.asize_all s vec_u8 xs < 2 ^ 16
      → ((add_all xs self).0 ≡ ok tt)
        × ((add_all xs self).1.nla_len ≡ self.nla_len + Nlattr.asize_all s vec_u8 xs)
        × (nested_of s (add_all xs self).1.payload ≡ ok (owned xs))
  get_nested_attributes-add_all xs self empty v fits =
      rw (add_all_lem xs self v fits) (refl, refl, rw empty (nested_of-bytes_all sl xs v))
