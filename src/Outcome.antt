-- ===== src/Outcome.antt =====
-- How a call ends, and calls that change a buffer. Rust's `Result` is `ok` and `err`; `panic` is a
-- failed slice, an arithmetic overflow or `unimplemented!`; `out_of_fuel` has no counterpart in
-- the program. The state comes back beside each outcome, since a buffer that was read or written
-- before an error stays so.
use neli.Base.{◌≡◌, Option, none, some, ℕ, ◌-◌, leb, if◌then◌else◌}

pub data Result {ℓ} (E A : Type ℓ) : Type ℓ where
  ok : A → Result E A
  err : E → Result E A
  panic : Result E A
  out_of_fuel : Result E A

abbrev pub map_err {ℓ} : {E F A : Type ℓ} → (E → F) → Result E A → Result F A
map_err f (ok a) = ok a
map_err f (err e) = err (f e)
map_err f panic = panic
map_err f out_of_fuel = out_of_fuel

abbrev pub bind {ℓ} : {E A B : Type ℓ} → Result E A → (A → Result E B) → Result E B
bind (ok a) f = f a
bind (err e) f = err e
bind panic f = panic
bind out_of_fuel f = out_of_fuel

-- A call that may fail and that changes a state `S`.
abbrev pub Exec {ℓ} : Type ℓ → Type ℓ → Type ℓ → Type ℓ
Exec S E A = S → Result E A × S

abbrev pub pure {ℓ} : {S E A : Type ℓ} → A → Exec S E A
pure a s = (ok a, s)

abbrev pub throw {ℓ} : {S E A : Type ℓ} → E → Exec S E A
throw e s = (err e, s)

abbrev pub abort {ℓ} : {S E A : Type ℓ} → Exec S E A
abort s = (panic, s)

abbrev pub continue {ℓ} : {S E A B : Type ℓ} → Result E A → (A → Exec S E B) → Exec S E B
continue (ok a) f s = f a s
continue (err e) f s = (err e, s)
continue panic f s = (panic, s)
continue out_of_fuel f s = (out_of_fuel, s)

infixl 5 ◌>>=◌ ◌>>◌
-- Shut, so that the rules for runs find the parts of a block.
unfoldable pub ◌>>=◌ {ℓ} : {S E A B : Type ℓ} → Exec S E A → (A → Exec S E B) → Exec S E B
◌>>=◌ m f s = let (r, s') = m s in continue r f s'

abbrev pub ◌>>◌ {ℓ} : {S E A B : Type ℓ} → Exec S E A → Exec S E B → Exec S E B
m >> k = m >>= λ _. k

-- `?` where the error type changes.
abbrev pub convert {ℓ} : {S E F A : Type ℓ} → (E → F) → Exec S E A → Exec S F A
convert f m s = let (r, s') = m s in (map_err f r, s')

abbrev pub modify {ℓ} : {S E : Type ℓ} → (S → S) → Exec S E (Unit {ℓ})
modify f s = (ok tt, f s)

abbrev pub lift {ℓ} : {S E A : Type ℓ} → Result E A → Exec S E A
lift r s = (r, s)

-- `a - b` on `usize`, built with overflow checks.
abbrev pub sub_or_panic : {S E : Type 0} → ℕ → ℕ → Exec S E ℕ
sub_or_panic a b = if leb b a then pure (a - b) else abort

-- `usize::checked_sub`
abbrev pub checked_sub : ℕ → ℕ → Option ℕ
checked_sub a b = if leb b a then some (a - b) else none

-- `Option::ok_or_else`
abbrev pub ok_or {ℓ} : {S E A : Type ℓ} → Option A → E → Exec S E A
ok_or (some a) e = pure a
ok_or none e = throw e

-- What holds after a call: `Q` of the value and the state, or `X` of the state where there is none.
abbrev pub After {ℓ} : {S E A : Type ℓ} → Result E A × S → (A → S → Type ℓ) → (S → Type ℓ) → Type ℓ
After (ok a, s) Q X = Q a s
After (err e, s) Q X = X s
After (panic, s) Q X = X s
After (out_of_fuel, s) Q X = X s

-- What holds of the state alone.
pub After-state {ℓ} :
    {S E A : Type ℓ} (q : Result E A × S) (P : S → Type ℓ) → P q.1 → After q (λ _. P) P
After-state (ok a, s) P holds = holds
After-state (err e, s) P holds = holds
After-state (panic, s) P holds = holds
After-state (out_of_fuel, s) P holds = holds

pub After-all {ℓ} :
    {S E A : Type ℓ} {Q : A → S → Type ℓ} {X : S → Type ℓ} (q : Result E A × S) (P : S → Type ℓ)
    → After q Q X
    → ((a : A) (s : S) → Q a s → P s)
    → ((s : S) → X s → P s)
    → P q.1
After-all (ok a, s) P holds on_value otherwise = on_value a s holds
After-all (err e, s) P holds on_value otherwise = otherwise s holds
After-all (panic, s) P holds on_value otherwise = otherwise s holds
After-all (out_of_fuel, s) P holds on_value otherwise = otherwise s holds

pub record Ensures {ℓ} {S E A : Type ℓ} (m : Exec S E A) (s : S) (Q : A → S → Type ℓ)
    (X : S → Type ℓ) : Type ℓ where
  pub after : After (m s) Q X

continued {ℓ} :
    {S E A B : Type ℓ} (k : A → Exec S E B) (Q : A → S → Type ℓ) (R : B → S → Type ℓ)
    (X : S → Type ℓ)
    → ((a : A) (s : S) → Q a s → Ensures (k a) s R X)
    → (q : Result E A × S) → After q Q X
    → After (continue q.0 k q.1) R X
continued k Q R X next (ok a, s) holds = (next a s holds).after
continued k Q R X next (err e, s) holds = holds
continued k Q R X next (panic, s) holds = holds
continued k Q R X next (out_of_fuel, s) holds = holds

pub Ensures-bind {ℓ} :
    {S E A B : Type ℓ} (m : Exec S E A) (k : A → Exec S E B) {s : S} {Q : A → S → Type ℓ}
    {R : B → S → Type ℓ} {X : S → Type ℓ}
    → Ensures m s Q X
    → ((a : A) (s' : S) → Q a s' → Ensures (k a) s' R X)
    → Ensures (m >>= k) s R X
unfolding ◌>>=◌
Ensures-bind m k {s} {Q} {R} {X} first next = record {
  after = continued k Q R X next (m s) first.after;
}

-- A step that gives a value and a state whatever the rest does.
pub Ensures-step {ℓ} :
    {S E A B : Type ℓ} (m : Exec S E A) (k : A → Exec S E B) {s : S} (a : A) (s' : S)
    {R : B → S → Type ℓ} {X : S → Type ℓ}
    → m s ≡ (ok a, s')
    → Ensures (k a) s' R X
    → Ensures (m >>= k) s R X
unfolding ◌>>=◌
Ensures-step m k a s' step next = record { after = rw step (next.after) }
