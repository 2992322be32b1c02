-- ===== src/Nl/Runs.antt =====
-- Runs that succeed, and the rules for putting them together: what is written is appended, and what
-- is read is taken off the front.
use neli.Base.{ℕ, ◌≡◌, Option, none, List, [], ◌++◌, length}
use neli.Base.{drop, drop-length_append, append_assoc, append-nil}
use neli.Err.{DeError}
use neli.Outcome.{Result, err, panic, ok, pure, continue, ◌>>=◌, ◌>>◌}
use neli.Buffering.{Buffering}
use neli.Nl.{WritesBuffer, ReadsBuffer}

module _ ⦃b : Buffering⦄ where
  -- `m` writes `xs` at the position, over as many bytes.
  pub record Writes (m : WritesBuffer Unit) (xs : List ℕ) : Type 0 where
    pub at :
        (f r : List ℕ)
        → m (b.writer f r none) ≡ (ok tt, b.writer (f ++ xs) (drop (length xs) r) none)

  -- With hint `h`, `m` reads `xs` as `a` and leaves the hint `h'`, whatever follows `xs`.
  pub record Reads {A : Type 0} (m : ReadsBuffer A) (h : Option ℕ) (xs : List ℕ) (a : A)
      (h' : Option ℕ) : Type 0 where
    pub at : (f r : List ℕ) → m (b.reader f (xs ++ r) h) ≡ (ok a, b.reader (f ++ xs) r h')

  pub Writes-nil : Writes (pure tt) []
  Writes-nil = record { at = λ f r. rw append-nil }

  pub Writes-bind :
      {A : Type 0} (m : WritesBuffer A) (k : A → WritesBuffer Unit) {xs ys : List ℕ} {a : A}
      → ((f r : List ℕ)
          → m (b.writer f r none) ≡ (ok a, b.writer (f ++ xs) (drop (length xs) r) none))
      → Writes (k a) ys
      → Writes (m >>= k) (xs ++ ys)
  unfolding ◌>>=◌
  Writes-bind m k {xs} {ys} wm wk = record {
    at = λ f r.
        rw (wm f r) (
          rw (wk.at (f ++ xs) (drop (length xs) r))
            (rw (append_assoc, drop-length_append xs ys r)));
  }

  pub Writes-then :
      (m k : WritesBuffer Unit) {xs ys : List ℕ}
      → Writes m xs
      → Writes k ys
      → Writes (m >> k) (xs ++ ys)
  Writes-then m k wm wk = Writes-bind m (λ _. k) (λ f r. wm.at f r) wk

  -- A block that ends in `Ok(())`.
  pub Writes-last : (m : WritesBuffer Unit) {xs : List ℕ} → Writes m xs → Writes (m >> pure tt) xs
  unfolding ◌>>=◌
  Writes-last m wm = record { at = λ f r. rw (wm.at f r) }

  -- A step that writes nothing.
  pub Writes-silent :
      {A : Type 0} (m : WritesBuffer A) (k : A → WritesBuffer Unit) (a : A) {ys : List ℕ}
      → ((f r : List ℕ) → m (b.writer f r none) ≡ (ok a, b.writer f r none))
      → Writes (k a) ys
      → Writes (m >>= k) ys
  unfolding ◌>>=◌
  Writes-silent m k a quiet wk = record { at = λ f r. rw (quiet f r) (wk.at f r) }

  pub Reads-pure : {A : Type 0} {h : Option ℕ} (a : A) → Reads (pure a) h [] a h
  Reads-pure a = record { at = λ f r. rw append-nil }

  pub Reads-bind :
      {A B : Type 0} (m : ReadsBuffer A) (k : A → ReadsBuffer B) {h h' h'' : Option ℕ}
      {xs ys : List ℕ} {a : A} {v : B}
      → Reads m h xs a h'
      → Reads (k a) h' ys v h''
      → Reads (m >>= k) h (xs ++ ys) v h''
  unfolding ◌>>=◌
  Reads-bind m k {xs} {ys} rm rk = record {
    at = λ f r. rw append_assoc (rw (rm.at f (ys ++ r)) (rw (rk.at (f ++ xs) r) (rw append_assoc)));
  }

  -- The last read of a block, whose result goes into the value that is returned.
  pub Reads-last :
      {A B : Type 0} (m : ReadsBuffer A) (k : A → ReadsBuffer B) {h h' h'' : Option ℕ} {xs : List ℕ}
      {a : A} {v : B}
      → Reads m h xs a h'
      → Reads (k a) h' [] v h''
      → Reads (m >>= k) h xs v h''
  Reads-last m k rm rk = rw append-nil at (Reads-bind m k rm rk)

  -- A step that reads nothing.
  pub Reads-silent :
      {A B : Type 0} (m : ReadsBuffer A) (k : A → ReadsBuffer B) (a : A) {h h' h'' : Option ℕ}
      {ys : List ℕ} {v : B}
      → ((f r : List ℕ) → m (b.reader f r h) ≡ (ok a, b.reader f r h'))
      → Reads (k a) h' ys v h''
      → Reads (m >>= k) h ys v h''
  unfolding ◌>>=◌
  Reads-silent m k a {ys} quiet rk = record { at = λ f r. rw (quiet f (ys ++ r)) (rk.at f r) }

-- How a run ends without a value.
pub data Failure : Type 0 where
  error : DeError → Failure
  panicking : Failure

abbrev pub ended : {A : Type 0} → Failure → Result DeError A
ended (error e) = err e
ended panicking = panic

module _ ⦃b : Buffering⦄ where
  -- With hint `h`, `m` ends so once it has met `xs`, whatever follows.
  pub record Fails {A : Type 0} (m : ReadsBuffer A) (h : Option ℕ) (xs : List ℕ) (o : Failure)
      : Type 0 where
    pub at : (f r : List ℕ) → (m (b.reader f (xs ++ r) h)).0 ≡ ended o

  failed-continue :
      {A B : Type 0} (q : Result DeError A × b.ReadBuffer) (k : A → ReadsBuffer B) (o : Failure)
      → q.0 ≡ ended o
      → (continue q.0 k q.1).0 ≡ ended o
  failed-continue q k (error e) h = rw h
  failed-continue q k panicking h = rw h

  pub Fails-first :
      {A B : Type 0} (m : ReadsBuffer A) (k : A → ReadsBuffer B) {h : Option ℕ} {xs : List ℕ}
      {o : Failure}
      → Fails m h xs o
      → Fails (m >>= k) h xs o
  unfolding ◌>>=◌
  Fails-first m k {h} {xs} {o} fm = record {
    at = λ f r. failed-continue (m (b.reader f (xs ++ r) h)) k o (fm.at f r);
  }

  pub Fails-bind :
      {A B : Type 0} (m : ReadsBuffer A) (k : A → ReadsBuffer B) {h h' : Option ℕ} {xs ys : List ℕ}
      {a : A} {o : Failure}
      → Reads m h xs a h'
      → Fails (k a) h' ys o
      → Fails (m >>= k) h (xs ++ ys) o
  unfolding ◌>>=◌
  Fails-bind m k {xs} {ys} rm fk = record {
    at = λ f r. rw append_assoc (rw (rm.at f (ys ++ r)) (fk.at (f ++ xs) r));
  }

  pub Fails-silent :
      {A B : Type 0} (m : ReadsBuffer A) (k : A → ReadsBuffer B) (a : A) {h h' : Option ℕ}
      {ys : List ℕ} {o : Failure}
      → ((f r : List ℕ) → m (b.reader f r h) ≡ (ok a, b.reader f r h'))
      → Fails (k a) h' ys o
      → Fails (m >>= k) h ys o
  unfolding ◌>>=◌
  Fails-silent m k a {ys} quiet fk = record { at = λ f r. rw (quiet f (ys ++ r)) (fk.at f r) }
