-- ===== src/Nlattr/Errors.antt =====
-- Attributes whose length field does not cover their header.
use neli.Base.{ℕ, ◌+◌, ◌^◌, ◌<◌, ◌≡◌, arith, Option, [], ◌++◌, lt→leb_false}
use neli.Outcome.{panic, sub_or_panic}
use neli.Err.{DeError}
use neli.Buffering.{Libc, Buffering}
use neli.Nl.{Nl}
use neli.Nl.Runs.{Fails, panicking, Fails-bind, Fails-first}
use neli.Nl.Uint.{Reads-uint}
use neli.Nl.Laws.{Fixed}
use neli.Nlattr

module _ ⦃c : Libc⦄ ⦃b : Buffering⦄ {T P : Type 0} {t : Nl T} {w : ℕ} (p : Nl P)
    (tl : Fixed t w) where
  -- An attribute of valid type whose length is less than that of its header makes `deserialize` panic, on the
  -- subtraction of `usize`s, whatever the hint and whatever follows the header.
  pub nlattr_short :
      (len : ℕ) (ty : T) (h : Option ℕ)
      → len < 2 + w
      → len < 2 ^ 16
      → tl.IsValid ty
      → Fails (Nlattr.deserialize t p) h (b.encode 2 len ++ (tl.bytes ty ++ [])) panicking
  unfolding Nlattr.deserialize
  nlattr_short len ty h short fits v =
      Fails-bind _ _ (Reads-uint 2 len h fits)
        (Fails-bind _ _ (tl.reads ty h v) (Fails-first _ _ (record { at = λ f r. too_small _ })))
    where
      too_small :
          {S : Type 0} (s : S) → (sub_or_panic {E = DeError} len (2 + t.size ty) s).0 ≡ panic
      too_small s = rw (lt→leb_false (2 + t.size ty) len (omega (arith, tl.sized ty)))
