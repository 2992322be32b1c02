-- ===== src/Rtnl/Rtattr/Errors.antt =====
-- Routing attributes whose length field does not cover their header.
use neli.Base.{ℕ, ◌+◌, ◌<◌, ◌≡◌, arith, lt→leb_false}
use neli.Base.{Option, [], ◌++◌}
use neli.Outcome.{err, checked_sub, ok_or}
use neli.Buffering.{Libc, Buffering}
use neli.Nl.{Nl}
use neli.Nl.Runs.{Fails, error, Fails-bind, Fails-first}
use neli.Nl.Uint.{Reads-uint}
use neli.Nl.Laws.{Fixed}
use neli.Rtnl.Rtattr
use neli.Rtnl.Rtattr.{Rtattr, Rtattrs, invalid_size}

module _ ⦃c : Libc⦄ ⦃b : Buffering⦄ {T P : Type 0} {t : Nl T} (p : Nl P) (tl : Fixed t 2) where
  -- A length below the 4 bytes of the header, with a valid type, is an error that names the length,
  -- whatever the hint and whatever follows the header.
  pub rtattr_short :
      (len : ℕ) (ty : T) (h : Option ℕ)
      → len < 4
      → tl.IsValid ty
      → Fails
          (Rtattr.deserialize t p)
          h
          (b.encode 2 len ++ (tl.bytes ty ++ []))
          (error (invalid_size len))
  unfolding Rtattr.deserialize
  rtattr_short len ty h short v =
      Fails-bind _ _ (Reads-uint 2 len h (omega arith))
        (Fails-bind _ _ (tl.reads ty h v) (Fails-first _ _ (record { at = λ f r. too_small _ })))
    where
      too_small :
          {S : Type 0} (s : S)
          → (ok_or (checked_sub len (2 + t.size ty)) (invalid_size len) s).0
            ≡ err (invalid_size len)
      too_small s = rw (lt→leb_false (2 + t.size ty) len (omega (arith, tl.sized ty)))
