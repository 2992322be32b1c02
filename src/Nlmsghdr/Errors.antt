-- ===== src/Nlmsghdr/Errors.antt =====
-- Messages whose length field does not cover the header.
use neli.Base.{ℕ, ◌+◌, ◌^◌, ◌<◌, ◌≡◌, refl, arith, Option, List, [], ◌++◌, lt→leb_false}
use neli.Outcome.{err, checked_sub, ok_or, ◌>>=◌}
use neli.Err.{de_error, de_of_io}
use neli.Buffering.{Libc, Buffering}
use neli.Nl.{Nl}
use neli.Nl.Runs.{Fails, error, Fails-bind, Fails-first}
use neli.Nl.Uint.{Reads-uint, deserialize_uint_short}
use neli.Nl.Laws.{Fixed}
use neli.Nlmsghdr
use neli.Nlmsghdr.{short_packet}

module _ ⦃c : Libc⦄ ⦃b : Buffering⦄ {T P : Type 0} {t : Nl T} (p : Nl P) (tl : Fixed t 2) where
  -- A message that reports less than the 16 bytes of its header, whose other fields are valid, is an
  -- error, whatever the hint and whatever follows the header.
  pub nlmsghdr_short :
      (len flags seq pid : ℕ) (ty : T) (h : Option ℕ)
      → len < 16
      → flags < 2 ^ 16
      → seq < 2 ^ 32
      → pid < 2 ^ 32
      → tl.IsValid ty
      → Fails
          (Nlmsghdr.deserialize t p)
          h
          (b.encode 4 len
            ++ (tl.bytes ty ++ (b.encode 2 flags ++ (b.encode 4 seq ++ (b.encode 4 pid ++ [])))))
          (error (de_error short_packet))
  unfolding Nlmsghdr.deserialize
  nlmsghdr_short len flags seq pid ty h short ff fs fp vt =
      Fails-bind _ _ (Reads-uint 4 len h (omega arith)) (
        Fails-bind _ _ (tl.reads ty h vt) (
          Fails-bind _ _ (Reads-uint 2 flags h ff) (
            Fails-bind _ _ (Reads-uint 4 seq h fs) (
              Fails-bind _ _ (Reads-uint 4 pid h fp)
                (Fails-first _ _ (record { at = λ f r. too_small _ }))))))
    where
      too_small :
          {S : Type 0} (s : S)
          → (ok_or (checked_sub len (4 + t.size ty + 2 + 4 + 4)) (de_error short_packet) s).0
            ≡ err (de_error short_packet)
      too_small s = rw (lt→leb_false (4 + t.size ty + 2 + 4 + 4) len (omega (arith, tl.sized ty)))

module _ ⦃c : Libc⦄ ⦃b : Buffering⦄ {T P : Type 0} (t : Nl T) (p : Nl P) where
  pub nlmsghdr_empty :
      (f : List ℕ) (h : Option ℕ)
      → (Nlmsghdr.deserialize t p (b.reader f [] h)).0 ≡ err (de_of_io b.eof)
  unfolding Nlmsghdr.deserialize ◌>>=◌
  nlmsghdr_empty f h = rw (deserialize_uint_short 4 f [] h (omega arith)) refl
