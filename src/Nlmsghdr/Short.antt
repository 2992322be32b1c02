-- ===== src/Nlmsghdr/Short.antt =====
-- A message read where there are too few bytes for its payload.
use neli.Base.{ℕ, ◌+◌, ◌<◌, arith, Option, some}
use neli.Buffering.{Libc, Buffering}
use neli.Nl.{Nl}
use neli.Nl.Ends.{Ends, Nothing, Ends-bind, Ends-silent, Ends-uint, Ends-checked_sub}
use neli.Nl.Uint.{u16}
use neli.Nlmsghdr

module _ ⦃c : Libc⦄ ⦃b : Buffering⦄ {P : Type 0} (p : Nl P) (least : ℕ)
    (short : (n left : ℕ) → left < least → Ends p.deserialize (some n) left Nothing) where
  pub nlmsghdr_short_payload :
      (h : Option ℕ) (left : ℕ)
      → left < 16 + least
      → Ends (Nlmsghdr.deserialize u16 p) h left Nothing
  unfolding Nlmsghdr.deserialize
  nlmsghdr_short_payload h left few = Ends-bind _ _ (Ends-uint 4 h left) λ len h0 l0 (v0, s0, u0).
      Ends-bind _ _ (Ends-uint 2 h0 l0) λ ty h1 l1 (v1, s1, u1).
        Ends-bind _ _ (Ends-uint 2 h1 l1) λ flags h2 l2 (v2, s2, u2).
          Ends-bind _ _ (Ends-uint 4 h2 l2) λ seq h3 l3 (v3, s3, u3).
            Ends-bind _ _ (Ends-uint 4 h3 l3) λ pid h4 l4 (v4, s4, u4).
              Ends-bind _ _ (Ends-checked_sub len 16 _ h4 l4) λ d h5 l5 (sum, s5, u5).
                Ends-silent _ _ tt (λ f r. rw (b.set_size_hint_lem f r h5 d))
                  (Ends-bind _ _ (short d l5 (omega arith)) λ payload h6 l6 nothing. absurd nothing)
