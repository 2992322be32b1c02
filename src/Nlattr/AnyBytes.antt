-- ===== src/Nlattr/AnyBytes.antt =====
-- An attribute read from any bytes. A length below that of the header panics.
use neli.Base.{ℕ, ◌+◌, ◌-◌, ◌^◌, ◌≤◌, ◌<◌, ◌≡◌, arith, Option}
use neli.Buffering.{Libc, Buffering}
use neli.Nl.{Nl, alignto}
use neli.Nl.Ends.{Ends-bind, Ends-pure, Ends-uint, Ends-strip}
use neli.Nl.Stops.{Stops, of_Ends, Stops-bind, Stops-silent, Stops-sub, FixedAny, PayloadAny}
use neli.Nl.Padding.{alignto_bounds}
use neli.Nl.Laws.{Fixed, Payload}
use neli.Nlattr
use neli.Nlattr.{Nlattr}
use neli.Nlattr.RoundTrip.{IsValid}

module _ ⦃c : Libc⦄ ⦃b : Buffering⦄ {T P : Type 0} {t : Nl T} {p : Nl P} {tl : Fixed t 2}
    {pl : Payload p} (ta : FixedAny tl) (pa : PayloadAny Unit pl) where
  -- What holds of an attribute that was read with `left` bytes before it, and `left'` after it: it is
  -- well formed, and what was read is the four bytes of its header and more, and at most its `asize`.
  pub record IsAttribute (left : ℕ) (self : Nlattr T P) (left' : ℕ) : Type 0 where
    pub attribute_IsValid : IsValid tl pl self
    pub at_least : left' + 4 ≤ left
    pub at_most : left ≤ left' + Nlattr.asize t p self

  read-IsAttribute :
      (len d : ℕ) (ty : T) (payload : P) (left4 left5 left : ℕ)
      → len < 2 ^ 16
      → tl.IsValid ty
      → pl.IsValid payload
      → d + (2 + t.size ty) ≡ len
      → p.size payload ≡ d
      → (left4 + 4 ≤ left) × (left ≤ left4 + 4 + d)
      → left5 + (alignto (2 + t.size ty + p.size payload) - (2 + t.size ty + p.size payload))
        ≡ left4
      → IsAttribute left (record { nla_len = len; nla_type = ty; payload = payload }) left5
  unfolding Nlattr.size
  read-IsAttribute len d ty payload left4 left5 left fits tv pv sum sized bounds used =
      let aligned = alignto_bounds (2 + t.size ty + p.size payload) (omega arith) in
      record {
        attribute_IsValid = record {
          len_is_size = omega arith;
          len_fits = fits;
          type_IsValid = tv;
          payload_IsValid = pv;
        };
        at_least = omega (arith, aligned);
        at_most = omega (arith, aligned, tl.sized ty);
      }

  -- On any bytes, with any hint, reading an attribute of a type two bytes wide panics, or ends in an
  -- error, or in a well-formed attribute, of which at least the 4 bytes of the header and at most
  -- `asize` bytes are taken from the buffer.
  pub nlattr-IsAttribute :
      (h : Option ℕ) (left : ℕ)
      → Stops Unit (Nlattr.deserialize t p) h left (λ self h'. IsAttribute left self)
  unfolding Nlattr.deserialize Nlattr.size
  nlattr-IsAttribute h left =
      Stops-bind _ _ (of_Ends (Ends-uint 2 h left)) λ len h1 left1 (fits, same1, used1).
        Stops-bind _ _ (of_Ends (ta.read h1 left1)) λ ty h2 left2 (tv, same2, used2).
          Stops-bind _ _ (Stops-sub len (2 + t.size ty) h2 left2) λ d h3 left3 (sum, same3, used3).
            Stops-silent _ _ tt (λ f r. rw (b.set_size_hint_lem f r h3 d))
              (Stops-bind _ _ (pa.read d left3 (omega arith))
                λ payload h4 left4 (pv, sized, less, most). of_Ends (
                  Ends-bind _ _ (Ends-strip (2 + t.size ty + p.size payload) (omega arith) h4 left4)
                    λ u h5 left5 (same5, used5). Ends-pure _ (
                      read-IsAttribute len d ty payload left4 left5 left fits tv pv sum sized
                        (omega arith) used5)))
