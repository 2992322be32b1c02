-- ===== src/Nlmsghdr/AnyBytes.antt =====
-- A message read from any bytes.
use neli.Base.{ℕ, ◌+◌, ◌-◌, ◌^◌, ◌≤◌, ◌<◌, ◌≡◌, refl, arith, Option}
use neli.Buffering.{Libc, Buffering}
use neli.Nl.{Nl, alignto}
use neli.Nl.Ends.{Ends-bind, Ends-pure, Ends-uint, Ends-strip, Ends-checked_sub}
use neli.Nl.Stops.{Stops, of_Ends, Stops-bind, Stops-silent, FixedAny, PayloadAny}
use neli.Nl.Padding.{alignto_bounds}
use neli.Nl.Laws.{Fixed, Payload}
use neli.Consts.Messages.{nlm_f}
use neli.Flags.{flags_from}
use neli.Flags.Laws.{AreFlags}
use neli.Nlmsghdr
use neli.Nlmsghdr.{Nlmsghdr}
use neli.Nlmsghdr.RoundTrip.{IsValid}

module _ ⦃c : Libc⦄ ⦃b : Buffering⦄ {T P X : Type 0} {t : Nl T} {p : Nl P} {tl : Fixed t 2}
    {pl : Payload p} (ta : FixedAny tl) (pa : PayloadAny X pl) where
  -- What holds of a message that was read with `left` bytes before it, and `left'` after it: it is
  -- well formed, and what was read is the 16 bytes of its header and more, and at most its `asize`.
  pub record IsMessage (left : ℕ) (self : Nlmsghdr T P) (left' : ℕ) : Type 0 where
    pub message_IsValid : IsValid tl pl self
    pub at_least : left' + 16 ≤ left
    pub at_most : left ≤ left' + Nlmsghdr.asize t p self

  read-IsMessage :
      (len d flags seq pid : ℕ) (ty : T) (payload : P) (left6 left7 left : ℕ)
      → (len < 2 ^ 32) × (flags < 2 ^ 16) × (seq < 2 ^ 32) × (pid < 2 ^ 32)
      → tl.IsValid ty
      → pl.IsValid payload
      → d + (4 + t.size ty + 2 + 4 + 4) ≡ len
      → p.size payload ≡ d
      → (left6 + 16 ≤ left) × (left ≤ left6 + 16 + d)
      → left7
          + (alignto (4 + t.size ty + 2 + 4 + 4 + p.size payload)
              - (4 + t.size ty + 2 + 4 + 4 + p.size payload))
        ≡ left6
      → IsMessage left
          (record {
            nl_len = len;
            nl_type = ty;
            nl_flags = flags_from nlm_f 16 0 flags;
            nl_seq = seq;
            nl_pid = pid;
            nl_payload = payload;
          })
          left7
  unfolding Nlmsghdr.size
  read-IsMessage len d flags seq pid ty payload left6 left7 left fits tv pv sum sized bounds used =
      let aligned = alignto_bounds (4 + t.size ty + 2 + 4 + 4 + p.size payload) (omega arith) in
      let word : AreFlags nlm_f 16 (flags_from nlm_f 16 0 flags) = record {
        word = flags;
        word_fits = fits.1;
        split = refl;
      } in
      record {
        message_IsValid = record {
          len_is_size = omega arith;
          len_fits = fits.0;
          type_IsValid = tv;
          flags_AreFlags = word;
          seq_fits = fits.2;
          pid_fits = fits.3;
          payload_IsValid = pv;
        };
        at_least = omega (arith, aligned);
        at_most = omega (arith, aligned, tl.sized ty);
      }

  -- On any bytes, with any hint, reading a message of a type two bytes wide, whose type and payload are
  -- valid whenever they are read and the payload of the size of its hint, ends in an error, or in a
  -- well-formed message, of which at least the 16 bytes of the header and at most `asize` bytes are
  -- taken from the buffer; it panics only where reading the payload may.
  pub nlmsghdr-IsMessage :
      (h : Option ℕ) (left : ℕ)
      → Stops X (Nlmsghdr.deserialize t p) h left (λ self h'. IsMessage left self)
  unfolding Nlmsghdr.deserialize Nlmsghdr.size
  nlmsghdr-IsMessage h left =
      Stops-bind _ _ (of_Ends (Ends-uint 4 h left)) λ len h1 left1 (len_fits, same1, used1).
        Stops-bind _ _ (of_Ends (ta.read h1 left1)) λ ty h2 left2 (tv, same2, used2).
          Stops-bind _ _ (of_Ends (Ends-uint 2 h2 left2)) λ flags h3 left3 (ff, same3, used3).
            Stops-bind _ _ (of_Ends (Ends-uint 4 h3 left3)) λ seq h4 left4 (fs, same4, used4).
              Stops-bind _ _ (of_Ends (Ends-uint 4 h4 left4)) λ pid h5 left5 (fp, same5, used5).
                Stops-bind _ _
                  (of_Ends (Ends-checked_sub len (4 + t.size ty + 2 + 4 + 4) _ h5 left5))
                  λ d h6 left6 (sum, same6, used6).
                    Stops-silent _ _ tt (λ f r. rw (b.set_size_hint_lem f r h6 d))
                      (Stops-bind _ _ (pa.read d left6 (omega arith))
                        λ payload h7 left7 (pv, sized, less, most). of_Ends (
                          Ends-bind _ _
                            (Ends-strip (4 + t.size ty + 2 + 4 + 4 + p.size payload) (omega arith)
                              h7 left7)
                            λ u h8 left8 (same8, used8). Ends-pure _ (
                              read-IsMessage len d flags seq pid ty payload left7 left8 left
                                (len_fits, ff, fs, fp) tv pv sum sized (omega arith) used8)))
