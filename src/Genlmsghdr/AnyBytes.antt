-- ===== src/Genlmsghdr/AnyBytes.antt =====
-- A generic netlink payload read from any bytes.
use neli.Base.{ℕ, ◌+◌, ◌-◌, ◌^◌, ◌≤◌, ◌<◌, ◌≡◌, arith, none, some, List}
use neli.Buffering.{Libc, Buffering}
use neli.Nl.{Nl, alignto}
use neli.Nl.Ends.{Ends-bind, Ends-pure, Ends-uint, Ends-strip}
use neli.Nl.Stops.{
  Stops, of_Ends, Stops-bind, Stops-silent, Stops-sub, FixedAny, PayloadAny, vec_any,
}
use neli.Nl.Bytes.{vec_u8}
use neli.Nl.Laws.{Fixed}
use neli.Nlattr
use neli.Nlattr.{Nlattr}
use neli.Nlattr.Total.{AreAttributes, nlattrs_total}
use neli.Genlmsghdr
use neli.Genlmsghdr.{Genlmsghdr}
use neli.Genlmsghdr.RoundTrip.{IsValid, size_aligned, genl_laws}

module _ ⦃c : Libc⦄ ⦃b : Buffering⦄ {C T : Type 0} {k : Nl C} {t : Nl T} {kl : Fixed k 1}
    {tl : Fixed t 2} (ka : FixedAny kl) (ta : FixedAny tl) where
  -- What holds of a payload that was read with the hint `n` and `left` bytes before it, and `left'`
  -- after it: it is well formed and of the size that the hint says.
  abbrev pub IsPayload : ℕ → ℕ → Genlmsghdr C T → ℕ → Type 0
  IsPayload n left self left' =
      IsValid kl tl self × (Genlmsghdr.size k t self ≡ n) × (left' ≤ left) × (left ≤ left' + n)

  read-IsPayload :
      (cmd : C) (version reserved n d : ℕ) (attrs : List (Nlattr T (List ℕ)))
      (left3 left4 left5 left : ℕ)
      → n < 2 ^ 32
      → kl.IsValid cmd
      → (version < 2 ^ 8) × (reserved < 2 ^ 16)
      → AreAttributes ta vec_any (some d) left3 attrs left4
      → d + (k.size cmd + 1 + 2) ≡ n
      → left3 + 4 ≡ left
      → left5
          + (alignto (k.size cmd + 1 + 2 + Nlattr.asize_all t vec_u8 attrs)
              - (k.size cmd + 1 + 2 + Nlattr.asize_all t vec_u8 attrs))
        ≡ left4
      → IsPayload n left
          (record { cmd = cmd; version = version; reserved = reserved; attrs = attrs })
          left5
  unfolding Genlmsghdr.size
  read-IsPayload cmd version reserved n d attrs left3 left4 left5 left small kv fits av sum used
        used5 =
      let self : Genlmsghdr C T = record {
        cmd = cmd;
        version = version;
        reserved = reserved;
        attrs = attrs;
      } in
      let size : k.size cmd + 1 + 2 + Nlattr.asize_all t vec_u8 attrs ≡ n =
        omega (arith, av.sums) in
      let valid : IsValid kl tl self = record {
        cmd_IsValid = kv;
        version_fits = fits.0;
        reserved_fits = fits.1;
        attrs_IsValid = av.attributes_IsValid;
        IsSmall_size = omega arith;
      } in
      let aligned = size_aligned kl tl self valid in
      (
        valid,
        size,
        omega (arith, av.less),
        omega (arith, aligned, av.at_most, av.sums, kl.sized cmd),
      )

  -- On any bytes, with a hint below 2 ^ 32, as a message gives it, reading a generic payload whose
  -- command and attribute types are valid whenever they are read panics, or ends in an error, or in a
  -- well-formed payload of just the size of the hint, of which no more than these bytes are taken from
  -- the buffer.
  pub genlmsghdr-IsPayload :
      (n left : ℕ)
      → n < 2 ^ 32
      → Stops Unit (Genlmsghdr.deserialize k t) (some n) left (λ self h. IsPayload n left self)
  unfolding Genlmsghdr.deserialize Genlmsghdr.size
  genlmsghdr-IsPayload n left small =
      Stops-bind _ _ (of_Ends (ka.read (some n) left)) λ cmd h1 left1 (kv, same1, used1).
        Stops-bind _ _ (of_Ends (Ends-uint 1 h1 left1)) λ version h2 left2 (vf, same2, used2).
          Stops-bind _ _ (of_Ends (Ends-uint 2 h2 left2)) λ reserved h3 left3 (rf, same3, used3).
            Stops-silent _ _ (some n) {h' = none}
              (λ f r. rw (same3, same2, same1, b.take_size_hint_lem f r (some n)))
              (Stops-bind _ _ (Stops-sub n (k.size cmd + 1 + 2) none left3)
                λ d h4 left4 (sum, same4, used4).
                  Stops-silent _ _ tt (λ f r. rw (b.set_size_hint_lem f r h4 d))
                    (Stops-bind _ _ (nlattrs_total ta vec_any (some d) left4) λ attrs h5 left5 av.
                      of_Ends (
                        Ends-bind _ _
                          (Ends-strip (k.size cmd + 1 + 2 + Nlattr.asize_all t vec_u8 attrs)
                            (omega (arith, av.sums)) h5 left5)
                          λ u h6 left6 (same6, used6). Ends-pure _ (
                            read-IsPayload cmd version reserved n d attrs left4 left5 left6 left
                              small kv (vf, rf) av sum (omega arith) used6))))

  pub genl_any : PayloadAny Unit (genl_laws kl tl)
  genl_any = record { read = genlmsghdr-IsPayload }
