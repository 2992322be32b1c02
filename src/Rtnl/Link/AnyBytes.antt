-- ===== src/Rtnl/Link/AnyBytes.antt =====
-- An interface message read from any bytes.
use neli.Base.{ℕ, ◌+◌, ◌^◌, ◌≤◌, ◌<◌, ◌≡◌, refl, arith, none, some, List}
use neli.Buffering.{Libc, Buffering}
use neli.Nl.Ends.{Ends-pure, Ends-uint, Ends-checked_sub}
use neli.Nl.Stops.{Stops, of_Ends, Stops-bind, Stops-silent, PayloadAny, vec_any}
use neli.Consts.{from_value}
use neli.Flags.{flags_from}
use neli.Flags.Laws.{AreFlags}
use neli.Consts.Laws.{IsEncodable, var_any, from_value-IsEncodable}
use neli.Consts.Rtnl.Families.{RtAddrFamily, rt_addr_family}
use neli.Consts.Rtnl.Interfaces.{Arphrd, arphrd, iff}
use neli.Consts.Rtnl.Links.{Ifla, ifla}
use neli.Rtnl.Rtattr.{Rtattrs}
use neli.Rtnl.Rtattr.Total.{AreAttributes, rtattrs_total}
use neli.Rtnl.Link
use neli.Rtnl.Link.{Ifinfomsg, ifinfomsg}
use neli.Rtnl.Link.RoundTrip.{IsValid, size_lem, ifinfomsg_laws}

module _ ⦃c : Libc⦄ ⦃b : Buffering⦄ where
  -- What holds of a message that was read with the hint `n` and `left` bytes before it, and `left'`
  -- after it: it is well formed and of the size that the hint says.
  abbrev pub IsPayload : ℕ → ℕ → Ifinfomsg → ℕ → Type 0
  IsPayload n left self left' =
      IsValid self × (Link.size self ≡ n) × (left' ≤ left) × (left ≤ left' + n)

  well_formed :
      (family : RtAddrFamily) (kind : Arphrd) (index flags change n d left7 left8 left : ℕ)
      (rtattrs : Rtattrs Ifla (List ℕ))
      → n < 2 ^ 32
      → IsEncodable rt_addr_family family
      → IsEncodable arphrd kind
      → (index < 2 ^ 32) × (flags < 2 ^ 32) × (change < 2 ^ 32)
      → AreAttributes (var_any ifla (λ _. refl)) (vec_any {X = ⊥}) d left7 rtattrs.items left8
      → (d + 16 ≡ n) × (left7 + 16 ≡ left)
      → IsPayload n left
          (Link.new family kind index (flags_from iff 32 0 flags) (from_value iff change) rtattrs)
          left8
  unfolding Link.new
  well_formed family kind index flags change n d left7 left8 left rtattrs small fv kv fits av sums =
      let word : AreFlags iff 32 (flags_from iff 32 0 flags) = record {
        word = flags;
        word_fits = fits.1;
        split = refl;
      } in
      let valid : IsValid
          (Link.new family kind index (flags_from iff 32 0 flags) (from_value iff change) rtattrs) =
        record {
          family_IsEncodable = fv;
          type_IsEncodable = kv;
          index_fits = fits.0;
          flags_AreFlags = word;
          change_IsEncodable = from_value-IsEncodable iff (λ _. refl) change fits.2;
          attrs_AreValid = av.attributes_IsValid;
          attrs_IsSmall = omega (arith, av.size_is_hint);
        } in
      (
        valid,
        omega (arith, size_lem _ valid, av.size_is_hint),
        omega (arith, av.less),
        omega (arith, av.at_most),
      )

  -- On any bytes, with a hint below 2 ^ 32, reading an interface message ends in an error, or in a
  -- well-formed one of just the size of the hint, of which no more than these bytes are taken from the
  -- buffer. It does not panic.
  pub ifinfomsg-IsPayload :
      (n left : ℕ)
      → n < 2 ^ 32
      → Stops ⊥ Link.deserialize (some n) left (λ self h. IsPayload n left self)
  unfolding Link.deserialize
  ifinfomsg-IsPayload n left small =
      Stops-silent _ _ (some n) {h' = none} (λ f r. rw (b.take_size_hint_lem f r (some n)))
        (Stops-silent _ _ n (λ f r. refl)
          (Stops-bind _ _ (of_Ends ((var_any rt_addr_family (λ _. refl)).read none left))
            λ family h1 left1 (fv, same1, used1).
              Stops-bind _ _ (of_Ends (Ends-uint 1 h1 left1)) λ zero h2 left2 (zv, same2, used2).
                Stops-bind _ _ (of_Ends ((var_any arphrd (λ _. refl)).read h2 left2))
                  λ kind h3 left3 (kv, same3, used3).
                    Stops-bind _ _ (of_Ends (Ends-uint 4 h3 left3))
                      λ index h4 left4 (iv, same4, used4).
                        Stops-bind _ _ (of_Ends (Ends-uint 4 h4 left4))
                          λ flags h5 left5 (wv, same5, used5).
                            Stops-bind _ _ (of_Ends (Ends-uint 4 h5 left5))
                              λ change h6 left6 (cv, same6, used6).
                                Stops-bind _ _ (of_Ends (Ends-checked_sub n 16 _ h6 left6))
                                  λ d h7 left7 (sum, same7, used7).
                                    Stops-silent _ _ tt (λ f r. rw (b.set_size_hint_lem f r h7 d))
                                      (Stops-bind _ _
                                        (rtattrs_total (var_any ifla (λ _. refl)) vec_any (some d)
                                          left7)
                                        λ rtattrs h8 left8 av. of_Ends (
                                          Ends-pure _ (
                                            well_formed family kind index flags change n d left7
                                              left8 left rtattrs small fv kv (iv, wv, cv) av
                                              (sum, omega arith))))))

  pub ifinfomsg_any : PayloadAny ⊥ ifinfomsg_laws
  ifinfomsg_any = record { read = ifinfomsg-IsPayload }
