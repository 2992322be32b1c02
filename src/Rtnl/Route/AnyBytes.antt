-- ===== src/Rtnl/Route/AnyBytes.antt =====
-- A route message read from any bytes.
use neli.Base.{ℕ, ◌+◌, ◌^◌, ◌≤◌, ◌<◌, ◌≡◌, refl, arith, Option, none, some, List}
use neli.Outcome.{pure, sub_or_panic, ◌>>=◌, ◌>>◌}
use neli.Buffering.{Libc, Buffering}
use neli.Nl.{ReadsBuffer, give_hint}
use neli.Nl.Ends.{Ends-pure, Ends-uint}
use neli.Nl.Stops.{Stops, of_Ends, Stops-bind, Stops-silent, Stops-sub, PayloadAny, vec_any}
use neli.Nl.Bytes.{vec_u8}
use neli.Consts.{var}
use neli.Flags.{flags_from}
use neli.Flags.Laws.{AreFlags}
use neli.Consts.Laws.{IsEncodable, var_any}
use neli.Consts.Rtnl.Families.{RtAddrFamily, rt_addr_family}
use neli.Consts.Rtnl.Routes.{Rtn, rtn, Rtprot, rtprot, RtScope, rt_scope, RtTable, rt_table, rtm_f}
use neli.Consts.Rtnl.Attrs.{Rta, rta}
use neli.Rtnl.Rtattr
use neli.Rtnl.Rtattr.{Rtattrs}
use neli.Rtnl.Rtattr.Total.{AreAttributes, rtattrs_total}
use neli.Rtnl.Route
use neli.Rtnl.Route.{Rtmsg, rtmsg}
use neli.Rtnl.Route.RoundTrip.{IsValid, size_lem, rtmsg_laws}

module _ ⦃c : Libc⦄ ⦃b : Buffering⦄ where
  -- What holds of a message that was read with the hint `n` and `left` bytes before it, and `left'`
  -- after it: it is well formed and of the size that the hint says.
  abbrev pub IsPayload : ℕ → ℕ → Rtmsg → ℕ → Type 0
  IsPayload n left self left' =
      IsValid self × (Route.size self ≡ n) × (left' ≤ left) × (left ≤ left' + n)

  -- The fields before the attributes.
  record Fields : Type 0 where
    rtm_family : RtAddrFamily
    rtm_dst_len : ℕ
    rtm_src_len : ℕ
    rtm_tos : ℕ
    rtm_table : RtTable
    rtm_protocol : Rtprot
    rtm_scope : RtScope
    rtm_type : Rtn
    flags : ℕ

  abbrev message : Fields → Rtattrs Rta (List ℕ) → Rtmsg
  message s rtattrs = record {
    rtm_family = s.rtm_family;
    rtm_dst_len = s.rtm_dst_len;
    rtm_src_len = s.rtm_src_len;
    rtm_tos = s.rtm_tos;
    rtm_table = s.rtm_table;
    rtm_protocol = s.rtm_protocol;
    rtm_scope = s.rtm_scope;
    rtm_type = s.rtm_type;
    rtm_flags = flags_from rtm_f 32 0 s.flags;
    rtattrs = rtattrs;
  }

  record AreFit (s : Fields) : Type 0 where
    family_IsEncodable : IsEncodable rt_addr_family s.rtm_family
    dst_len_fits : s.rtm_dst_len < 2 ^ 8
    src_len_fits : s.rtm_src_len < 2 ^ 8
    tos_fits : s.rtm_tos < 2 ^ 8
    table_IsEncodable : IsEncodable rt_table s.rtm_table
    protocol_IsEncodable : IsEncodable rtprot s.rtm_protocol
    scope_IsEncodable : IsEncodable rt_scope s.rtm_scope
    type_IsEncodable : IsEncodable rtn s.rtm_type
    flags_fit : s.flags < 2 ^ 32

  well_formed :
      (s : Fields) (n d left1 left2 left : ℕ) (rtattrs : Rtattrs Rta (List ℕ))
      → AreFit s
      → n < 2 ^ 32
      → AreAttributes (var_any rta (λ _. refl)) (vec_any {X = Unit}) d left1 rtattrs.items left2
      → (d + 12 ≡ n) × (left1 + 12 ≡ left)
      → IsPayload n left (message s rtattrs) left2
  well_formed s n d left1 left2 left rtattrs fits small av sums =
      let word : AreFlags rtm_f 32 (flags_from rtm_f 32 0 s.flags) = record {
        word = s.flags;
        word_fits = fits.flags_fit;
        split = refl;
      } in
      let valid : IsValid (message s rtattrs) = record {
        family_IsEncodable = fits.family_IsEncodable;
        dst_len_fits = fits.dst_len_fits;
        src_len_fits = fits.src_len_fits;
        tos_fits = fits.tos_fits;
        table_IsEncodable = fits.table_IsEncodable;
        protocol_IsEncodable = fits.protocol_IsEncodable;
        scope_IsEncodable = fits.scope_IsEncodable;
        type_IsEncodable = fits.type_IsEncodable;
        flags_AreFlags = word;
        attrs_AreValid = av.attributes_IsValid;
        attrs_IsSmall = omega (arith, av.size_is_hint);
      } in
      (
        valid,
        omega (arith, size_lem _ valid, av.size_is_hint),
        omega (arith, av.less),
        omega (arith, av.at_most),
      )

  -- What is read after the fields.
  abbrev attributes : ℕ → Fields → ReadsBuffer Rtmsg
  attributes no_flags s = do
    give_hint no_flags
    rtattrs ← Rtattr.deserialize_all (var rta) vec_u8
    pure (message s rtattrs)

  abbrev after_fields : ℕ → Fields → ReadsBuffer Rtmsg
  after_fields size_hint s = do
    no_family ← sub_or_panic size_hint 1
    no_dst_len ← sub_or_panic no_family 1
    no_src_len ← sub_or_panic no_dst_len 1
    no_tos ← sub_or_panic no_src_len 1
    no_table ← sub_or_panic no_tos 1
    no_protocol ← sub_or_panic no_table 1
    no_scope ← sub_or_panic no_protocol 1
    no_type ← sub_or_panic no_scope 1
    no_flags ← sub_or_panic no_type 4
    attributes no_flags s

  attributes-Stops :
      (s : Fields) (n d left1 left : ℕ) (h : Option ℕ)
      → AreFit s
      → n < 2 ^ 32
      → (d + 12 ≡ n) × (left1 + 12 ≡ left)
      → Stops Unit (attributes d s) h left1 (λ self h'. IsPayload n left self)
  attributes-Stops s n d left1 left h fits small sums =
      Stops-silent _ _ tt (λ f r. rw (b.set_size_hint_lem f r h d))
        (Stops-bind _ _ (rtattrs_total (var_any rta (λ _. refl)) vec_any (some d) left1)
          λ rtattrs h' left2 av.
            of_Ends (Ends-pure _ (well_formed s n d left1 left2 left rtattrs fits small av sums)))

  after_fields-Stops :
      (s : Fields) (n left1 left : ℕ) (h : Option ℕ)
      → AreFit s
      → n < 2 ^ 32
      → left1 + 12 ≡ left
      → Stops Unit (after_fields n s) h left1 (λ self h'. IsPayload n left self)
  after_fields-Stops s n left1 left h fits small used =
      Stops-bind _ _ (Stops-sub n 1 h left1) λ d0 h0 l0 (e0, s0, u0).
        Stops-bind _ _ (Stops-sub d0 1 h0 l0) λ d1 h1 l1 (e1, s1, u1).
          Stops-bind _ _ (Stops-sub d1 1 h1 l1) λ d2 h2 l2 (e2, s2, u2).
            Stops-bind _ _ (Stops-sub d2 1 h2 l2) λ d3 h3 l3 (e3, s3, u3).
              Stops-bind _ _ (Stops-sub d3 1 h3 l3) λ d4 h4 l4 (e4, s4, u4).
                Stops-bind _ _ (Stops-sub d4 1 h4 l4) λ d5 h5 l5 (e5, s5, u5).
                  Stops-bind _ _ (Stops-sub d5 1 h5 l5) λ d6 h6 l6 (e6, s6, u6).
                    Stops-bind _ _ (Stops-sub d6 1 h6 l6) λ d7 h7 l7 (e7, s7, u7).
                      Stops-bind _ _ (Stops-sub d7 4 h7 l7) λ d8 h8 l8 (e8, s8, u8).
                        attributes-Stops s n d8 l8 left h8 fits small (omega arith)

  -- On any bytes, with a hint below 2 ^ 32, reading a route message panics, or ends in an error, or
  -- in a well-formed one of just the size of the hint, of which no more than these bytes are taken from
  -- the buffer.
  pub rtmsg-IsPayload :
      (n left : ℕ)
      → n < 2 ^ 32
      → Stops Unit Route.deserialize (some n) left (λ self h. IsPayload n left self)
  unfolding Route.deserialize
  rtmsg-IsPayload n left small =
      Stops-silent _ _ (some n) {h' = none} (λ f r. rw (b.take_size_hint_lem f r (some n)))
        (Stops-silent _ _ n (λ f r. refl)
          (Stops-bind _ _ (of_Ends ((var_any rt_addr_family (λ _. refl)).read none left))
            λ rtm_family h0 l0 (v0, s0, u0).
              Stops-bind _ _ (of_Ends (Ends-uint 1 h0 l0)) λ rtm_dst_len h1 l1 (v1, s1, u1).
                Stops-bind _ _ (of_Ends (Ends-uint 1 h1 l1)) λ rtm_src_len h2 l2 (v2, s2, u2).
                  Stops-bind _ _ (of_Ends (Ends-uint 1 h2 l2)) λ rtm_tos h3 l3 (v3, s3, u3).
                    Stops-bind _ _ (of_Ends ((var_any rt_table (λ _. refl)).read h3 l3))
                      λ rtm_table h4 l4 (v4, s4, u4).
                        Stops-bind _ _ (of_Ends ((var_any rtprot (λ _. refl)).read h4 l4))
                          λ rtm_protocol h5 l5 (v5, s5, u5).
                            Stops-bind _ _ (of_Ends ((var_any rt_scope (λ _. refl)).read h5 l5))
                              λ rtm_scope h6 l6 (v6, s6, u6).
                                Stops-bind _ _ (of_Ends ((var_any rtn (λ _. refl)).read h6 l6))
                                  λ rtm_type h7 l7 (v7, s7, u7).
                                    Stops-bind _ _ (of_Ends (Ends-uint 4 h7 l7))
                                      λ flags h8 l8 (v8, s8, u8).
                                        after_fields-Stops
                                          (record {
                                            rtm_family = rtm_family;
                                            rtm_dst_len = rtm_dst_len;
                                            rtm_src_len = rtm_src_len;
                                            rtm_tos = rtm_tos;
                                            rtm_table = rtm_table;
                                            rtm_protocol = rtm_protocol;
                                            rtm_scope = rtm_scope;
                                            rtm_type = rtm_type;
                                            flags = flags;
                                          })
                                          n l8 left h8
                                          (record {
                                            family_IsEncodable = v0;
                                            dst_len_fits = v1;
                                            src_len_fits = v2;
                                            tos_fits = v3;
                                            table_IsEncodable = v4;
                                            protocol_IsEncodable = v5;
                                            scope_IsEncodable = v6;
                                            type_IsEncodable = v7;
                                            flags_fit = v8;
                                          })
                                          small (omega arith)))

  pub rtmsg_any : PayloadAny Unit rtmsg_laws
  rtmsg_any = record { read = rtmsg-IsPayload }
