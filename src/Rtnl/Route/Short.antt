-- ===== src/Rtnl/Route/Short.antt =====
-- A route message read where there are too few bytes for it.
use neli.Base.{ℕ, ◌<◌, refl, arith, none, some}
use neli.Buffering.{Libc, Buffering}
use neli.Nl.Ends.{Ends, Nothing, Ends-bind, Ends-silent, Ends-uint}
use neli.Consts.Laws.{var_any}
use neli.Consts.Rtnl.Families.{rt_addr_family}
use neli.Consts.Rtnl.Routes.{rtn, rtprot, rt_scope, rt_table}
use neli.Rtnl.Route

module _ ⦃c : Libc⦄ ⦃b : Buffering⦄ where
  -- The fields of a route message are 12 bytes.
  pub rtmsg_short : (n left : ℕ) → left < 12 → Ends Route.deserialize (some n) left Nothing
  unfolding Route.deserialize
  rtmsg_short n left short =
      Ends-silent _ _ (some n) {h' = none} (λ f r. rw (b.take_size_hint_lem f r (some n)))
        (Ends-silent _ _ n (λ f r. refl)
          (Ends-bind _ _ ((var_any rt_addr_family (λ _. refl)).read none left)
            λ a0 h0 l0 (v0, s0, u0). Ends-bind _ _ (Ends-uint 1 h0 l0) λ a1 h1 l1 (v1, s1, u1).
              Ends-bind _ _ (Ends-uint 1 h1 l1) λ a2 h2 l2 (v2, s2, u2).
                Ends-bind _ _ (Ends-uint 1 h2 l2) λ a3 h3 l3 (v3, s3, u3).
                  Ends-bind _ _ ((var_any rt_table (λ _. refl)).read h3 l3) λ a4 h4 l4 (v4, s4, u4).
                    Ends-bind _ _ ((var_any rtprot (λ _. refl)).read h4 l4) λ a5 h5 l5 (v5, s5, u5).
                      Ends-bind _ _ ((var_any rt_scope (λ _. refl)).read h5 l5)
                        λ a6 h6 l6 (v6, s6, u6).
                          Ends-bind _ _ ((var_any rtn (λ _. refl)).read h6 l6)
                            λ a7 h7 l7 (v7, s7, u7).
                              Ends-bind _ _ (Ends-uint 4 h7 l7)
                                λ a8 h8 l8 (v8, s8, u8). absurd (omega arith)))
