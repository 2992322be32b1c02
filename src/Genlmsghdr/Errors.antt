-- ===== src/Genlmsghdr/Errors.antt =====
-- Generic netlink payloads that come with no hint, or with one that does not cover the header.
use neli.Base.{ℕ, ◌+◌, ◌^◌, ◌<◌, refl, arith, Option, none, some, [], ◌++◌, lt→leb_false}
use neli.Err.{de_error}
use neli.Buffering.{Libc, Buffering}
use neli.Nl.{Nl}
use neli.Nl.Runs.{Fails, Failure, error, panicking, Fails-bind, Fails-first, Fails-silent}
use neli.Nl.Uint.{Reads-uint}
use neli.Nl.Laws.{Fixed}
use neli.Genlmsghdr
use neli.Genlmsghdr.{hint_after}

-- How a payload with such a hint ends.
abbrev pub outcome : Option ℕ → Failure
outcome none = error (de_error "Must provide size hint to deserialize Genlmsghdr")
outcome (some n) = panicking

-- Hints that do not cover the 4 bytes of the header.
abbrev pub IsMissing : Option ℕ → Type 0
IsMissing none = Unit
IsMissing (some n) = n < 4

module _ ⦃c : Libc⦄ ⦃b : Buffering⦄ {C T : Type 0} {k : Nl C} (t : Nl T) (kl : Fixed k 1) where
  -- With valid fields in the header: with no hint `deserialize` is an error, and with a hint below the 4 bytes of the header it panics,
  -- whatever follows the header.
  pub genlmsghdr_short :
      (cmd : C) (version reserved : ℕ) (h : Option ℕ)
      → IsMissing h
      → kl.IsValid cmd
      → version < 2 ^ 8
      → reserved < 2 ^ 16
      → Fails
          (Genlmsghdr.deserialize k t)
          h
          (kl.bytes cmd ++ (b.encode 1 version ++ (b.encode 2 reserved ++ [])))
          (outcome h)
  unfolding Genlmsghdr.deserialize
  genlmsghdr_short cmd version reserved h missing v fv fr = Fails-bind _ _ (kl.reads cmd h v) (
      Fails-bind _ _ (Reads-uint 1 version h fv) (
        Fails-bind _ _ (Reads-uint 2 reserved h fr) (
          Fails-silent _ _ h (λ f r. rw (b.take_size_hint_lem f r h))
            (Fails-first _ _ (refused h missing)))))
    where
      refused :
          (h : Option ℕ)
          → IsMissing h
          → Fails (hint_after h (k.size cmd + 1 + 2)) none [] (outcome h)
      refused none missing = record { at = λ f r. refl }
      refused (some n) missing = record {
        at = λ f r. rw (lt→leb_false (k.size cmd + 1 + 2) n (omega (arith, kl.sized cmd)));
      }
