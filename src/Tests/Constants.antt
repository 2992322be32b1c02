-- ===== src/Tests/Constants.antt =====
-- The theorems on padding, bytes, constants and flags at concrete inputs.
use neli.Base.{◌≡◌, refl, arith}
use neli.Consts.Messages.{nlm_f, nlm_f_into}
use neli.Flags.{fold_flags, flags_from}
use neli.Flags.Laws.{fold_flags-flags_from}
use neli.Tests.Little.{little, linux}

fold_flags-flags_from_example : fold_flags nlm_f_into 0 (flags_from nlm_f 16 0 773) ≡ 773
fold_flags-flags_from_example = fold_flags-flags_from nlm_f (λ _. refl) 16 773 (omega arith)
