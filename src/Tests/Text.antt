-- ===== src/Tests/Text.antt =====
-- The theorems on strings at concrete inputs.
use neli.Base.{refl, none, some, List, [], ◌∷◌, ◌++◌, ℕ}
use neli.Nl.Runs.{Writes, Reads}
use neli.Nl.Text.{serialize_string, deserialize_string, has_nul}
use neli.Nl.Text.Utf8.{utf8_error}
use neli.Nl.Text.Laws.{IsText, string_round_trip}
use neli.Tests.Little.{little}

-- "né"
abbrev text : List ℕ
text = 110 ∷ 195 ∷ 169 ∷ []

text-IsText : IsText text
unfolding utf8_error has_nul
text-IsText = record { is_utf8 = refl; no_nul = refl }

string_round_trip_example :
    Writes (serialize_string text) (text ++ (0 ∷ []))
    × Reads deserialize_string (some 4) (text ++ (0 ∷ [])) text none
string_round_trip_example = string_round_trip text text-IsText
