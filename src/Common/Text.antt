-- ===== src/Common/Text.antt =====
-- Texts by their code points, for the patterns that the code matches.
use Prim.Native.Char.{code}
use Prim.Native.Nat.{ℕ}
use Prim.Native.String.{String}
use mathlib.Core.Bool.{Bool, true, false, ◌&&◌, ◌||◌}
use mathlib.Core.List.{List, [], ◌∷◌}
use vcpe.Common.Tests.{leb, ◌==◌, nat_eq}

-- The code points: the bytes, if the text is ASCII.
abbrev pub codes : String → List ℕ
codes String.[] = []
codes (String.◌∷◌ c s) = code c ∷ codes s

-- Every code passes a test.
unfoldable pub all_codes : (ℕ → Bool) → List ℕ → Bool
all_codes p [] = true
all_codes p (c ∷ cs) = p c && all_codes p cs

abbrev pub is_digit : ℕ → Bool
is_digit c = leb b'0' c && leb c b'9'

abbrev pub is_lower : ℕ → Bool
is_lower c = leb b'a' c && leb c b'z'

abbrev pub is_lower_hex : ℕ → Bool
is_lower_hex c = is_digit c || (leb b'a' c && leb c b'f')

-- `[a-z0-9-]`
abbrev pub is_name_code : ℕ → Bool
is_name_code c = is_lower c || (is_digit c || c == b'-')

unfoldable pub starts_with : List ℕ → List ℕ → Bool
starts_with s [] = true
starts_with [] (p ∷ ps) = false
starts_with (c ∷ cs) (p ∷ ps) = c == p && starts_with cs ps

-- strings.Contains
unfoldable pub has_part : List ℕ → List ℕ → Bool
unfolding starts_with
has_part [] part = starts_with [] part
has_part (c ∷ cs) part = starts_with (c ∷ cs) part || has_part cs part
