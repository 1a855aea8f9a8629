-- ===== src/Base/Text.antt =====
-- What the code uses of `str`: `split` on a character, and `trim`.
use Prim.Native.Char.{Char, code}
use Prim.Native.Nat.{ℕ}
use Prim.Native.String.{String, [], ◌∷◌}
use mathlib.Core.Bool.{Bool, false, ◌&&◌, ◌||◌}
use mathlib.Core.List.{List, [], ◌∷◌}
use text.Mathlib.Text
use text.Mathlib.TextEquality.{eq_iff}
use radixip.Base.Tests.{if◌then◌else◌, leb, ◌==◌}
use radixip.Base.Maps.{Key}

instance abbrev pub string_key : Key String
string_key = record { same = Text.◌==◌; same_iff = eq_iff }

abbrev prepend : Char → List String → List String
prepend ch [] = (ch ∷ "") ∷ []
prepend ch (p ∷ parts) = (ch ∷ p) ∷ parts

-- `split(separator)`: one part more than there are separators.
abbrev pub split : (separator : ℕ) → String → List String
split separator [] = "" ∷ []
split separator (ch ∷ s) =
    let parts = split separator s in if code ch == separator then "" ∷ parts else prepend ch parts

-- `char::is_whitespace`: the property White_Space.
abbrev is_whitespace : Char → Bool
is_whitespace ch =
    let c = code ch in
    (leb 9 c && leb c 13)
    || c == 32
    || c == 133
    || c == 160
    || c == 5760
    || (leb 8192 c && leb c 8202)
    || c == 8232
    || c == 8233
    || c == 8239
    || c == 8287
    || c == 12288

abbrev trim_start : String → String
trim_start [] = ""
trim_start (ch ∷ s) = if is_whitespace ch then trim_start s else ch ∷ s

abbrev trim_end : String → String
trim_end [] = ""
trim_end (ch ∷ s) =
    let rest = trim_end s in if is_whitespace ch && Text.◌==◌ rest "" then "" else ch ∷ rest

abbrev pub trim : String → String
trim s = trim_end (trim_start s)

-- `contains` of a character.
abbrev pub has_char : (ch : ℕ) → String → Bool
has_char c [] = false
has_char c (ch ∷ s) = code ch == c || has_char c s

abbrev pieces : String → List String
pieces [] = "" ∷ []
pieces (ch ∷ s) = let parts = pieces s in if is_whitespace ch then "" ∷ parts else prepend ch parts

abbrev nonempty : List String → List String
nonempty [] = []
nonempty (p ∷ parts) = if Text.◌==◌ p "" then nonempty parts else p ∷ nonempty parts

-- `split_whitespace`: the longest runs of characters that are not whitespace.
abbrev pub words : String → List String
words s = nonempty (pieces s)
