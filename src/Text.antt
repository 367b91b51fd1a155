-- ===== src/Text.antt =====
-- JavaScript text operations that the program uses, over code points.
use Prim.Native.Char.{Char, code, nul}
use Prim.Native.String.{[], ◌∷◌}
use azan_dashboard.Prelude.{
  ℕ, zero, suc, ◌+◌, ◌-◌, ◌*◌, String, Bool, true, false, ◌&&◌, Option, none, some, List, leb, ◌==◌,
  if◌then◌else◌,
}

unfoldable pub prepend : Char → List String → List String
prepend c List.[] = List.◌∷◌ (c ∷ []) List.[]
prepend c (List.◌∷◌ w ws) = List.◌∷◌ (c ∷ w) ws

-- `s.split(d)` for a delimiter of one code point
unfoldable pub split : ℕ → String → List String
unfolding prepend
split d [] = List.◌∷◌ [] List.[]
split d (c ∷ s) = let rest = split d s in if code c == d then List.◌∷◌ [] rest else prepend c rest

-- `s.includes(d)`
unfoldable pub includes : ℕ → String → Bool
includes d [] = false
includes d (c ∷ s) = if code c == d then true else includes d s

abbrev is_digit : ℕ → Bool
is_digit c = leb b'0' c && leb c b'9'

digits_from : ℕ → String → Option ℕ
digits_from n [] = some n
digits_from n (c ∷ s) =
    let rest = digits_from (n * 10 + (code c - b'0')) s in if is_digit (code c) then rest else none

-- `Number(s)` on the empty text and on decimal digits; `none` is NaN, and stands for every other text.
unfoldable pub number : String → Option ℕ
unfolding digits_from
number s = digits_from 0 s

-- `a + b`
unfoldable pub concat : String → String → String
concat [] t = t
concat (c ∷ s) t = c ∷ concat s t

nth : ℕ → String → Char
nth n [] = nul
nth zero (c ∷ s) = c
nth (suc n) (c ∷ s) = nth n s

upper_letter : Char → Char
unfolding nth
upper_letter c =
    if leb b'a' (code c) && leb (code c) b'z'
    then nth (code c - b'a') "ABCDEFGHIJKLMNOPQRSTUVWXYZ"
    else c

-- `s.toUpperCase()` on ASCII
unfoldable pub upper : String → String
unfolding upper_letter
upper [] = []
upper (c ∷ s) = upper_letter c ∷ upper s

-- `s.charAt(0).toUpperCase() + s.slice(1)`, and `s.replace(/^./, (c) => c.toUpperCase())`
unfoldable pub capitalise : String → String
unfolding upper_letter
capitalise [] = []
capitalise (c ∷ s) = upper_letter c ∷ s

abbrev is_upper : ℕ → Bool
is_upper c = leb b'A' c && leb c b'Z'

lower_letter : Char → Char
unfolding nth
lower_letter c = if is_upper (code c) then nth (code c - b'A') "abcdefghijklmnopqrstuvwxyz" else c

-- `s.toLowerCase()` on ASCII
unfoldable pub lower : String → String
unfolding lower_letter
lower [] = []
lower (c ∷ s) = lower_letter c ∷ lower s

-- `s.replace(/([A-Z])/g, " $1")`
unfoldable pub spaced : String → String
unfolding concat
spaced [] = []
spaced (c ∷ s) =
    let rest = spaced s in if is_upper (code c) then concat " " (c ∷ rest) else c ∷ rest

-- `s.startsWith(p)`
unfoldable pub starts_with : String → String → Bool
starts_with [] s = true
starts_with (p ∷ ps) [] = false
starts_with (p ∷ ps) (c ∷ s) =
    let rest = starts_with ps s in if code c == code p then rest else false

-- `s.includes(p)` for a text
unfoldable pub includes_text : String → String → Bool
unfolding starts_with
includes_text p [] = starts_with p []
includes_text p (c ∷ s) =
    let rest = includes_text p s in if starts_with p (c ∷ s) then true else rest

-- `s.length`
unfoldable pub text_length : String → ℕ
text_length [] = 0
text_length (c ∷ s) = suc (text_length s)

-- Behind a match, the rest of its pattern is skipped.
replace_from : ℕ → String → String → String → String
unfolding starts_with text_length concat
replace_from n pattern new [] = []
replace_from (suc n) pattern new (c ∷ s) = replace_from n pattern new s
replace_from zero pattern new (c ∷ s) =
    let after = replace_from (text_length pattern - 1) pattern new s in
    let next = replace_from 0 pattern new s in
    if starts_with pattern (c ∷ s) then concat new after else c ∷ next

-- `s.replace(/pattern/g, new)` for a pattern and a replacement without special characters
unfoldable pub replace_all : String → String → String → String
unfolding replace_from
replace_all pattern new s = replace_from 0 pattern new s
