-- ===== src/Prelude/Text.antt =====
-- The functions of Go's `strings` and `path/filepath` that the program calls, on native texts.
use Prim.Native.Nat.{ℕ, zero, suc, ◌/◌, ◌%◌}
use Prim.Native.Char.{Char, code}
use Prim.Native.String.{String}
use mathlib.Core.Path.{◌≡◌, refl}
use mathlib.Core.Bool.{Bool, true, false, not, ◌&&◌, ◌||◌}
use mathlib.Core.List.{List, [], ◌∷◌}
use safeops_agent.Prelude.Tests.{ltb, leb, eqb, ◌==◌, if◌then◌else◌}
use safeops_agent.Prelude.Lists.{any}

-- `unicode.IsSpace`
is_space : Char → Bool
is_space c =
    let n = code c in
    (leb 9 n && leb n 13)
    || any (eqb n) (32 ∷ 0x85 ∷ 0xa0 ∷ 0x1680 ∷ 0x2028 ∷ 0x2029 ∷ 0x202f ∷ 0x205f ∷ 0x3000 ∷ [])
    || (leb 0x2000 n && leb n 0x200a)

trim_left : String → String
trim_left String.[] = ""
trim_left (String.◌∷◌ c s) = let rest = trim_left s in if is_space c then rest else String.◌∷◌ c s

trim_right : String → String
trim_right String.[] = ""
trim_right (String.◌∷◌ c s) =
    let rest = trim_right s in if rest == "" && is_space c then "" else String.◌∷◌ c rest

-- `strings.TrimSpace`
unfoldable pub trim_space : String → String
unfolding is_space trim_left trim_right ◌==◌
trim_space s = trim_right (trim_left s)

replace_rune : Char → List (Char × Char) → Char
replace_rune c [] = c
replace_rune c ((a, b) ∷ t) = if eqb (code c) (code a) then b else replace_rune c t

lower_ascii : List (Char × Char)
lower_ascii =
    ("A", "a")
    ∷ ("B", "b")
    ∷ ("C", "c")
    ∷ ("D", "d")
    ∷ ("E", "e")
    ∷ ("F", "f")
    ∷ ("G", "g")
    ∷ ("H", "h")
    ∷ ("I", "i")
    ∷ ("J", "j")
    ∷ ("K", "k")
    ∷ ("L", "l")
    ∷ ("M", "m")
    ∷ ("N", "n")
    ∷ ("O", "o")
    ∷ ("P", "p")
    ∷ ("Q", "q")
    ∷ ("R", "r")
    ∷ ("S", "s")
    ∷ ("T", "t")
    ∷ ("U", "u")
    ∷ ("V", "v")
    ∷ ("W", "w")
    ∷ ("X", "x")
    ∷ ("Y", "y")
    ∷ ("Z", "z")
    ∷ []

map_runes : List (Char × Char) → String → String
map_runes t String.[] = ""
map_runes t (String.◌∷◌ c s) = String.◌∷◌ (replace_rune c t) (map_runes t s)

-- `strings.ToLower`. Besides A-Z the two other characters whose lower case is an ASCII letter are
-- mapped (U+0130 to i and U+212A to k), so a comparison of the result with an ASCII text is exact
-- for every text. The remaining letters beyond ASCII keep their case.
unfoldable pub to_lower : String → String
unfolding replace_rune lower_ascii map_runes
to_lower s = map_runes (("İ", "i") ∷ ("K", "k") ∷ lower_ascii) s

-- `strings.EqualFold(s, word)` for a lower-case ASCII `word` without k and s, whose letters fold
-- from A-Z only.
unfoldable pub equal_fold : String → String → Bool
unfolding replace_rune lower_ascii map_runes ◌==◌
equal_fold s word = map_runes lower_ascii s == word

unfoldable pub has_prefix : String → String → Bool
has_prefix s String.[] = true
has_prefix String.[] (String.◌∷◌ d p) = false
has_prefix (String.◌∷◌ c s) (String.◌∷◌ d p) = eqb (code c) (code d) && has_prefix s p

-- `strings.ContainsAny(id, "/\\")`: a slash or a backslash.
unfoldable pub contains_separator : String → Bool
contains_separator String.[] = false
contains_separator (String.◌∷◌ c s) = eqb (code c) 47 || eqb (code c) 92 || contains_separator s

-- The rule of the stores for the name of a file: no separator, not empty, not `.` or `..`.
unfoldable pub is_valid_id : String → Bool
unfolding contains_separator ◌==◌
is_valid_id id = not (id == "" || contains_separator id || id == "." || id == "..")

lower_samples : (to_lower "SSHd" ≡ "sshd") × (trim_space " a b\n" ≡ "a b")
unfolding to_lower trim_space
lower_samples = (refl, refl)

digit : ℕ → Char
digit n =
    if eqb n 0
    then "0"
    else if eqb n 1
    then "1"
    else if eqb n 2
    then "2"
    else if eqb n 3
    then "3"
    else if eqb n 4
    then "4"
    else if eqb n 5
    then "5"
    else if eqb n 6
    then "6"
    else if eqb n 7
    then "7"
    else if eqb n 8
    then "8"
    else "9"

-- The digits of a number in front of a text; `n + 1` rounds are enough, as each divides by 10.
decimal_onto : ℕ → ℕ → String → String
decimal_onto zero n acc = acc
decimal_onto (suc fuel) n acc =
    let longer = decimal_onto fuel (n / 10) (String.◌∷◌ (digit (n % 10)) acc) in
    if ltb n 10 then String.◌∷◌ (digit n) acc else longer

-- `%d` of a number that is not negative.
unfoldable pub decimal : ℕ → String
unfolding digit decimal_onto
decimal n = decimal_onto (suc n) n ""

decimal_sample : decimal 1075 ≡ "1075"
unfolding decimal
decimal_sample = refl
