-- ===== src/Contracts/Hex.antt =====
-- `encoding/hex`: the text of a list of bytes, and back. `DecodeString` takes capitals too.
use Prim.Native.Char.{Char, code}
use safeops_agent.Prelude.{
  ℕ, String, Bool, true, false, ◌&&◌, ◌+◌, ◌-◌, ◌*◌, ◌/◌, ◌%◌, ◌<◌, ◌≡◌, refl, Option, none, some,
  List, [], ◌∷◌, All, leb, eqb, all_below, all_below_sound, if◌then◌else◌, arith,
}

hex_digit : ℕ → Char
hex_digit n =
    if eqb n 0
    then "0"
    else if eqb n 1
    then "1"
    else if eqb n 2
    then "2"
    else if eqb n 3
    then "3"
    else if eqb n 4
    then "4"
    else if eqb n 5
    then "5"
    else if eqb n 6
    then "6"
    else if eqb n 7
    then "7"
    else if eqb n 8
    then "8"
    else if eqb n 9
    then "9"
    else if eqb n 10
    then "a"
    else if eqb n 11
    then "b"
    else if eqb n 12
    then "c"
    else if eqb n 13
    then "d"
    else if eqb n 14
    then "e"
    else "f"

hex_value : Char → Option ℕ
hex_value c =
    let n = code c in
    if leb b'0' n && leb n b'9'
    then some (n - b'0')
    else if leb b'a' n && leb n b'f'
    then some (n - b'a' + 10)
    else if leb b'A' n && leb n b'F'
    then some (n - b'A' + 10)
    else none

-- `hex.EncodeToString`
unfoldable pub hex_encode : List ℕ → String
unfolding hex_digit
hex_encode [] = ""
hex_encode (b ∷ bs) =
    String.◌∷◌ (hex_digit (b / 16)) (String.◌∷◌ (hex_digit (b % 16)) (hex_encode bs))

pair_bytes : Option ℕ → Option ℕ → Option (List ℕ) → Option (List ℕ)
pair_bytes (some h) (some l) (some bs) = some ((h * 16 + l) ∷ bs)
pair_bytes _ _ _ = none

-- `hex.DecodeString`; `none` is its error.
unfoldable pub hex_decode : String → Option (List ℕ)
unfolding hex_value pair_bytes
hex_decode String.[] = some []
hex_decode (String.◌∷◌ c String.[]) = none
hex_decode (String.◌∷◌ c (String.◌∷◌ d s)) = pair_bytes (hex_value c) (hex_value d) (hex_decode s)

is_decoded : ℕ → Option ℕ → Bool
is_decoded n none = false
is_decoded n (some m) = eqb m n

digits_table : all_below 16 (λ n. is_decoded n (hex_value (hex_digit n))) ≡ true
unfolding all_below is_decoded hex_value hex_digit
digits_table = refl

is_decoded-eq : (n : ℕ) (o : Option ℕ) → is_decoded n o ≡ true → o ≡ some n
unfolding is_decoded
is_decoded-eq n none h = cc
is_decoded-eq n (some m) h = ground arith

hex_value-hex_digit : (n : ℕ) → n < 16 → hex_value (hex_digit n) ≡ some n
hex_value-hex_digit n h =
    is_decoded-eq n _
      (all_below_sound 16 (λ k. is_decoded k (hex_value (hex_digit k))) n digits_table h)

-- The codec is a round trip on bytes.
pub hex_decode-hex_encode :
    (bs : List ℕ) → All (λ b. b < 256) bs → hex_decode (hex_encode bs) ≡ some bs
unfolding hex_encode hex_decode pair_bytes
hex_decode-hex_encode [] h = refl
hex_decode-hex_encode (b ∷ bs) h = rw (hex_value-hex_digit (b / 16) (omega arith)) (
    rw (hex_value-hex_digit (b % 16) (omega arith))
      (rw (hex_decode-hex_encode bs h.1) (ground arith)))
