-- ===== src/Hex.antt =====
-- Hexadecimal text: `bytes.hex(" ")`, `f"0x{b:02x}"` and `int(s, 16)`.
use delonghi_coffeelink.Prelude.{
  ℕ, zero, suc, ◌+◌, ◌-◌, ◌*◌, ◌/◌, ◌%◌, Bool, true, false, ◌&&◌, ◌||◌, Option, none, some, List,
  [], ◌∷◌, ltb, leb, ◌==◌, if◌then◌else◌,
}
use delonghi_coffeelink.Prelude.Int.{ℤ, pos, negsuc}
use delonghi_coffeelink.Prelude.Text.{Text, strip}

unfoldable pub hex_digit : ℕ → ℕ
hex_digit v = if ltb v 10 then b'0' + v else b'a' + (v - 10)

-- bytes.hex(" ")
unfoldable pub hex : List ℕ → Text
hex [] = []
hex (b ∷ []) = hex_digit (b / 16) ∷ hex_digit (b % 16) ∷ []
hex (b ∷ c ∷ bs) = hex_digit (b / 16) ∷ hex_digit (b % 16) ∷ b' ' ∷ hex (c ∷ bs)

-- The digits of a number in front of a text; the number itself is fuel enough.
unfoldable pub hex_digits : ℕ → ℕ → Text → Text
hex_digits zero n s = s
hex_digits (suc fuel) n s =
    let rest = hex_digits fuel (n / 16) (hex_digit (n % 16) ∷ s) in
    if ltb n 16 then hex_digit n ∷ s else rest

-- f"{n:02x}"
unfoldable pub hex2 : ℕ → Text
unfolding hex_digits hex_digit
hex2 n = if ltb n 256 then hex_digit (n / 16) ∷ hex_digit (n % 16) ∷ [] else hex_digits n n []

-- f"0x{n:02x}"
unfoldable pub hex0x : ℕ → Text
unfolding hex2
hex0x n = b'0' ∷ b'x' ∷ hex2 n

-- The same for an integer of either sign: a negative one is not padded to more than two places.
unfoldable pub hex0x_int : ℤ → Text
unfolding hex0x
hex0x_int (pos n) = hex0x n
hex0x_int (negsuc n) = b'0' ∷ b'x' ∷ b'-' ∷ hex_digits (suc n) (suc n) []

unfoldable pub digit_value : ℕ → Option ℕ
digit_value c =
    if leb b'0' c && leb c b'9'
    then some (c - b'0')
    else if leb b'a' c && leb c b'f'
    then some (c - b'a' + 10)
    else if leb b'A' c && leb c b'F'
    then some (c - b'A' + 10)
    else none

-- The digits of `int(s, 16)`: one underscore may stand between two digits. `after` says that the
-- character before was a digit.
unfoldable pub digits16 : ℕ → Bool → Text → Option ℕ
digits16 acc after [] = if after then some acc else none
digits16 acc after (c ∷ s) = elim (digit_value c) [
  | some v ↦ digits16 (acc * 16 + v) true s
  | none ↦ (elim (after && c == b'_') [ true ↦ digits16 acc false s | false ↦ none ])
]

-- The prefix 0x or 0X may be there, with an underscore behind it.
unfoldable pub unsigned16 : Text → Option ℕ
unfolding digits16
unsigned16 (z ∷ x ∷ u ∷ s) =
    if z == b'0' && (x == b'x' || x == b'X')
    then (if u == b'_' then digits16 0 false s else digits16 0 false (u ∷ s))
    else digits16 0 false (z ∷ x ∷ u ∷ s)
unsigned16 s = digits16 0 false s

abbrev pub negate : ℕ → ℤ
negate zero = pos 0
negate (suc n) = negsuc n

unfoldable pub signed16 : Text → Option ℤ
unfolding unsigned16
signed16 [] = none
signed16 (c ∷ s) =
    if c == b'-'
    then elim (unsigned16 s) [ none ↦ none | some n ↦ some (negate n) ]
    else elim (unsigned16 (if c == b'+' then s else c ∷ s)) [ none ↦ none | some n ↦ some (pos n) ]

-- int(s, 16) of a text of ASCII characters; `none` is the ValueError.
unfoldable pub int16 : Text → Option ℤ
unfolding signed16
int16 s = signed16 (strip s)
