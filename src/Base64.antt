-- ===== src/Base64.antt =====
-- Base64 text as Python's `base64` module reads and writes it: `b64encode`, and `b64decode` with
-- and without `validate=True`. The decoder is the character loop of `binascii.a2b_base64`.
pub mod RoundTrip
pub mod Nonempty
use delonghi_coffeelink.Prelude.{
  ℕ, zero, suc, ◌+◌, ◌-◌, ◌*◌, ◌/◌, ◌%◌, Bool, true, false, ◌&&◌, ◌||◌, not, Option, none, some,
  List, [], ◌∷◌, ltb, leb, ◌==◌, if◌then◌else◌, any,
}
use delonghi_coffeelink.Prelude.Text.{Text}

-- The alphabet: A-Z, a-z, 0-9, + and /.
unfoldable pub char_of_sextet : ℕ → ℕ
char_of_sextet v =
    if ltb v 26
    then b'A' + v
    else if ltb v 52
    then b'a' + (v - 26)
    else if ltb v 62
    then b'0' + (v - 52)
    else if v == 62
    then b'+'
    else b'/'

unfoldable pub sextet_of_char : ℕ → Option ℕ
sextet_of_char c =
    if leb b'A' c && leb c b'Z'
    then some (c - b'A')
    else if leb b'a' c && leb c b'z'
    then some (c - b'a' + 26)
    else if leb b'0' c && leb c b'9'
    then some (c - b'0' + 52)
    else if c == b'+'
    then some 62
    else if c == b'/'
    then some 63
    else none

abbrev pub pad : ℕ
pad = b'='

-- base64.b64encode(data).decode("ascii")
unfoldable pub b64encode : List ℕ → Text
b64encode [] = []
b64encode (a ∷ []) = char_of_sextet (a / 4) ∷ char_of_sextet (a % 4 * 16) ∷ pad ∷ pad ∷ []
b64encode (a ∷ b ∷ []) =
    char_of_sextet (a / 4)
    ∷ char_of_sextet (a % 4 * 16 + b / 16)
    ∷ char_of_sextet (b % 16 * 4)
    ∷ pad
    ∷ []
b64encode (a ∷ b ∷ c ∷ rest) =
    char_of_sextet (a / 4)
    ∷ char_of_sextet (a % 4 * 16 + b / 16)
    ∷ char_of_sextet (b % 16 * 4 + c / 64)
    ∷ char_of_sextet (c % 64)
    ∷ b64encode rest

-- Where the loop stands: how many characters of a group of four it has, what is left over of the
-- last one, and how many `=` it has seen in this group.
pub record Group : Type 0 where
  pub quad_pos : ℕ
  pub leftchar : ℕ
  pub pads : ℕ
  pub padding_started : Bool

abbrev pub start : Group
start = record { quad_pos = 0; leftchar = 0; pads = 0; padding_started = false }

-- A character of the alphabet: the byte that it completes, if any, and the new state.
unfoldable pub take_sextet : Group → ℕ → List ℕ × Group
take_sextet g v =
    if g.quad_pos == 0
    then ([], record g { quad_pos = 1; leftchar = v; pads = 0 })
    else if g.quad_pos == 1
    then ((g.leftchar * 4 + v / 16) ∷ [], record g { quad_pos = 2; leftchar = v % 16; pads = 0 })
    else if g.quad_pos == 2
    then ((g.leftchar * 16 + v / 4) ∷ [], record g { quad_pos = 3; leftchar = v % 4; pads = 0 })
    else ((g.leftchar * 64 + v) ∷ [], record g { quad_pos = 0; leftchar = 0; pads = 0 })

abbrev pub prepend : List ℕ → Option (List ℕ) → Option (List ℕ)
prepend [] r = r
prepend (b ∷ bs) none = none
prepend (b ∷ bs) (some out) = some (b ∷ out)

-- A `=`: the loop goes on with the new state, ends with success, or fails.
pub data Padding : Type 0 where
  go_on : Group → Padding
  done failed : Padding

unfoldable pub take_pad : Bool → Group → Bool → Padding
take_pad strict g more =
    if strict && g.quad_pos == 0
    then failed
    else if leb 2 g.quad_pos && leb 4 (g.quad_pos + g.pads + 1)
    then (if strict && more then failed else done)
    else go_on (record g {
      pads = if leb 2 g.quad_pos then g.pads + 1 else g.pads;
      padding_started = true;
    })

abbrev pub nonempty : List ℕ → Bool
nonempty [] = false
nonempty (_ ∷ _) = true

unfoldable pub a2b_loop : Bool → Group → Text → Option (List ℕ)
a2b_loop strict g [] = if g.quad_pos == 0 then some [] else none
a2b_loop strict g (c ∷ s) =
    if c == pad
    then elim (take_pad strict g (nonempty s)) [
      | go_on g' ↦ a2b_loop strict g' s
      | done ↦ some []
      | failed ↦ none
    ]
    else elim (sextet_of_char c) [
      | none ↦ (elim strict [ true ↦ none | false ↦ a2b_loop false g s ])
      | some v ↦ (elim (strict && g.padding_started) [
        | true ↦ none
        | false ↦ (let (out, g') = take_sextet g v in prepend out (a2b_loop strict g' s))
      ])
    ]

-- base64.b64decode(s, validate=strict). `none` stands for the ValueError, or its subclass
-- binascii.Error; a text that is not ASCII is refused first.
unfoldable pub b64decode : Bool → Text → Option (List ℕ)
b64decode strict s = if any (leb 128) s then none else a2b_loop strict start s
