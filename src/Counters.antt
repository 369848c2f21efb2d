-- ===== src/Counters.antt =====
-- counters.py: the value of a counter, from the shapes that the models publish. `int(s)` of a text
-- is that of a text of ASCII characters.
pub mod Sums
use delonghi_coffeelink.Prelude.{
  ℕ, ◌+◌, ◌-◌, ◌*◌, ◌/◌, ◌%◌, Bool, true, false, not, ◌&&◌, ◌||◌, Option, none, some, List, [], ◌∷◌,
  ltb, leb, ◌==◌, if◌then◌else◌,
}
use delonghi_coffeelink.Prelude.Int.{ℤ, pos, negsuc, ◌+ℤ◌}
use delonghi_coffeelink.Prelude.Text.{Text, codes, strip, text_eq}
use delonghi_coffeelink.Prelude.Result.{Result, ok, err, value_error, overflow_error, ◌>>=◌}
use delonghi_coffeelink.Hex.{negate}

-- A JSON value. A float has the text of `str` and what `int` gives, which is a ValueError for NaN
-- and an OverflowError for an infinity; a list or a dictionary has its text.
pub data Raw : Type 0 where
  null : Raw
  boolean : Bool → Raw
  integer : ℤ → Raw
  string : Text → Raw
  float : Text → Result ℤ → Raw
  structure : Text → Raw

abbrev pub decimal_digit : ℕ → Option ℕ
decimal_digit c = if leb b'0' c && leb c b'9' then some (c - b'0') else none

-- The digits of `int(s)`: one underscore may stand between two digits. `after` says that the
-- character before was a digit.
unfoldable pub digits10 : ℕ → Bool → Text → Option ℕ
digits10 acc after [] = if after then some acc else none
digits10 acc after (c ∷ s) = elim (decimal_digit c) [
  | some v ↦ digits10 (acc * 10 + v) true s
  | none ↦ (elim (after && c == b'_') [ true ↦ digits10 acc false s | false ↦ none ])
]

abbrev pub signed10 : Text → Option ℤ
signed10 [] = none
signed10 (c ∷ s) =
    if c == b'-'
    then elim (digits10 0 false s) [ none ↦ none | some n ↦ some (negate n) ]
    else elim (digits10 0 false (if c == b'+' then s else c ∷ s)) [
      | none ↦ none
      | some n ↦ some (pos n)
    ]

-- int(s) of a text; `none` is the ValueError.
unfoldable pub int10 : Text → Option ℤ
unfolding digits10
int10 s = signed10 (strip s)

-- val_str.startswith("{") and val_str.endswith("}")
abbrev pub starts_with : ℕ → Text → Bool
starts_with c [] = false
starts_with c (d ∷ s) = d == c

abbrev pub ends_with : ℕ → Text → Bool
ends_with c [] = false
ends_with c (d ∷ []) = d == c
ends_with c (d ∷ e ∷ s) = ends_with c (e ∷ s)

unfoldable pub looks_like_json_object : Text → Bool
looks_like_json_object s = starts_with b'{' s && ends_with b'}' s

-- One turn of the loop over the sub-values: a ValueError and a TypeError are passed over.
unfoldable pub add_sub : Raw → ℤ → Result ℤ
add_sub null total = ok total
add_sub (boolean b) total = ok (total +ℤ pos (if b then 1 else 0))
add_sub (integer n) total = ok (total +ℤ n)
add_sub (string s) total = elim (int10 s) [ none ↦ ok total | some n ↦ ok (total +ℤ n) ]
add_sub (float s (ok n)) total = ok (total +ℤ n)
add_sub (float s (err overflow_error)) total = err overflow_error
add_sub (float s (err e)) total = ok total
add_sub (structure s) total = ok total

unfoldable pub add_subs : List Raw → ℤ → Result ℤ
add_subs [] total = ok total
add_subs (sub ∷ subs) total = add_sub sub total >>= add_subs subs

-- What `json.loads` gives: nothing for a JSONDecodeError, and the entries of an object, or none
-- where the document is no object.
abbrev pub Document : Type 0
Document = Option (Option (List (Text × Raw)))

abbrev pub entry_values : List (Text × Raw) → List Raw
entry_values [] = []
entry_values ((key, value) ∷ entries) = value ∷ entry_values entries

abbrev pub some_of : Result ℤ → Result (Option ℤ)
some_of r = r >>= λ n. ok (some n)

-- `json_loads` is `json.loads`.
module _ (json_loads : Text → Document) where
  abbrev pub total_of : Document → Result (Option ℤ)
  total_of none = ok none
  total_of (some none) = ok none
  total_of (some (some entries)) = some_of (add_subs (entry_values entries) (pos 0))

  unfoldable pub parse_text : Text → Result (Option ℤ)
  parse_text s = if looks_like_json_object s then total_of (json_loads s) else ok (int10 s)

  unfoldable pub parse_counter_value : Raw → Result (Option ℤ)
  parse_counter_value null = ok none
  parse_counter_value (boolean b) = ok none
  parse_counter_value (integer n) = ok (some n)
  parse_counter_value (string s) = parse_text (strip s)
  parse_counter_value (float s n) = parse_text (strip s)
  parse_counter_value (structure s) = parse_text (strip s)

  abbrev pub entries_of : Document → Option (List (Text × Raw))
  entries_of none = none
  entries_of (some d) = d

  abbrev pub breakdown_text : Text → Option (List (Text × Raw))
  breakdown_text s = if looks_like_json_object s then entries_of (json_loads s) else none

  -- A value that is false has no breakdown: None, zero, an empty text, whose text is no object's, and
  -- the empty dictionary and list, whose text is `{}` and `[]`.
  unfoldable pub counter_breakdown : Raw → Option (List (Text × Raw))
  counter_breakdown null = none
  counter_breakdown (boolean b) = none
  counter_breakdown (integer n) = none
  counter_breakdown (string s) = breakdown_text (strip s)
  counter_breakdown (float s n) = breakdown_text (strip s)
  counter_breakdown (structure s) =
      if text_eq s (codes "{}") || text_eq s (codes "[]") then none else breakdown_text (strip s)
