-- ===== src/Command/Dump.antt =====
-- command_builder.py: the diagnostic dump of the recipes that a machine stores.
pub mod Redacted
use delonghi_coffeelink.Prelude.{
  ℕ, zero, suc, ◌*◌, ◌/◌, ◌%◌, ◌+◌, Bool, true, false, not, ◌&&◌, ◌||◌, Option, none, some, List,
  [], ◌∷◌, ◌++◌, length, ltb, ◌==◌, if◌then◌else◌, slice, take, drop,
}
use delonghi_coffeelink.Prelude.Text.{Text, codes, text_eq, join_split, not_blank, contains_text}
use delonghi_coffeelink.Base64.{b64decode}
use delonghi_coffeelink.Hex.{hex, hex_digit}
use delonghi_coffeelink.Const.{
  active_profile_property, cmd_response_prefix, is_text_family, is_dumpable_family,
}
use delonghi_coffeelink.Catalog.Views.{decimal}
use delonghi_coffeelink.Catalog.{Value, text, other, Props, value_of, get_prop, sorted_names}

-- bytes.hex()
unfoldable pub hex_plain : List ℕ → Text
unfolding hex_digit
hex_plain [] = []
hex_plain (b ∷ bs) = hex_digit (b / 16) ∷ hex_digit (b % 16) ∷ hex_plain bs

-- What `_dumpable_blob` keeps of the bytes that it has decoded.
unfoldable pub dumpable_bytes : List ℕ → Option (List ℕ)
dumpable_bytes [] = none
dumpable_bytes (prefix ∷ more) =
    let raw = prefix ∷ more in
    if ltb (length raw) 4 || not (prefix == cmd_response_prefix)
    then none
    else if is_dumpable_family (slice 2 4 raw)
    then some raw
    else none

unfoldable pub dumpable_blob : Value → Option (List ℕ)
unfolding dumpable_bytes
dumpable_blob other = none
dumpable_blob (text s) =
    let clean = join_split s in
    if not (not_blank s) then none else elim (b64decode true (take (length clean / 4 * 4) clean)) [
      | none ↦ none
      | some raw ↦ dumpable_bytes raw
    ]

unfoldable pub render_blob : Text → List ℕ → Text
unfolding hex_plain
render_blob name raw =
    let family = slice 2 4 raw in
    let start = name ++ codes " [family " ++ hex_plain family ++ codes "] = " in
    if is_text_family family
    then start
      ++ hex (take 6 raw)
      ++ codes " <"
      ++ decimal (length (drop 6 raw))
      ++ codes " bytes of name redacted>"
    else start ++ hex raw

-- "_rec_" in name, or the indicator of the active profile.
unfoldable pub is_named : Text → Bool
is_named name = contains_text (codes "_rec_") name || text_eq name active_profile_property

-- The loop's `lines.append`.
abbrev pub with_line : Option Text → List Text → List Text
with_line none lines = lines
with_line (some line) lines = line ∷ lines

-- `repr_of name` is what `repr(value)` gives for the value of that property.
module _ (repr_of : Text → Text) where
  -- A value that is no blob: its bytes, or the text itself where it does not decode.
  unfoldable pub rendered : Text → Value → Text
  rendered name other = repr_of name
  rendered name (text s) =
      if not_blank s
      then elim (b64decode true (join_split s)) [ none ↦ s | some bytes ↦ hex bytes ]
      else repr_of name

  -- The line of one property, or none where the loop goes on to the next.
  unfoldable pub line_of : Text → Value → Option (List ℕ) → Option Text
  unfolding render_blob is_named
  line_of name value (some raw) = some (render_blob name raw)
  line_of name value none =
      if is_named name then some (name ++ codes " = " ++ rendered name value) else none

  unfoldable pub dump_line : Text → Value → Option Text
  unfolding dumpable_blob line_of
  dump_line name value = line_of name value (dumpable_blob value)

  unfoldable pub dump_lines : Props → List Text → List Text
  unfolding dump_line
  dump_lines props [] = []
  dump_lines props (name ∷ names) =
      with_line (dump_line name (value_of (get_prop name props))) (dump_lines props names)

  unfoldable pub recipe_dump_lines : Props → List Text
  unfolding dump_lines
  recipe_dump_lines props = dump_lines props (sorted_names props)
