-- ===== src/Command/Learn.antt =====
-- command_builder.py: which captured frames are learned, and how the learned ones are stored.
use delonghi_coffeelink.Prelude.{
  ℕ, Bool, true, false, not, ◌||◌, Option, none, some, List, [], ◌∷◌, ◌==◌, if◌then◌else◌, any, map,
}
use delonghi_coffeelink.Prelude.Int.{ℤ, pos, negsuc, eqb_ℤ}
use delonghi_coffeelink.Prelude.Dict.{contains}
use delonghi_coffeelink.Prelude.Text.{Text}
use delonghi_coffeelink.Prelude.Result.{Result, ok, err, value_error, ◌>>=◌}
use delonghi_coffeelink.Base64.{b64encode}
use delonghi_coffeelink.Prelude.{take}
use delonghi_coffeelink.Hex.{hex0x_int, int16}
use delonghi_coffeelink.Const.{beverages}
use delonghi_coffeelink.Command.{build_beverage_command, build_wake_command, build_profile_command}
use delonghi_coffeelink.Const.{default_recipe_params}
use delonghi_coffeelink.Command.Inspect.{
  Decoded, beverage, power, profile, Style, eletta, is_type, is_true,
}

-- bev_id in set(known_ids)
abbrev pub member : ℕ → List ℕ → Bool
member n = any (λ m. n == m)

-- bev_id in _BEV_NAMES, or among the known ids.
unfoldable pub known_beverage : Option (List ℕ) → ℤ → Option ℕ
known_beverage known_ids (negsuc n) = none
known_beverage none (pos n) = if contains n beverages then some n else none
known_beverage (some ids) (pos n) = if contains n beverages || member n ids then some n else none

-- int(decoded.get("beverage_id", ""), 16)
abbrev pub beverage_id16 : Option Text → Option ℤ
beverage_id16 none = int16 []
beverage_id16 (some t) = int16 t

abbrev pub known_if_read : Option (List ℕ) → Option ℤ → Option ℕ
unfolding known_beverage
known_if_read known_ids none = none
known_if_read known_ids (some bev_id) = known_beverage known_ids bev_id

unfoldable pub learnable_beverage_id : Decoded → Option (List ℕ) → Option ℕ
learnable_beverage_id decoded known_ids =
    if not (is_type beverage decoded.type) || not (is_true decoded.crc_valid)
    then none
    else if is_true decoded.matches_integration
    then none
    else known_if_read known_ids (beverage_id16 decoded.beverage_id)

abbrev pub is_eletta : Option Style → Bool
is_eletta (some eletta) = true
is_eletta _ = false

abbrev pub or_start : Option ℕ → ℕ
or_start none = 0x01
or_start (some a) = a

-- The first `n` bytes of a frame, encoded; a ValueError of the builder is handed on.
abbrev pub structure : ℕ → Result (List ℕ) → Result (Option Text)
structure n r = r >>= λ cmd. ok (some (b64encode (take n cmd)))

-- `except (KeyError, ValueError, TypeError): return None`
abbrev pub none_on_value_error : Result (Option Text) → Result (Option Text)
none_on_value_error (err value_error) = ok none
none_on_value_error r = r

unfoldable pub beverage_structure : ℕ → Decoded → Option ℤ → Result (Option Text)
unfolding build_beverage_command
beverage_structure now decoded none = ok none
beverage_structure now decoded (some (negsuc n)) = err value_error
beverage_structure now decoded (some (pos bev_id)) =
    structure 14
      (build_beverage_command now bev_id (or_start decoded.action) default_recipe_params none)

unfoldable pub profile_structure : ℕ → Option ℕ → Result (Option Text)
unfolding build_profile_command
profile_structure now none = ok none
profile_structure now (some slot) =
    none_on_value_error (structure 7 (build_profile_command now slot none none))

unfoldable pub builder_structural_b64 : ℕ → Decoded → Result (Option Text)
unfolding beverage_structure profile_structure build_wake_command
builder_structural_b64 now decoded = elim decoded.type [
  | none ↦ ok none
  | some kind ↦ (elim kind [
    | beverage ↦
        (if is_eletta decoded.style
          then ok none
          else beverage_structure now decoded (beverage_id16 decoded.beverage_id))
    | power ↦ structure 8 (build_wake_command now none)
    | profile ↦ profile_structure now decoded.profile_id
    | _ ↦ ok none
  ])
]

-- A JSON value as the store hands it back: what is neither an object nor a text is `other`.
pub data Stored : Type 0 where
  text : Text → Stored
  other : Stored

-- The dictionary that is stored, and what may come back: a section is an object or something odd.
pub record Storage : Type 0 where
  pub start : Option (List (Text × Stored))
  pub stop : Option (List (Text × Stored))
  pub wake : Option Stored

-- Learned frames by beverage id: a dictionary in insertion order. Its keys are integers of either
-- sign, since `int(key, 16)` reads both.
abbrev pub Frames : Type 0
Frames = List (ℤ × Text)

abbrev pub find_frame : ℤ → Frames → Option Text
find_frame k [] = none
find_frame k ((j, frame) ∷ d) = if eqb_ℤ k j then some frame else find_frame k d

abbrev pub put_frame : ℤ → Text → Frames → Frames
put_frame k frame [] = (k, frame) ∷ []
put_frame k frame ((j, old) ∷ d) =
    if eqb_ℤ k j then (j, frame) ∷ d else (j, old) ∷ put_frame k frame d

abbrev pub section_entry : ℤ × Text → Text × Stored
section_entry (bev, frame) = (hex0x_int bev, text frame)

-- `if wake: data["wake"] = wake`
abbrev pub stored_wake : Option Text → Option Stored
stored_wake none = none
stored_wake (some []) = none
stored_wake (some (c ∷ s)) = some (text (c ∷ s))

unfoldable pub serialize_learned_frames : Frames → Frames → Option Text → Storage
serialize_learned_frames start stop wake = record {
  start = some (map section_entry start);
  stop = some (map section_entry stop);
  wake = stored_wake wake;
}

-- One turn of the loop of `_section`: a value that is no text and a key that is no number are
-- skipped.
abbrev pub put_read : Option ℤ → Text → Frames → Frames
put_read none frame out = out
put_read (some bev) frame out = put_frame bev frame out

abbrev pub read_entry : Text × Stored → Frames → Frames
read_entry (key, other) out = out
read_entry (key, text frame) out = put_read (int16 key) frame out

unfoldable pub read_entries : List (Text × Stored) → Frames → Frames
read_entries [] out = out
read_entries (e ∷ es) out = read_entries es (read_entry e out)

abbrev pub read_section : Option (List (Text × Stored)) → Frames
read_section none = []
read_section (some es) = read_entries es []

abbrev pub read_wake : Option Stored → Option Text
read_wake (some (text w)) = some w
read_wake _ = none

unfoldable pub deserialize_learned_frames : Option Storage → Frames × Frames × Option Text
unfolding read_entries
deserialize_learned_frames none = ([], [], none)
deserialize_learned_frames (some d) = (read_section d.start, read_section d.stop, read_wake d.wake)
