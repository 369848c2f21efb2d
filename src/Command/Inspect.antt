-- ===== src/Command/Inspect.antt =====
-- command_builder.py: reading frames back. A Python index out of range raises `index_error`.
use Prim.Native.String.{String}
use delonghi_coffeelink.Prelude.{
  ℕ, ◌+◌, ◌-◌, Bool, true, false, not, ◌&&◌, ◌||◌, Option, none, some, List, [], ◌++◌, length, ltb,
  leb, ◌==◌, if◌then◌else◌, slice, take, drop, get_elem?,
}
use delonghi_coffeelink.Prelude.Result.{Result, ok, err, index_error, value_error, ◌>>=◌}
use delonghi_coffeelink.Prelude.Text.{Text, text_eq, join_split, not_blank}
use delonghi_coffeelink.Prelude.Dict.{lookup}
use delonghi_coffeelink.Bytes.{from_bytes, to_bytes4}
use delonghi_coffeelink.Crc.{crc16_aug_ccitt}
use delonghi_coffeelink.Base64.{b64encode, b64decode}
use delonghi_coffeelink.Hex.{hex, hex2, hex0x}
use delonghi_coffeelink.Command.{or_now}
use delonghi_coffeelink.Const.{
  cmd_prefix, cmd_response_prefix, cmd_family_brew, cmd_family_power, cmd_family_profile,
  eletta_recipe_trailer, power_wake_params, beverages,
}

-- raw[i]
unfoldable pub index : List ℕ → ℕ → Result ℕ
index raw i = elim (get_elem? raw i) [ none ↦ err index_error | some b ↦ ok b ]

-- The values of the keys "error", "type" and "style".
pub data DecodeError : Type 0 where
  not_a_text not_base64 bad_length : DecodeError

pub data FrameType : Type 0 where
  beverage power profile machine_response unknown : FrameType

pub data Style : Type 0 where
  soul eletta : Style

-- The dictionary that `decode_command` returns, with the keys that the coordinator adds. A key that
-- is not there reads as None, as `decoded.get(key)` does.
pub record Decoded : Type 0 where
  pub raw_b64 : Text
  pub error : Option DecodeError
  pub raw_hex : Option Text
  pub raw_length : Option ℕ
  pub prefix : Option Text
  pub length_byte : Option Text
  pub family : Option Text
  pub type : Option FrameType
  pub beverage_id : Option Text
  pub beverage_name : Option String
  pub action : Option ℕ
  pub action_name : Option String
  pub crc : Option Text
  pub crc_valid : Option Bool
  pub style : Option Style
  pub recipe : Option Text
  pub params : Option Text
  pub timestamp : Option ℕ
  pub structural_b64 : Option Text
  pub profile_id : Option ℕ
  pub status : Option ℕ
  pub matches_integration : Option Bool

abbrev pub undecoded : Text → Decoded
undecoded value = record {
  raw_b64 = value;
  error = none;
  raw_hex = none;
  raw_length = none;
  prefix = none;
  length_byte = none;
  family = none;
  type = none;
  beverage_id = none;
  beverage_name = none;
  action = none;
  action_name = none;
  crc = none;
  crc_valid = none;
  style = none;
  recipe = none;
  params = none;
  timestamp = none;
  structural_b64 = none;
  profile_id = none;
  status = none;
  matches_integration = none;
}

-- _ACTION_NAMES.get(action, "?")
abbrev pub action_names : ℕ → String
action_names a =
    if a == 1 then "start" else if a == 2 then "stop" else if a == 3 then "start" else "?"

abbrev pub beverage_names : ℕ → String
beverage_names b = elim (lookup b beverages) [ none ↦ "unknown" | some name ↦ name ]

-- The checksum test of `parse_profile_response` and the decoder: `n` bytes, then the checksum.
unfoldable pub crc_matches : List ℕ → ℕ → Bool
crc_matches raw n = crc16_aug_ccitt (slice 0 n raw) == from_bytes (slice n (n + 2) raw)

pub record ProfileResponse : Type 0 where
  pub profile : ℕ
  pub status : ℕ
  pub timestamp : Option ℕ

-- The part of `parse_profile_response` behind the decoding of its argument.
unfoldable pub parse_profile_bytes : List ℕ → Result (Option ProfileResponse)
parse_profile_bytes raw = if ltb (length raw) 8 then ok none else do
  prefix ← index raw 0
  size ← index raw 1
  (if not (prefix == cmd_response_prefix)
        || not (size == 0x07)
        || not (text_eq (slice 2 4 raw) cmd_family_profile)
      then ok none
      else if not (crc_matches raw 6)
      then ok none
      else do
        slot ← index raw 4
        answer ← index raw 5
        ok (
            some (record {
              profile = slot;
              status = answer;
              timestamp = if leb 12 (length raw) then some (from_bytes (slice 8 12 raw)) else none;
            })))

-- The argument is a `str` here; `parse_profile_bytes` is the case of `bytes`.
unfoldable pub parse_profile_response : Text → Result (Option ProfileResponse)
parse_profile_response value = elim (b64decode true (join_split value)) [
  | none ↦ ok none
  | some raw ↦ parse_profile_bytes raw
]

-- The branch of a brew frame of eight bytes or more.
unfoldable pub decode_beverage : Decoded → List ℕ → Result Decoded
decode_beverage out raw = do
  size ← index raw 1
  bev ← index raw 4
  act ← index raw 5
  let frame_len = size + 1
  let known = record out {
    type = some beverage;
    beverage_id = some (hex0x bev);
    beverage_name = some (beverage_names bev);
    action = some act;
    action_name = some (action_names act);
  }
  let soul_shape = frame_len == 14
  let has_trailer =
      not soul_shape && text_eq (slice (frame_len - 4) (frame_len - 2) raw) eletta_recipe_trailer
  let recipe = slice 6 (if has_trailer then frame_len - 4 else frame_len - 2) raw
  (if ltb frame_len 8 || ltb (length raw) frame_len
      then ok (record known { error = some bad_length })
      else ok (record known {
        crc = some (hex (slice (frame_len - 2) frame_len raw));
        crc_valid = some (
            crc16_aug_ccitt (slice 0 (frame_len - 2) raw)
            == from_bytes (slice (frame_len - 2) frame_len raw));
        style = some (if soul_shape then soul else eletta);
        recipe = some (hex recipe);
        params = some (hex (take 6 recipe));
        timestamp =
            if leb (frame_len + 4) (length raw)
            then some (from_bytes (slice frame_len (frame_len + 4) raw))
            else none;
        structural_b64 = some (b64encode (take frame_len raw));
      }))

unfoldable pub decode_power : Decoded → List ℕ → Decoded
decode_power out raw = record out {
  type = some power;
  params = some (hex (slice 4 6 raw));
  crc = some (hex (slice 6 8 raw));
  crc_valid = some (crc_matches raw 6);
  timestamp = some (from_bytes (slice 8 12 raw));
  structural_b64 = some (b64encode (take 8 raw));
}

unfoldable pub decode_profile : Decoded → List ℕ → Result Decoded
decode_profile out raw = do
  slot ← index raw 4
  ok (record out {
    type = some profile;
    profile_id = some slot;
    params = some (hex2 slot);
    crc = some (hex (slice 5 7 raw));
    crc_valid = some (crc_matches raw 5);
    timestamp = if leb 11 (length raw) then some (from_bytes (slice 7 11 raw)) else none;
    structural_b64 = some (b64encode (take 7 raw));
  })

-- `out.update(parsed)` if there is something parsed.
abbrev pub merge_response : Decoded → Option ProfileResponse → Decoded
merge_response out none = out
merge_response out (some r) = record out {
  profile_id = some r.profile;
  status = some r.status;
  timestamp = r.timestamp;
}

unfoldable pub decode_response : Decoded → List ℕ → List ℕ → Result Decoded
decode_response out family raw = do
  let response = record out { type = some machine_response }
  (if text_eq family cmd_family_profile && leb 8 (length raw)
      then (do
        parsed ← parse_profile_bytes raw
        ok (
            merge_response
              (record response {
                crc = some (hex (slice 6 8 raw));
                crc_valid = some (crc_matches raw 6);
              })
              parsed))
      else ok response)

-- The keys that every frame of four bytes or more has.
unfoldable pub decode_header : Decoded → List ℕ → Result Decoded
decode_header out raw = do
  let sized = record out { raw_hex = some (hex raw); raw_length = some (length raw) }
  (if leb 4 (length raw)
      then (do
        prefix ← index raw 0
        size ← index raw 1
        ok (record sized {
          prefix = some (hex0x prefix);
          length_byte = some (hex0x size);
          family = some (hex (slice 2 4 raw));
        }))
      else ok sized)

-- The branches on the family, behind the header.
unfoldable pub decode_family : Decoded → List ℕ → List ℕ → Result Decoded
decode_family out family raw =
    if text_eq family cmd_family_brew && leb 8 (length raw)
    then decode_beverage out raw
    else if text_eq family cmd_family_power && leb 12 (length raw)
    then ok (decode_power out raw)
    else do
      first ← index raw 0
      (if first == cmd_prefix && text_eq family cmd_family_profile && leb 7 (length raw)
          then decode_profile out raw
          else if leb 1 (length raw) && first == cmd_response_prefix
          then decode_response out family raw
          else ok (record out { type = some unknown }))

unfoldable pub decode_raw : Decoded → List ℕ → Result Decoded
decode_raw value raw = do
  out ← decode_header value raw
  decode_family out (if leb 4 (length raw) then slice 2 4 raw else []) raw

-- The decoding of a text that has been cleared of white space.
unfoldable pub decode_clean : Text → Result Decoded
decode_clean clean = elim (b64decode true clean) [
  | none ↦ ok (record (undecoded clean) { error = some not_base64 })
  | some raw ↦ decode_raw (undecoded clean) raw
]

-- A value that is not a `str` does not reach this function: its callers pass texts.
unfoldable pub decode_command : Text → Result Decoded
decode_command value =
    if not (not_blank value)
    then ok (record (undecoded value) { error = some not_a_text })
    else decode_clean (join_split value)

-- raw[frame_len : frame_len + 4] = timestamp.to_bytes(4, "big"), where the length byte allows it.
unfoldable pub stamp : List ℕ → ℕ → Result (List ℕ)
stamp raw timestamp =
    if leb 2 (length raw)
    then (do
      size ← index raw 1
      let frame_len = size + 1
      (if leb (frame_len + 4) (length raw)
          then (do
            ts ← to_bytes4 timestamp
            ok (take frame_len raw ++ (ts ++ drop (frame_len + 4) raw)))
          else ok raw))
    else ok raw

unfoldable pub replay_bytes : ℕ → Option (List ℕ) → Option ℕ → Result Text
replay_bytes now none timestamp = err value_error
replay_bytes now (some raw) timestamp = do
  raw' ← stamp raw (or_now timestamp now)
  ok (b64encode raw')

-- The decoding is without `validate`: characters outside the alphabet are passed over.
unfoldable pub replay_with_timestamp : ℕ → Text → Option ℕ → Result Text
replay_with_timestamp now value timestamp =
    replay_bytes now (b64decode false (join_split value)) timestamp

-- decoded.get("type") == t
abbrev pub is_type : FrameType → Option FrameType → Bool
is_type beverage (some beverage) = true
is_type power (some power) = true
is_type profile (some profile) = true
is_type _ _ = false

-- decoded.get("params") == p
abbrev pub is_text : Text → Option Text → Bool
is_text t none = false
is_text t (some s) = text_eq s t

abbrev pub is_true : Option Bool → Bool
is_true (some true) = true
is_true _ = false

unfoldable pub validate_power_frame_b64 : Text → List ℕ → Result Bool
validate_power_frame_b64 value expected_params = do
  decoded ← decode_command value
  ok (
      is_type power decoded.type
      && is_text (hex expected_params) decoded.params
      && is_true decoded.crc_valid)

unfoldable pub validate_replayed_wake_frame : Text → Result Bool
validate_replayed_wake_frame value = validate_power_frame_b64 value power_wake_params

unfoldable pub is_wake_power_frame : Decoded → Bool
is_wake_power_frame decoded =
    is_type power decoded.type && is_text (hex power_wake_params) decoded.params
