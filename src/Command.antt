-- ===== src/Command.antt =====
-- command_builder.py: the frames that the integration sends. `now` is what `time.time()` answers,
-- and the timestamp `none` means now, as in the source.
pub mod Inspect
pub mod Recapture
pub mod Signature
pub mod Learn
pub mod RoundTrip
pub mod Replay
pub mod Total
pub mod Tail
pub mod Build
pub mod Dump
pub mod Stored
pub mod Eletta
mod Tests
use delonghi_coffeelink.Prelude.{
  ℕ, ◌+◌, ◌-◌, ◌^◌, Bool, true, false, not, ◌&&◌, Option, none, some, List, [], ◌∷◌, ◌++◌, length,
  ltb, leb, ◌==◌, if◌then◌else◌, any,
}
use Prim.Native.Nat.{bit_xor, ◌%◌}
use delonghi_coffeelink.Prelude.Int.{ℤ, pos, negsuc, sub_ℕ}
use delonghi_coffeelink.Prelude.Result.{
  Result, ok, err, value_error, overflow_error, ◌>>=◌, ◌>>◌, guard,
}
use delonghi_coffeelink.Prelude.Text.{Text}
use delonghi_coffeelink.Bytes.{be2, to_bytes4, signed_to_bytes4}
use delonghi_coffeelink.Crc.{crc16_aug_ccitt}
use delonghi_coffeelink.Base64.{b64encode}
use delonghi_coffeelink.Const.{
  cmd_prefix, cmd_length, cmd_family_brew, cmd_family_power, cmd_family_profile,
  default_recipe_params, eletta_recipe_trailer, power_wake_params, power_standby_params,
  power_session_refresh_params,
}

-- bytes([...]), which raises ValueError for a number that is not a byte.
unfoldable pub bytes_of : List ℕ → Result (List ℕ)
bytes_of ns = if any (leb 256) ns then err value_error else ok ns

abbrev pub or_now : Option ℕ → ℕ → ℕ
or_now none now = now
or_now (some t) now = t

-- app_id & 0xFFFFFFFF, for a Python integer of either sign.
unfoldable pub low32 : ℤ → ℕ
low32 (pos n) = n % 2 ^ 32
low32 (negsuc n) = 2 ^ 32 - 1 - n % 2 ^ 32

-- ((app_id & 0xFFFFFFFF) ^ 0x80000000) - 0x80000000
unfoldable pub normalize_signed_app_id : ℤ → ℤ
unfolding low32
normalize_signed_app_id app_id = sub_ℕ (bit_xor (low32 app_id) 0x80000000) 0x80000000

unfoldable pub session_id_to_tail_bytes : ℤ → Result (List ℕ)
unfolding normalize_signed_app_id
session_id_to_tail_bytes app_id = signed_to_bytes4 (normalize_signed_app_id app_id)

unfoldable pub build_beverage_command : ℕ → ℕ → ℕ → List ℕ → Option ℕ → Result (List ℕ)
build_beverage_command now beverage_id action params timestamp = do
  start ← bytes_of (cmd_prefix ∷ cmd_length ∷ cmd_family_brew ++ (beverage_id ∷ action ∷ []))
  let header = start ++ params
  guard (length header == 12) value_error
  ts ← to_bytes4 (or_now timestamp now)
  ok (header ++ (be2 (crc16_aug_ccitt header) ++ ts))

unfoldable pub build_eletta_beverage_command : ℕ → ℕ → ℕ → List ℕ → Option ℕ → Result (List ℕ)
build_eletta_beverage_command now beverage_id action recipe_block timestamp = do
  start ← bytes_of (cmd_family_brew ++ (beverage_id ∷ action ∷ []))
  let body = start ++ (recipe_block ++ eletta_recipe_trailer)
  prefix ← bytes_of (cmd_prefix ∷ (length body + 3) ∷ [])
  let frame = prefix ++ body
  ts ← to_bytes4 (or_now timestamp now)
  ok (frame ++ (be2 (crc16_aug_ccitt frame) ++ ts))

-- `if signature: frame += signature`
abbrev pub append_signature : List ℕ → Option (List ℕ) → List ℕ
append_signature frame none = frame
append_signature frame (some signature) = frame ++ signature

unfoldable pub build_power_command : ℕ → List ℕ → Option ℕ → Option (List ℕ) → Result (List ℕ)
build_power_command now params timestamp signature = do
  let header = (cmd_prefix ∷ 0x07 ∷ cmd_family_power) ++ params
  guard (length header == 6) value_error
  ts ← to_bytes4 (or_now timestamp now)
  ok (append_signature (header ++ (be2 (crc16_aug_ccitt header) ++ ts)) signature)

unfoldable pub build_profile_command : ℕ → ℕ → Option ℕ → Option (List ℕ) → Result (List ℕ)
build_profile_command now profile_id timestamp signature = do
  guard (leb 1 profile_id && leb profile_id 255) value_error
  header ← bytes_of ((cmd_prefix ∷ 0x06 ∷ cmd_family_profile) ++ (profile_id ∷ []))
  ts ← to_bytes4 (or_now timestamp now)
  ok (append_signature (header ++ (be2 (crc16_aug_ccitt header) ++ ts)) signature)

abbrev pub encode_command : List ℕ → Text
encode_command command_bytes = b64encode command_bytes

-- encode_command(...) around a builder that may raise.
abbrev pub encoded : Result (List ℕ) → Result Text
encoded r = r >>= λ frame. ok (encode_command frame)

unfoldable pub build_and_encode : ℕ → ℕ → ℕ → Result Text
unfolding build_beverage_command
build_and_encode now beverage_id action =
    encoded (build_beverage_command now beverage_id action default_recipe_params none)

unfoldable pub build_wake_command : ℕ → Option ℕ → Result (List ℕ)
unfolding build_power_command
build_wake_command now timestamp = build_power_command now power_wake_params timestamp none

unfoldable pub build_wake_encoded : ℕ → Result Text
unfolding build_wake_command
build_wake_encoded now = encoded (build_wake_command now none)

unfoldable pub build_power_with_session_tail : ℕ → List ℕ → ℤ → Option ℕ → Result (List ℕ)
unfolding build_power_command session_id_to_tail_bytes
build_power_with_session_tail now params app_id timestamp = do
  tail ← session_id_to_tail_bytes app_id
  build_power_command now params timestamp (some tail)

unfoldable pub build_wake_with_session_tail : ℕ → ℤ → Option ℕ → Result (List ℕ)
unfolding build_power_with_session_tail
build_wake_with_session_tail now app_id timestamp =
    build_power_with_session_tail now power_wake_params app_id timestamp

unfoldable pub build_wake_with_session_tail_encoded : ℕ → ℤ → Result Text
unfolding build_wake_with_session_tail
build_wake_with_session_tail_encoded now app_id =
    encoded (build_wake_with_session_tail now app_id none)

unfoldable pub build_standby_with_session_tail : ℕ → ℤ → Option ℕ → Result (List ℕ)
unfolding build_power_with_session_tail
build_standby_with_session_tail now app_id timestamp =
    build_power_with_session_tail now power_standby_params app_id timestamp

unfoldable pub build_standby_with_session_tail_encoded : ℕ → ℤ → Result Text
unfolding build_standby_with_session_tail
build_standby_with_session_tail_encoded now app_id =
    encoded (build_standby_with_session_tail now app_id none)

unfoldable pub build_session_refresh_command : ℕ → ℤ → Option ℕ → Result (List ℕ)
unfolding build_power_with_session_tail
build_session_refresh_command now app_id timestamp =
    build_power_with_session_tail now power_session_refresh_params app_id timestamp

unfoldable pub build_session_refresh_encoded : ℕ → ℤ → Result Text
unfolding build_session_refresh_command
build_session_refresh_encoded now app_id = encoded (build_session_refresh_command now app_id none)

unfoldable pub build_standby_command : ℕ → Option ℕ → Option (List ℕ) → Result (List ℕ)
unfolding build_power_command
build_standby_command now timestamp signature =
    build_power_command now power_standby_params timestamp signature

unfoldable pub build_standby_encoded : ℕ → Option (List ℕ) → Result Text
unfolding build_standby_command
build_standby_encoded now signature = encoded (build_standby_command now none signature)

unfoldable pub build_profile_encoded : ℕ → ℕ → Option ℕ → Option (List ℕ) → Result Text
unfolding build_profile_command
build_profile_encoded now profile_id timestamp signature =
    encoded (build_profile_command now profile_id timestamp signature)

-- `app_id` arrives as an integer here, and `none` is Python's None.
unfoldable pub build_profile_with_session_tail_encoded : ℕ → ℕ → Option ℤ → Option ℕ → Result Text
unfolding build_profile_encoded session_id_to_tail_bytes
build_profile_with_session_tail_encoded now profile_id none timestamp =
    build_profile_encoded now profile_id timestamp none
build_profile_with_session_tail_encoded now profile_id (some app_id) timestamp = do
  tail ← session_id_to_tail_bytes app_id
  build_profile_encoded now profile_id timestamp (some tail)
