-- ===== src/Monitor.antt =====
-- monitor.py: the monitor packet that the machine publishes. An exception that the source catches
-- is a value of `Failure`; one that it would let through is an `err`.
pub mod Proofs
use Prim.Native.String.{String}
use delonghi_coffeelink.Prelude.{
  ℕ, ◌+◌, ◌-◌, ◌*◌, Bool, true, false, not, ◌||◌, Option, none, some, List, [], ◌∷◌, length, ltb,
  leb, ◌==◌, if◌then◌else◌, slice, take, drop, get_elem?,
}
use delonghi_coffeelink.Prelude.Result.{Result, ok, err, Error, value_error, value_message, ◌>>=◌}
use delonghi_coffeelink.Prelude.Text.{Text, join_split, not_blank}
use delonghi_coffeelink.Prelude.Dict.{lookup}
use delonghi_coffeelink.Bytes.{from_bytes}
use delonghi_coffeelink.Crc.{crc16_aug_ccitt}
use delonghi_coffeelink.Base64.{b64decode}
use delonghi_coffeelink.Command.Inspect.{index}
use delonghi_coffeelink.Const.{machine_status}

abbrev pub monitor_request_id : ℕ
monitor_request_id = 0x75

pub record Packet : Type 0 where
  pub content : List ℕ
  pub timestamp : List ℕ
  pub extra : List ℕ

unfoldable pub parse_ecam_packet : List ℕ → Result Packet
parse_ecam_packet raw = if ltb (length raw) 4 then err (value_message "packet too short") else do
  len ← index raw 1
  (if ltb len 4 || ltb (length raw) (len + 1)
      then err (value_message "invalid length byte")
      else if not
          (crc16_aug_ccitt (take (len - 1) raw) == from_bytes (slice (len - 1) (len + 1) raw))
      then err (value_message "CRC mismatch")
      else ok (record {
        content = slice 2 (len - 1) raw;
        timestamp = if leb (len + 5) (length raw) then slice (len + 1) (len + 5) raw else [];
        extra = if ltb (len + 5) (length raw) then drop (len + 5) raw else [];
      }))

pub record Fields : Type 0 where
  pub accessory : ℕ
  pub status : ℕ
  pub action : ℕ
  pub progress : ℕ
  pub switches : Option ℕ
  pub alarms : Option ℕ

-- The bytes that `|` joins stand at different places of the word, so that it is `+`.
unfoldable pub parse_monitor_contents : List ℕ → Result Fields
parse_monitor_contents contents =
    if ltb (length contents) 8 then err (value_message "monitor contents too short") else do
      b0 ← index contents 0
      b5 ← index contents 5
      b6 ← index contents 6
      b7 ← index contents 7
      let fields : Fields = record {
        accessory = b0;
        status = b5;
        action = b6;
        progress = b7;
        switches = none;
        alarms = none;
      }
      (if leb 13 (length contents)
          then (do
            b1 ← index contents 1
            b2 ← index contents 2
            b3 ← index contents 3
            b4 ← index contents 4
            b8 ← index contents 8
            b9 ← index contents 9
            ok (record fields {
              switches = some (b1 + b2 * 0x100);
              alarms = some (b3 + b4 * 0x100 + b8 * 0x10000 + b9 * 0x1000000);
            }))
          else ok fields)

-- What stands under "error".
pub data Failure : Type 0 where
  empty_value not_base64 unnamed : Failure
  not_monitor : Option ℕ → Failure
  message : String → Failure

pub record Monitor : Type 0 where
  pub status : ℕ
  pub status_name : String
  pub progress : ℕ
  pub action : ℕ
  pub accessory : ℕ
  pub switches : Option ℕ
  pub alarms : Option ℕ

pub data Reading : Type 0 where
  failed : Failure → Reading
  reading : Monitor → Reading

-- except (ValueError, binascii.Error) as err: return {"error": str(err)}
abbrev pub catch_value : Result Reading → Result Reading
catch_value (err (value_message m)) = ok (failed (message m))
catch_value (err value_error) = ok (failed unnamed)
catch_value r = r

abbrev pub or_unknown : Option String → String
or_unknown none = "unknown"
or_unknown (some name) = name

abbrev pub status_names : ℕ → String
status_names s = or_unknown (lookup s machine_status)

abbrev pub reading_of : Fields → Reading
reading_of fields = reading (record {
  status = fields.status;
  status_name = status_names fields.status;
  progress = fields.progress;
  action = fields.action;
  accessory = fields.accessory;
  switches = fields.switches;
  alarms = fields.alarms;
})

-- content[0] != MONITOR_REQUEST_ID, or too short.
abbrev pub is_other : List ℕ → Bool
is_other content =
    ltb (length content) 2
    || not (elim (get_elem? content 0) [ none ↦ false | some b ↦ b == monitor_request_id ])

-- The part behind the decoding of the text.
unfoldable pub parse_monitor_bytes : List ℕ → Result Reading
parse_monitor_bytes raw = do
  packet ← parse_ecam_packet raw
  (if is_other packet.content
      then ok (failed (not_monitor (get_elem? packet.content 0)))
      else do fields ← parse_monitor_contents (drop 2 packet.content); ok (reading_of fields))

abbrev pub parse_monitor_decoded : Option (List ℕ) → Result Reading
parse_monitor_decoded none = ok (failed not_base64)
parse_monitor_decoded (some raw) = catch_value (parse_monitor_bytes raw)

unfoldable pub parse_monitor_b64 : Text → Result Reading
parse_monitor_b64 value =
    if not (not_blank value)
    then ok (failed empty_value)
    else parse_monitor_decoded (b64decode true (join_split value))
