-- ===== src/Entities/Status.antt =====
-- sensor.py and const.py: what the sensors of a machine show. `lower` is `str.lower`.
use delonghi_coffeelink.Prelude.{ℕ, Bool, true, false, Option, none, some, if◌then◌else◌}
use delonghi_coffeelink.Prelude.Int.{ℤ, pos, eqb_ℤ}
use delonghi_coffeelink.Prelude.Text.{Text, codes, in_texts}
use delonghi_coffeelink.Prelude.Result.{Result, ok, ◌>>=◌}
use delonghi_coffeelink.Const.Tables.{counter_measurements}
use delonghi_coffeelink.Counters.{Document, Raw, parse_counter_value}
use delonghi_coffeelink.Command.{normalize_signed_app_id}
use delonghi_coffeelink.Session.AppId.{parse_app_id_value}
use delonghi_coffeelink.Monitor.{Reading, failed, reading}
use delonghi_coffeelink.Poll.Fetch.{MonitorState, monitor_is_stale}
use delonghi_coffeelink.Sniffer.{Captured}

-- The native value of the machine status; `age` is that of the monitor, in seconds.
abbrev pub status_value : Option Reading → Option ℕ → Option Text
status_value none age = none
status_value (some (failed f)) age = some (codes "unknown")
status_value (some (reading m)) age =
    if monitor_is_stale age then none else some (codes m.status_name)

unfoldable pub machine_status_value : MonitorState → Option ℕ → Option Text
machine_status_value m age = status_value m.monitor age

-- A TIMESTAMP sensor shows the time unless it has no time zone.
abbrev pub timestamp_value : Option (ℕ × Bool) → Option ℕ
timestamp_value none = none
timestamp_value (some (time, has_zone)) = if has_zone then some time else none

-- _parse_cloud_session_app_id, which reads a value as the coordinator does.
abbrev pub parse_cloud_session_app_id : Raw → Option ℤ
parse_cloud_session_app_id raw = parse_app_id_value raw

-- _HA_CLOUD_SESSION_APP_ID
unfoldable pub ha_cloud_session_app_id : ℤ
ha_cloud_session_app_id = normalize_signed_app_id (pos 0xc0ffee11)

abbrev pub or_generic : Option ℤ → ℤ
or_generic none = ha_cloud_session_app_id
or_generic (some own) = own

unfoldable pub cloud_session_holder : Option ℤ → Option ℤ → Text
cloud_session_holder none own = codes "unknown"
cloud_session_holder (some app_id) own =
    if eqb_ℤ app_id (pos 0)
    then codes "free"
    else if eqb_ℤ app_id (or_generic own)
    then codes "ha"
    else codes "foreign"

-- The native value of the last command.
abbrev pub last_command_value : Option Captured → Option Text
last_command_value none = none
last_command_value (some rec) = some rec.decoded.raw_b64

-- What a counter publishes: a count, or thousandths of a litre for a measurement.
pub data Shown : Type 0 where
  count millilitres : ℤ → Shown

abbrev pub shown_as : Bool → Option ℤ → Option Shown
shown_as measured none = none
shown_as true (some n) = some (millilitres n)
shown_as false (some n) = some (count n)

-- `native_value` of a counter with this key; `value` is none without the property or its value.
unfoldable pub counter_value : (Text → Document) → Text → Option Raw → Result (Option Shown)
counter_value json_loads key none = ok none
counter_value json_loads key (some raw) =
    parse_counter_value json_loads raw >>= λ n. ok (shown_as (in_texts key counter_measurements) n)
