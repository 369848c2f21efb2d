-- ===== src/Entities/Options.antt =====
-- sensor.py: the sensors of the device class ENUM show one of their options.
use delonghi_coffeelink.Prelude.{
  ℕ, ◌≡◌, refl, sym, subst, true, Option, none, some, List, Bool-cases, inl, inr, if-both,
}
use delonghi_coffeelink.Prelude.Text.{Text, codes, in_texts, text_eq, strip}
use delonghi_coffeelink.Prelude.Result.{Result, ok, err, Passes}
use delonghi_coffeelink.Const.Tables.{
  machine_status_options, connection_status_options, normalize_connection_status,
}
use delonghi_coffeelink.Catalog.{Props}
use delonghi_coffeelink.Monitor.{Reading, failed, reading, parse_monitor_b64}
use delonghi_coffeelink.Poll.Fetch.{
  MonitorState, monitor_is_stale, monitor_value, take_monitor, update_monitor,
}
use delonghi_coffeelink.Poll.Choice.{heard, heard_of, preferred, update_monitor-preferred}
use delonghi_coffeelink.Entities.Status.{status_value, machine_status_value}
use delonghi_coffeelink.Entities.Names.{NamesOption, parse_monitor_b64-NamesOption}

-- Nothing is shown, or one of the options.
abbrev pub IsOption : List Text → Option Text → Type 0
IsOption options none = Unit
IsOption options (some t) = in_texts t options ≡ true

abbrev HeardNamesOption : Option Reading → Type 0
HeardNamesOption none = Unit
HeardNamesOption (some mon) = NamesOption mon

heard_of-NamesOption : (r : Result Reading) → Passes NamesOption r → HeardNamesOption (heard_of r)
heard_of-NamesOption (ok mon) h = h
heard_of-NamesOption (err e) h = tt

heard-NamesOption : (o : Option Text) → HeardNamesOption (heard o)
heard-NamesOption none = tt
heard-NamesOption (some value) =
    heard_of-NamesOption (parse_monitor_b64 value) (parse_monitor_b64-NamesOption value)

unknown_option : in_texts (codes "unknown") machine_status_options ≡ true
unfolding machine_status_options in_texts text_eq
unknown_option = refl

status_value-IsOption :
    (mon : Option Reading) (age : Option ℕ)
    → HeardNamesOption mon
    → IsOption machine_status_options (status_value mon age)
status_value-IsOption none age h = tt
status_value-IsOption (some (failed f)) age h = unknown_option
status_value-IsOption (some (reading m)) age h =
    if-both (IsOption machine_status_options) (monitor_is_stale age) none
      (some (codes m.status_name)) tt h

take_monitor-option :
    (published_at : Text → Option ℕ) (first second : Option Reading) (m : MonitorState)
    → HeardNamesOption first
    → HeardNamesOption second
    → HeardNamesOption (take_monitor published_at (preferred first second) m).monitor
take_monitor-option published_at none none m h k = tt
take_monitor-option published_at none (some mon) m h k = k
take_monitor-option published_at (some (reading r)) second m h k = h
take_monitor-option published_at (some (failed f)) none m h k = h
take_monitor-option published_at (some (failed f)) (some (reading r)) m h k = k
take_monitor-option published_at (some (failed f)) (some (failed g)) m h k = h

-- Whatever a poll reads, the machine status shows nothing or one of its options, which are all that
-- the sensor may show: a status byte without a name is shown as "unknown".
pub machine_status_value-IsOption :
    (published_at : Text → Option ℕ) (props : Props) (m : MonitorState) (age : Option ℕ)
    → IsOption machine_status_options
        (machine_status_value (update_monitor published_at props m) age)
unfolding machine_status_value
machine_status_value-IsOption published_at props m age =
    subst
      (λ (after : MonitorState). IsOption machine_status_options (status_value after.monitor age))
      (sym (update_monitor-preferred published_at props m))
      (status_value-IsOption _ age (
        take_monitor-option published_at
          (heard (monitor_value props (codes "d302_monitor_machine")))
          (heard (monitor_value props (codes "d302_monitor"))) m
          (heard-NamesOption (monitor_value props (codes "d302_monitor_machine")))
          (heard-NamesOption (monitor_value props (codes "d302_monitor")))))

-- And so does the connection, whatever the cloud calls it.
normalize_connection_status-option :
    (lower : Text → Text) (status : Option Text)
    → in_texts (normalize_connection_status lower status) connection_status_options ≡ true
unfolding normalize_connection_status in_texts text_eq
normalize_connection_status-option lower none = refl
normalize_connection_status-option lower (some value) =
    elim (Bool-cases (in_texts (lower (strip value)) connection_status_options)) [
      | inl listed ↦ rw listed listed
      | inr other ↦ rw other refl
    ]
