-- ===== src/Entities/Sensors.antt =====
-- sensor.py: the sensors that are set up for a machine.
use delonghi_coffeelink.Prelude.{
  Bool, true, false, ◌&&◌, Option, none, some, List, [], ◌∷◌, ◌++◌, map, if◌then◌else◌,
}
use delonghi_coffeelink.Prelude.Text.{Text, codes}
use delonghi_coffeelink.Const.Tables.{Row, counter_sensors, info_sensors}
use delonghi_coffeelink.Catalog.{Prop, Props, get_prop}
use delonghi_coffeelink.Profile.{ModelProfile, uses_cloud_session}

pub data Sensor : Type 0 where
  counter info : (prop_name key : Text) → Sensor
  connection last_connected machine_status monitor_published last_command cloud_session_app_id :
      Sensor

-- name in data
abbrev pub is_there : Option Prop → Bool
is_there none = false
is_there (some p) = true

unfoldable pub has_property : Props → Text → Bool
has_property props name = is_there (get_prop name props)

-- `data` is none before the first poll has succeeded.
unfoldable pub resolve_property : Props → List Text → Option Text
resolve_property props [] = none
resolve_property props (candidate ∷ candidates) =
    let rest = resolve_property props candidates in
    if has_property props candidate then some candidate else rest

abbrev pub add_resolved : (Text → Text → Sensor) → Text → Option Text → List Sensor → List Sensor
add_resolved kind key none sensors = sensors
add_resolved kind key (some prop_name) sensors = kind prop_name key ∷ sensors

unfoldable pub row_sensors : (Text → Text → Sensor) → Props → List Row → List Sensor
row_sensors kind props [] = []
row_sensors kind props (row ∷ rows) =
    add_resolved kind row.key (resolve_property props row.candidates) (row_sensors kind props rows)

abbrev pub session_sensors : Bool → List Sensor
session_sensors true = cloud_session_app_id ∷ []
session_sensors false = []

abbrev pub device_sensors : List Sensor
device_sensors =
    connection ∷ last_connected ∷ machine_status ∷ monitor_published ∷ last_command ∷ []

unfoldable pub sensors_of : ModelProfile → Props → List Sensor
sensors_of model props =
    row_sensors counter props counter_sensors
    ++ (row_sensors info props info_sensors
        ++ (device_sensors
            ++ session_sensors (uses_cloud_session model && has_property props (codes "app_id"))))

abbrev pub unique_suffix : Sensor → Text
unique_suffix (counter prop_name key) = key
unique_suffix (info prop_name key) = key
unique_suffix connection = codes "connection_status"
unique_suffix last_connected = codes "last_connected"
unique_suffix machine_status = codes "machine_status"
unique_suffix monitor_published = codes "monitor_published"
unique_suffix last_command = codes "last_captured_command"
unique_suffix cloud_session_app_id = codes "cloud_session_app_id"

-- f"{coord.device.dsn}_{unique_suffix}"
abbrev pub unique_id : Text → Sensor → Text
unique_id dsn sensor = dsn ++ (b'_' ∷ unique_suffix sensor)

-- async_setup_entry, for one coordinator.
unfoldable pub sensor_ids : Text → ModelProfile → Props → List Text
sensor_ids dsn model props = map (unique_id dsn) (sensors_of model props)
