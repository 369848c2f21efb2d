-- ===== src/Const.antt =====
-- const.py: the numbers of the protocol that the other modules compute with.
pub mod Tables
use Prim.Native.String.{String}
use delonghi_coffeelink.Prelude.{ℕ, ◌*◌, ◌/◌, Bool, ◌||◌, List, [], ◌∷◌, ◌==◌}
use delonghi_coffeelink.Prelude.Text.{Text, codes, text_eq}
use delonghi_coffeelink.Prelude.Dict.{Dict}

abbrev pub cmd_prefix : ℕ
cmd_prefix = 0x0d

abbrev pub cmd_response_prefix : ℕ
cmd_response_prefix = 0xd0

abbrev pub cmd_length : ℕ
cmd_length = 0x0d

abbrev pub cmd_family_brew : List ℕ
cmd_family_brew = 0x83 ∷ 0xf0 ∷ []

abbrev pub cmd_family_power : List ℕ
cmd_family_power = 0x84 ∷ 0x0f ∷ []

abbrev pub cmd_family_profile : List ℕ
cmd_family_profile = 0xa9 ∷ 0xf0 ∷ []

abbrev pub power_wake_params : List ℕ
power_wake_params = 0x02 ∷ 0x01 ∷ []

abbrev pub power_standby_params : List ℕ
power_standby_params = 0x01 ∷ 0x01 ∷ []

abbrev pub power_session_refresh_params : List ℕ
power_session_refresh_params = 0x03 ∷ 0x02 ∷ []

abbrev pub eletta_recipe_trailer : List ℕ
eletta_recipe_trailer = 0x01 ∷ 0x0a ∷ []

abbrev pub default_recipe_params : List ℕ
default_recipe_params = 0x0f ∷ 0x00 ∷ 0xfa ∷ 0x1b ∷ 0x01 ∷ 0x06 ∷ []

abbrev pub action_start : ℕ
action_start = 0x01

abbrev pub action_stop : ℕ
action_stop = 0x02

abbrev pub blob_family_descriptor : List ℕ
blob_family_descriptor = 0xb0 ∷ 0xf0 ∷ []

abbrev pub blob_family_profile_recipe : List ℕ
blob_family_profile_recipe = 0xa6 ∷ 0xf0 ∷ []

abbrev pub blob_family_priority : List ℕ
blob_family_priority = 0xa8 ∷ 0xf0 ∷ []

abbrev pub blob_family_profile_names : List ℕ
blob_family_profile_names = 0xa4 ∷ 0xf0 ∷ []

abbrev pub blob_family_custom_names : List ℕ
blob_family_custom_names = 0xaa ∷ 0xf0 ∷ []

abbrev pub blob_family_bean_names : List ℕ
blob_family_bean_names = 0xba ∷ 0xf0 ∷ []

-- `family in TEXT_BLOB_FAMILIES` and `family in DUMPABLE_BLOB_FAMILIES`.
unfoldable pub is_text_family : List ℕ → Bool
is_text_family f =
    text_eq f blob_family_profile_names
    || text_eq f blob_family_custom_names
    || text_eq f blob_family_bean_names

unfoldable pub is_dumpable_family : List ℕ → Bool
unfolding is_text_family
is_dumpable_family f =
    text_eq f blob_family_descriptor
    || text_eq f blob_family_profile_recipe
    || text_eq f blob_family_priority
    || is_text_family f

abbrev pub active_profile_property : Text
active_profile_property = codes "d286_mach_sett_profile"

-- BEVERAGES, the id and the display name of each.
abbrev pub beverages : Dict String
beverages =
    (0x01, "Espresso")
    ∷ (0x02, "Coffee")
    ∷ (0x03, "Long Coffee")
    ∷ (0x04, "Double Espresso")
    ∷ (0x05, "Doppio+")
    ∷ (0x06, "Americano")
    ∷ (0x07, "Cappuccino")
    ∷ (0x08, "Latte Macchiato")
    ∷ (0x09, "Caffe Latte")
    ∷ (0x0a, "Flat White")
    ∷ (0x0b, "Espresso Macchiato")
    ∷ (0x0c, "Hot Milk")
    ∷ (0x0d, "Cappuccino Doppio+")
    ∷ (0x0f, "Cappuccino Reverse")
    ∷ (0x10, "Hot Water")
    ∷ (0x16, "Tea")
    ∷ (0x17, "Coffee Pot")
    ∷ (0x18, "Cortado")
    ∷ (0x19, "Long Black")
    ∷ (0x1a, "Mug to Go")
    ∷ (0x1b, "Brew Over Ice")
    ∷ []

-- MACHINE_STATUS
abbrev pub machine_status : Dict String
machine_status =
    (0, "standby")
    ∷ (1, "waking_up")
    ∷ (2, "going_to_sleep")
    ∷ (4, "descaling")
    ∷ (5, "preparing_steam")
    ∷ (6, "recovering")
    ∷ (7, "ready")
    ∷ (8, "rinsing")
    ∷ (10, "preparing_milk")
    ∷ (11, "dispensing_hot_water")
    ∷ (12, "cleaning_milk")
    ∷ (16, "preparing_chocolate")
    ∷ (17, "preparing_milk_alt")
    ∷ (29, "unknown")
    ∷ []

-- The times are in seconds.
abbrev pub default_scan_interval : ℕ
default_scan_interval = 30

abbrev pub connect_refresh_interval : ℕ
connect_refresh_interval = 240

abbrev pub monitor_keepalive_interval : ℕ
monitor_keepalive_interval = default_scan_interval / 2

abbrev pub connect_settle_delay : ℕ
connect_settle_delay = 4

abbrev pub connect_confirm_timeout : ℕ
connect_confirm_timeout = 300

abbrev pub connect_confirm_poll_interval : ℕ
connect_confirm_poll_interval = 1

abbrev pub cloud_http_retry_count : ℕ
cloud_http_retry_count = 2

-- In milliseconds.
abbrev pub cloud_http_retry_backoff : ℕ
cloud_http_retry_backoff = 1500

-- `status in CLOUD_TRANSIENT_HTTP_CODES`
abbrev pub is_transient_http_code : ℕ → Bool
is_transient_http_code c = c == 429 || c == 502 || c == 503 || c == 504

abbrev pub transient_failure_tolerance : ℕ
transient_failure_tolerance = 3

abbrev pub monitor_max_age : ℕ
monitor_max_age = 6 * default_scan_interval

abbrev pub reachability_max_age : ℕ
reachability_max_age = 3 * default_scan_interval

abbrev pub command_property_candidates : List Text
command_property_candidates = codes "data_request" ∷ codes "app_data_request" ∷ []

abbrev pub monitor_property_candidates : List Text
monitor_property_candidates = codes "d302_monitor_machine" ∷ codes "d302_monitor" ∷ []

abbrev pub response_property_candidates : List Text
response_property_candidates = codes "data_response" ∷ codes "app_data_response" ∷ []

abbrev pub connected_property_candidates : List Text
connected_property_candidates = codes "device_connected" ∷ codes "app_device_connected" ∷ []
