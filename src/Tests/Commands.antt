-- ===== src/Tests/Commands.antt =====
-- The theorems on the sniffer, the commands and the polls of the coordinator at concrete inputs.
use Prim.Native.String.{String}
use delonghi_coffeelink.Prelude.{
  ℕ, ◌+◌, ◌≡◌, ◌≤◌, refl, arith, true, false, inl, ◌&&◌, Option, none, some, List, [], ◌∷◌, leb,
  length, get_elem?, map, if◌then◌else◌,
}
use delonghi_coffeelink.Prelude.Text.{
  Text, codes, text_eq, in_texts, strip, lstrip, not_blank, is_space, join_split,
}
use delonghi_coffeelink.Prelude.Int.{pos}
use delonghi_coffeelink.Prelude.Result.{ok, IsSafe}
use delonghi_coffeelink.Base64.{b64decode, a2b_loop, take_sextet, take_pad, sextet_of_char}
use delonghi_coffeelink.Const.{default_recipe_params}
use delonghi_coffeelink.Const.Tables.{normalize_connection_status}
use delonghi_coffeelink.Command.Inspect.{decode_command, decode_clean, is_wake_power_frame, soul}
use delonghi_coffeelink.Command.Learn.{Storage, text, deserialize_learned_frames}
use delonghi_coffeelink.Command.Signature.{first_device_signature, device_signature_from_frame}
use delonghi_coffeelink.Command.RoundTrip.{ReadsBeverage}
use delonghi_coffeelink.Catalog.{Value, Props, bare}
use delonghi_coffeelink.Catalog.Build.{empty_catalog, build_catalog}
use delonghi_coffeelink.Catalog.Blobs.{build_catalog-IsSafe}
use delonghi_coffeelink.Session.{Session, with_cloud_session, refresh_device_app_id}
use delonghi_coffeelink.Profile.{ModelProfile}
use delonghi_coffeelink.Poll.{ensure_machine_reachable}
use delonghi_coffeelink.Poll.Fetch.{Cache, monitor_value, update_monitor, take_monitor}
use delonghi_coffeelink.Poll.Choice.{heard, preferred, update_monitor-preferred}
use delonghi_coffeelink.Sniffer.{
  Sniffer, Datapoint, record_sent, refresh_from_learned, learned_device_signature,
}
use delonghi_coffeelink.Sniffer.Load.{load_learned}
use delonghi_coffeelink.Sniffer.Capture.{shown, sniff_app_traffic}
use delonghi_coffeelink.Sniffer.Attribution.{learned, record_all, record_sent-recent}
use delonghi_coffeelink.Prelude.{All}
use delonghi_coffeelink.Prelude.Dict.{keys}
use delonghi_coffeelink.Catalog.Views.{catalog_profile_labels}
use delonghi_coffeelink.Entities.Buttons.{buttons_of}
use delonghi_coffeelink.Entities.Press.{Obeys, buttons_of-Obeys}
use delonghi_coffeelink.Command.Stored.{stored_text}
use delonghi_coffeelink.Sniffer.{learned_storage_data}
use delonghi_coffeelink.Sniffer.Restore.{kept_wake, load_learned-stored}
use delonghi_coffeelink.Sniffer.Holds.{IsSound}
use delonghi_coffeelink.Sniffer.Learned.{
  Event, polled, wrote, catalogued, happen_all, happen_all-IsSound,
}
use delonghi_coffeelink.Sniffer.Restore.{WakeIsChecked, load_learned-checked}
use delonghi_coffeelink.Send.{Setting, send_property_command, reachability}
use delonghi_coffeelink.Send.Commands.{wake, raw, at_once, send, send_raw, send_beverage}
use delonghi_coffeelink.Coordinator.{Coordinator, Fetched}
use delonghi_coffeelink.Coordinator.Polls.{IsHealthy, fetch_all, fetch_all-IsHealthy}
use delonghi_coffeelink.Send.Refusal.{IsRefused, send-offline}
use delonghi_coffeelink.Send.Echo.{send-echo}
use delonghi_coffeelink.Send.Soul.{WritesOne, send_beverage-soul}

abbrev no_session : Session
no_session = record {
  uses_cloud_session = false;
  connected_property = false;
  default_app_id = pos 7;
  device_app_id = none;
  integration_app_id = pos 7;
  last_connect_at = 0;
  session_confirmed = false;
  last_seen_app_id = none;
  session_cold_task = false;
}

abbrev fresh : Sniffer
fresh = record {
  learns_from_app = false;
  catalog = none;
  last_cmd_marker = none;
  last_resp_marker = none;
  sent_values = [];
  last_captured_command = none;
  last_machine_response = none;
  learned_start_frames = [];
  learned_stop_frames = [];
  learned_wake_frame = none;
  session = no_session;
  saves = 0;
}

abbrev learning : Sniffer
learning = record fresh { learns_from_app = true }

record_sent-recent_example :
    (in_texts
        (codes "DQ==")
        (record_all (codes "DA==" ∷ codes "CQ==" ∷ []) (record_sent (codes "DQ==") []))
      ≡ true)
    × (length (record_all (codes "DA==" ∷ codes "CQ==" ∷ []) (record_sent (codes "DQ==") [])) ≤ 32)
record_sent-recent_example =
    record_sent-recent (codes "DQ==") (codes "DA==" ∷ codes "CQ==" ∷ []) [] (omega arith)

-- An espresso of the app, seen at a second time, behind a value of the integration.
abbrev seen_at : String → String → Option Datapoint
seen_at value at =
    some (record { value = some (codes value); data_updated_at = some (some (codes at)) })

abbrev some_events : List Event
some_events =
    polled 1000 (seen_at "DQeEDwIBVRISAAAB" "t0") none
    ∷ wrote (codes "DQeEDwEBVRISAAAB")
    ∷ catalogued (some empty_catalog)
    ∷ polled 1030 (seen_at "DQ2D8AEDAQAoAgMGxvJp6MXu" "t1") none
    ∷ []

happen_all-IsSound_example : IsSound (happen_all some_events learning)
happen_all-IsSound_example = happen_all-IsSound some_events learning ((tt, tt), (tt, tt), tt)

load_learned-stored_example :
    let c = happen_all some_events learning in
    ((load_learned 2000 (ok (some (learned_storage_data c))) fresh).0.learned_start_frames
      ≡ c.learned_start_frames)
    × ((load_learned 2000 (ok (some (learned_storage_data c))) fresh).0.learned_stop_frames
        ≡ c.learned_stop_frames)
    × ((load_learned 2000 (ok (some (learned_storage_data c))) fresh).0.learned_wake_frame
        ≡ kept_wake 2000 false (stored_text c.learned_wake_frame))
load_learned-stored_example =
    load_learned-stored 2000 (happen_all some_events learning) fresh
      (happen_all-IsSound some_events learning ((tt, tt), (tt, tt), tt))

abbrev odd_store : Storage
odd_store = record { start = some []; stop = none; wake = some (text (codes "A")) }

loads_odd : (load_learned 1000 (ok (some odd_store)) fresh).1 ≡ none
unfolding load_learned deserialize_learned_frames decode_command decode_clean not_blank is_space
    join_split b64decode a2b_loop take_sextet take_pad sextet_of_char is_wake_power_frame
    refresh_from_learned learned_device_signature first_device_signature device_signature_from_frame
    refresh_device_app_id
loads_odd = refl

load_learned-checked_example :
    WakeIsChecked 1000 false (load_learned 1000 (ok (some odd_store)) fresh).0.learned_wake_frame
load_learned-checked_example = load_learned-checked 1000 (ok (some odd_store)) fresh refl loads_odd

abbrev lower_code : ℕ → ℕ
lower_code c = if leb b'A' c && leb c b'Z' then c + 32 else c

-- `str.lower` of an ASCII text.
abbrev ascii_lower : Text → Text
ascii_lower t = map lower_code t

abbrev setting : Setting
setting = record {
  now = 0x69e8c5ee;
  model = ModelProfile.soul;
  command_property = none;
  connection_status = codes "Online";
  lower = ascii_lower;
  seen_at = 0x69e8c5ea;
  monitor_status = none;
  app_id = none;
  cloud = λ (prop value : Text). none;
}

is_offline : ascii_lower (strip (codes " Offline")) ≡ codes "offline"
unfolding strip lstrip is_space
is_offline = refl

send-offline_example :
    IsRefused fresh (send (record setting { connection_status = codes " Offline" }) wake fresh)
send-offline_example =
    send-offline (record setting { connection_status = codes " Offline" }) wake fresh refl
      is_offline refl

raw_first :
    get_elem? (send setting (raw (codes "DQ==")) fresh).writes 0
    ≡ some (codes "data_request", codes "DQ==")
unfolding send_raw send_property_command with_cloud_session
raw_first = refl

abbrev echo : Option Datapoint
echo = some (record { value = some (codes "DQ==\n"); data_updated_at = none })

echo-shown : shown echo ≡ some (codes "DQ==")
unfolding not_blank strip lstrip is_space
echo-shown = refl

send-echo_example :
    learned (sniff_app_traffic 1000 echo none (send setting (raw (codes "DQ==")) fresh).state)
    ≡ learned (send setting (raw (codes "DQ==")) fresh).state
send-echo_example =
    send-echo setting (raw (codes "DQ==")) at_once fresh 0 1000 (codes "data_request")
      (codes "DQ==") echo none raw_first echo-shown

machine_reachable : reachability setting ≡ ok tt
unfolding ensure_machine_reachable normalize_connection_status in_texts strip lstrip is_space
    text_eq
machine_reachable = refl

send_beverage-soul_example :
    WritesOne setting
      (ReadsBeverage 1 1 default_recipe_params soul 0x69e8c5ee)
      (send_beverage setting 1 1 fresh)
send_beverage-soul_example =
    send_beverage-soul setting 1 1 fresh refl refl machine_reachable (omega arith) (omega arith)

-- The recipe blob of one drink, a machine with and without it.
abbrev one_recipe : Props
one_recipe = (codes "d039_1_rec_espresso", bare (Value.text (codes "0AWw8A=="))) ∷ []

build_catalog-IsSafe_example : IsSafe (build_catalog one_recipe)
build_catalog-IsSafe_example = build_catalog-IsSafe one_recipe

abbrev old_cache : Cache
old_cache = record { catalog = none; fingerprint = none }

update_monitor_example :
    update_monitor
      (λ (name : Text). some 7)
      one_recipe
      (record { monitor = none; monitor_property = none; monitor_updated_at = none })
    ≡ take_monitor
        (λ (name : Text). some 7)
        (preferred
          (heard (monitor_value one_recipe (codes "d302_monitor_machine")))
          (heard (monitor_value one_recipe (codes "d302_monitor"))))
        (record { monitor = none; monitor_property = none; monitor_updated_at = none })
update_monitor_example =
    update_monitor-preferred (λ (name : Text). some 7) one_recipe
      (record { monitor = none; monitor_property = none; monitor_updated_at = none })

abbrev starting : Coordinator
starting = record {
  oem_model = some (codes "DL-striker-cb");
  model = ModelProfile.eletta;
  command_property = none;
  response_property = none;
  connected_property = none;
  cache = old_cache;
  sniffer = learning;
  monitoring = record { monitor = none; monitor_property = none; monitor_updated_at = none };
  keepalive = record {
    keeps_monitor_session = false;
    connected_property = false;
    session_value = false;
    last_monitor_session_at = 0;
    keepalive_armed = false;
    keepalive_failures = 0;
  };
  connection_status = codes "online";
  device_seen_at = 0;
}

abbrev first_fetch : Fetched
first_fetch = record {
  now = 1000;
  props = (codes "app_data_request", bare (Value.text (codes "DQeEDwIBVRISAAAB"))) ∷ one_recipe;
  data_updated_at = λ (name : Text). none;
  published_at = λ (name : Text). none;
  app_id = none;
  device = some (some (codes "online"));
  keepalive_accepted = false;
}

fetch_all-IsHealthy_example :
    IsHealthy starting (fetch_all (some first_fetch ∷ none ∷ some first_fetch ∷ []) starting)
fetch_all-IsHealthy_example =
    fetch_all-IsHealthy (some first_fetch ∷ none ∷ some first_fetch ∷ []) starting
      ((tt, tt), (tt, tt), tt) (inl (refl, refl))

buttons_of-Obeys_example :
    All (Obeys setting fresh) (buttons_of (keys (catalog_profile_labels fresh.catalog)))
buttons_of-Obeys_example = buttons_of-Obeys setting fresh refl refl machine_reachable (omega arith)
