-- ===== src/Tests/Entities.antt =====
-- The theorems on the diagnostics and on the entities at concrete inputs.
use delonghi_coffeelink.Prelude.{
  ℕ, ◌≡◌, refl, ap, inl, inr, arith, true, false, none, some, List, [], ◌∷◌,
}
use delonghi_coffeelink.Prelude.Text.{
  Text, codes, text_eq, is_space, is_prefix, join_split, not_blank, contains_text,
}
use delonghi_coffeelink.Base64.{b64decode, a2b_loop, sextet_of_char, take_sextet, take_pad}
use delonghi_coffeelink.Const.{is_text_family, is_dumpable_family}
use delonghi_coffeelink.Prelude.Text.{strip, lstrip}
use delonghi_coffeelink.Prelude.Int.{pos}
use delonghi_coffeelink.Prelude.Result.{Returns, ok}
use delonghi_coffeelink.Base64.{b64encode}
use delonghi_coffeelink.Catalog.{Props, text, other, bare}
use delonghi_coffeelink.Monitor.{parse_monitor_b64}
use delonghi_coffeelink.Monitor.Proofs.{monitor_packet}
use delonghi_coffeelink.Const.Tables.{machine_status_options}
use delonghi_coffeelink.Profile.{eletta}
use delonghi_coffeelink.Poll.Fetch.{MonitorState, update_monitor}
use delonghi_coffeelink.Counters.{
  Raw, integer, string, Document, looks_like_json_object, counter_breakdown, parse_counter_value,
}
use delonghi_coffeelink.Counters.Sums.{total_count, parse_counter_value-breakdown}
use delonghi_coffeelink.Entities.Bits.{Shows, monitor_packet-Shows}
use delonghi_coffeelink.Entities.Status.{machine_status_value}
use delonghi_coffeelink.Entities.Options.{IsOption, machine_status_value-IsOption}
use delonghi_coffeelink.Entities.Sensors.{sensor_ids}
use delonghi_coffeelink.Entities.Distinct.{distinct, sensor_ids-distinct}
use delonghi_coffeelink.Command.{build_eletta_beverage_command}
use delonghi_coffeelink.Command.Inspect
use delonghi_coffeelink.Command.RoundTrip.{ReadsBeverage, captured}
use delonghi_coffeelink.Command.Eletta.{decode-build_eletta}
use delonghi_coffeelink.Session.{
  Session, Cloud, with_cloud_session, dispatch_reverted, dispatch_own, session_is_fresh,
  revert_foreign_app_id_if_session_clear, revert_to_own, own_app_id,
}
use delonghi_coffeelink.Session.Tasks.{
  Tasks, receive, end_task, Run, begun, then_step, pressed, ended, IsAccounted,
}
use delonghi_coffeelink.Session.Accounts.{Run-IsAccounted}
use delonghi_coffeelink.Command.Learn.{member}
use delonghi_coffeelink.Command.Dump.{dumpable_blob, dumpable_bytes, is_named, recipe_dump_lines}
use delonghi_coffeelink.Command.Dump.Redacted.{
  AreAlike, no_more, add, blobs_of_names, hidden, recipe_dump_lines-AreAlike,
}

-- The name "A" or "B" of the first profile, and the settings PIN 1234 or 5678.
abbrev with_anna : Props
with_anna =
    (codes "d051_profile_name1_3", bare (text (codes "0Amk8AEBAEE=")))
    ∷ (codes "d280_mach_sett_pin", bare (text (codes "0AWVDzEyMzQ=")))
    ∷ []

abbrev with_bob : Props
with_bob =
    (codes "d051_profile_name1_3", bare (text (codes "0Amk8AEBAEI=")))
    ∷ (codes "d280_mach_sett_pin", bare (text (codes "0AWVDzU2Nzg=")))
    ∷ []

anna_and_bob : AreAlike with_anna with_bob
unfolding dumpable_blob dumpable_bytes is_named is_text_family is_dumpable_family join_split
    not_blank contains_text is_prefix text_eq is_space b64decode a2b_loop sextet_of_char take_sextet
    take_pad
anna_and_bob =
    add (codes "d051_profile_name1_3") (bare (text (codes "0Amk8AEBAEE=")))
      (bare (text (codes "0Amk8AEBAEI=")))
      (blobs_of_names (0xd0 ∷ 9 ∷ 0xa4 ∷ 0xf0 ∷ 1 ∷ 1 ∷ 0 ∷ 0x41 ∷ [])
        (0xd0 ∷ 9 ∷ 0xa4 ∷ 0xf0 ∷ 1 ∷ 1 ∷ 0 ∷ 0x42 ∷ []) refl refl refl refl refl)
      (add (codes "d280_mach_sett_pin") (bare (text (codes "0AWVDzEyMzQ=")))
        (bare (text (codes "0AWVDzU2Nzg="))) (hidden refl refl refl) no_more)

recipe_dump_lines-AreAlike_example :
    recipe_dump_lines (λ name. name) with_anna ≡ recipe_dump_lines (λ name. name) with_bob
recipe_dump_lines-AreAlike_example =
    recipe_dump_lines-AreAlike (λ name. name) with_anna with_bob anna_and_bob

monitor_packet-Shows_example :
    Returns (Shows (some (integer (pos 95))) 2 4) (
      parse_monitor_b64 (b64encode (monitor_packet 0xd0 0x0f 1 2 3 4 5 7 8 9 10 11 12 13 14 [] [])))
monitor_packet-Shows_example =
    monitor_packet-Shows 0xd0 0x0f 1 2 3 4 5 7 8 9 10 11 12 13 14 [] [] (some (integer (pos 95)))
      (omega arith) tt (omega arith)

abbrev published_packet : Props
published_packet = (codes "d302_monitor", bare (text (codes "0BJ1DwE="))) ∷ []

abbrev unread : MonitorState
unread = record { monitor = none; monitor_property = none; monitor_updated_at = none }

machine_status_value-IsOption_example :
    IsOption machine_status_options
      (machine_status_value (update_monitor (λ name. none) published_packet unread) (some 30))
machine_status_value-IsOption_example =
    machine_status_value-IsOption (λ name. none) published_packet unread (some 30)

sensor_ids-distinct_example :
    distinct (sensor_ids (codes "AC1") eletta ((codes "app_id", bare other) ∷ [])) ≡ true
sensor_ids-distinct_example =
    sensor_ids-distinct (codes "AC1") eletta ((codes "app_id", bare other) ∷ [])

abbrev two_counts : List (Text × Raw)
two_counts = (codes "espresso", integer (pos 12)) ∷ (codes "coffee", string (codes "3")) ∷ []

abbrev loads_counts : Text → Document
loads_counts t = some (some two_counts)

counts_shown : counter_breakdown loads_counts (string (codes " {..}")) ≡ some two_counts
unfolding counter_breakdown looks_like_json_object strip lstrip is_space
counts_shown = refl

parse_counter_value-breakdown_example :
    parse_counter_value loads_counts (string (codes " {..}"))
    ≡ ok (some (total_count (integer (pos 12) ∷ string (codes "3") ∷ [])))
parse_counter_value-breakdown_example =
    parse_counter_value-breakdown loads_counts (string (codes " {..}")) two_counts counts_shown
      (tt, (tt, tt))

abbrev milk_recipe : List ℕ
milk_recipe = 1 ∷ 0 ∷ 60 ∷ 9 ∷ 0 ∷ 100 ∷ 0x1c ∷ 2 ∷ []

decode-build_eletta_example :
    Returns
      (ReadsBeverage 7 1 milk_recipe (Inspect.eletta) 0x69e8c5ee)
      (captured (build_eletta_beverage_command 0 7 1 milk_recipe (some 0x69e8c5ee)))
decode-build_eletta_example =
    decode-build_eletta 0 7 1 0x69e8c5ee milk_recipe (omega arith) (omega arith) (omega arith)
      (omega arith) (omega arith)

abbrev cold : Session
cold = record {
  uses_cloud_session = true;
  connected_property = true;
  default_app_id = pos 7;
  device_app_id = none;
  integration_app_id = pos 7;
  last_connect_at = 0;
  session_confirmed = false;
  last_seen_app_id = none;
  session_cold_task = false;
}

abbrev confirmed_late : Cloud
confirmed_late = record {
  started = 1300;
  live = some none;
  post_accepted = true;
  answers = record { elapsed = 3; app_id = some (some (pos 7)) } ∷ [];
  connected_at = 1310;
  reachable = true;
}

abbrev nothing_received : Tasks
nothing_received = record {
  session = cold;
  running = [];
  cancelling = [];
  settled = [];
  received = [];
  was_stopped = false;
}

-- Two presses on a cold session, of which the task carries out the first.
pressed_twice : Tasks
unfolding receive
pressed_twice = receive 1001 none true 2 (receive 1000 none true 1 nothing_received)

first_is_running : pressed_twice.running ≡ 1 ∷ []
unfolding pressed_twice receive with_cloud_session dispatch_reverted dispatch_own session_is_fresh
    revert_foreign_app_id_if_session_clear revert_to_own own_app_id
first_is_running = refl

two_presses : Run nothing_received (end_task confirmed_late true 1 pressed_twice)
unfolding pressed_twice
two_presses =
    then_step (then_step (then_step begun (pressed 1000 none true 1)) (pressed 1001 none true 2))
      (ended confirmed_late true 1 (ap (member 1) first_is_running))

Run-IsAccounted_example : IsAccounted (end_task confirmed_late true 1 pressed_twice)
Run-IsAccounted_example =
    Run-IsAccounted nothing_received (end_task confirmed_late true 1 pressed_twice) two_presses
      (record { single = inr (refl, refl); known = inl refl; accounted = λ k. refl })
