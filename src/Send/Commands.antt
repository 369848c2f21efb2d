-- ===== src/Send/Commands.antt =====
-- coordinator.py: the five commands, and the task of one that is scheduled.
use delonghi_coffeelink.Prelude.{
  ℕ, Bool, true, false, not, Option, none, some, List, [], ◌∷◌, ◌==◌, if◌then◌else◌,
}
use delonghi_coffeelink.Prelude.Int.{pos}
use delonghi_coffeelink.Prelude.Dict.{keys}
use delonghi_coffeelink.Prelude.Text.{Text}
use delonghi_coffeelink.Prelude.Result.{
  Result, err, ◌>>=◌, value_message, value_error, unknown_profile,
}
use delonghi_coffeelink.Const.{action_stop}
use delonghi_coffeelink.Command.{
  build_and_encode, build_wake_encoded, build_standby_encoded, build_profile_encoded,
  build_session_refresh_encoded, build_wake_with_session_tail_encoded,
  build_standby_with_session_tail_encoded, build_profile_with_session_tail_encoded,
}
use delonghi_coffeelink.Command.Learn.{Frames, find_frame, member}
use delonghi_coffeelink.Catalog.Views.{catalog_profile_labels}
use delonghi_coffeelink.Session.{
  Session, Action, post_session, send_command, Cloud, cold_connect_then,
}
use delonghi_coffeelink.Profile.{
  uses_cloud_session, beverage_value, wake_value, standby_value, profile_value,
}
use delonghi_coffeelink.Sniffer.{Sniffer, learned_device_signature}
use delonghi_coffeelink.Send.{
  Setting, Commanded, quiet, fails, send_property_command, send_built, and_then, through_session,
  when_reachable, reachability, value_or,
}

abbrev pub table_for : ℕ → Sniffer → Frames
table_for action c = if action == action_stop then c.learned_stop_frames else c.learned_start_frames

abbrev pub beverage_body : Setting → ℕ → ℕ → Sniffer → Commanded
beverage_body at bev action c =
    send_built at
      (value_or
        (beverage_value at.now at.model bev action (find_frame (pos bev) (table_for action c)))
        (build_and_encode at.now bev action))
      c

unfoldable pub send_beverage : Setting → ℕ → ℕ → Sniffer → Commanded
send_beverage at bev action c =
    when_reachable (reachability at) (through_session at (beverage_body at bev action)) c

abbrev pub is_standby : Option ℕ → Bool
is_standby none = false
is_standby (some status) = status == 0

unfoldable pub maybe_send_session_refresh : Setting → Sniffer → Commanded
maybe_send_session_refresh at c =
    if not (is_standby at.monitor_status)
    then quiet c
    else send_built at (build_session_refresh_encoded at.now c.session.integration_app_id) c

-- The two bodies of each command: without a cloud session, and with one.
abbrev pub wake_body : Bool → Setting → Sniffer → Commanded
wake_body false at c =
    send_built at
      (value_or (wake_value at.now at.model c.learned_wake_frame) (build_wake_encoded at.now)) c
wake_body true at c = and_then (maybe_send_session_refresh at c) (λ (d : Sniffer).
    send_built at (build_wake_with_session_tail_encoded at.now d.session.integration_app_id) d)

unfoldable pub send_wake : Setting → Sniffer → Commanded
send_wake at c =
    when_reachable (reachability at)
      (through_session at (wake_body (uses_cloud_session at.model) at)) c

abbrev pub standby_body : Bool → Setting → Sniffer → Commanded
standby_body false at c =
    send_built at
      (learned_device_signature c >>= λ signature.
        value_or (standby_value at.now at.model signature) (build_standby_encoded at.now none))
      c
standby_body true at c =
    send_built at (build_standby_with_session_tail_encoded at.now c.session.integration_app_id) c

unfoldable pub send_standby : Setting → Sniffer → Commanded
send_standby at c =
    when_reachable (reachability at)
      (through_session at (standby_body (uses_cloud_session at.model) at)) c

-- except ValueError: raise unknown_profile
abbrev pub or_unknown_profile : Result Text → Result Text
or_unknown_profile (err value_error) = err unknown_profile
or_unknown_profile (err (value_message m)) = err unknown_profile
or_unknown_profile r = r

abbrev pub profile_body : Bool → Setting → ℕ → Sniffer → Commanded
profile_body false at slot c =
    send_built at
      (or_unknown_profile (
        learned_device_signature c >>= λ signature.
        value_or (profile_value at.now at.model slot signature (some at.now))
          (build_profile_encoded at.now slot (some at.now) none)))
      c
profile_body true at slot c =
    send_built at
      (or_unknown_profile (
        build_profile_with_session_tail_encoded at.now slot (some c.session.integration_app_id)
          (some at.now)))
      c

-- slots and profile_id not in slots
abbrev pub is_unoffered : ℕ → List ℕ → Bool
is_unoffered slot [] = false
is_unoffered slot (s ∷ slots) = not (member slot (s ∷ slots))

unfoldable pub send_profile : Setting → ℕ → Sniffer → Commanded
send_profile at slot c =
    if is_unoffered slot (keys (catalog_profile_labels c.catalog))
    then fails unknown_profile c
    else when_reachable (reachability at)
        (through_session at (profile_body (uses_cloud_session at.model) at slot)) c

-- A raw command is not held back by the reachability test.
unfoldable pub send_raw : Setting → Text → Sniffer → Commanded
send_raw at value c = through_session at (send_property_command at value) c

-- The commands of the services and buttons.
pub data Command : Type 0 where
  beverage : ℕ → ℕ → Command
  wake standby : Command
  profile : ℕ → Command
  raw : Text → Command

abbrev pub send : Setting → Command → Sniffer → Commanded
send at (beverage bev action) c = send_beverage at bev action c
send at wake c = send_wake at c
send at standby c = send_standby at c
send at (profile slot) c = send_profile at slot c
send at (raw value) c = send_raw at value c

-- The `_do` of a command, which is what a cold connect is handed.
abbrev pub body_of : Setting → Command → Sniffer → Commanded
body_of at (beverage bev action) = beverage_body at bev action
body_of at wake = wake_body (uses_cloud_session at.model) at
body_of at standby = standby_body (uses_cloud_session at.model) at
body_of at (profile slot) = profile_body (uses_cloud_session at.model) at slot
body_of at (raw value) = send_property_command at value

abbrev pub sends_command : List Action → Bool
sends_command [] = false
sends_command (send_command ∷ actions) = true
sends_command (post_session id ∷ actions) = sends_command actions

-- What the body raises within the background task is logged.
abbrev pub after_connect : (Sniffer → Commanded) → Sniffer → List Action × Session → Commanded
after_connect body c (actions, s) =
    if sends_command actions
    then record (body (record c { session = s })) { raised = none }
    else quiet (record c { session = s })

-- The background task of a command that was scheduled: `_cold_connect_then` with its body.
unfoldable pub run_scheduled : Cloud → (Sniffer → Commanded) → Sniffer → Commanded
run_scheduled cloud body c = after_connect body c (cold_connect_then cloud c.session)

-- A command when it is given, and its background task.
pub data Moment : Type 0 where
  at_once : Moment
  scheduled_task : Cloud → Moment

abbrev pub perform : Setting → Command → Moment → Sniffer → Commanded
perform at command at_once c = send at command c
perform at command (scheduled_task cloud) c = run_scheduled cloud (body_of at command) c
