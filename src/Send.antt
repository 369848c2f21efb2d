-- ===== src/Send.antt =====
-- coordinator.py: the commands of the services and buttons, from the reachability test to the writes
-- that reach the cloud. What the cloud answers to a write is an argument. The refresh that a command
-- asks for is the next poll.
pub mod Commands
pub mod Refusal
pub mod Echo
pub mod Soul
pub mod Bodies
use delonghi_coffeelink.Prelude.{
  ℕ, Bool, true, false, not, ◌&&◌, Option, none, some, List, [], ◌∷◌, ◌++◌, any, ◌==◌,
  if◌then◌else◌,
}
use delonghi_coffeelink.Prelude.Int.{ℤ, pos}
use delonghi_coffeelink.Prelude.Dict.{keys}
use delonghi_coffeelink.Prelude.Text.{Text}
use delonghi_coffeelink.Prelude.Result.{
  Result, Error, ok, err, ◌>>=◌, value_message, value_error, overflow_error, index_error,
  cloud_error, update_failed, machine_offline, unknown_profile,
}
use delonghi_coffeelink.Const.{action_stop, command_property_candidates}
use delonghi_coffeelink.Command.{
  build_and_encode, build_wake_encoded, build_standby_encoded, build_profile_encoded,
  build_session_refresh_encoded, build_wake_with_session_tail_encoded,
  build_standby_with_session_tail_encoded, build_profile_with_session_tail_encoded,
}
use delonghi_coffeelink.Command.Learn.{Frames, find_frame, member}
use delonghi_coffeelink.Catalog.Views.{catalog_profile_labels}
use delonghi_coffeelink.Session.{
  Session, Dispatch, sent, scheduled, ignored, with_cloud_session, Action, post_session,
  send_command, Cloud, cold_connect_then,
}
use delonghi_coffeelink.Profile.{
  ModelProfile, uses_cloud_session, beverage_value, wake_value, standby_value, profile_value,
}
use delonghi_coffeelink.Poll.{ensure_machine_reachable}
use delonghi_coffeelink.Sniffer.{Sniffer, record_sent, learned_device_signature}

-- What a command finds: the time, the profile, the command property, the connection status as the
-- cloud reports it and `str.lower`, the time of the poll that had it, the machine status, the holder of the session, and what the cloud
-- raises for a write of a value to a property.
pub record Setting : Type 0 where
  pub now : ℕ
  pub model : ModelProfile
  pub command_property : Option Text
  pub connection_status : Text
  pub lower : Text → Text
  pub seen_at : ℕ
  pub monitor_status : Option ℕ
  pub app_id : Option ℤ
  pub cloud : Text → Text → Option Error

-- The state that a command leaves, its writes in order, and what it raises.
pub record Commanded : Type 0 where
  pub state : Sniffer
  pub writes : List (Text × Text)
  pub raised : Option Error

abbrev pub quiet : Sniffer → Commanded
quiet c = record { state = c; writes = []; raised = none }

abbrev pub fails : Error → Sniffer → Commanded
fails e c = record { state = c; writes = []; raised = some e }

-- self.command_property or COMMAND_PROPERTY_CANDIDATES[0]
abbrev pub property_or_first : Option Text → List Text → Text
property_or_first (some (c ∷ t)) candidates = c ∷ t
property_or_first _ (first ∷ candidates) = first
property_or_first _ [] = []

abbrev pub command_channel : Setting → Text
command_channel at = property_or_first at.command_property command_property_candidates

-- The value is noted before it is written.
unfoldable pub send_property_command : Setting → Text → Sniffer → Commanded
send_property_command at value c = record {
  state = record c { sent_values = record_sent value c.sent_values };
  writes = (command_channel at, value) ∷ [];
  raised = at.cloud (command_channel at) value;
}

abbrev pub send_built : Setting → Result Text → Sniffer → Commanded
send_built at (err e) c = fails e c
send_built at (ok value) c = send_property_command at value c

abbrev pub joined : Commanded → Commanded → Commanded
joined done later = record {
  state = later.state;
  writes = done.writes ++ later.writes;
  raised = later.raised;
}

abbrev pub proceed : Commanded → Option Error → (Sniffer → Commanded) → Commanded
proceed done (some e) next = done
proceed done none next = joined done (next done.state)

-- A part of a command, and the next part unless the first has raised.
abbrev pub and_then : Commanded → (Sniffer → Commanded) → Commanded
and_then done next = proceed done done.raised next

abbrev pub dispatched : (Sniffer → Commanded) → Sniffer → Dispatch × Session → Commanded
dispatched body c (sent, s) = body (record c { session = s })
dispatched body c (scheduled, s) = quiet (record c { session = s })
dispatched body c (ignored, s) = quiet (record c { session = s })

-- `_with_cloud_session`: the body runs now, or is left to the cold connect, or is dropped.
abbrev pub through_session : Setting → (Sniffer → Commanded) → Sniffer → Commanded
through_session at body c = dispatched body c (with_cloud_session at.now at.app_id c.session)

abbrev pub when_reachable : Result (Unit {0}) → (Sniffer → Commanded) → Sniffer → Commanded
when_reachable (err e) next c = fails e c
when_reachable (ok done) next c = next c

abbrev pub reachability : Setting → Result (Unit {0})
reachability at = ensure_machine_reachable at.lower at.now at.seen_at at.connection_status

-- The value of the profile, or the best effort where a learned frame is needed and not there yet.
abbrev pub value_or : Result (Option Text) → Result Text → Result Text
value_or (err e) fallback = err e
value_or (ok none) fallback = fallback
value_or (ok (some value)) fallback = ok value
