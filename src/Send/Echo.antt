-- ===== src/Send/Echo.antt =====
-- coordinator.py: the integration's own commands, as the sniffer sees them.
use delonghi_coffeelink.Prelude.{
  ℕ, zero, suc, ◌≡◌, ◌≤◌, refl, subst, arith, Bool, true, false, not, Option, none, some, List, [],
  ◌∷◌, length, get_elem?, All, if-both,
}
use delonghi_coffeelink.Prelude.Dict.{keys}
use delonghi_coffeelink.Prelude.Text.{Text, in_texts}
use delonghi_coffeelink.Prelude.Result.{Result, Error, ok, err, unknown_profile}
use delonghi_coffeelink.Catalog.Views.{catalog_profile_labels}
use delonghi_coffeelink.Command.{
  build_session_refresh_encoded, build_wake_with_session_tail_encoded,
}
use delonghi_coffeelink.Session.{
  Session, Dispatch, sent, scheduled, ignored, with_cloud_session, Action, cold_connect_then,
}
use delonghi_coffeelink.Profile.{uses_cloud_session}
use delonghi_coffeelink.Sniffer.{Sniffer, Datapoint, record_sent}
use delonghi_coffeelink.Sniffer.Capture.{shown, sniff_app_traffic}
use delonghi_coffeelink.Sniffer.Attribution.{learned, record_sent-recent, sniff_app_traffic-own}
use delonghi_coffeelink.Send.{
  Setting, Commanded, quiet, fails, command_channel, send_property_command, send_built, joined,
  proceed, and_then, dispatched, when_reachable, reachability, through_session,
}
use delonghi_coffeelink.Send.Commands.{
  body_of, sends_command, after_connect, run_scheduled, Moment, at_once, scheduled_task, perform,
  beverage_body, is_standby, maybe_send_session_refresh, wake_body, standby_body, profile_body,
  is_unoffered, send_beverage, send_wake, send_standby, send_profile, send_raw, Command, beverage,
  wake, standby, profile, raw, send,
}

-- Every write goes to the command channel and is noted as sent, and there are two at most.
abbrev pub IsNoted : Setting → Commanded → Type 0
IsNoted at r =
    All
      (λ (w : Text × Text). (w.0 ≡ command_channel at) × (in_texts w.1 r.state.sent_values ≡ true))
      r.writes
    × (length r.writes ≤ 2)

quiet-IsNoted : (at : Setting) (c : Sniffer) → IsNoted at (quiet c)
quiet-IsNoted at c = (tt, omega arith)

send_property_command-IsNoted :
    (at : Setting) (value : Text) (c : Sniffer) → IsNoted at (send_property_command at value c)
unfolding send_property_command
send_property_command-IsNoted at value c =
    (((refl, (record_sent-recent value [] c.sent_values (omega arith)).0), tt), omega arith)

send_built-IsNoted : (at : Setting) (r : Result Text) (c : Sniffer) → IsNoted at (send_built at r c)
send_built-IsNoted at (err e) c = (tt, omega arith)
send_built-IsNoted at (ok value) c = send_property_command-IsNoted at value c

joined-IsNoted :
    (at : Setting) (first : Text) (r : Result Text) (c : Sniffer)
    → IsNoted at (
        joined
          (send_property_command at first c)
          (send_built at r (send_property_command at first c).state))
unfolding send_property_command
joined-IsNoted at first (err e) c =
    (((refl, (record_sent-recent first [] c.sent_values (omega arith)).0), tt), omega arith)
joined-IsNoted at first (ok value) c =
    let later = record_sent value (record_sent first c.sent_values) in
    (
      (
        (refl, (record_sent-recent first (value ∷ []) c.sent_values (omega arith)).0),
        (
          (refl, (record_sent-recent value [] (record_sent first c.sent_values) (omega arith)).0),
          tt,
        ),
      ),
      omega arith,
    )

proceed-IsNoted :
    (at : Setting) (first : Text) (o : Option Error) (build : Sniffer → Result Text) (c : Sniffer)
    → IsNoted at
        (proceed (send_property_command at first c) o (λ (d : Sniffer). send_built at (build d) d))
proceed-IsNoted at first (some e) build c = send_property_command-IsNoted at first c
proceed-IsNoted at first none build c =
    joined-IsNoted at first (build (send_property_command at first c).state) c

and_then-IsNoted :
    (at : Setting) (r : Result Text) (build : Sniffer → Result Text) (c : Sniffer)
    → IsNoted at (and_then (send_built at r c) (λ (d : Sniffer). send_built at (build d) d))
and_then-IsNoted at (err e) build c = (tt, omega arith)
and_then-IsNoted at (ok first) build c =
    proceed-IsNoted at first (send_property_command at first c).raised build c

wake_body-IsNoted :
    (cloud_session : Bool) (at : Setting) (c : Sniffer) → IsNoted at (wake_body cloud_session at c)
unfolding maybe_send_session_refresh
wake_body-IsNoted false at c = send_built-IsNoted at _ c
wake_body-IsNoted true at c =
    let build =
      λ (d : Sniffer). build_wake_with_session_tail_encoded at.now d.session.integration_app_id in
    let refresh = build_session_refresh_encoded at.now c.session.integration_app_id in
    if-both
      (λ (r : Commanded). IsNoted at (and_then r (λ (d : Sniffer). send_built at (build d) d)))
      (not (is_standby at.monitor_status)) (quiet c) (send_built at refresh c)
      (send_built-IsNoted at (build c) c) (and_then-IsNoted at refresh build c)

standby_body-IsNoted :
    (cloud_session : Bool) (at : Setting) (c : Sniffer)
    → IsNoted at (standby_body cloud_session at c)
standby_body-IsNoted false at c = send_built-IsNoted at _ c
standby_body-IsNoted true at c = send_built-IsNoted at _ c

profile_body-IsNoted :
    (cloud_session : Bool) (at : Setting) (slot : ℕ) (c : Sniffer)
    → IsNoted at (profile_body cloud_session at slot c)
profile_body-IsNoted false at slot c = send_built-IsNoted at _ c
profile_body-IsNoted true at slot c = send_built-IsNoted at _ c

module _ (at : Setting) (body : Sniffer → Commanded)
    (noted : (c : Sniffer) → IsNoted at (body c)) where
  dispatched-IsNoted : (c : Sniffer) (d : Dispatch × Session) → IsNoted at (dispatched body c d)
  dispatched-IsNoted c (sent, s) = noted (record c { session = s })
  dispatched-IsNoted c (scheduled, s) = quiet-IsNoted at (record c { session = s })
  dispatched-IsNoted c (ignored, s) = quiet-IsNoted at (record c { session = s })

  through_session-IsNoted : (c : Sniffer) → IsNoted at (through_session at body c)
  through_session-IsNoted c = dispatched-IsNoted c (with_cloud_session at.now at.app_id c.session)

  when_reachable-IsNoted :
      (r : Result (Unit {0})) (c : Sniffer)
      → IsNoted at (when_reachable r (through_session at body) c)
  when_reachable-IsNoted (err e) c = (tt, omega arith)
  when_reachable-IsNoted (ok done) c = through_session-IsNoted c

body_of-IsNoted :
    (at : Setting) (command : Command) (c : Sniffer) → IsNoted at (body_of at command c)
body_of-IsNoted at (beverage bev action) c = send_built-IsNoted at _ c
body_of-IsNoted at wake c = wake_body-IsNoted (uses_cloud_session at.model) at c
body_of-IsNoted at standby c = standby_body-IsNoted (uses_cloud_session at.model) at c
body_of-IsNoted at (profile slot) c = profile_body-IsNoted (uses_cloud_session at.model) at slot c
body_of-IsNoted at (raw value) c = send_property_command-IsNoted at value c

-- Every write of every command goes to the command channel and its value is among the sent values
-- that the command leaves, whatever the cloud answers, and a command writes twice at most.
send-IsNoted : (at : Setting) (command : Command) (c : Sniffer) → IsNoted at (send at command c)
unfolding send_beverage send_wake send_standby send_profile send_raw
send-IsNoted at (beverage bev action) c =
    when_reachable-IsNoted at (beverage_body at bev action) (λ d. send_built-IsNoted at _ d)
      (reachability at) c
send-IsNoted at wake c =
    let session = uses_cloud_session at.model in
    when_reachable-IsNoted at (wake_body session at) (wake_body-IsNoted session at)
      (reachability at) c
send-IsNoted at standby c =
    let session = uses_cloud_session at.model in
    when_reachable-IsNoted at (standby_body session at) (standby_body-IsNoted session at)
      (reachability at) c
send-IsNoted at (profile slot) c =
    let session = uses_cloud_session at.model in
    let body = profile_body session at slot in
    if-both (IsNoted at) (is_unoffered slot (keys (catalog_profile_labels c.catalog)))
      (fails unknown_profile c) (when_reachable (reachability at) (through_session at body) c)
      (tt, omega arith)
      (when_reachable-IsNoted at body (profile_body-IsNoted session at slot) (reachability at) c)
send-IsNoted at (raw value) c =
    through_session-IsNoted at (send_property_command at value)
      (send_property_command-IsNoted at value) c

after_connect-IsNoted :
    (at : Setting) (body : Sniffer → Commanded) (c : Sniffer) (r : List Action × Session)
    → ((d : Sniffer) → IsNoted at (body d))
    → IsNoted at (after_connect body c r)
after_connect-IsNoted at body c (actions, s) noted =
    let held : Sniffer = record c { session = s } in
    if-both (IsNoted at) (sends_command actions) (record (body held) { raised = none }) (quiet held)
      (noted held) (quiet-IsNoted at held)

-- The same of a command when it is given and of its background task.
perform-IsNoted :
    (at : Setting) (command : Command) (m : Moment) (c : Sniffer)
    → IsNoted at (perform at command m c)
unfolding run_scheduled
perform-IsNoted at command at_once c = send-IsNoted at command c
perform-IsNoted at command (scheduled_task cloud) c =
    after_connect-IsNoted at (body_of at command) c (cold_connect_then cloud c.session)
      (body_of-IsNoted at command)

All-get_elem? :
    (P : Text × Text → Type 0) (ws : List (Text × Text)) (i : ℕ) (w : Text × Text)
    → All P ws
    → get_elem? ws i ≡ some w
    → P w
All-get_elem? P [] i w h e = absurd (ground arith)
All-get_elem? P (v ∷ ws) zero w h e = subst P (ground arith) h.0
All-get_elem? P (v ∷ ws) (suc i) w h e = All-get_elem? P ws i w h.1 e

-- After any command, at once or by its cold connect, the next poll learns nothing from a command
-- channel whose value, stripped of blanks, is a value that the command wrote as it wrote it; a value
-- that was written with blanks around it is none of these.
pub send-echo :
    (at : Setting) (command : Command) (m : Moment) (c : Sniffer) (i now : ℕ) (channel value : Text)
    (seen response : Option Datapoint)
    → get_elem? (perform at command m c).writes i ≡ some (channel, value)
    → shown seen ≡ some value
    → learned (sniff_app_traffic now seen response (perform at command m c).state)
      ≡ learned (perform at command m c).state
send-echo at command m c i now channel value seen response written is_shown =
    let noted =
      All-get_elem? _ (perform at command m c).writes i (channel, value)
        (perform-IsNoted at command m c).0 written in
    sniff_app_traffic-own now seen response value (perform at command m c).state is_shown noted.1
