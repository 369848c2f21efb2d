-- ===== src/Send/Refusal.antt =====
-- coordinator.py: the commands that are refused.
use delonghi_coffeelink.Prelude.{◌≡◌, ◌≢◌, refl, arith, Bool, true, false, none, [], if-both}
use delonghi_coffeelink.Prelude.Text.{Text, codes, strip, in_texts, text_eq}
use delonghi_coffeelink.Const.Tables.{normalize_connection_status}
use delonghi_coffeelink.Prelude.Dict.{keys}
use delonghi_coffeelink.Prelude.Result.{Result, Error, ok, err, machine_offline, unknown_profile}
use delonghi_coffeelink.Catalog.Views.{catalog_profile_labels}
use delonghi_coffeelink.Poll.{machine_is_offline, reachability_is_current, ensure_machine_reachable}
use delonghi_coffeelink.Profile.{uses_cloud_session}
use delonghi_coffeelink.Sniffer.{Sniffer}
use delonghi_coffeelink.Send.{
  Setting, Commanded, fails, when_reachable, reachability, through_session,
}
use delonghi_coffeelink.Send.Commands.{
  profile_body, is_unoffered, send_beverage, send_wake, send_standby, send_profile, Command,
  beverage, wake, standby, profile, raw, send,
}

-- A refused command raises, writes nothing and leaves the state as it was.
abbrev pub IsRefused : Sniffer → Commanded → Type 0
IsRefused c r = (r.state ≡ c) × (r.writes ≡ []) × (r.raised ≢ none)

abbrev pub is_raw : Command → Bool
is_raw (raw value) = true
is_raw _ = false

-- A status that reads "offline" without its blanks and its capitals is offline.
status-offline :
    (lower : Text → Text) (status : Text)
    → lower (strip status) ≡ codes "offline"
    → machine_is_offline lower status ≡ true
unfolding normalize_connection_status in_texts text_eq
status-offline lower status h = rw h refl

reachability-offline :
    (at : Setting)
    → at.lower (strip at.connection_status) ≡ codes "offline"
    → reachability_is_current at.now at.seen_at ≡ true
    → reachability at ≡ err machine_offline
unfolding ensure_machine_reachable
reachability-offline at offline current =
    rw (status-offline at.lower at.connection_status offline, current) refl

fails-IsRefused : (e : Error) (c : Sniffer) → IsRefused c (fails e c)
fails-IsRefused e c = (refl, refl, λ h. absurd (ground arith))

when_reachable-IsRefused :
    (r : Result (Unit {0})) (next : Sniffer → Commanded) (c : Sniffer)
    → r ≡ err machine_offline
    → IsRefused c (when_reachable r next c)
when_reachable-IsRefused (err e) next c h = fails-IsRefused e c
when_reachable-IsRefused (ok done) next c h = absurd (ground arith)

-- While the status of a current poll reads "offline", whatever its capitals and the blanks around it,
-- every command but the raw one is refused: nothing is written, nothing is noted as sent and no
-- session is opened.
pub send-offline :
    (at : Setting) (command : Command) (c : Sniffer)
    → is_raw command ≡ false
    → at.lower (strip at.connection_status) ≡ codes "offline"
    → reachability_is_current at.now at.seen_at ≡ true
    → IsRefused c (send at command c)
unfolding send_beverage send_wake send_standby send_profile
send-offline at (beverage bev action) c not_raw offline current =
    when_reachable-IsRefused (reachability at) _ c (reachability-offline at offline current)
send-offline at wake c not_raw offline current =
    when_reachable-IsRefused (reachability at) _ c (reachability-offline at offline current)
send-offline at standby c not_raw offline current =
    when_reachable-IsRefused (reachability at) _ c (reachability-offline at offline current)
send-offline at (profile slot) c not_raw offline current =
    let body = through_session at (profile_body (uses_cloud_session at.model) at slot) in
    if-both (IsRefused c) (is_unoffered slot (keys (catalog_profile_labels c.catalog)))
      (fails unknown_profile c) (when_reachable (reachability at) body c)
      (fails-IsRefused unknown_profile c)
      (when_reachable-IsRefused (reachability at) body c (reachability-offline at offline current))
send-offline at (raw value) c not_raw offline current = absurd (ground arith)
