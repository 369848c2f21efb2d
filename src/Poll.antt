-- ===== src/Poll.antt =====
-- coordinator.py: what one poll leaves behind, the monitor keepalive and the reachability test.
pub mod Keepalive
pub mod Tolerance
pub mod Fetch
pub mod Cache
pub mod Choice
use delonghi_coffeelink.Prelude.{
  ℕ, zero, suc, ◌+◌, ◌-◌, Bool, true, false, not, ◌&&◌, ◌||◌, Option, none, some, List, [], ◌∷◌,
  ltb, leb, if◌then◌else◌,
}
use delonghi_coffeelink.Prelude.Result.{Result, ok, err, update_failed, machine_offline}
use delonghi_coffeelink.Prelude.Text.{Text, codes, text_eq}
use delonghi_coffeelink.Const.Tables.{normalize_connection_status}
use delonghi_coffeelink.Const.{
  transient_failure_tolerance, monitor_keepalive_interval, reachability_max_age,
}

pub record Polled (Props : Type 0) : Type 0 where
  pub consecutive_failures : ℕ
  pub snapshot : Option Props

-- What is served where the fetch has failed; `failures` counts this one.
abbrev serve : {Props : Type 0} → ℕ → Option Props → Result Props
serve failures none = err update_failed
serve failures (some old) =
    if leb failures transient_failure_tolerance then ok old else err update_failed

-- `_async_update_data`: `fetched` is what `_fetch_once` returns, or `none` where it raises
-- UpdateFailed. What is returned is what Home Assistant's coordinator keeps as `self.data`.
unfoldable pub update_data :
    {Props : Type 0} → Option Props → Polled Props → Result Props × Polled Props
update_data (some props) p = (ok props, record { consecutive_failures = 0; snapshot = some props })
update_data none p = (
  serve (p.consecutive_failures + 1) p.snapshot,
  record p { consecutive_failures = p.consecutive_failures + 1 },
)

pub record MonitorSession : Type 0 where
  pub keeps_monitor_session : Bool
  pub connected_property : Bool
  pub session_value : Bool
  pub last_monitor_session_at : ℕ
  pub keepalive_armed : Bool
  pub keepalive_failures : ℕ

-- `_refresh_monitor_session` at the time `now`; `accepted` is whether the cloud takes the write. The
-- first component is whether a write was made.
unfoldable pub refresh_monitor_session : ℕ → Bool → MonitorSession → Bool × MonitorSession
refresh_monitor_session now accepted k =
    if not k.keeps_monitor_session || not k.connected_property
    then (false, k)
    else if not k.session_value
    then (false, k)
    else if ltb (now - k.last_monitor_session_at) monitor_keepalive_interval
    then (false, k)
    else if accepted
    then (
      true,
      record k { keepalive_armed = true; last_monitor_session_at = now; keepalive_failures = 0 },
    )
    else (true, record k { keepalive_armed = true; keepalive_failures = k.keepalive_failures + 1 })

-- `status` is the connection status as the cloud reports it, `seen_at` the time of the last poll that
-- had it; `lower` is `str.lower`.
abbrev pub machine_is_offline : (Text → Text) → Text → Bool
machine_is_offline lower status =
    text_eq (normalize_connection_status lower (some status)) (codes "offline")

abbrev pub reachability_is_current : ℕ → ℕ → Bool
reachability_is_current now seen_at = leb (now - seen_at) reachability_max_age

unfoldable pub ensure_machine_reachable : (Text → Text) → ℕ → ℕ → Text → Result (Unit {0})
ensure_machine_reachable lower now seen_at status =
    if not (machine_is_offline lower status)
    then ok tt
    else if not (reachability_is_current now seen_at)
    then ok tt
    else err machine_offline
