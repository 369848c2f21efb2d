-- ===== src/Session.antt =====
-- coordinator.py: the cloud session of the ECAM models. The answers of the cloud and of the clock
-- are arguments. A coordinator method that awaits is split where it hands over to another task.
pub mod Ids
pub mod Connect
pub mod Ends
pub mod Tasks
pub mod Accounts
pub mod AppId
use delonghi_coffeelink.Prelude.{
  ℕ, ◌+◌, ◌-◌, Bool, true, false, not, ◌&&◌, ◌||◌, Option, none, some, List, [], ◌∷◌, ◌++◌, ltb,
  leb, if◌then◌else◌,
}
use delonghi_coffeelink.Prelude.Int.{ℤ, pos, eqb_ℤ}
use delonghi_coffeelink.Const.{
  connect_settle_delay, connect_refresh_interval, connect_confirm_timeout,
}

pub record Session : Type 0 where
  pub uses_cloud_session : Bool
  pub connected_property : Bool
  pub default_app_id : ℤ
  pub device_app_id : Option ℤ
  pub integration_app_id : ℤ
  pub last_connect_at : ℕ
  pub session_confirmed : Bool
  pub last_seen_app_id : Option ℤ
  pub session_cold_task : Bool

abbrev pub equal_ids : Option ℤ → Option ℤ → Bool
equal_ids none none = true
equal_ids (some a) (some b) = eqb_ℤ a b
equal_ids _ _ = false

-- app_id in (None, 0)
abbrev pub is_free : Option ℤ → Bool
is_free none = true
is_free (some a) = eqb_ℤ a (pos 0)

abbrev pub is_zero : Option ℤ → Bool
is_zero none = false
is_zero (some a) = eqb_ℤ a (pos 0)

unfoldable pub own_app_id : Session → ℤ
own_app_id s = elim s.device_app_id [ none ↦ s.default_app_id | some a ↦ a ]

-- The part of `_refresh_device_app_id` behind its first test: the id is set, and the session is
-- bound again where it stood on the integration's own id.
unfoldable pub rebind : ℤ → Session → Session
rebind previous_own s =
    if eqb_ℤ (own_app_id s) previous_own
    then s
    else if eqb_ℤ s.integration_app_id previous_own
    then record s {
      integration_app_id = own_app_id s;
      last_connect_at = 0;
      session_confirmed = false;
    }
    else s

-- `new_id` is the id of the first signature among the learned frames.
unfoldable pub refresh_device_app_id : Option ℤ → Session → Session
refresh_device_app_id new_id s =
    if equal_ids new_id s.device_app_id
    then s
    else rebind (own_app_id s) (record s { device_app_id = new_id })

-- `self._integration_app_id = self._own_app_id()` and the reset of the clock.
unfoldable pub revert_to_own : Session → Session
revert_to_own s = record s { integration_app_id = own_app_id s; last_connect_at = 0 }

unfoldable pub update_session_from_props : Option ℤ → Session → Session
update_session_from_props app_id s =
    let seen = record s {
      last_seen_app_id = if s.uses_cloud_session then app_id else s.last_seen_app_id;
      session_confirmed = equal_ids app_id (some s.integration_app_id);
    } in
    if is_zero app_id && not (eqb_ℤ s.integration_app_id (own_app_id s))
    then revert_to_own seen
    else seen

unfoldable pub revert_foreign_app_id_if_session_clear : Option ℤ → Session → Session
revert_foreign_app_id_if_session_clear app_id s =
    if is_free app_id && not (eqb_ℤ s.integration_app_id (own_app_id s)) then revert_to_own s else s

unfoldable pub session_is_fresh : ℕ → Option ℤ → Session → Bool
session_is_fresh now app_id s =
    if ltb now (s.last_connect_at + connect_settle_delay)
    then true
    else if ltb now (s.last_connect_at + connect_refresh_interval)
    then not (is_zero app_id)
      && (elim app_id [ none ↦ true | some a ↦ eqb_ℤ a s.integration_app_id ])
    else false

-- One answer to a GET of app_id: when it came, counted from the start of the wait; `none` where the
-- cloud answered with an error.
pub record Answer : Type 0 where
  pub elapsed : ℕ
  pub app_id : Option (Option ℤ)

-- The loop that waits; the answers end where the source's clock runs out.
unfoldable pub wait_for_session_confirmed : ℤ → List Answer → Session → Bool × Session
wait_for_session_confirmed want [] s = (false, record s { session_confirmed = false })
wait_for_session_confirmed want (a ∷ answers) s =
    let later = wait_for_session_confirmed want answers s in
    if not (ltb a.elapsed connect_confirm_timeout)
    then (false, record s { session_confirmed = false })
    else if elim a.app_id [ none ↦ false | some id ↦ equal_ids id (some want) ]
    then (true, record s { session_confirmed = eqb_ℤ want s.integration_app_id })
    else later

-- What a command does to the cloud.
pub data Action : Type 0 where
  post_session : ℤ → Action
  send_command : Action

-- What the cloud and the clock answer to a cold connect.
pub record Cloud : Type 0 where
  pub started : ℕ
  pub live : Option (Option ℤ)
  pub post_accepted : Bool
  pub answers : List Answer
  pub connected_at : ℕ
  pub reachable : Bool

abbrev pub value_of_live : Option (Option ℤ) → Option ℤ
value_of_live none = none
value_of_live (some id) = id

abbrev pub done : Session → Session
done s = record s { session_cold_task = false }

-- The end of `_cold_connect_then`: the reachability is tested again before the write.
unfoldable pub finish_send : Cloud → List Action × Session → List Action × Session
finish_send cloud (actions, s) =
    if cloud.reachable then (actions ++ send_command ∷ [], done s) else (actions, done s)

abbrev pub after_wait : Cloud → ℤ → Bool × Session → List Action × Session
after_wait cloud posted (false, s) = (post_session posted ∷ [], done s)
after_wait cloud posted (true, s) =
    finish_send cloud (post_session posted ∷ [], record s { last_connect_at = cloud.connected_at })

-- The branch of `_cold_connect_then` without a fresh session. Without a connected property nothing
-- is posted, and the loop waits for the integration's id.
unfoldable pub connect_cold : Cloud → Session → List Action × Session
connect_cold cloud before =
    let s = revert_foreign_app_id_if_session_clear (value_of_live cloud.live) before in
    if not cloud.post_accepted
    then (post_session s.integration_app_id ∷ [], done s)
    else after_wait cloud s.integration_app_id
        (wait_for_session_confirmed s.integration_app_id cloud.answers s)

-- `_cold_connect_then` of a coordinator with a connected property: the POST that is refused raises,
-- and nothing is sent.
unfoldable pub cold_connect_then : Cloud → Session → List Action × Session
cold_connect_then cloud s =
    if not (session_is_fresh cloud.started none s)
    then connect_cold cloud s
    else if s.session_confirmed
    then finish_send cloud ([], s)
    else if equal_ids (value_of_live cloud.live) (some s.integration_app_id)
    then finish_send cloud ([], s)
    else ([], done s)

-- What `_with_cloud_session` does with the command.
pub data Dispatch : Type 0 where
  sent scheduled ignored : Dispatch

abbrev pub adopt : ℕ → ℤ → Session → Session
adopt now id s = record s { integration_app_id = id; last_connect_at = now }

unfoldable pub dispatch_own : ℕ → Option ℤ → Session → Dispatch × Session
dispatch_own now app_id s =
    if session_is_fresh now app_id s
    then (sent, s)
    else if s.session_cold_task
    then (ignored, s)
    else (scheduled, record s { session_cold_task = true })

-- `app_id` is what `_read_app_id` returns.
unfoldable pub dispatch_reverted : ℕ → Option ℤ → Session → Dispatch × Session
dispatch_reverted now none s = dispatch_own now none s
dispatch_reverted now (some id) s =
    if not (eqb_ℤ id (pos 0)) && not (eqb_ℤ id s.integration_app_id)
    then (sent, adopt now id s)
    else dispatch_own now (some id) s

unfoldable pub with_cloud_session : ℕ → Option ℤ → Session → Dispatch × Session
with_cloud_session now app_id s =
    if not s.uses_cloud_session || not s.connected_property
    then (sent, s)
    else dispatch_reverted now app_id (revert_foreign_app_id_if_session_clear app_id s)
