-- ===== src/Session/Ends.antt =====
-- coordinator.py: what the dispatch of a command and the end of a cold connect do to the reference to the task.
use delonghi_coffeelink.Prelude.{
  ℕ, ◌≡◌, refl, subst, arith, Bool, true, false, not, ◌&&◌, ◌||◌, Option, none, some, List, [], ◌∷◌,
  ◌++◌, if◌then◌else◌, if-both,
}
use delonghi_coffeelink.Prelude.Int.{ℤ, pos, eqb_ℤ}
use delonghi_coffeelink.Session.{
  Session, Action, post_session, send_command, Cloud, cold_connect_then, connect_cold, after_wait,
  finish_send, done, session_is_fresh, equal_ids, value_of_live, revert_to_own,
  update_session_from_props, revert_foreign_app_id_if_session_clear, adopt, Dispatch, sent,
  scheduled, ignored, dispatch_own, dispatch_reverted, with_cloud_session, refresh_device_app_id,
  rebind, wait_for_session_confirmed,
}

-- Only a command that is scheduled touches the reference to the task, and only where there is none.
abbrev pub Follows : Bool → Dispatch × Session → Type 0
Follows b (sent, s) = s.session_cold_task ≡ b
Follows b (ignored, s) = s.session_cold_task ≡ b
Follows b (scheduled, s) = (b ≡ false) × (s.session_cold_task ≡ true)

abbrev Keeps : Session → Session → Type 0
Keeps s after = after.session_cold_task ≡ s.session_cold_task

revert-Keeps :
    (app_id : Option ℤ) (s : Session) → Keeps s (revert_foreign_app_id_if_session_clear app_id s)
unfolding revert_foreign_app_id_if_session_clear revert_to_own
revert-Keeps app_id s = if-both (Keeps s) _ (revert_to_own s) s refl refl

pub update-Keeps : (app_id : Option ℤ) (s : Session) → Keeps s (update_session_from_props app_id s)
unfolding update_session_from_props revert_to_own
update-Keeps app_id s = ground arith

pub refresh-Keeps : (app_id : Option ℤ) (s : Session) → Keeps s (refresh_device_app_id app_id s)
unfolding refresh_device_app_id rebind
refresh-Keeps app_id s = ground arith

unless_busy-Follows :
    (b : Bool) (s : Session)
    → s.session_cold_task ≡ b
    → Follows b (if b then (ignored, s) else (scheduled, record s { session_cold_task = true }))
unless_busy-Follows true s h = h
unless_busy-Follows false s h = (refl, refl)

dispatch_own-Follows :
    (now : ℕ) (app_id : Option ℤ) (s : Session)
    → Follows s.session_cold_task (dispatch_own now app_id s)
unfolding dispatch_own
dispatch_own-Follows now app_id s =
    if-both (Follows s.session_cold_task) (session_is_fresh now app_id s) (sent, s)
      (if s.session_cold_task
        then (ignored, s)
        else (scheduled, record s { session_cold_task = true }))
      refl (unless_busy-Follows s.session_cold_task s refl)

dispatch_reverted-Follows :
    (now : ℕ) (app_id : Option ℤ) (s : Session)
    → Follows s.session_cold_task (dispatch_reverted now app_id s)
unfolding dispatch_reverted
dispatch_reverted-Follows now none s = dispatch_own-Follows now none s
dispatch_reverted-Follows now (some id) s =
    if-both (Follows s.session_cold_task)
      (not (eqb_ℤ id (pos 0)) && not (eqb_ℤ id s.integration_app_id)) (sent, adopt now id s)
      (dispatch_own now (some id) s) refl (dispatch_own-Follows now (some id) s)

pub with_cloud_session-Follows :
    (now : ℕ) (app_id : Option ℤ) (s : Session)
    → Follows s.session_cold_task (with_cloud_session now app_id s)
unfolding with_cloud_session
with_cloud_session-Follows now app_id s =
    let reverted : Session = revert_foreign_app_id_if_session_clear app_id s in
    if-both (Follows s.session_cold_task) (not s.uses_cloud_session || not s.connected_property)
      (sent, s) (dispatch_reverted now app_id reverted) refl
      (subst (λ (b : Bool). Follows b (dispatch_reverted now app_id reverted))
        (revert-Keeps app_id s) (dispatch_reverted-Follows now app_id reverted))

-- The task is over where it ends, however it ends.
abbrev IsOver : List Action × Session → Type 0
IsOver r = r.1.session_cold_task ≡ false

finish_send-IsOver :
    (cloud : Cloud) (actions : List Action) (s : Session) → IsOver (finish_send cloud (actions, s))
unfolding finish_send
finish_send-IsOver cloud actions s =
    if-both IsOver cloud.reachable (actions ++ send_command ∷ [], done s) (actions, done s) refl
      refl

after_wait-IsOver :
    (cloud : Cloud) (posted : ℤ) (w : Bool × Session) → IsOver (after_wait cloud posted w)
after_wait-IsOver cloud posted (false, s) = refl
after_wait-IsOver cloud posted (true, s) =
    finish_send-IsOver cloud (post_session posted ∷ [])
      (record s { last_connect_at = cloud.connected_at })

connect_cold-IsOver : (cloud : Cloud) (s : Session) → IsOver (connect_cold cloud s)
unfolding connect_cold
connect_cold-IsOver cloud before =
    let s : Session = revert_foreign_app_id_if_session_clear (value_of_live cloud.live) before in
    if-both IsOver (not cloud.post_accepted) (post_session s.integration_app_id ∷ [], done s)
      (after_wait cloud s.integration_app_id
        (wait_for_session_confirmed s.integration_app_id cloud.answers s))
      refl
      (after_wait-IsOver cloud s.integration_app_id
        (wait_for_session_confirmed s.integration_app_id cloud.answers s))

pub cold_connect_then-IsOver : (cloud : Cloud) (s : Session) → IsOver (cold_connect_then cloud s)
unfolding cold_connect_then
cold_connect_then-IsOver cloud s =
    if-both IsOver (not (session_is_fresh cloud.started none s)) (connect_cold cloud s)
      (if s.session_confirmed
        then finish_send cloud ([], s)
        else if equal_ids (value_of_live cloud.live) (some s.integration_app_id)
        then finish_send cloud ([], s)
        else ([], done s))
      (connect_cold-IsOver cloud s)
      (if-both IsOver s.session_confirmed (finish_send cloud ([], s))
        (if equal_ids (value_of_live cloud.live) (some s.integration_app_id)
          then finish_send cloud ([], s)
          else ([], done s))
        (finish_send-IsOver cloud [] s)
        (if-both IsOver (equal_ids (value_of_live cloud.live) (some s.integration_app_id))
          (finish_send cloud ([], s)) ([], done s) (finish_send-IsOver cloud [] s) refl))
