-- ===== src/Session/Connect.antt =====
-- coordinator.py: when a command is sent, when it is not, and which id is POSTed.
use delonghi_coffeelink.Prelude.{
  ◌≡◌, refl, ap, ◌∙◌, arith, Bool, true, false, not, ◌&&◌, ◌||◌, Option, none, some, List, [], ◌∷◌,
  ltb, if◌then◌else◌, any, Bool-cases, inl, inr, if-both,
}
use delonghi_coffeelink.Prelude.Int.{ℤ, pos, eqb_ℤ}
use delonghi_coffeelink.Const.{connect_confirm_timeout}
use delonghi_coffeelink.Session.Ids.{eqb_ℤ_sound}
use delonghi_coffeelink.Session.{
  Session, own_app_id, equal_ids, is_free, revert_to_own, revert_foreign_app_id_if_session_clear,
  session_is_fresh, Answer, wait_for_session_confirmed, Action, post_session, send_command, Cloud,
  value_of_live, finish_send, after_wait, done, connect_cold, cold_connect_then,
}

-- An answer that confirms the id, in time.
abbrev pub confirms : ℤ → Answer → Bool
confirms want a =
    ltb a.elapsed connect_confirm_timeout
    && (elim a.app_id [ none ↦ false | some id ↦ equal_ids id (some want) ])

-- The wait ends well exactly where an answer of the cloud, in time, is the id that was POSTed.
wait-confirms :
    (want : ℤ) (answers : List Answer) (s : Session)
    → (wait_for_session_confirmed want answers s).0 ≡ true
    → any (confirms want) answers ≡ true
unfolding wait_for_session_confirmed
wait-confirms want [] s h = absurd (ground (arith, h))
wait-confirms want (a ∷ answers) s h = ground (arith, h, wait-confirms want answers s)

abbrev pub is_send : Action → Bool
is_send send_command = true
is_send (post_session id) = false

-- The id of the first POST.
abbrev pub first_post : List Action → Option ℤ
first_post [] = none
first_post (send_command ∷ actions) = first_post actions
first_post (post_session id ∷ actions) = some id

-- The id that a cold connect registers.
abbrev pub registered : Cloud → Session → ℤ
registered cloud s =
    (revert_foreign_app_id_if_session_clear (value_of_live cloud.live) s).integration_app_id

-- What stands after the actions before the write: nothing is sent where the machine is not reachable.
finish-sends :
    (cloud : Cloud) (s : Session) (actions : List Action)
    → any is_send actions ≡ false
    → (why : Bool) → why ≡ true
    → any is_send (finish_send cloud (actions, s)).0 ≡ true
    → (cloud.reachable && why) ≡ true
unfolding finish_send
finish-sends cloud s actions quiet why holds h = ground (arith, quiet, h, holds)

after_wait-sends :
    (cloud : Cloud) (posted : ℤ) (w : Bool × Session) (why : Bool)
    → (w.0 ≡ true → why ≡ true)
    → any is_send (after_wait cloud posted w).0 ≡ true
    → (cloud.reachable && why) ≡ true
after_wait-sends cloud posted (false, t) why because h = absurd (ground (arith, h))
after_wait-sends cloud posted (true, t) why because h =
    finish-sends cloud _ (post_session posted ∷ []) refl why (because refl) h

right_of : (a b c : Bool) → c ≡ true → (a || b || c) ≡ true
right_of a b c h = ground (arith, h)

warm-sends :
    (cloud : Cloud) (s : Session) (sure same heard : Bool)
    → any is_send
        (if sure
          then finish_send cloud ([], s)
          else (if same then finish_send cloud ([], s) else ([], done s))).0
      ≡ true
    → (cloud.reachable && (sure || same || heard)) ≡ true
warm-sends cloud s true same heard h = finish-sends cloud s [] refl true refl h
warm-sends cloud s false true heard h = finish-sends cloud s [] refl true refl h
warm-sends cloud s false false heard h = absurd (ground (arith, h))

-- A command leaves a cold connect only where the machine is reachable at that moment and the session
-- stands: it was confirmed already, or the cloud answers with the integration's id now, or it
-- answered in time with the very id that was registered.
pub cold_connect-sends :
    (cloud : Cloud) (s : Session)
    → any is_send (cold_connect_then cloud s).0 ≡ true
    → (cloud.reachable
        && (s.session_confirmed
            || equal_ids (value_of_live cloud.live) (some s.integration_app_id)
            || any (confirms (registered cloud s)) cloud.answers))
      ≡ true
unfolding cold_connect_then connect_cold
cold_connect-sends cloud s =
    let sure : Bool = s.session_confirmed in
    let same : Bool = equal_ids (value_of_live cloud.live) (some s.integration_app_id) in
    let heard : Bool = any (confirms (registered cloud s)) cloud.answers in
    let Sends : List Action × Session → Type 0 =
      λ d. any is_send d.0 ≡ true → (cloud.reachable && (sure || same || heard)) ≡ true in
    let t : Session = revert_foreign_app_id_if_session_clear (value_of_live cloud.live) s in
    let waited : Bool × Session = wait_for_session_confirmed t.integration_app_id cloud.answers t in
    let refused : List Action × Session = (post_session t.integration_app_id ∷ [], done t) in
    let warm : List Action × Session = if same then finish_send cloud ([], s) else ([], done s) in
    if-both Sends (not (session_is_fresh cloud.started none s))
      (if not cloud.post_accepted then refused else after_wait cloud t.integration_app_id waited)
      (if sure then finish_send cloud ([], s) else warm)
      (if-both Sends (not cloud.post_accepted) refused
        (after_wait cloud t.integration_app_id waited) (λ h. absurd (ground (arith, h)))
        (after_wait-sends cloud t.integration_app_id waited (sure || same || heard)
          (λ w. right_of sure same heard (wait-confirms t.integration_app_id cloud.answers t w))))
      (warm-sends cloud s sure same heard)

first_post-finish :
    (cloud : Cloud) (id : ℤ) (s : Session)
    → first_post (finish_send cloud (post_session id ∷ [], s)).0 ≡ some id
unfolding finish_send
first_post-finish cloud id s = ground arith

first_post-after_wait :
    (cloud : Cloud) (id : ℤ) (w : Bool × Session) → first_post (after_wait cloud id w).0 ≡ some id
first_post-after_wait cloud id (false, t) = refl
first_post-after_wait cloud id (true, t) = first_post-finish cloud id _

first_post-registered :
    (cloud : Cloud) (s : Session)
    → session_is_fresh cloud.started none s ≡ false
    → first_post (cold_connect_then cloud s).0 ≡ some (registered cloud s)
unfolding cold_connect_then connect_cold
first_post-registered cloud s stale =
    let t : Session = revert_foreign_app_id_if_session_clear (value_of_live cloud.live) s in
    let waited : Bool × Session = wait_for_session_confirmed t.integration_app_id cloud.answers t in
    rw stale (
      if-both (λ d. first_post d.0 ≡ some t.integration_app_id) (not cloud.post_accepted)
        (post_session t.integration_app_id ∷ [], done t)
        (after_wait cloud t.integration_app_id waited) refl
        (first_post-after_wait cloud t.integration_app_id waited))

revert-kept :
    (id : Option ℤ) (s : Session)
    → (is_free id && not (eqb_ℤ s.integration_app_id (own_app_id s))) ≡ false
    → revert_foreign_app_id_if_session_clear id s ≡ s
unfolding revert_foreign_app_id_if_session_clear
revert-kept id s cond = rw cond refl

revert-own :
    (id : Option ℤ) (s : Session)
    → (is_free id && not (eqb_ℤ s.integration_app_id (own_app_id s))) ≡ true
    → revert_foreign_app_id_if_session_clear id s ≡ revert_to_own s
unfolding revert_foreign_app_id_if_session_clear
revert-own id s cond = rw cond refl

own_of-revert_to_own : (s : Session) → (revert_to_own s).integration_app_id ≡ own_app_id s
unfolding revert_to_own
own_of-revert_to_own s = refl

registered-own :
    (cloud : Cloud) (s : Session)
    → is_free (value_of_live cloud.live) ≡ true
    → registered cloud s ≡ own_app_id s
registered-own cloud s free = elim (Bool-cases (eqb_ℤ s.integration_app_id (own_app_id s))) [
  | inl own ↦
      ap (λ t. t.integration_app_id)
        (revert-kept (value_of_live cloud.live) s (rw (free, own) refl))
      ∙ eqb_ℤ_sound s.integration_app_id (own_app_id s) own
  | inr foreign ↦
      ap (λ t. t.integration_app_id)
        (revert-own (value_of_live cloud.live) s (rw (free, foreign) refl))
      ∙ own_of-revert_to_own s
]

-- A cold connect of a session that is not fresh POSTs the integration's own id where the cloud
-- reports no holder of the session, or does not answer.
cold_connect-own :
    (cloud : Cloud) (s : Session)
    → session_is_fresh cloud.started none s ≡ false
    → is_free (value_of_live cloud.live) ≡ true
    → first_post (cold_connect_then cloud s).0 ≡ some (own_app_id s)
cold_connect-own cloud s stale free =
    first_post-registered cloud s stale ∙ ap some (registered-own cloud s free)

registered-held :
    (cloud : Cloud) (s : Session)
    → eqb_ℤ s.integration_app_id (pos 0) ≡ false
    → value_of_live cloud.live ≡ some s.integration_app_id
    → registered cloud s ≡ s.integration_app_id
unfolding revert_foreign_app_id_if_session_clear
registered-held cloud s held live = ground (arith, held, live)

-- Where the id of another app that was adopted still holds the session once it is no longer fresh,
-- the cold connect POSTs that id.
pub cold_connect-foreign :
    (cloud : Cloud) (s : Session)
    → session_is_fresh cloud.started none s ≡ false
    → eqb_ℤ s.integration_app_id (pos 0) ≡ false
    → value_of_live cloud.live ≡ some s.integration_app_id
    → first_post (cold_connect_then cloud s).0 ≡ some s.integration_app_id
cold_connect-foreign cloud s stale held live =
    first_post-registered cloud s stale ∙ ap some (registered-held cloud s held live)
