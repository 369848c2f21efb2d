-- ===== src/Session/Tasks.antt =====
-- coordinator.py: the commands that wait for a cold connect, over any order of presses, polls, ends of
-- the background tasks, and shutdown (async_shutdown). The end of a task is one step, and so is the late
-- end of a cancelled one.
use delonghi_coffeelink.Prelude.{
  ℕ, ◌+◌, ◌≡◌, Bool, true, false, not, Option, List, [], ◌∷◌, ◌==◌, if◌then◌else◌, ◌⊎◌, ◌≤◌, length,
}
use delonghi_coffeelink.Prelude.Int.{ℤ, eqb_ℤ}
use delonghi_coffeelink.Command.Learn.{member}
use delonghi_coffeelink.Session.{
  Session, own_app_id, Action, post_session, send_command, Cloud, cold_connect_then,
  update_session_from_props, Dispatch, sent, scheduled, ignored, with_cloud_session,
  refresh_device_app_id,
}

-- What becomes of a command: its write returned, at once or in the background task; it raised; the
-- task gave it up; the task was cancelled; or it was dropped, for another one waited.
pub data Fate : Type 0 where
  written written_by_task raised given_up cancelled duplicate : Fate

-- The session, the commands of the background tasks, the newest first, those of the cancelled tasks
-- whose `finally` is still to run, what has become of commands, all that have been received, by their
-- numbers, and whether there was a shutdown.
pub record Tasks : Type 0 where
  pub session : Session
  pub running : List ℕ
  pub cancelling : List ℕ
  pub settled : List (ℕ × Fate)
  pub received : List ℕ
  pub was_stopped : Bool

-- `returns` is whether a send that is made at once returns.
abbrev pub take_dispatch : Bool → ℕ → Dispatch × Session → Tasks → Tasks
take_dispatch returns k (sent, s) t = record t {
  session = s;
  settled = (k, if returns then written else raised) ∷ t.settled;
}
take_dispatch returns k (ignored, s) t = record t {
  session = s;
  settled = (k, duplicate) ∷ t.settled;
}
take_dispatch returns k (scheduled, s) t = record t { session = s; running = k ∷ t.running }

unfoldable pub receive : ℕ → Option ℤ → Bool → ℕ → Tasks → Tasks
receive now app_id returns k t =
    take_dispatch returns k (with_cloud_session now app_id t.session)
      (record t { received = k ∷ t.received })

-- The same where the read of the session's holder raises.
abbrev pub receive_unread : ℕ → Tasks → Tasks
receive_unread k t = record t { received = k ∷ t.received; settled = (k, raised) ∷ t.settled }

abbrev pub remove_one : ℕ → List ℕ → List ℕ
remove_one k [] = []
remove_one k (n ∷ ns) = if k == n then ns else n ∷ remove_one k ns

-- What the send of the task raises is caught.
abbrev pub fate_of : Bool → List Action → Fate
fate_of returns [] = given_up
fate_of returns (send_command ∷ actions) = if returns then written_by_task else given_up
fate_of returns (post_session id ∷ actions) = fate_of returns actions

unfoldable pub end_task : Cloud → Bool → ℕ → Tasks → Tasks
end_task cloud returns k t =
    let (actions, s) = cold_connect_then cloud t.session in
    record t {
      session = s;
      running = remove_one k t.running;
      settled = (k, fate_of returns actions) ∷ t.settled;
    }

-- The `finally` of a cancelled task, which takes the reference to a newer task away too.
abbrev pub end_cancelled : ℕ → Tasks → Tasks
end_cancelled k t = record t {
  session = record t.session { session_cold_task = false };
  cancelling = remove_one k t.cancelling;
}

abbrev pub reset : Session → Session
reset s = record s {
  session_cold_task = false;
  last_connect_at = 0;
  integration_app_id =
      if not (eqb_ℤ s.integration_app_id (own_app_id s))
      then own_app_id s
      else s.integration_app_id;
}

-- The task that is referred to is cancelled, which is the newest; without a reference none is.
abbrev pub cancel : Bool → List ℕ → Tasks → Tasks
cancel true (k ∷ ks) t = record t {
  running = ks;
  cancelling = k ∷ t.cancelling;
  settled = (k, cancelled) ∷ t.settled;
}
cancel _ _ t = t

-- async_shutdown
unfoldable pub shut_down : Tasks → Tasks
shut_down t =
    let after = cancel t.session.session_cold_task t.running t in
    record after { session = reset t.session; was_stopped = true }

pub data Step (t : Tasks) : Tasks → Type 0 where
  pressed :
      (now : ℕ) (app_id : Option ℤ) (returns : Bool) (k : ℕ)
      → Step t (receive now app_id returns k t)
  unread : (k : ℕ) → Step t (receive_unread k t)
  polled :
      (app_id : Option ℤ)
      → Step t (record t { session = update_session_from_props app_id t.session })
  learned :
      (app_id : Option ℤ) → Step t (record t { session = refresh_device_app_id app_id t.session })
  ended :
      (cloud : Cloud) (returns : Bool) (k : ℕ)
      → member k t.running ≡ true
      → Step t (end_task cloud returns k t)
  stopped : Step t (shut_down t)
  unwound : (k : ℕ) → member k t.cancelling ≡ true → Step t (end_cancelled k t)

pub data Run (t : Tasks) : Tasks → Type 0 where
  begun : Run t t
  then_step : {u v : Tasks} → Run t u → Step u v → Run t v

abbrev pub count : ℕ → List ℕ → ℕ
count k [] = 0
count k (n ∷ ns) = (if k == n then 1 else 0) + count k ns

abbrev pub commands : List (ℕ × Fate) → List ℕ
commands [] = []
commands ((k, fate) ∷ rest) = k ∷ commands rest

-- There is one task exactly while the session has the reference to it, and no cancelled one.
abbrev pub IsSingle : Tasks → Type 0
IsSingle t =
    (t.cancelling ≡ []) × (length t.running ≡ (if t.session.session_cold_task then 1 else 0))

pub record IsAccounted (t : Tasks) : Type 0 where
  pub single : (t.was_stopped ≡ true) ⊎ IsSingle t
  pub known : (t.session.session_cold_task ≡ false) ⊎ (1 ≤ length t.running)
  pub accounted : (k : ℕ) → count k t.received ≡ count k (commands t.settled) + count k t.running
