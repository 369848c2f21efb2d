-- ===== src/Session/Accounts.antt =====
-- coordinator.py: what becomes of each command, and when there is a background task.
use delonghi_coffeelink.Prelude.{
  ℕ, ◌+◌, ◌≡◌, refl, ap, sym, ◌∙◌, arith, Bool, true, false, Option, List, [], ◌∷◌, ◌==◌, ==_iff,
  if◌then◌else◌, ◌⊎◌, inl, inr, ◌≤◌, length, Bool-cases,
}
use delonghi_coffeelink.Prelude.Int.{ℤ}
use delonghi_coffeelink.Command.Learn.{member}
use delonghi_coffeelink.Session.{
  Session, Cloud, Dispatch, sent, scheduled, ignored, with_cloud_session,
}
use delonghi_coffeelink.Session.Ends.{
  Follows, update-Keeps, refresh-Keeps, with_cloud_session-Follows, cold_connect_then-IsOver,
}
use delonghi_coffeelink.Session.Tasks.{
  Tasks, take_dispatch, receive, remove_one, end_task, cancel, shut_down, Step, pressed, unread,
  polled, learned, ended, stopped, unwound, Run, begun, then_step, count, commands, IsAccounted,
}

-- The session of a state may change as long as the reference stays.
same_reference :
    (b c : Bool) (running : List ℕ)
    → c ≡ b
    → (b ≡ false) ⊎ (1 ≤ length running)
    → (c ≡ false) ⊎ (1 ≤ length running)
same_reference b c running same h = rw same h

same_single :
    (b c stopped_before : Bool) (running cancelling : List ℕ)
    → c ≡ b
    → (stopped_before ≡ true) ⊎ ((cancelling ≡ []) × (length running ≡ (if b then 1 else 0)))
    → (stopped_before ≡ true) ⊎ ((cancelling ≡ []) × (length running ≡ (if c then 1 else 0)))
same_single b c stopped_before running cancelling same h = rw same h

started_single :
    (b stopped_before : Bool) (k : ℕ) (running cancelling : List ℕ)
    → b ≡ false
    → (stopped_before ≡ true) ⊎ ((cancelling ≡ []) × (length running ≡ (if b then 1 else 0)))
    → (stopped_before ≡ true) ⊎ ((cancelling ≡ []) × (length (k ∷ running) ≡ 1))
started_single b stopped_before k running cancelling free (inl was) = inl was
started_single b stopped_before k running cancelling free (inr (none_left, one)) =
    inr (none_left, ground (arith, one, free))

take_dispatch-IsAccounted :
    (returns : Bool) (k : ℕ) (r : Dispatch × Session) (t : Tasks)
    → Follows t.session.session_cold_task r
    → IsAccounted t
    → IsAccounted (take_dispatch returns k r (record t { received = k ∷ t.received }))
take_dispatch-IsAccounted returns k (sent, s) t follows h = record {
  single = same_single _ _ t.was_stopped t.running t.cancelling follows h.single;
  known = same_reference _ _ t.running follows h.known;
  accounted = λ n. omega (arith, h.accounted n);
}
take_dispatch-IsAccounted returns k (ignored, s) t follows h = record {
  single = same_single _ _ t.was_stopped t.running t.cancelling follows h.single;
  known = same_reference _ _ t.running follows h.known;
  accounted = λ n. omega (arith, h.accounted n);
}
take_dispatch-IsAccounted returns k (scheduled, s) t follows h = record {
  single =
      same_single true _ t.was_stopped (k ∷ t.running) t.cancelling follows.1
        (started_single _ t.was_stopped k t.running t.cancelling follows.0 h.single);
  known = inr (omega arith);
  accounted = λ n. omega (arith, h.accounted n);
}

receive-IsAccounted :
    (now : ℕ) (app_id : Option ℤ) (returns : Bool) (k : ℕ) (t : Tasks)
    → IsAccounted t
    → IsAccounted (receive now app_id returns k t)
unfolding receive
receive-IsAccounted now app_id returns k t h =
    take_dispatch-IsAccounted returns k (with_cloud_session now app_id t.session) t
      (with_cloud_session-Follows now app_id t.session) h

count-remove_one :
    (n k : ℕ) (ns : List ℕ)
    → member k ns ≡ true
    → count n ns ≡ count n (k ∷ []) + count n (remove_one k ns)
count-remove_one n k [] h = absurd (ground arith)
count-remove_one n k (m ∷ ns) h = elim (Bool-cases (k == m)) [
  | inl same ↦ rw (same, (==_iff k m).0 same) (omega arith)
  | inr other ↦ rw other (omega (arith, count-remove_one n k ns (ground (arith, h, other))))
]

length-remove_one :
    (k : ℕ) (ns : List ℕ) → member k ns ≡ true → length ns ≡ length (remove_one k ns) + 1
length-remove_one k [] h = absurd (ground arith)
length-remove_one k (m ∷ ns) h = elim (Bool-cases (k == m)) [
  | inl same ↦ rw same (omega arith)
  | inr other ↦ rw other (omega (arith, length-remove_one k ns (ground (arith, h, other))))
]

ended_single :
    (b c stopped_before : Bool) (k : ℕ) (running cancelling : List ℕ)
    → member k running ≡ true
    → c ≡ false
    → (stopped_before ≡ true) ⊎ ((cancelling ≡ []) × (length running ≡ (if b then 1 else 0)))
    → (stopped_before ≡ true)
      ⊎ ((cancelling ≡ []) × (length (remove_one k running) ≡ (if c then 1 else 0)))
ended_single b c stopped_before k running cancelling busy over (inl was) = inl was
ended_single b c stopped_before k running cancelling busy over (inr (none_left, one)) =
    let shorter = length-remove_one k running busy in
    inr (none_left, rw over (ground (arith, one, shorter)))

end_task-IsAccounted :
    (cloud : Cloud) (returns : Bool) (k : ℕ) (t : Tasks)
    → member k t.running ≡ true
    → IsAccounted t
    → IsAccounted (end_task cloud returns k t)
unfolding end_task
end_task-IsAccounted cloud returns k t busy h = record {
  single =
      ended_single _ _ t.was_stopped k t.running t.cancelling busy
        (cold_connect_then-IsOver cloud t.session) h.single;
  known = inl (cold_connect_then-IsOver cloud t.session);
  accounted = λ n. omega (arith, h.accounted n, count-remove_one n k t.running busy);
}

cancel-count :
    (n : ℕ) (b : Bool) (running : List ℕ) (t : Tasks)
    → running ≡ t.running
    → count n (commands (cancel b running t).settled) + count n (cancel b running t).running
      ≡ count n (commands t.settled) + count n t.running
cancel-count n false running t h = refl
cancel-count n true [] t h = refl
cancel-count n true (k ∷ ks) t h = omega (arith, ap (count n) h)

cancel-received :
    (b : Bool) (running : List ℕ) (t : Tasks) → (cancel b running t).received ≡ t.received
cancel-received false running t = refl
cancel-received true [] t = refl
cancel-received true (k ∷ ks) t = refl

shut_down-IsAccounted : (t : Tasks) → IsAccounted t → IsAccounted (shut_down t)
unfolding shut_down
shut_down-IsAccounted t h =
    let b : Bool = t.session.session_cold_task in
    record {
      single = inl refl;
      known = inl refl;
      accounted = λ n.
          ap (count n) (cancel-received b t.running t)
          ∙ h.accounted n
          ∙ sym (cancel-count n b t.running t refl);
    }

unwound_single :
    (stopped_before : Bool) (k : ℕ) (cancelling : List ℕ) (P Q : Type 0)
    → member k cancelling ≡ true
    → (stopped_before ≡ true) ⊎ ((cancelling ≡ []) × P)
    → (stopped_before ≡ true) ⊎ Q
unwound_single stopped_before k cancelling P Q here (inl was) = inl was
unwound_single stopped_before k cancelling P Q here (inr (none_left, p)) =
    absurd (ground (arith, sym here ∙ ap (member k) none_left))

Step-IsAccounted : (t u : Tasks) → Step t u → IsAccounted t → IsAccounted u
Step-IsAccounted t _ (pressed now app_id returns k) h = receive-IsAccounted now app_id returns k t h
Step-IsAccounted t _ (unread k) h = record {
  single = h.single;
  known = h.known;
  accounted = λ n. omega (arith, h.accounted n);
}
Step-IsAccounted t _ (polled app_id) h = record {
  single =
      same_single _ _ t.was_stopped t.running t.cancelling (update-Keeps app_id t.session) h.single;
  known = same_reference _ _ t.running (update-Keeps app_id t.session) h.known;
  accounted = h.accounted;
}
Step-IsAccounted t _ (learned app_id) h = record {
  single =
      same_single _ _ t.was_stopped t.running t.cancelling (refresh-Keeps app_id t.session)
        h.single;
  known = same_reference _ _ t.running (refresh-Keeps app_id t.session) h.known;
  accounted = h.accounted;
}
Step-IsAccounted t _ (ended cloud returns k busy) h = end_task-IsAccounted cloud returns k t busy h
Step-IsAccounted t _ stopped h = shut_down-IsAccounted t h
Step-IsAccounted t _ (unwound k here) h = record {
  single = unwound_single t.was_stopped k t.cancelling _ _ here h.single;
  known = inl refl;
  accounted = h.accounted;
}

-- Any order of presses, polls, learned ids, ends of background tasks, shutdowns and late ends of
-- cancelled tasks keeps this: each command that was received is settled, as written, raised, given up,
-- cancelled or dropped as a duplicate, or is one of a background task, and this as often as it was
-- received. Before the first shutdown there is one task at most, and the session says that a cold
-- connect is under way exactly while there is one; after it the session says so only while there is a
-- task.
pub Run-IsAccounted : (t u : Tasks) → Run t u → IsAccounted t → IsAccounted u
Run-IsAccounted t _ begun h = h
Run-IsAccounted t _ (then_step {u} {v} run step) h =
    Step-IsAccounted u v step (Run-IsAccounted t u run h)
