-- ===== src/Sniffer/Restore.antt =====
-- coordinator.py: the learned frames that a restart brings back.
use delonghi_coffeelink.Prelude.{
  ℕ, ◌≡◌, refl, ap, sym, ◌∙◌, subst, arith, Bool, true, false, Option, none, some, List,
}
use delonghi_coffeelink.Prelude.Text.{Text}
use delonghi_coffeelink.Prelude.Result.{Result, ok, err}
use delonghi_coffeelink.Command.Stored.{stored_text, deserialize-serialize}
use delonghi_coffeelink.Sniffer.Holds.{IsSound}
use delonghi_coffeelink.Command.Learn.{Frames, Storage, deserialize_learned_frames}
use delonghi_coffeelink.Prelude.Text.{join_split}
use delonghi_coffeelink.Prelude.Result.{value_error}
use delonghi_coffeelink.Base64.{b64decode}
use delonghi_coffeelink.Command.Inspect.{replay_bytes, replay_with_timestamp}
use delonghi_coffeelink.Sniffer.{
  Sniffer, learned_storage_data, rebound, learned_device_signature, refresh_from_learned,
}
use delonghi_coffeelink.Sniffer.Load.{keep_checked, check_wake, sanitize, restore, load_learned}

-- The wake frame, if there is one, passes the test of its kind of model.
abbrev pub WakeIsChecked : ℕ → Bool → Option Text → Type 0
WakeIsChecked now learns none = Unit
WakeIsChecked now learns (some wake) = check_wake now learns wake ≡ ok true

rebound-wake :
    (r : Result (Option (List ℕ))) (c : Sniffer)
    → ((rebound r c).0.learned_wake_frame ≡ c.learned_wake_frame)
      × ((rebound r c).0.learns_from_app ≡ c.learns_from_app)
rebound-wake (err e) c = (refl, refl)
rebound-wake (ok signature) c = (refl, refl)

refresh_from_learned-checked :
    (now : ℕ) (c : Sniffer)
    → WakeIsChecked now c.learns_from_app c.learned_wake_frame
    → WakeIsChecked now c.learns_from_app (refresh_from_learned c).0.learned_wake_frame
unfolding refresh_from_learned
refresh_from_learned-checked now c h =
    subst (WakeIsChecked now c.learns_from_app)
      (sym (rebound-wake (learned_device_signature c) c).0) h

keep_checked-checked :
    (now : ℕ) (wake : Text) (r : Result Bool) (c : Sniffer)
    → check_wake now c.learns_from_app wake ≡ r
    → c.learned_wake_frame ≡ some wake
    → (keep_checked r c).1 ≡ none
    → WakeIsChecked now c.learns_from_app (keep_checked r c).0.learned_wake_frame
keep_checked-checked now wake (err e) c test held done = absurd (ground arith)
keep_checked-checked now wake (ok true) c test held done =
    refresh_from_learned-checked now c (subst (WakeIsChecked now c.learns_from_app) (sym held) test)
keep_checked-checked now wake (ok false) c test held done =
    refresh_from_learned-checked now (record c { learned_wake_frame = none }) tt

sanitize-checked :
    (now : ℕ) (w : Option Text) (c : Sniffer)
    → c.learned_wake_frame ≡ w
    → (sanitize now w c).1 ≡ none
    → WakeIsChecked now c.learns_from_app (sanitize now w c).0.learned_wake_frame
sanitize-checked now none c held done =
    refresh_from_learned-checked now c (subst (WakeIsChecked now c.learns_from_app) (sym held) tt)
sanitize-checked now (some wake) c held done =
    keep_checked-checked now wake (check_wake now c.learns_from_app wake) c refl held done

-- Whatever the store holds: where a coordinator without a wake frame loads it and nothing is raised,
-- its wake frame is absent or passes the test of its model, which is the integrity of the replay
-- on a model that learns, and the parameters of a power-on on the others.
pub load_learned-checked :
    (now : ℕ) (loaded : Result (Option Storage)) (c : Sniffer)
    → c.learned_wake_frame ≡ none
    → (load_learned now loaded c).1 ≡ none
    → WakeIsChecked now c.learns_from_app (load_learned now loaded c).0.learned_wake_frame
unfolding load_learned
load_learned-checked now (err e) c empty done =
    subst (WakeIsChecked now c.learns_from_app) (sym empty) tt
load_learned-checked now (ok none) c empty done =
    subst (WakeIsChecked now c.learns_from_app) (sym empty) tt
load_learned-checked now (ok (some stored)) c empty done =
    let restored : Sniffer = restore (deserialize_learned_frames (some stored)) c in
    sanitize-checked now restored.learned_wake_frame restored refl done

-- On a model that learns, a stored wake frame that is no base64 at all makes the loading raise, and
-- the set-up of the account with it.
load_learned-raises :
    (now : ℕ) (stored : Storage) (wake : Text) (c : Sniffer)
    → c.learns_from_app ≡ true
    → (deserialize_learned_frames (some stored)).2 ≡ some wake
    → b64decode false (join_split wake) ≡ none
    → (load_learned now (ok (some stored)) c).1 ≡ some value_error
unfolding load_learned replay_with_timestamp replay_bytes
load_learned-raises now stored wake c learns held bad =
    let restored : Sniffer = restore (deserialize_learned_frames (some stored)) c in
    ap (λ (w : Option Text). (sanitize now w restored).1) held
    ∙ ap (λ (l : Bool). (keep_checked (check_wake now l wake) restored).1) learns
    ∙ rw bad refl

-- What of the sniffer the store keeps.
abbrev tables : Sniffer → Frames × Frames
tables c = (c.learned_start_frames, c.learned_stop_frames)

rebound-tables : (r : Result (Option (List ℕ))) (c : Sniffer) → tables (rebound r c).0 ≡ tables c
rebound-tables (err e) c = refl
rebound-tables (ok signature) c = refl

keep_checked-tables : (r : Result Bool) (c : Sniffer) → tables (keep_checked r c).0 ≡ tables c
unfolding refresh_from_learned
keep_checked-tables (err e) c = refl
keep_checked-tables (ok true) c = rebound-tables (learned_device_signature c) c
keep_checked-tables (ok false) c =
    let forgotten : Sniffer = record c { learned_wake_frame = none } in
    rebound-tables (learned_device_signature forgotten) forgotten

sanitize-tables : (now : ℕ) (w : Option Text) (c : Sniffer) → tables (sanitize now w c).0 ≡ tables c
unfolding refresh_from_learned
sanitize-tables now none c = rebound-tables (learned_device_signature c) c
sanitize-tables now (some wake) c = keep_checked-tables (check_wake now c.learns_from_app wake) c

-- The wake frame that a restart keeps: one that fails the test of its model is forgotten.
abbrev pub tested : Option Text → Result Bool → Option Text
tested wake (ok false) = none
tested wake r = wake

abbrev pub kept_wake : ℕ → Bool → Option Text → Option Text
kept_wake now learns none = none
kept_wake now learns (some wake) = tested (some wake) (check_wake now learns wake)

keep_checked-wake :
    (r : Result Bool) (c : Sniffer)
    → (keep_checked r c).0.learned_wake_frame ≡ tested c.learned_wake_frame r
unfolding refresh_from_learned
keep_checked-wake (err e) c = refl
keep_checked-wake (ok true) c = (rebound-wake (learned_device_signature c) c).0
keep_checked-wake (ok false) c =
    let forgotten : Sniffer = record c { learned_wake_frame = none } in
    (rebound-wake (learned_device_signature forgotten) forgotten).0

sanitize-wake :
    (now : ℕ) (w : Option Text) (c : Sniffer)
    → c.learned_wake_frame ≡ w
    → (sanitize now w c).0.learned_wake_frame ≡ kept_wake now c.learns_from_app w
unfolding refresh_from_learned
sanitize-wake now none c held = (rebound-wake (learned_device_signature c) c).0 ∙ held
sanitize-wake now (some wake) c held =
    keep_checked-wake (check_wake now c.learns_from_app wake) c
    ∙ ap (λ (w : Option Text). tested w (check_wake now c.learns_from_app wake)) held

-- What one run of the integration stores, the next one loads: where the tables of a sniffer hold
-- what it may learn, a sniffer that loads its stored data, at any time, has its frames of starts
-- and of stops again, and its wake frame, if that is no empty text, unless that fails the test of
-- the model.
pub load_learned-stored :
    (now : ℕ) (c fresh : Sniffer)
    → IsSound c
    → ((load_learned now (ok (some (learned_storage_data c))) fresh).0.learned_start_frames
        ≡ c.learned_start_frames)
      × ((load_learned now (ok (some (learned_storage_data c))) fresh).0.learned_stop_frames
          ≡ c.learned_stop_frames)
      × ((load_learned now (ok (some (learned_storage_data c))) fresh).0.learned_wake_frame
          ≡ kept_wake now fresh.learns_from_app (stored_text c.learned_wake_frame))
unfolding load_learned learned_storage_data
load_learned-stored now c fresh sound =
    let read =
      deserialize-serialize c.learned_start_frames c.learned_stop_frames c.learned_wake_frame
        sound.0.1 sound.1.1 in
    let restored : Sniffer =
      restore (deserialize_learned_frames (some (learned_storage_data c))) fresh in
    let kept = sanitize-tables now restored.learned_wake_frame restored in
    (
      ap (λ t. t.0) kept ∙ ap (λ t. t.0) read,
      ap (λ t. t.1) kept ∙ ap (λ t. t.1) read,
      sanitize-wake now restored.learned_wake_frame restored refl
          ∙ ap (λ (t : Frames × Frames × Option Text). kept_wake now fresh.learns_from_app t.2)
              read,
    )
