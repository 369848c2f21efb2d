-- ===== src/Session/Ids.antt =====
-- coordinator.py: which app id the coordinator commands with.
use delonghi_coffeelink.Prelude.{
  ℕ, ◌≡◌, refl, sym, ap, ◌∙◌, subst, arith, inl, inr, Bool, true, false, not, ◌&&◌, ◌||◌, Option,
  none, some, List, [], ◌∷◌, ltb, if◌then◌else◌, any, Bool-cases, if-both,
}
use delonghi_coffeelink.Prelude.Int.{ℤ, pos, negsuc, eqb_ℤ}
use delonghi_coffeelink.Const.{connect_confirm_timeout}
use delonghi_coffeelink.Session.{
  Answer, wait_for_session_confirmed, Action, post_session, Cloud, after_wait, done, adopt, sent,
  finish_send, connect_cold, cold_connect_then, value_of_live, Session, own_app_id, equal_ids,
  is_free, is_zero, rebind, refresh_device_app_id, revert_to_own, update_session_from_props,
  revert_foreign_app_id_if_session_clear, session_is_fresh, dispatch_own, dispatch_reverted,
  with_cloud_session,
}

-- The id is the integration's own, or one that the cloud has reported.
abbrev pub is_traced : List ℤ → Session → Bool
is_traced reported s =
    eqb_ℤ s.integration_app_id (own_app_id s) || any (λ i. eqb_ℤ i s.integration_app_id) reported

-- The ids that the cloud has reported after one more answer.
abbrev pub heard : Option ℤ → List ℤ → List ℤ
heard none reported = reported
heard (some id) reported = id ∷ reported

pub eqb_ℤ_refl : (a : ℤ) → eqb_ℤ a a ≡ true
eqb_ℤ_refl a = ground arith

pub eqb_ℤ_sound : (a b : ℤ) → eqb_ℤ a b ≡ true → a ≡ b
eqb_ℤ_sound (pos n) (pos m) h = ap pos (ground (arith, h))
eqb_ℤ_sound (pos n) (negsuc m) h = absurd (ground (arith, h))
eqb_ℤ_sound (negsuc n) (pos m) h = absurd (ground (arith, h))
eqb_ℤ_sound (negsuc n) (negsuc m) h = ap negsuc (ground (arith, h))

revert_to_own-is_traced :
    (reported : List ℤ) (s : Session) → is_traced reported (revert_to_own s) ≡ true
unfolding revert_to_own own_app_id
revert_to_own-is_traced reported s = rw (eqb_ℤ_refl (own_app_id s)) refl

||-right : (a b : Bool) → b ≡ true → (a || b) ≡ true
||-right true b h = refl
||-right false b h = h

||-other : (a b : Bool) → (a || b) ≡ true → a ≡ false → b ≡ true
||-other true b h f = absurd (ground (arith, f))
||-other false b h f = h

||-keep : (a b c : Bool) → (a || b) ≡ true → (a || (c || b)) ≡ true
||-keep true b c h = refl
||-keep false b true h = refl
||-keep false b false h = h

is_traced-heard :
    (id : Option ℤ) (reported : List ℤ) (s : Session)
    → is_traced reported s ≡ true
    → is_traced (heard id reported) s ≡ true
is_traced-heard none reported s h = h
is_traced-heard (some id) reported s h =
    ||-keep (eqb_ℤ s.integration_app_id (own_app_id s))
      (any (λ i. eqb_ℤ i s.integration_app_id) reported) (eqb_ℤ id s.integration_app_id) h

module _ (reported : List ℤ) (s : Session) (h : is_traced reported s ≡ true) where
  update_session-is_traced :
      (app_id : Option ℤ)
      → is_traced (heard app_id reported) (update_session_from_props app_id s) ≡ true
  unfolding update_session_from_props own_app_id
  update_session-is_traced app_id =
      elim (Bool-cases (is_zero app_id && not (eqb_ℤ s.integration_app_id (own_app_id s)))) [
        | inl reverted ↦ rw reverted (revert_to_own-is_traced (heard app_id reported) _)
        | inr kept ↦ rw kept (is_traced-heard app_id reported s h)
      ]

  revert_foreign-is_traced :
      (app_id : Option ℤ)
      → is_traced reported (revert_foreign_app_id_if_session_clear app_id s) ≡ true
  unfolding revert_foreign_app_id_if_session_clear
  revert_foreign-is_traced app_id =
      elim (Bool-cases (is_free app_id && not (eqb_ℤ s.integration_app_id (own_app_id s)))) [
        | inl reverted ↦ rw reverted (revert_to_own-is_traced reported s)
        | inr kept ↦ rw kept h
      ]

  rebind-is_traced :
      (id : Option ℤ)
      → is_traced reported (rebind (own_app_id s) (record s { device_app_id = id })) ≡ true
  unfolding rebind own_app_id
  rebind-is_traced id =
      let t : Session = record s { device_app_id = id } in
      elim (Bool-cases (eqb_ℤ (own_app_id t) (own_app_id s))) [
        | inl same ↦ rw same (
            subst
              (λ o.
                (eqb_ℤ s.integration_app_id o || any (λ i. eqb_ℤ i s.integration_app_id) reported)
                ≡ true)
              (sym (eqb_ℤ_sound (own_app_id t) (own_app_id s) same)) h)
        | inr moved ↦ elim (Bool-cases (eqb_ℤ s.integration_app_id (own_app_id s))) [
          | inl own ↦ rw (moved, own) (rw (eqb_ℤ_refl (own_app_id t)) refl)
          | inr foreign ↦ rw (moved, foreign) (||-right _ _ (||-other _ _ h foreign))
        ]
      ]

  refresh_device-is_traced :
      (id : Option ℤ) → is_traced reported (refresh_device_app_id id s) ≡ true
  unfolding refresh_device_app_id
  refresh_device-is_traced id = elim (Bool-cases (equal_ids id s.device_app_id)) [
    | inl same ↦ rw same h
    | inr new ↦ rw new (rebind-is_traced id)
  ]

  pub dispatch_own-is_traced :
      (now : ℕ) (app_id : Option ℤ) → is_traced reported (dispatch_own now app_id s).1 ≡ true
  unfolding dispatch_own own_app_id
  dispatch_own-is_traced now app_id = elim (Bool-cases (session_is_fresh now app_id s)) [
    | inl fresh ↦ rw fresh h
    | inr stale ↦ elim (Bool-cases s.session_cold_task) [
      | inl pending ↦ rw (stale, pending) h
      | inr idle ↦ rw (stale, idle) h
    ]
  ]

  wait-is_traced :
      (want : ℤ) (answers : List Answer)
      → is_traced reported (wait_for_session_confirmed want answers s).1 ≡ true
  unfolding wait_for_session_confirmed own_app_id
  wait-is_traced want [] = h
  wait-is_traced want (a ∷ answers) = elim (Bool-cases (ltb a.elapsed connect_confirm_timeout)) [
    | inl early ↦
        elim (Bool-cases (elim a.app_id [ none ↦ false | some id ↦ equal_ids id (some want) ])) [
          | inl confirmed ↦ rw (early, confirmed) h
          | inr waiting ↦ rw (early, waiting) (wait-is_traced want answers)
        ]
    | inr late ↦ rw late h
  ]

  finish-is_traced :
      (cloud : Cloud) (actions : List Action)
      → is_traced reported (finish_send cloud (actions, s)).1 ≡ true
  unfolding finish_send own_app_id
  finish-is_traced cloud actions = elim (Bool-cases cloud.reachable) [
    | inl up ↦ rw up h
    | inr down ↦ rw down h
  ]

adopted-is_traced :
    (id : ℤ) (reported : List ℤ) (now : ℕ) (s : Session)
    → is_traced (id ∷ reported) (record s { integration_app_id = id; last_connect_at = now }) ≡ true
adopted-is_traced id reported now s =
    ||-right (eqb_ℤ id (own_app_id (record s { integration_app_id = id; last_connect_at = now }))) _
      (rw (eqb_ℤ_refl id) refl)

adopts :
    (now : ℕ) (id : ℤ) (s : Session)
    → (not (eqb_ℤ id (pos 0)) && not (eqb_ℤ id s.integration_app_id)) ≡ true
    → dispatch_reverted now (some id) s ≡ (sent, adopt now id s)
unfolding dispatch_reverted
adopts now id s foreign = rw foreign refl

keeps_own :
    (now : ℕ) (id : ℤ) (s : Session)
    → (not (eqb_ℤ id (pos 0)) && not (eqb_ℤ id s.integration_app_id)) ≡ false
    → dispatch_reverted now (some id) s ≡ dispatch_own now (some id) s
unfolding dispatch_reverted
keeps_own now id s ours = rw ours refl

module _ (reported : List ℤ) (s : Session) (h : is_traced reported s ≡ true) where
  dispatch_reverted-is_traced :
      (now : ℕ) (app_id : Option ℤ)
      → is_traced (heard app_id reported) (dispatch_reverted now app_id s).1 ≡ true
  unfolding dispatch_reverted
  dispatch_reverted-is_traced now none = dispatch_own-is_traced reported s h now none
  dispatch_reverted-is_traced now (some id) =
      elim (Bool-cases (not (eqb_ℤ id (pos 0)) && not (eqb_ℤ id s.integration_app_id))) [
        | inl foreign ↦
            ap (λ d. is_traced (id ∷ reported) d.1) (adopts now id s foreign)
            ∙ adopted-is_traced id reported now s
        | inr ours ↦
            ap (λ d. is_traced (id ∷ reported) d.1) (keeps_own now id s ours)
            ∙ dispatch_own-is_traced (id ∷ reported) s (is_traced-heard (some id) reported s h) now
                (some id)
      ]

  after_wait-is_traced :
      (cloud : Cloud) (posted : ℤ) (w : Bool × Session)
      → is_traced reported w.1 ≡ true
      → is_traced reported (after_wait cloud posted w).1 ≡ true
  unfolding own_app_id
  after_wait-is_traced cloud posted (false, t) k = k
  after_wait-is_traced cloud posted (true, t) k =
      finish-is_traced reported (record t { last_connect_at = cloud.connected_at }) k cloud
        (post_session posted ∷ [])

  done-is_traced : is_traced reported (done s) ≡ true
  unfolding own_app_id
  done-is_traced = h

module _ (reported : List ℤ) (s : Session) (h : is_traced reported s ≡ true) where
  with_cloud_session-is_traced :
      (now : ℕ) (app_id : Option ℤ)
      → is_traced (heard app_id reported) (with_cloud_session now app_id s).1 ≡ true
  unfolding with_cloud_session
  with_cloud_session-is_traced now app_id =
      elim (Bool-cases (not s.uses_cloud_session || not s.connected_property)) [
        | inl direct ↦ rw direct (is_traced-heard app_id reported s h)
        | inr session ↦ rw session (
            dispatch_reverted-is_traced reported (revert_foreign_app_id_if_session_clear app_id s)
              (revert_foreign-is_traced reported s h app_id) now app_id)
      ]

  connect_cold-is_traced : (cloud : Cloud) → is_traced reported (connect_cold cloud s).1 ≡ true
  unfolding connect_cold
  connect_cold-is_traced cloud =
      let t : Session = revert_foreign_app_id_if_session_clear (value_of_live cloud.live) s in
      let k : is_traced reported t ≡ true =
        revert_foreign-is_traced reported s h (value_of_live cloud.live) in
      let answered : Bool × Session =
        wait_for_session_confirmed t.integration_app_id cloud.answers t in
      if-both (λ d. is_traced reported d.1 ≡ true) (not cloud.post_accepted)
        (post_session t.integration_app_id ∷ [], done t)
        (after_wait cloud t.integration_app_id answered) (done-is_traced reported t k)
        (after_wait-is_traced reported t k cloud t.integration_app_id answered
          (wait-is_traced reported t k t.integration_app_id cloud.answers))

  cold_connect-is_traced : (cloud : Cloud) → is_traced reported (cold_connect_then cloud s).1 ≡ true
  unfolding cold_connect_then
  cold_connect-is_traced cloud =
      let traced : List Action × Session → Type 0 = λ d. is_traced reported d.1 ≡ true in
      let warm : List Action × Session =
        if equal_ids (value_of_live cloud.live) (some s.integration_app_id)
        then finish_send cloud ([], s)
        else ([], done s) in
      if-both traced (not (session_is_fresh cloud.started none s)) (connect_cold cloud s)
        (if s.session_confirmed then finish_send cloud ([], s) else warm)
        (connect_cold-is_traced cloud)
        (if-both traced s.session_confirmed (finish_send cloud ([], s)) warm
          (finish-is_traced reported s h cloud [])
          (if-both traced (equal_ids (value_of_live cloud.live) (some s.integration_app_id))
            (finish_send cloud ([], s)) ([], done s) (finish-is_traced reported s h cloud [])
            (done-is_traced reported s h)))

-- What happens to the session: a poll, a command, a cold connect, a frame that was learned.
pub data Event : Type 0 where
  polled : Option ℤ → Event
  commanded : ℕ → Option ℤ → Event
  connected : Cloud → Event
  learned : Option ℤ → Event

abbrev pub happen : Event → Session → Session
happen (polled app_id) s = update_session_from_props app_id s
happen (commanded now app_id) s = (with_cloud_session now app_id s).1
happen (connected cloud) s = (cold_connect_then cloud s).1
happen (learned id) s = refresh_device_app_id id s

-- The ids that the polls and the commands have read.
abbrev pub ids_heard : Event → List ℤ → List ℤ
ids_heard (polled app_id) ids = heard app_id ids
ids_heard (commanded now app_id) ids = heard app_id ids
ids_heard (connected cloud) ids = ids
ids_heard (learned id) ids = ids

abbrev pub happen_all : List Event → Session → Session
happen_all [] s = s
happen_all (e ∷ es) s = happen_all es (happen e s)

abbrev pub all_heard : List Event → List ℤ → List ℤ
all_heard [] ids = ids
all_heard (e ∷ es) ids = all_heard es (ids_heard e ids)

happen-is_traced :
    (e : Event) (ids : List ℤ) (s : Session)
    → is_traced ids s ≡ true
    → is_traced (ids_heard e ids) (happen e s) ≡ true
happen-is_traced (polled app_id) ids s h = update_session-is_traced ids s h app_id
happen-is_traced (commanded now app_id) ids s h = with_cloud_session-is_traced ids s h now app_id
happen-is_traced (connected cloud) ids s h = cold_connect-is_traced ids s h cloud
happen-is_traced (learned id) ids s h = refresh_device-is_traced ids s h id

-- Whatever sequence of polls, commands, cold connects and learned frames follows on a session that
-- stands on the integration's own id or on an id that the cloud has reported, it stands afterwards
-- on the own id of that moment or on an id that the cloud has reported by then: the coordinator
-- never commands with any other id.
pub happen_all-is_traced :
    (es : List Event) (ids : List ℤ) (s : Session)
    → is_traced ids s ≡ true
    → is_traced (all_heard es ids) (happen_all es s) ≡ true
happen_all-is_traced [] ids s h = h
happen_all-is_traced (e ∷ es) ids s h =
    happen_all-is_traced es (ids_heard e ids) (happen e s) (happen-is_traced e ids s h)

-- A poll that finds no holder of the session leaves the coordinator with the integration's own id,
-- whatever id it commanded with before.
update_session-own :
    (s : Session)
    → eqb_ℤ (update_session_from_props (some (pos 0)) s).integration_app_id (own_app_id s) ≡ true
unfolding update_session_from_props revert_to_own own_app_id
update_session-own s = elim (Bool-cases (eqb_ℤ s.integration_app_id (own_app_id s))) [
  | inl own ↦ rw own own
  | inr foreign ↦ rw foreign (eqb_ℤ_refl (own_app_id s))
]
