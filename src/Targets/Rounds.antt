-- ===== src/Targets/Rounds.antt =====
-- __init__.py: the loop over the devices of a service call, one device at a time.
use delonghi_coffeelink.Prelude.{
  ◌≡◌, ◌⊎◌, refl, ap, sym, subst, ◌∙◌, arith, true, false, Option, none, some, List, [], ◌∷◌, All,
  Bool-cases, Option-cases, inl, inr,
}
use mathlib.Core.Bool.{or-true}
use delonghi_coffeelink.Prelude.Text.{Text, text_eq, text_eq_refl, in_texts}
use delonghi_coffeelink.Targets.{Machine, Call, Registry, has_items}
use delonghi_coffeelink.Targets.Machines.{
  Resolved, targets, refused, dsns_of, first_machine, is_target, add_target, resolve_ids,
  refuse_device,
}
use delonghi_coffeelink.Targets.Resolve.{IsDistinct}
use delonghi_coffeelink.Targets.Lookup.{
  has_items-nil, is_target-add_old, is_target-add_new, add_target-All, add_target-IsDistinct,
}

-- The device of the id is a machine that is set up.
abbrev pub machine_of : Registry → List Machine → Text → Option Machine
machine_of reg known id = first_machine (dsns_of reg.devices id) known

-- What the loop does for one device id.
abbrev pub Settled : Registry → Call → List Machine → List Machine → Text → Type 0
Settled reg call known found id =
    ((m : Machine) × (machine_of reg known id ≡ some m) × (is_target m found ≡ true))
    ⊎ ((machine_of reg known id ≡ none)
        × (dsns_of reg.devices id ≡ [])
        × (in_texts id call.device_id ≡ false))

refuse_device-targets :
    (reg : Registry) (call : Call) (id : Text) (next : Resolved) (found : List Machine)
    → refuse_device reg call id next ≡ targets found
    → (dsns_of reg.devices id ≡ []) × (in_texts id call.device_id ≡ false) × (next ≡ targets found)
refuse_device-targets reg call id next found e =
    elim (Bool-cases (has_items (dsns_of reg.devices id))) [
      | inl ours ↦ absurd (ground arith)
      | inr strange ↦ elim (Bool-cases (in_texts id call.device_id)) [
        | inl named ↦ absurd (ground arith)
        | inr swept ↦ (has_items-nil (dsns_of reg.devices id) strange, swept, ground arith)
      ]
    ]

resolve_ids-none :
    (reg : Registry) (call : Call) (known found : List Machine) (id : Text) (ids : List Text)
    → machine_of reg known id ≡ none
    → resolve_ids reg call known (id ∷ ids) found
      ≡ refuse_device reg call id (resolve_ids reg call known ids found)
unfolding resolve_ids
resolve_ids-none reg call known found id ids h = rw h refl

resolve_ids-some :
    (reg : Registry) (call : Call) (known found : List Machine) (id : Text) (ids : List Text)
    (m : Machine)
    → machine_of reg known id ≡ some m
    → resolve_ids reg call known (id ∷ ids) found
      ≡ resolve_ids reg call known ids (add_target m found)
unfolding resolve_ids
resolve_ids-some reg call known found id ids m h = rw h refl

-- One round of a loop that gives targets.
resolve_ids-round :
    (reg : Registry) (call : Call) (known found₀ found : List Machine) (id : Text) (ids : List Text)
    → resolve_ids reg call known (id ∷ ids) found₀ ≡ targets found
    → ((m : Machine) × (machine_of reg known id ≡ some m)
        × (resolve_ids reg call known ids (add_target m found₀) ≡ targets found))
      ⊎ ((machine_of reg known id ≡ none)
          × (dsns_of reg.devices id ≡ [])
          × (in_texts id call.device_id ≡ false)
          × (resolve_ids reg call known ids found₀ ≡ targets found))
resolve_ids-round reg call known found₀ found id ids e =
    elim (Option-cases (machine_of reg known id)) [
      | inl nothing ↦
          let (none_of, not_named, rest) =
            refuse_device-targets reg call id (resolve_ids reg call known ids found₀) found
              (sym (resolve_ids-none reg call known found₀ id ids nothing) ∙ e) in
          inr (nothing, none_of, not_named, rest)
      | inr (m, is_m) ↦
          inl (m, is_m, sym (resolve_ids-some reg call known found₀ id ids m is_m) ∙ e)
    ]

unfoldable pub found_in : Resolved → List Machine
found_in (targets ms) = ms
found_in (refused r) = []

pub targets_injective : (ms ns : List Machine) → targets ms ≡ targets ns → ms ≡ ns
unfolding found_in
targets_injective ms ns e = ap found_in e

-- A target that was found stays.
resolve_ids-keeps :
    (reg : Registry) (call : Call) (known found₀ found : List Machine) (ids : List Text)
    → resolve_ids reg call known ids found₀ ≡ targets found
    → (k : Machine) → is_target k found₀ ≡ true
    → is_target k found ≡ true
unfolding resolve_ids
resolve_ids-keeps reg call known found₀ found [] e k h =
    ap (λ (f : List Machine). is_target k f) (sym (targets_injective found₀ found e)) ∙ h
resolve_ids-keeps reg call known found₀ found (id ∷ ids) e k h =
    elim (resolve_ids-round reg call known found₀ found id ids e) [
      | inl (m, _, next) ↦
          resolve_ids-keeps reg call known (add_target m found₀) found ids next k
            (is_target-add_old k m found₀ h)
      | inr (_, _, _, next) ↦ resolve_ids-keeps reg call known found₀ found ids next k h
    ]

-- Every device is settled by a loop that gives targets.
pub resolve_ids-settles :
    (reg : Registry) (call : Call) (known found₀ found : List Machine) (ids : List Text)
    → resolve_ids reg call known ids found₀ ≡ targets found
    → All (Settled reg call known found) ids
resolve_ids-settles reg call known found₀ found [] e = tt
resolve_ids-settles reg call known found₀ found (id ∷ ids) e =
    elim (resolve_ids-round reg call known found₀ found id ids e) [
      | inl (m, is_m, next) ↦ (
        inl (
          m,
          is_m,
          resolve_ids-keeps reg call known (add_target m found₀) found ids next m
              (is_target-add_new m found₀),
        ),
        resolve_ids-settles reg call known (add_target m found₀) found ids next,
      )
      | inr (nothing, none_of, not_named, next) ↦ (
        inr (nothing, none_of, not_named),
        resolve_ids-settles reg call known found₀ found ids next,
      )
    ]

pub resolve_ids-All :
    (P : Machine → Type 0) (reg : Registry) (call : Call) (known found₀ found : List Machine)
    (ids : List Text)
    → resolve_ids reg call known ids found₀ ≡ targets found
    → ((id : Text)
        → in_texts id ids ≡ true
        → (m : Machine) → machine_of reg known id ≡ some m
        → P m)
    → All P found₀
    → All P found
unfolding resolve_ids in_texts
resolve_ids-All P reg call known found₀ found [] e p h =
    subst (All P) (targets_injective found₀ found e) h
resolve_ids-All P reg call known found₀ found (id ∷ ids) e p h =
    let later = λ (t : Text) (q : in_texts t ids ≡ true). p t (rw q (or-true (text_eq t id))) in
    elim (resolve_ids-round reg call known found₀ found id ids e) [
      | inl (m, is_m, next) ↦
          resolve_ids-All P reg call known (add_target m found₀) found ids next later
            (add_target-All P m found₀ h (p id (rw (text_eq_refl id) refl) m is_m))
      | inr (_, _, _, next) ↦ resolve_ids-All P reg call known found₀ found ids next later h
    ]

pub resolve_ids-IsDistinct :
    (reg : Registry) (call : Call) (known found₀ found : List Machine) (ids : List Text)
    → resolve_ids reg call known ids found₀ ≡ targets found
    → IsDistinct found₀
    → IsDistinct found
unfolding resolve_ids
resolve_ids-IsDistinct reg call known found₀ found [] e h =
    subst IsDistinct (targets_injective found₀ found e) h
resolve_ids-IsDistinct reg call known found₀ found (id ∷ ids) e h =
    elim (resolve_ids-round reg call known found₀ found id ids e) [
      | inl (m, _, next) ↦
          resolve_ids-IsDistinct reg call known (add_target m found₀) found ids next
            (add_target-IsDistinct m found₀ h)
      | inr (_, _, _, next) ↦ resolve_ids-IsDistinct reg call known found₀ found ids next h
    ]
