-- ===== src/Targets/Named.antt =====
-- __init__.py: the machines of a service call with a target.
use delonghi_coffeelink.Prelude.{
  ◌≡◌, ◌≢◌, refl, ap, sym, ◌∙◌, arith, true, some, List, [], ◌∷◌, ◌++◌, All, inl, inr,
}
use mathlib.Core.List.{cons-ne-nil}
use delonghi_coffeelink.Prelude.Text.{Text, in_texts}
use delonghi_coffeelink.Targets.{
  Machine, Published, all_coordinators, Call, Registry, has_target, devices_of_entities,
  devices_in_areas, entities_in_areas, sorted_texts, named_devices,
}
use delonghi_coffeelink.Targets.Machines.{
  Resolved, targets, refused, dsns_of, is_target, resolve_ids, refuse_empty, resolve_named,
  resolve_known, resolve_targets,
}
use delonghi_coffeelink.Targets.Resolve.{IsDistinct}
use delonghi_coffeelink.Targets.Lookup.{
  in_texts-sorted_texts, in_texts-append, first_machine_sound, All-in_texts, has_items-in_texts,
}
use delonghi_coffeelink.Targets.Rounds.{
  machine_of, Settled, targets_injective, resolve_ids-settles, resolve_ids-All,
  resolve_ids-IsDistinct,
}

-- A machine that is set up, and whose DSN is an identifier of a device that the call names.
abbrev pub IsNamed : Registry → List Machine → List Text → Machine → Type 0
IsNamed reg known ids m =
    (is_target m known ≡ true)
    × ((id : Text) × (in_texts id ids ≡ true) × (in_texts m.dsn (dsns_of reg.devices id) ≡ true))

refuse_empty-targets :
    (r : Resolved) (found : List Machine)
    → refuse_empty r ≡ targets found
    → (r ≡ targets found) × (found ≢ [])
refuse_empty-targets (refused r) found e = absurd (ground arith)
refuse_empty-targets (targets []) found e = absurd (ground arith)
refuse_empty-targets (targets (m ∷ ms)) found e =
    (e, λ none. cons-ne-nil m ms (targets_injective (m ∷ ms) [] (e ∙ ap targets none)))

-- The loop behind an answer to a call that names devices.
resolve_known-loop :
    (reg : Registry) (call : Call) (known found : List Machine) (ids : List Text)
    → named_devices reg call ≡ some ids
    → resolve_known reg call known ≡ targets found
    → (resolve_ids reg call known ids [] ≡ targets found) × (found ≢ [])
unfolding resolve_known
resolve_known-loop reg call [] found ids named e = absurd (ground arith)
resolve_known-loop reg call (m ∷ ms) found ids named e =
    refuse_empty-targets (resolve_ids reg call (m ∷ ms) ids []) found
      (ap (resolve_named reg call (m ∷ ms)) (sym named) ∙ e)

machine_of-IsNamed :
    (reg : Registry) (known : List Machine) (ids : List Text) (id : Text)
    → in_texts id ids ≡ true
    → (m : Machine) → machine_of reg known id ≡ some m
    → IsNamed reg known ids m
machine_of-IsNamed reg known ids id q m is_m =
    let (dsn, there) = first_machine_sound (dsns_of reg.devices id) known m is_m in
    (there, (id, q, dsn))

-- A call that names devices, where it gets machines at all: every machine that it gets is set up
-- and has the DSN of a named device, every named device gives a machine that it gets, or is none
-- of ours and was swept in by an area or an entity, no machine comes twice, and there is one.
pub resolve_targets-IsNamed :
    (entries : List Published) (reg : Registry) (call : Call) (found : List Machine)
    (ids : List Text)
    → named_devices reg call ≡ some ids
    → resolve_targets entries reg call ≡ targets found
    → All (IsNamed reg (all_coordinators entries) ids) found
      × All (Settled reg call (all_coordinators entries) found) ids
      × IsDistinct found
      × (found ≢ [])
unfolding resolve_targets
resolve_targets-IsNamed entries reg call found ids named e =
    let known = all_coordinators entries in
    let (loop, one) = resolve_known-loop reg call known found ids named e in
    (
      resolve_ids-All (IsNamed reg known ids) reg call known [] found ids loop
          (machine_of-IsNamed reg known ids) tt,
      resolve_ids-settles reg call known [] found ids loop,
      resolve_ids-IsDistinct reg call known [] found ids loop tt,
      one,
    )

named_devices-in_texts :
    (reg : Registry) (call : Call) (id : Text)
    → in_texts id call.device_id ≡ true
    → (ids : List Text) × (named_devices reg call ≡ some ids) × (in_texts id ids ≡ true)
unfolding named_devices has_target
named_devices-in_texts reg call id h =
    let swept =
      devices_of_entities reg.entities call.entity_id
      ++ (devices_in_areas reg.devices call.area_id
          ++ entities_in_areas reg.entities call.area_id) in
    (
      sorted_texts (call.device_id ++ swept),
      rw (has_items-in_texts id call.device_id h) refl,
      in_texts-sorted_texts id (call.device_id ++ swept)
          ∙ in_texts-append id call.device_id swept
          ∙ rw h refl,
    )

-- What `Settled` says of a device that the call names outright.
Settled-outright :
    (reg : Registry) (call : Call) (known found : List Machine) (id : Text)
    → in_texts id call.device_id ≡ true
    → Settled reg call known found id
    → (m : Machine) × (machine_of reg known id ≡ some m) × (is_target m found ≡ true)
Settled-outright reg call known found id h (inl settled) = settled
Settled-outright reg call known found id h (inr (_, _, not_named)) = absurd (ground arith)

-- A device that a call names outright is never passed over: where the call gets machines, one of
-- them is the machine that is set up for that device.
pub resolve_targets-outright :
    (entries : List Published) (reg : Registry) (call : Call) (found : List Machine) (id : Text)
    → in_texts id call.device_id ≡ true
    → resolve_targets entries reg call ≡ targets found
    → (m : Machine) × (machine_of reg (all_coordinators entries) id ≡ some m)
      × (is_target m found ≡ true)
resolve_targets-outright entries reg call found id h e =
    let known = all_coordinators entries in
    let (ids, named, there) = named_devices-in_texts reg call id h in
    let all = (resolve_targets-IsNamed entries reg call found ids named e).1 in
    Settled-outright reg call known found id h
      (All-in_texts (Settled reg call known found) ids id all there)
