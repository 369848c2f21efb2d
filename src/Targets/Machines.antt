-- ===== src/Targets/Machines.antt =====
-- __init__.py: the machines of a service call, and the fan-out of coordinator.py.
use delonghi_coffeelink.Prelude.{Bool, Option, none, some, List, [], ◌∷◌, ◌++◌, if◌then◌else◌, any}
use delonghi_coffeelink.Prelude.Text.{Text, text_eq, in_texts}
use delonghi_coffeelink.Targets.{
  Machine, Published, all_coordinators, Call, Device, Registry, has_items, sorted_texts,
  named_devices,
}

pub data Refusal : Type 0 where
  no_machine_configured target_required machine_unavailable target_not_a_machine
        target_matched_no_machine :
      Refusal

pub data Resolved : Type 0 where
  targets : List Machine → Resolved
  refused : Refusal → Resolved

-- registry.async_get(device_id), and its identifiers of the domain
unfoldable pub dsns_of : List Device → Text → List Text
dsns_of [] t = []
dsns_of (d ∷ ds) t = let rest = dsns_of ds t in if text_eq d.id t then sorted_texts d.dsns else rest

-- by_dsn.get(dsn)
unfoldable pub find_machine : Text → List Machine → Option Machine
find_machine dsn [] = none
find_machine dsn (m ∷ ms) =
    let rest = find_machine dsn ms in if text_eq dsn m.dsn then some m else rest

abbrev pub machine_or : Option Machine → Option Machine → Option Machine
machine_or none rest = rest
machine_or (some m) rest = some m

-- next((by_dsn[dsn] for dsn in dsns if dsn in by_dsn), None)
unfoldable pub first_machine : List Text → List Machine → Option Machine
first_machine [] known = none
first_machine (dsn ∷ dsns) known = machine_or (find_machine dsn known) (first_machine dsns known)

-- coord in targets; two coordinators of `known` with one DSN are one.
unfoldable pub is_target : Machine → List Machine → Bool
is_target m = any (λ t. text_eq m.dsn t.dsn)

abbrev pub add_target : Machine → List Machine → List Machine
add_target m found = if is_target m found then found else found ++ m ∷ []

-- The loop over the device ids: `found` are the targets so far. A device that is no machine that
-- is set up is refused where it is one of ours, or where the call names it outright.
abbrev pub refuse_device : Registry → Call → Text → Resolved → Resolved
refuse_device reg call id next =
    if has_items (dsns_of reg.devices id)
    then refused machine_unavailable
    else if in_texts id call.device_id
    then refused target_not_a_machine
    else next

-- One round of the loop, for the machine that is set up for the device, if there is one.
abbrev pub settle_device :
    Registry → Call → Text → Option Machine → (List Machine → Resolved) → List Machine → Resolved
settle_device reg call id (some m) next found = next (add_target m found)
settle_device reg call id none next found = refuse_device reg call id (next found)

unfoldable pub resolve_ids : Registry → Call → List Machine → List Text → List Machine → Resolved
resolve_ids reg call known [] found = targets found
resolve_ids reg call known (id ∷ ids) found =
    settle_device reg call id (first_machine (dsns_of reg.devices id) known)
      (λ (so_far : List Machine). resolve_ids reg call known ids so_far) found

abbrev pub refuse_empty : Resolved → Resolved
refuse_empty (refused r) = refused r
refuse_empty (targets []) = refused target_matched_no_machine
refuse_empty (targets (m ∷ ms)) = targets (m ∷ ms)

-- The lone machine of a call without a target.
abbrev pub lone : List Machine → Resolved
lone [] = refused target_required
lone (m ∷ []) = targets (m ∷ [])
lone (m ∷ k ∷ ms) = refused target_required

-- The targets for the device ids that the call names, if it names anything.
abbrev pub resolve_named : Registry → Call → List Machine → Option (List Text) → Resolved
resolve_named reg call known none = lone known
resolve_named reg call known (some ids) = refuse_empty (resolve_ids reg call known ids [])

unfoldable pub resolve_known : Registry → Call → List Machine → Resolved
resolve_known reg call [] = refused no_machine_configured
resolve_known reg call (m ∷ ms) = resolve_named reg call (m ∷ ms) (named_devices reg call)

unfoldable pub resolve_targets : List Published → Registry → Call → Resolved
resolve_targets entries reg call = resolve_known reg call (all_coordinators entries)

-- async_send_to_each: `send` is one command on one machine and a state that it may change; what it
-- raises is collected, and the first of it is raised at the end.
abbrev pub first_error : {E : Type 0} → Option E → Option E → Option E
first_error none later = later
first_error (some e) later = some e

unfoldable pub send_to_each :
    {S E : Type 0} → (Machine → S → S × Option E) → List Machine → S → S × Option E
send_to_each send [] s = (s, none)
send_to_each send (m ∷ ms) s =
    let (s', raised) = send m s in
    let (s'', later) = send_to_each send ms s' in (s'', first_error raised later)
