-- ===== src/Targets.antt =====
-- __init__.py: which machines a service call is for. The device and entity registries of Home
-- Assistant are arguments. A Python set is a list without repetitions.
pub mod Machines
pub mod Resolve
pub mod Lookup
pub mod Rounds
pub mod Named
pub mod Each
use delonghi_coffeelink.Prelude.{
  ℕ, ◌+◌, Bool, true, false, not, ◌&&◌, ◌||◌, Option, none, some, List, [], ◌∷◌, ◌++◌, map, ltb,
  ◌==◌, if◌then◌else◌, any, length,
}
use delonghi_coffeelink.Prelude.Text.{Text, text_eq, text_leb, in_texts}

-- A coordinator, known by the DSN of its machine and by the config entry that set it up.
pub record Machine : Type 0 where
  pub dsn : Text
  pub entry : ℕ

-- What stands under an entry in hass.data[DOMAIN].
pub data Published : Type 0 where
  coordinators : List Machine → Published
  something_else : Published

-- seen.setdefault(coord.device.dsn, coord)
unfoldable pub set_default : Machine → List Machine → List Machine
set_default m [] = m ∷ []
set_default m (k ∷ known) =
    let rest = set_default m known in if text_eq m.dsn k.dsn then k ∷ known else k ∷ rest

unfoldable pub set_defaults : List Machine → List Machine → List Machine
set_defaults [] known = known
set_defaults (m ∷ ms) known = set_defaults ms (set_default m known)

unfoldable pub all_from : List Published → List Machine → List Machine
all_from [] known = known
all_from (something_else ∷ entries) known = all_from entries known
all_from (coordinators ms ∷ entries) known = all_from entries (set_defaults ms known)

unfoldable pub all_coordinators : List Published → List Machine
all_coordinators entries = all_from entries []

-- The target keys of `call.data`, an absent key as the empty list.
pub record Call : Type 0 where
  pub device_id : List Text
  pub entity_id : List Text
  pub area_id : List Text
  pub floor_id : List Text
  pub label_id : List Text

-- A device of the registry: its id, its area, and its identifiers of this integration's domain.
pub record Device : Type 0 where
  pub id : Text
  pub area_id : Option Text
  pub dsns : List Text

pub record RegisteredEntity : Type 0 where
  pub entity_id : Text
  pub device_id : Option Text
  pub area_id : Option Text

pub record Registry : Type 0 where
  pub devices : List Device
  pub entities : List RegisteredEntity

abbrev pub has_items : List Text → Bool
has_items [] = false
has_items (t ∷ ts) = true

unfoldable pub has_target : Call → Bool
has_target call =
    has_items call.device_id
    || has_items call.entity_id
    || has_items call.area_id
    || has_items call.floor_id
    || has_items call.label_id

-- entities.async_get(entity_id), and the device that it has, if it has one
unfoldable pub device_of_entity : List RegisteredEntity → Text → List Text
device_of_entity [] t = []
device_of_entity (e ∷ es) t =
    let rest = device_of_entity es t in
    if text_eq e.entity_id t then (elim e.device_id [ none ↦ [] | some d ↦ d ∷ [] ]) else rest

unfoldable pub devices_of_entities : List RegisteredEntity → List Text → List Text
devices_of_entities es [] = []
devices_of_entities es (t ∷ ts) = device_of_entity es t ++ devices_of_entities es ts

abbrev pub in_areas : Option Text → List Text → Bool
in_areas none areas = false
in_areas (some a) areas = in_texts a areas

unfoldable pub devices_in_areas : List Device → List Text → List Text
devices_in_areas [] areas = []
devices_in_areas (d ∷ ds) areas =
    let rest = devices_in_areas ds areas in if in_areas d.area_id areas then d.id ∷ rest else rest

unfoldable pub entities_in_areas : List RegisteredEntity → List Text → List Text
entities_in_areas [] areas = []
entities_in_areas (e ∷ es) areas =
    let rest = entities_in_areas es areas in
    if in_areas e.area_id areas
    then (elim e.device_id [ none ↦ rest | some d ↦ d ∷ rest ])
    else rest

-- sorted(set): every text once, in order
unfoldable pub add_text : Text → List Text → List Text
add_text t [] = t ∷ []
add_text t (u ∷ us) =
    let rest = add_text t us in
    if text_eq t u then u ∷ us else if text_leb t u then t ∷ u ∷ us else u ∷ rest

unfoldable pub sorted_texts : List Text → List Text
sorted_texts [] = []
sorted_texts (t ∷ ts) = add_text t (sorted_texts ts)

-- The device ids in the order in which `_resolve_targets` goes through them.
unfoldable pub named_devices : Registry → Call → Option (List Text)
named_devices reg call =
    if not (has_target call)
    then none
    else some (
        sorted_texts (
          call.device_id
          ++ (devices_of_entities reg.entities call.entity_id
              ++ (devices_in_areas reg.devices call.area_id
                  ++ entities_in_areas reg.entities call.area_id))))
