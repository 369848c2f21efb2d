-- ===== src/Tests/Services.antt =====
-- The theorems on the cloud client and on the targets of service calls at concrete inputs.
use delonghi_coffeelink.Prelude.{
  ℕ, zero, suc, ◌+◌, ◌≡◌, ◌≢◌, ◌⊎◌, refl, arith, true, false, Option, none, some, List, [], ◌∷◌,
  ◌++◌, All, if◌then◌else◌, ◌==◌,
}
use delonghi_coffeelink.Prelude.Text.{Text, codes, text_eq, text_leb, in_texts}
use delonghi_coffeelink.Prelude.Int.{pos}
use delonghi_coffeelink.Prelude.Result.{Returns}
use delonghi_coffeelink.Bytes.{be4}
use delonghi_coffeelink.Base64.{b64decode}
use delonghi_coffeelink.Command.{low32}
use delonghi_coffeelink.Client.{Reply, response, judge, request_json, ok_created, session_payload}
use delonghi_coffeelink.Client.Retry.{settled_at, pauses_before, request_json-settles}
use delonghi_coffeelink.Client.Session.{session_payload-decodes}
use delonghi_coffeelink.Prelude.{inl}
use delonghi_coffeelink.Session.AppId.{Body, no_property}
use delonghi_coffeelink.Setup.{Hass, publish, finish_setup, unload_entry}
use delonghi_coffeelink.Setup.Steps.{
  Run, begun, then_step, added, published as publishes, set_up, unloaded, IsOrderly,
}
use delonghi_coffeelink.Setup.Lifecycle.{Run-IsOrderly}
use delonghi_coffeelink.Targets.{
  Machine, Published, coordinators, something_else, set_default, set_defaults, all_from,
  all_coordinators, Call, Registry, has_target, device_of_entity, devices_of_entities,
  devices_in_areas, entities_in_areas, add_text, sorted_texts, named_devices,
}
use delonghi_coffeelink.Targets.Machines.{
  targets, refused, target_required, dsns_of, find_machine, first_machine, is_target, resolve_ids,
  resolve_known, resolve_targets, send_to_each,
}
use delonghi_coffeelink.Targets.Each.{logged, errors_of, outcomes, first, send_to_each-attempts}
use delonghi_coffeelink.Targets.Resolve.{IsDistinct, AreOne, published, resolve_targets-lone}
use delonghi_coffeelink.Targets.Rounds.{machine_of, Settled}
use delonghi_coffeelink.Targets.Named.{IsNamed, resolve_targets-IsNamed, resolve_targets-outright}

-- A server that is down for one request.
abbrev flaky : ℕ → Reply
flaky zero = response 503 []
flaky (suc n) = response 200 (codes "{}")

abbrev any_json : Text → Option Text
any_json t = some t

request_json-settles_example : request_json any_json ok_created flaky ≡ record {
  answer = judge any_json ok_created (flaky (settled_at flaky));
  requests = settled_at flaky + 1;
  pauses = pauses_before (settled_at flaky);
}
request_json-settles_example = request_json-settles any_json ok_created flaky

session_payload_example :
    Returns
      (λ payload. b64decode true payload ≡ some (be4 0x69e8c5ee ++ be4 (low32 (pos 0xc0ffee11))))
      (session_payload 0x69e8c5ee (pos 0xc0ffee11))
session_payload_example = session_payload-decodes 0x69e8c5ee (pos 0xc0ffee11) (omega arith)

abbrev kitchen : Machine
kitchen = record { dsn = codes "AC1"; entry = 1 }

abbrev kitchen_again : Machine
kitchen_again = record { dsn = codes "AC1"; entry = 2 }

abbrev office : Machine
office = record { dsn = codes "AC2"; entry = 2 }

-- A command that the machines of the first entry refuse.
abbrev tallied : Machine → ℕ → ℕ × Option ℕ
tallied m n = (n + 1, if m.entry == 1 then some n else none)

send_to_each_example :
    ((send_to_each (logged tallied) (kitchen ∷ office ∷ []) ([], 5)).0.0
      ≡ [] ++ kitchen ∷ office ∷ [])
    × ((send_to_each (logged tallied) (kitchen ∷ office ∷ []) ([], 5)).1
        ≡ first (errors_of (outcomes tallied (kitchen ∷ office ∷ []) 5)))
send_to_each_example = send_to_each-attempts tallied (kitchen ∷ office ∷ []) [] 5

abbrev no_target : Call
no_target = record { device_id = []; entity_id = []; area_id = []; floor_id = []; label_id = [] }

abbrev registry : Registry
registry = record {
  devices =
      record { id = codes "dev1"; area_id = some (codes "home"); dsns = codes "AC1" ∷ [] }
      ∷ record { id = codes "dev2"; area_id = some (codes "home"); dsns = codes "AC2" ∷ [] }
      ∷ record { id = codes "lamp"; area_id = some (codes "home"); dsns = [] }
      ∷ [];
  entities = [];
}

-- One machine under two entries.
abbrev twice : List Published
twice = coordinators (kitchen ∷ []) ∷ something_else ∷ coordinators (kitchen_again ∷ []) ∷ []

no_target-none : has_target no_target ≡ false
unfolding has_target
no_target-none = refl

twice-kitchen : is_target kitchen (published twice) ≡ true
unfolding is_target text_eq
twice-kitchen = refl

resolve_targets-lone_example :
    (AreOne twice kitchen
      × (m : Machine) × (resolve_targets twice registry no_target ≡ targets (m ∷ []))
      × (text_eq kitchen.dsn m.dsn ≡ true))
    ⊎ ((¬ AreOne twice kitchen)
        × (resolve_targets twice registry no_target ≡ refused target_required))
resolve_targets-lone_example =
    resolve_targets-lone twice registry no_target kitchen no_target-none twice-kitchen

-- The kitchen machine by name, and all of the home.
abbrev in_home : Call
in_home = record no_target { device_id = codes "dev1" ∷ []; area_id = codes "home" ∷ [] }

abbrev both : List Published
both = coordinators (kitchen ∷ []) ∷ coordinators (office ∷ []) ∷ []

abbrev home_devices : List Text
home_devices = codes "dev1" ∷ codes "dev2" ∷ codes "lamp" ∷ []

in_home-devices : named_devices registry in_home ≡ some home_devices
unfolding named_devices has_target devices_of_entities device_of_entity devices_in_areas
    entities_in_areas sorted_texts add_text text_eq text_leb in_texts
in_home-devices = refl

in_home-both : resolve_targets both registry in_home ≡ targets (kitchen ∷ office ∷ [])
unfolding resolve_targets resolve_known resolve_ids named_devices has_target devices_of_entities
    device_of_entity devices_in_areas entities_in_areas sorted_texts add_text text_eq text_leb
    in_texts all_coordinators all_from set_defaults set_default dsns_of find_machine first_machine
    is_target
in_home-both = refl

resolve_targets-IsNamed_example :
    All (IsNamed registry (all_coordinators both) home_devices) (kitchen ∷ office ∷ [])
    × All (Settled registry in_home (all_coordinators both) (kitchen ∷ office ∷ [])) home_devices
    × IsDistinct (kitchen ∷ office ∷ [])
    × (kitchen ∷ office ∷ [] ≢ [])
resolve_targets-IsNamed_example =
    resolve_targets-IsNamed both registry in_home (kitchen ∷ office ∷ []) home_devices
      in_home-devices in_home-both

dev1-named : in_texts (codes "dev1") in_home.device_id ≡ true
unfolding in_texts text_eq
dev1-named = refl

resolve_targets-outright_example :
    (m : Machine) × (machine_of registry (all_coordinators both) (codes "dev1") ≡ some m)
    × (is_target m (kitchen ∷ office ∷ []) ≡ true)
resolve_targets-outright_example =
    resolve_targets-outright both registry in_home (kitchen ∷ office ∷ []) (codes "dev1") dev1-named
      in_home-both

abbrev any_body : Text → Option Body
any_body t = some no_property

abbrev at_start : Hass
at_start = record {
  published = [];
  entries = [];
  loaded = [];
  setting_up = [];
  services = [];
  retired = [];
  next = 0;
}

-- An account is added, set up and unloaded.
abbrev listed_account : Hass
listed_account = record at_start { entries = 7 ∷ [] }

one-Run : Run at_start (unload_entry 7 (finish_setup 7 (publish 7 listed_account)))
unfolding finish_setup
one-Run =
    then_step
      (then_step (then_step (then_step begun (added 7)) (publishes 7 refl refl refl))
        (set_up 7 refl))
      (unloaded 7 refl)

Run-IsOrderly_example : IsOrderly (unload_entry 7 (finish_setup 7 (publish 7 listed_account)))
Run-IsOrderly_example =
    Run-IsOrderly at_start (unload_entry 7 (finish_setup 7 (publish 7 listed_account))) one-Run
      (record {
        live = tt;
        apart = tt;
        past = tt;
        owned = tt;
        begun_listed = tt;
        listed = tt;
        served = inl refl;
      })
