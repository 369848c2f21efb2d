-- ===== src/Setup.antt =====
-- __init__.py: setting up, unloading and removing the accounts (config entries) of the integration,
-- and its services.
pub mod Steps
pub mod Tables
pub mod Lifecycle
use delonghi_coffeelink.Prelude.{
  ℕ, ◌+◌, Bool, true, false, not, ◌&&◌, ◌||◌, Option, none, some, List, [], ◌∷◌, ◌++◌, ◌==◌,
  if◌then◌else◌,
}
use delonghi_coffeelink.Prelude.Text.{Text, text_eq}
use delonghi_coffeelink.Prelude.Dict.{Dict, insert}
use delonghi_coffeelink.Prelude.Result.{Result, ok, err}
use delonghi_coffeelink.Const.{action_start, action_stop}
use delonghi_coffeelink.Const.Tables.{beverage_keys}
use delonghi_coffeelink.Send.Commands.{Command, beverage, raw}

pub data Service : Type 0 where
  start_beverage stop_beverage send_raw_command : Service

abbrev pub same_service : Service → Service → Bool
same_service start_beverage start_beverage = true
same_service stop_beverage stop_beverage = true
same_service send_raw_command send_raw_command = true
same_service _ _ = false

-- hass.services.has_service
abbrev pub has_service : Service → List Service → Bool
has_service s [] = false
has_service s (t ∷ ts) = same_service s t || has_service s ts

-- `if not has_service: async_register`
unfoldable pub register : Service → List Service → List Service
register s services = if has_service s services then services else s ∷ services

unfoldable pub register_services : List Service → List Service
register_services services =
    register send_raw_command (register stop_beverage (register start_beverage services))

-- hass.services.async_remove
unfoldable pub unregister : Service → List Service → List Service
unregister s [] = []
unregister s (t ∷ ts) = let rest = unregister s ts in if same_service s t then rest else t ∷ rest

-- bev_by_key[key]
unfoldable pub bev_by_key : Text → Dict Text → Option ℕ
bev_by_key key [] = none
bev_by_key key ((bev, k) ∷ rest) =
    let later = bev_by_key key rest in if text_eq key k then some bev else later

abbrev pub beverage_command : ℕ → Option ℕ → Option Command
beverage_command action none = none
beverage_command action (some bev) = some (beverage bev action)

-- What a handler sends to each machine of the call, for the value that the schema lets through: the
-- key of a beverage, or a frame.
abbrev pub service_command : Service → Text → Option Command
service_command start_beverage key = beverage_command action_start (bev_by_key key beverage_keys)
service_command stop_beverage key = beverage_command action_stop (bev_by_key key beverage_keys)
service_command send_raw_command value = some (raw value)

-- The state: the published coordinators, an entry with the number of the set-up that made them; the
-- entries that Home Assistant lists, those of them that it has as loaded, and those whose set-up is
-- between the forward and its end; the services; the set-ups that an unload has taken off, before it
-- shuts down those of their coordinators that use a cloud session; the next number.
pub record Hass : Type 0 where
  pub published : Dict ℕ
  pub entries : List ℕ
  pub loaded : List ℕ
  pub setting_up : List ℕ
  pub services : List Service
  pub retired : List ℕ
  pub next : ℕ

abbrev pub without : ℕ → List ℕ → List ℕ
without e [] = []
without e (i ∷ is) = if e == i then without e is else i ∷ without e is

-- hass.data[DOMAIN].pop(entry_id, None)
abbrev pub pop : ℕ → Dict ℕ → Dict ℕ
pop e [] = []
pop e ((i, s) ∷ rest) = if e == i then pop e rest else (i, s) ∷ pop e rest

abbrev pub setups_of : ℕ → Dict ℕ → List ℕ
setups_of e [] = []
setups_of e ((i, s) ∷ rest) = if e == i then s ∷ setups_of e rest else setups_of e rest

-- async_setup_entry up to the forward: the coordinators are published before the platforms read
-- them. What is raised before leaves the state as it was.
abbrev pub publish : ℕ → Hass → Hass
publish e h = record h {
  published = insert e h.next h.published;
  setting_up = e ∷ h.setting_up;
  next = h.next + 1;
}

-- The rest of it, where the platforms are set up, and where they raise.
unfoldable pub finish_setup : ℕ → Hass → Hass
finish_setup e h = record h {
  services = register_services h.services;
  loaded = e ∷ h.loaded;
  setting_up = without e h.setting_up;
}

unfoldable pub fail_setup : ℕ → Hass → Hass
fail_setup e h = record h { published = pop e h.published; setting_up = without e h.setting_up }

-- async_unload_entry, for platforms that unload, up to the shutdown.
unfoldable pub unload_entry : ℕ → Hass → Hass
unload_entry e h = record h {
  published = pop e h.published;
  loaded = without e h.loaded;
  retired = setups_of e h.published ++ h.retired;
}

-- The services after async_remove_entry, for the entries that are left.
abbrev pub services_left : List ℕ → List Service → List Service
services_left [] services =
    unregister send_raw_command (unregister stop_beverage (unregister start_beverage services))
services_left (e ∷ entries) services = services

unfoldable pub remove_entry : ℕ → Hass → Hass
remove_entry e h =
    let left = without e h.entries in
    record h { entries = left; services = services_left left h.services }
