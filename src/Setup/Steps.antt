-- ===== src/Setup/Steps.antt =====
-- __init__.py: the steps of a run of Home Assistant, and what holds between them.
use delonghi_coffeelink.Prelude.{ℕ, ◌<◌, ◌≡◌, ◌⊎◌, true, false, ◌||◌, List, [], ◌∷◌, ◌==◌, All}
use delonghi_coffeelink.Prelude.Dict.{Dict}
use delonghi_coffeelink.Command.Learn.{member}
use delonghi_coffeelink.Setup.{
  Service, start_beverage, stop_beverage, send_raw_command, has_service, Hass, publish,
  finish_setup, fail_setup, unload_entry, remove_entry,
}

-- The steps of Home Assistant for an entry `e`. It sets up what is listed and neither loaded nor being
-- set up, unloads what is loaded, and removes what is neither loaded nor being set up, since it does so
-- under the lock of the set-up, after an unload. An entry whose platforms do not unload stays loaded
-- here, and its removal is no step.
pub data Step (h : Hass) : Hass → Type 0 where
  added : (e : ℕ) → Step h (record h { entries = e ∷ h.entries })
  published :
      (e : ℕ)
      → member e h.entries ≡ true
      → member e h.loaded ≡ false
      → member e h.setting_up ≡ false
      → Step h (publish e h)
  set_up : (e : ℕ) → member e h.setting_up ≡ true → Step h (finish_setup e h)
  not_set_up : (e : ℕ) → member e h.setting_up ≡ true → Step h (fail_setup e h)
  unloaded : (e : ℕ) → member e h.loaded ≡ true → Step h (unload_entry e h)
  removed :
      (e : ℕ)
      → member e h.loaded ≡ false
      → member e h.setting_up ≡ false
      → Step h (remove_entry e h)

-- The states that a run reaches.
pub data Run (h : Hass) : Hass → Type 0 where
  begun : Run h h
  then_step : {i j : Hass} → Run h i → Step i j → Run h j

-- A published entry is one that Home Assistant lists, and its set-up is not one that is unloaded.
abbrev pub IsLive : List ℕ → List ℕ → ℕ → ℕ × ℕ → Type 0
IsLive entries retired next (e, s) =
    (member e entries ≡ true) × (member s retired ≡ false) × (s < next)

-- The entry is loaded or being set up.
abbrev pub IsOwned : List ℕ → List ℕ → ℕ × ℕ → Type 0
IsOwned loaded setting_up (e, s) = (member e loaded || member e setting_up) ≡ true

-- No set-up is published twice.
abbrev pub IsApart : Dict ℕ → Type 0
IsApart [] = Unit
IsApart ((e, s) ∷ rest) = All (λ p. (p.1 == s) ≡ false) rest × IsApart rest

abbrev pub HasServices : List Service → Type 0
HasServices services =
    (has_service start_beverage services ≡ true)
    × (has_service stop_beverage services ≡ true)
    × (has_service send_raw_command services ≡ true)

pub record IsOrderly (h : Hass) : Type 0 where
  pub live : All (IsLive h.entries h.retired h.next) h.published
  pub apart : IsApart h.published
  pub past : All (λ s. s < h.next) h.retired
  pub owned : All (IsOwned h.loaded h.setting_up) h.published
  pub begun_listed : All (λ e. member e h.entries ≡ true) h.setting_up
  pub listed : All (λ e. member e h.entries ≡ true) h.loaded
  pub served : (h.loaded ≡ []) ⊎ HasServices h.services
