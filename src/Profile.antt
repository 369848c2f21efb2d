-- ===== src/Profile.antt =====
-- model_profiles.py: what distinguishes the models of machines, and the values that are written for
-- a command on each.
pub mod Laws
use delonghi_coffeelink.Prelude.{
  ℕ, Bool, true, false, not, Option, none, some, List, [], ◌∷◌, if◌then◌else◌,
}
use delonghi_coffeelink.Prelude.Text.{Text, codes, text_eq, is_prefix}
use delonghi_coffeelink.Prelude.Result.{Result, ok, err}
use delonghi_coffeelink.Command.{
  build_and_encode, build_wake_encoded, build_standby_encoded, build_profile_encoded,
}
use delonghi_coffeelink.Command.Inspect.{replay_with_timestamp}

-- The profiles that `profile_for` gives: SoulProfile, GenericSoulProfile and ElettaProfile.
pub data ModelProfile : Type 0 where
  soul generic_soul eletta : ModelProfile

abbrev pub learns_from_app : ModelProfile → Bool
learns_from_app soul = false
learns_from_app generic_soul = false
learns_from_app eletta = true

abbrev pub uses_cloud_session : ModelProfile → Bool
uses_cloud_session soul = false
uses_cloud_session generic_soul = false
uses_cloud_session eletta = true

abbrev pub keeps_monitor_session : ModelProfile → Bool
keeps_monitor_session soul = true
keeps_monitor_session generic_soul = false
keeps_monitor_session eletta = false

abbrev pub profile_command_property : ModelProfile → Text
profile_command_property soul = codes "data_request"
profile_command_property generic_soul = codes "data_request"
profile_command_property eletta = codes "app_data_request"

-- The time in seconds, or None.
abbrev pub monitor_session_value : ℕ → ModelProfile → Option ℕ
monitor_session_value now soul = some now
monitor_session_value now generic_soul = some now
monitor_session_value now eletta = none

abbrev pub always : Result Text → Result (Option Text)
always (err e) = err e
always (ok v) = ok (some v)

-- The replay of a frame that may not be there yet.
abbrev pub replay_learned : ℕ → Option Text → Result (Option Text)
replay_learned now none = ok none
replay_learned now (some frame) = always (replay_with_timestamp now frame none)

unfoldable pub beverage_value : ℕ → ModelProfile → ℕ → ℕ → Option Text → Result (Option Text)
beverage_value now soul bev action frame = always (build_and_encode now bev action)
beverage_value now generic_soul bev action frame = always (build_and_encode now bev action)
beverage_value now eletta bev action frame = replay_learned now frame

unfoldable pub wake_value : ℕ → ModelProfile → Option Text → Result (Option Text)
wake_value now soul frame = always (build_wake_encoded now)
wake_value now generic_soul frame = always (build_wake_encoded now)
wake_value now eletta frame = replay_learned now frame

unfoldable pub standby_value : ℕ → ModelProfile → Option (List ℕ) → Result (Option Text)
standby_value now soul signature = always (build_standby_encoded now none)
standby_value now generic_soul signature = always (build_standby_encoded now none)
standby_value now eletta none = ok none
standby_value now eletta (some signature) = always (build_standby_encoded now (some signature))

unfoldable pub profile_value :
    ℕ → ModelProfile → ℕ → Option (List ℕ) → Option ℕ → Result (Option Text)
profile_value now soul slot signature ts = always (build_profile_encoded now slot ts none)
profile_value now generic_soul slot signature ts = always (build_profile_encoded now slot ts none)
profile_value now eletta slot none ts = ok none
profile_value now eletta slot (some signature) ts =
    always (build_profile_encoded now slot ts (some signature))

-- oem_model or ""
abbrev pub or_empty : Option Text → Text
or_empty none = []
or_empty (some t) = t

abbrev pub is_data_request : Option Text → Bool
is_data_request none = false
is_data_request (some t) = text_eq t (codes "data_request")

unfoldable pub profile_for : Option Text → Option Text → ModelProfile
profile_for oem_model command_property =
    if is_prefix (codes "DL-millcore") (or_empty oem_model)
    then soul
    else if is_prefix (codes "DL-striker") (or_empty oem_model)
    then eletta
    else if is_data_request command_property
    then generic_soul
    else eletta
