-- ===== src/Profile/Laws.antt =====
-- model_profiles.py: which machine gets which profile, and which values need a learned frame.
use Prim.Native.String.{String}
use delonghi_coffeelink.Prelude.{
  ℕ, ◌≡◌, ◌≢◌, ◌⊎◌, refl, arith, inl, inr, Bool, true, not, ◌&&◌, ◌||◌, Option, none, some,
  Bool-cases,
}
use delonghi_coffeelink.Prelude.Text.{Text, codes, is_prefix}
use delonghi_coffeelink.Prelude.Result.{Result, ok, err}
use delonghi_coffeelink.Profile.{
  ModelProfile, soul, generic_soul, eletta, learns_from_app, uses_cloud_session,
  keeps_monitor_session, replay_learned, always, beverage_value, wake_value, or_empty,
  is_data_request, profile_for,
}

-- oem_model.startswith
abbrev is_model : String → Option Text → Bool
is_model prefix oem_model = is_prefix (codes prefix) (or_empty oem_model)

-- Only a machine whose model starts with DL-millcore keeps a monitor session; a machine commands
-- through a cloud session exactly where it learns from the app, which is where its model is no
-- DL-millcore, and is a DL-striker or has no plain data_request channel.
profile_for-flags :
    (oem_model command_property : Option Text)
    → (keeps_monitor_session (profile_for oem_model command_property)
        ≡ is_model "DL-millcore" oem_model)
      × (learns_from_app (profile_for oem_model command_property) ≡ (
          not (is_model "DL-millcore" oem_model)
          && (is_model "DL-striker" oem_model || not (is_data_request command_property))))
      × (uses_cloud_session (profile_for oem_model command_property)
          ≡ learns_from_app (profile_for oem_model command_property))
unfolding profile_for
profile_for-flags oem_model command_property =
    elim (Bool-cases (is_model "DL-millcore" oem_model)) [
      | inl reference ↦ rw reference (refl, refl, refl)
      | inr other ↦ elim (Bool-cases (is_model "DL-striker" oem_model)) [
        | inl striker ↦ rw (other, striker) (refl, refl, refl)
        | inr unknown ↦ elim (Bool-cases (is_data_request command_property)) [
          | inl plain ↦ rw (other, unknown, plain) (refl, refl, refl)
          | inr app ↦ rw (other, unknown, app) (refl, refl, refl)
        ]
      ]
    ]

always-ne-none : (r : Result Text) → always r ≢ ok none
always-ne-none (err e) h = absurd (ground arith)
always-ne-none (ok v) h = absurd (ground arith)

replay_learned-none :
    (now : ℕ) (frame : Option Text) → replay_learned now frame ≡ ok none → frame ≡ none
replay_learned-none now none h = refl
replay_learned-none now (some frame) h = elim (always-ne-none _ h) [ ]

-- A profile has no value for a beverage or for a wake only where it learns from the app, and the
-- frame of that command is not learned yet.
value-missing :
    (now : ℕ) (model : ModelProfile) (bev action : ℕ) (frame : Option Text)
    → (beverage_value now model bev action frame ≡ ok none) ⊎ (wake_value now model frame ≡ ok none)
    → (learns_from_app model ≡ true) × (frame ≡ none)
unfolding beverage_value wake_value
value-missing now soul bev action frame (inl h) = elim (always-ne-none _ h) [ ]
value-missing now soul bev action frame (inr h) = elim (always-ne-none _ h) [ ]
value-missing now generic_soul bev action frame (inl h) = elim (always-ne-none _ h) [ ]
value-missing now generic_soul bev action frame (inr h) = elim (always-ne-none _ h) [ ]
value-missing now eletta bev action frame (inl h) = (refl, replay_learned-none now frame h)
value-missing now eletta bev action frame (inr h) = (refl, replay_learned-none now frame h)
