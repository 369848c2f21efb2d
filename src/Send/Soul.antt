-- ===== src/Send/Soul.antt =====
-- coordinator.py, model_profiles.py, command_builder.py: a command on a Soul from the button to the
-- frame that the cloud gets.
use delonghi_coffeelink.Prelude.{
  ℕ, ◌^◌, ◌<◌, ◌≡◌, refl, sym, subst, arith, false, Option, none, some, List, [], ◌∷◌,
}
use delonghi_coffeelink.Prelude.Text.{Text}
use delonghi_coffeelink.Prelude.Result.{Result, ok, err, Returns, ◌>>=◌}
use delonghi_coffeelink.Prelude.Int.{ℤ}
use delonghi_coffeelink.Bytes.{AreBytes}
use delonghi_coffeelink.Const.{default_recipe_params}
use delonghi_coffeelink.Command.{build_beverage_command, build_and_encode, encode_command}
use delonghi_coffeelink.Command.Inspect.{Decoded, decode_command, soul}
use delonghi_coffeelink.Command.RoundTrip.{captured, ReadsBeverage, decode-build_beverage}
use delonghi_coffeelink.Session.{Session, Dispatch, sent, with_cloud_session}
use delonghi_coffeelink.Profile.{ModelProfile, uses_cloud_session, beverage_value, always}
use delonghi_coffeelink.Sniffer.{Sniffer}
use delonghi_coffeelink.Send.{
  Setting, Commanded, command_channel, send_property_command, send_built, when_reachable,
  reachability, through_session, dispatched, value_or,
}
use delonghi_coffeelink.Send.Commands.{beverage_body, send_beverage}

-- One write to the command channel, of a frame that reads as `P` says.
abbrev pub WritesOne : Setting → (Decoded → Type 0) → Commanded → Type 0
WritesOne at P r =
    (value : Text) × (r.writes ≡ (command_channel at, value) ∷ [])
    × Returns P (decode_command value)

pub send_built-WritesOne :
    (at : Setting) (P : Decoded → Type 0) (built : Result (List ℕ)) (fallback : Result Text)
    (c : Sniffer)
    → Returns P (captured built)
    → WritesOne at P (
        send_built at (value_or (always (built >>= λ frame. ok (encode_command frame))) fallback) c)
unfolding send_property_command
send_built-WritesOne at P (err e) fallback c h = elim h [ ]
send_built-WritesOne at P (ok frame) fallback c h = (encode_command frame, refl, h)

-- The value of a model without a cloud session is the built frame.
beverage_value-soul :
    (now : ℕ) (model : ModelProfile) (bev action : ℕ) (frame : Option Text)
    → uses_cloud_session model ≡ false
    → beverage_value now model bev action frame ≡ always (build_and_encode now bev action)
unfolding beverage_value
beverage_value-soul now ModelProfile.soul bev action frame h = refl
beverage_value-soul now ModelProfile.generic_soul bev action frame h = refl
beverage_value-soul now ModelProfile.eletta bev action frame h = absurd (ground arith)

build_now :
    (now bev action : ℕ)
    → build_beverage_command now bev action default_recipe_params none
      ≡ build_beverage_command now bev action default_recipe_params (some now)
unfolding build_beverage_command
build_now now bev action = refl

build_and_encode-reads :
    (now bev action : ℕ)
    → AreBytes (bev ∷ action ∷ [])
    → now < 2 ^ 32
    → Returns
        (ReadsBeverage bev action default_recipe_params soul now)
        (captured (build_beverage_command now bev action default_recipe_params none))
build_and_encode-reads now bev action h hts =
    subst
      (λ (built : Result (List ℕ)).
        Returns (ReadsBeverage bev action default_recipe_params soul now) (captured built))
      (sym (build_now now bev action))
      (decode-build_beverage now bev action 0x0f 0x00 0xfa 0x1b 0x01 0x06 now (omega arith) hts)

pub with_cloud_session-direct :
    (now : ℕ) (app_id : Option ℤ) (s : Session)
    → s.uses_cloud_session ≡ false
    → with_cloud_session now app_id s ≡ (sent, s)
unfolding with_cloud_session
with_cloud_session-direct now app_id s h = rw h refl

beverage_body-soul :
    (at : Setting) (bev action : ℕ) (c : Sniffer)
    → uses_cloud_session at.model ≡ false
    → AreBytes (bev ∷ action ∷ [])
    → at.now < 2 ^ 32
    → WritesOne at
        (ReadsBeverage bev action default_recipe_params soul at.now)
        (beverage_body at bev action c)
unfolding build_and_encode
beverage_body-soul at bev action c model h hts =
    let P = ReadsBeverage bev action default_recipe_params soul at.now in
    let built = build_beverage_command at.now bev action default_recipe_params none in
    let fallback = build_and_encode at.now bev action in
    subst (λ (v : Result (Option Text)). WritesOne at P (send_built at (value_or v fallback) c))
      (sym (beverage_value-soul at.now at.model bev action _ model))
      (send_built-WritesOne at P built fallback c (build_and_encode-reads at.now bev action h hts))

-- Where the machine is reachable and its model has no cloud session, a beverage command writes one
-- frame, to the command channel, and that frame is decoded to the beverage and the action that were
-- asked for, with the fixed recipe, a valid checksum and the time of the command.
pub send_beverage-soul :
    (at : Setting) (bev action : ℕ) (c : Sniffer)
    → uses_cloud_session at.model ≡ false
    → c.session.uses_cloud_session ≡ false
    → reachability at ≡ ok tt
    → AreBytes (bev ∷ action ∷ [])
    → at.now < 2 ^ 32
    → WritesOne at
        (ReadsBeverage bev action default_recipe_params soul at.now)
        (send_beverage at bev action c)
unfolding send_beverage
send_beverage-soul at bev action c model direct up h hts =
    let P = ReadsBeverage bev action default_recipe_params soul at.now in
    let body = beverage_body at bev action in
    subst (λ (r : Result (Unit {0})). WritesOne at P (when_reachable r (through_session at body) c))
      (sym up)
      (subst (λ (d : Dispatch × Session). WritesOne at P (dispatched body c d))
        (sym (with_cloud_session-direct at.now at.app_id c.session direct))
        (beverage_body-soul at bev action (record c { session = c.session }) model h hts))
