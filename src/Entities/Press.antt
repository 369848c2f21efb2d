-- ===== src/Entities/Press.antt =====
-- button.py: what a press of each button writes, on a model without a cloud session.
use mathlib.Core.Bool.{or-true}
use delonghi_coffeelink.Prelude.{
  ℕ, ◌^◌, ◌<◌, ◌≡◌, refl, arith, true, false, ◌&&◌, List, [], ◌∷◌, leb, map, All, All-append,
  ==_refl, ◌==◌, Bool-cases, inl, inr, if◌then◌else◌,
}
use delonghi_coffeelink.Prelude.Dict.{Dict, keys}
use delonghi_coffeelink.Prelude.Text.{Text}
use delonghi_coffeelink.Prelude.Result.{ok, unknown_profile}
use delonghi_coffeelink.Bytes.{AreBytes}
use delonghi_coffeelink.Const.{default_recipe_params}
use delonghi_coffeelink.Const.Tables.{beverage_keys}
use delonghi_coffeelink.Catalog.Views.{catalog_profile_labels}
use delonghi_coffeelink.Command.Inspect.{soul}
use delonghi_coffeelink.Command.Learn.{member}
use delonghi_coffeelink.Command.RoundTrip.{ReadsBeverage, ReadsPower, ReadsProfile}
use delonghi_coffeelink.Profile.{uses_cloud_session}
use delonghi_coffeelink.Sniffer.{Sniffer}
use delonghi_coffeelink.Send.{
  Setting, Commanded, quiet, fails, when_reachable, reachability, through_session,
}
use delonghi_coffeelink.Send.Commands.{
  wake_body, standby_body, profile_body, is_unoffered, send_beverage, send_wake, send_standby,
  send_profile,
}
use delonghi_coffeelink.Send.Soul.{WritesOne, with_cloud_session-direct, send_beverage-soul}
use delonghi_coffeelink.Send.Bodies.{
  wake_body-WritesOne, standby_body-WritesOne, profile_body-WritesOne, profile_body-fails,
}
use delonghi_coffeelink.Entities.Buttons.{
  Button, wake_button, standby_button, stop_button, dump_recipes, start_beverage, set_profile,
  start_buttons, buttons_of, press,
}

-- What a press does: it writes one frame that reads as what the button is for, in the bytes of the
-- protocol; the dump writes nothing, and a profile that is no byte or 0 is refused.
abbrev pub Obeys : Setting → Sniffer → Button → Type 0
Obeys at c wake_button = WritesOne at (ReadsPower (2 ∷ 1 ∷ []) at.now) (press at wake_button c)
Obeys at c standby_button =
    WritesOne at (ReadsPower (1 ∷ 1 ∷ []) at.now) (press at standby_button c)
Obeys at c stop_button =
    WritesOne at (ReadsBeverage 0x10 2 default_recipe_params soul at.now) (press at stop_button c)
Obeys at c dump_recipes = press at dump_recipes c ≡ quiet c
Obeys at c (start_beverage bev key) =
    WritesOne at (ReadsBeverage bev 1 default_recipe_params soul at.now)
      (press at (start_beverage bev key) c)
Obeys at c (set_profile slot) =
    if leb 1 slot && leb slot 255
    then WritesOne at (ReadsProfile slot at.now) (press at (set_profile slot) c)
    else (press at (set_profile slot) c ≡ fails unknown_profile c)

member-offered :
    (slot : ℕ) (slots : List ℕ) → member slot slots ≡ true → is_unoffered slot slots ≡ false
member-offered slot [] h = refl
member-offered slot (s ∷ slots) h = rw h refl

All-imp : (P Q : ℕ → Type 0) (ns : List ℕ) → ((n : ℕ) → P n → Q n) → All P ns → All Q ns
All-imp P Q [] f h = tt
All-imp P Q (n ∷ ns) f h = (f n h.0, All-imp P Q ns f h.1)

members : (ns : List ℕ) → All (λ n. member n ns ≡ true) ns
members [] = tt
members (n ∷ ns) = (
  rw (==_refl n) refl,
  All-imp (λ k. member k ns ≡ true) (λ k. member k (n ∷ ns) ≡ true) ns
      (λ k h. rw h (or-true (k == n))) (members ns),
)

module _ (at : Setting) (model : uses_cloud_session at.model ≡ false) (fits : at.now < 2 ^ 32)
    (c : Sniffer) (direct : c.session.uses_cloud_session ≡ false)
    (up : reachability at ≡ ok tt) where
  -- A command that is not held back is its body.
  sends_directly :
      (body : Sniffer → Commanded)
      → when_reachable (reachability at) (through_session at body) c
        ≡ body (record c { session = c.session })
  sends_directly body = rw (up, with_cloud_session-direct at.now at.app_id c.session direct) refl

  beverage-WritesOne :
      (bev action : ℕ)
      → AreBytes (bev ∷ action ∷ [])
      → WritesOne at
          (ReadsBeverage bev action default_recipe_params soul at.now)
          (send_beverage at bev action c)
  beverage-WritesOne bev action bytes =
      send_beverage-soul at bev action c model direct up bytes fits

  start_buttons-Obeys :
      (table : Dict Text) → All (λ p. p.0 < 256) table → All (Obeys at c) (start_buttons table)
  start_buttons-Obeys [] h = tt
  start_buttons-Obeys ((bev, key) ∷ rest) h =
      (beverage-WritesOne bev 1 (omega (arith, h.0)), start_buttons-Obeys rest h.1)

  profile-Obeys :
      (slot : ℕ)
      → is_unoffered slot (keys (catalog_profile_labels c.catalog)) ≡ false
      → Obeys at c (set_profile slot)
  unfolding send_profile
  profile-Obeys slot offered =
      let body : Sniffer → Commanded = profile_body false at slot in
      elim (Bool-cases (leb 1 slot && leb slot 255)) [
        | inl fine ↦
            rw (fine, offered, model, sends_directly body)
              (profile_body-WritesOne at model fits slot (record c { session = c.session })
                (ground (arith, fine)) (ground (arith, fine)))
        | inr wrong ↦
            rw (wrong, offered, model, sends_directly body)
              (profile_body-fails at model fits slot (record c { session = c.session }) wrong)
      ]

  set_profile-Obeys :
      (slots : List ℕ)
      → All (λ slot. member slot (keys (catalog_profile_labels c.catalog)) ≡ true) slots
      → All (Obeys at c) (map set_profile slots)
  set_profile-Obeys [] h = tt
  set_profile-Obeys (slot ∷ slots) h = (
    profile-Obeys slot (member-offered slot (keys (catalog_profile_labels c.catalog)) h.0),
    set_profile-Obeys slots h.1,
  )

  wake-Obeys : Obeys at c wake_button
  unfolding send_wake
  wake-Obeys =
      rw (model, sends_directly (wake_body false at))
        (wake_body-WritesOne at model fits (record c { session = c.session }))

  standby-Obeys : Obeys at c standby_button
  unfolding send_standby
  standby-Obeys =
      rw (model, sends_directly (standby_body false at))
        (standby_body-WritesOne at model fits (record c { session = c.session }))

-- On a reachable machine whose model has no cloud session, each button that is set up for the
-- profiles of the machine's catalogue writes one frame to the command channel, with a valid checksum
-- and the time of the press, that reads as what the button is for: wake, standby, the start of its
-- beverage, the stop of hot water, or the switch to its profile. Two write nothing: the dump, and a
-- profile button whose slot is 0 or above 255, which raises that the profile is unknown although the
-- catalogue offers it.
pub buttons_of-Obeys :
    (at : Setting) (c : Sniffer)
    → uses_cloud_session at.model ≡ false
    → c.session.uses_cloud_session ≡ false
    → reachability at ≡ ok tt
    → at.now < 2 ^ 32
    → All (Obeys at c) (buttons_of (keys (catalog_profile_labels c.catalog)))
buttons_of-Obeys at c model direct up fits =
    let slots : List ℕ = keys (catalog_profile_labels c.catalog) in
    (
      wake-Obeys at model fits c direct up,
      (
        standby-Obeys at model fits c direct up,
        All-append (Obeys at c) (start_buttons beverage_keys)
            (stop_button ∷ dump_recipes ∷ map set_profile slots)
            (start_buttons-Obeys at model fits c direct up beverage_keys (omega arith))
            (
              beverage-WritesOne at model fits c direct up 0x10 2 (omega arith),
              (refl, set_profile-Obeys at model fits c direct up slots (members slots)),
            ),
      ),
    )
