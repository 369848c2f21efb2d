-- ===== src/Entities/Buttons.antt =====
-- button.py: the buttons of a machine, and the command that a press sends.
use delonghi_coffeelink.Prelude.{ℕ, Option, none, some, List, [], ◌∷◌, ◌++◌, map}
use delonghi_coffeelink.Prelude.Dict.{Dict}
use delonghi_coffeelink.Prelude.Text.{Text, codes}
use delonghi_coffeelink.Const.{action_start, action_stop}
use delonghi_coffeelink.Const.Tables.{beverage_keys}
use delonghi_coffeelink.Catalog.Views.{decimal}
use delonghi_coffeelink.Sniffer.{Sniffer}
use delonghi_coffeelink.Send.{Setting, Commanded, quiet}
use delonghi_coffeelink.Send.Commands.{Command, beverage, wake, standby, profile, send}

pub data Button : Type 0 where
  wake_button standby_button stop_button dump_recipes : Button
  start_beverage : ℕ → Text → Button
  set_profile : ℕ → Button

abbrev pub start_buttons : Dict Text → List Button
start_buttons [] = []
start_buttons ((bev, key) ∷ rest) = start_beverage bev key ∷ start_buttons rest

-- async_setup_entry, for one coordinator; `slots` are those of `user_profile_labels`.
abbrev pub buttons_of : List ℕ → List Button
buttons_of slots =
    wake_button
    ∷ standby_button
    ∷ (start_buttons beverage_keys ++ (stop_button ∷ dump_recipes ∷ map set_profile slots))

-- What follows the DSN in the unique id.
abbrev pub button_suffix : Button → Text
button_suffix wake_button = codes "_wake"
button_suffix standby_button = codes "_standby"
button_suffix stop_button = codes "_stop"
button_suffix dump_recipes = codes "_dump_recipes"
button_suffix (start_beverage bev key) = codes "_start_" ++ key
button_suffix (set_profile slot) = codes "_set_profile_" ++ decimal slot

-- The command of `async_press`; the stop button stops hot water, and the dump only logs.
abbrev pub pressed : Button → Option Command
pressed wake_button = some wake
pressed standby_button = some standby
pressed stop_button = some (beverage 0x10 action_stop)
pressed dump_recipes = none
pressed (start_beverage bev key) = some (beverage bev action_start)
pressed (set_profile slot) = some (profile slot)

abbrev send_pressed : Setting → Option Command → Sniffer → Commanded
send_pressed at none c = quiet c
send_pressed at (some command) c = send at command c

abbrev pub press : Setting → Button → Sniffer → Commanded
press at button c = send_pressed at (pressed button) c
