-- ===== src/Entities/Alarms.antt =====
-- binary_sensor.py: the maintenance alarms of the models with a cloud session.
use delonghi_coffeelink.Prelude.{
  ℕ, ◌/◌, ◌%◌, ◌^◌, Bool, false, not, ◌||◌, Option, none, some, List, [], ◌∷◌, ◌==◌, if◌then◌else◌,
}
use delonghi_coffeelink.Prelude.Int.{ℤ, pos, ltb_ℤ}
use delonghi_coffeelink.Prelude.Text.{Text, codes, strip}
use delonghi_coffeelink.Counters.{Raw, null, boolean, integer, string, float, structure, int10}
use delonghi_coffeelink.Monitor.{Reading, failed, reading}
use delonghi_coffeelink.Profile.{ModelProfile, uses_cloud_session}

-- bool((word >> place) & 1)
abbrev pub bit : ℕ → ℕ → Bool
bit place word = word / 2 ^ place % 2 == 1

abbrev or_zero : Option ℤ → ℤ
or_zero none = pos 0
or_zero (some n) = n

-- `_prop_int`: the property's value, or none without the property or its key "value". The text of
-- an integer is read back as the integer; that of True and of False is no number.
unfoldable pub prop_int : Option Raw → ℤ
prop_int none = pos 0
prop_int (some null) = pos 0
prop_int (some (boolean b)) = pos 0
prop_int (some (integer n)) = n
prop_int (some (string s)) = or_zero (int10 (strip s))
prop_int (some (float s n)) = or_zero (int10 (strip s))
prop_int (some (structure s)) = or_zero (int10 (strip s))

-- The switches and the alarms of a monitor that has alarms: `monitor.get("switches", 0)`.
abbrev words_of : Option ℕ → Option ℕ → Option (ℕ × ℕ)
words_of switches none = none
words_of none (some alarms) = some (0, alarms)
words_of (some switches) (some alarms) = some (switches, alarms)

-- `coordinator.monitor or {}`: none where it is empty.
abbrev pub words : Option Reading → Option (ℕ × ℕ)
words none = none
words (some (failed f)) = none
words (some (reading m)) = words_of m.switches m.alarms

-- _Base.available; `up` is that of the coordinator.
abbrev pub alarm_available : Bool → Option Reading → Bool
alarm_available up monitor = elim (words monitor) [ none ↦ false | some w ↦ up ]

abbrev pub tank_of : Option (ℕ × ℕ) → Option Bool
tank_of none = none
tank_of (some (switches, alarms)) = some (bit 0 alarms || bit 4 switches)

abbrev pub container_of : Option (ℕ × ℕ) → Option Bool
container_of none = none
container_of (some (switches, alarms)) =
    let container_present = not (bit 3 switches) in some (not container_present || bit 1 alarms)

abbrev pub descale_of : ℤ → Option (ℕ × ℕ) → Option Bool
descale_of percent none = none
descale_of percent (some (switches, alarms)) = some (bit 2 alarms || not (ltb_ℤ percent (pos 90)))

abbrev pub filter_of : Option (ℕ × ℕ) → Option Bool
filter_of none = none
filter_of (some (switches, alarms)) = some (bit 3 alarms)

-- `is_on` of the four classes.
abbrev pub water_tank_empty : Option Reading → Option Bool
water_tank_empty monitor = tank_of (words monitor)

abbrev pub waste_container_full : Option Reading → Option Bool
waste_container_full monitor = container_of (words monitor)

-- `percent` is the property d512_percentage_to_deca.
unfoldable pub decalcification_needed : Option Raw → Option Reading → Option Bool
unfolding prop_int
decalcification_needed percent monitor = descale_of (prop_int percent) (words monitor)

abbrev pub filter_change_needed : Option Reading → Option Bool
filter_change_needed monitor = filter_of (words monitor)

-- The attributes of the water tank and of the waste container, none where they are empty.
pub record WaterTank : Type 0 where
  pub water_tank_present : Bool
  pub water_level_high : Bool
  pub water_level_low : Bool
  pub water_empty_alarm : Bool
  pub water_low_alarm : Bool
  pub water_tank_alarm : Bool

abbrev pub water_tank_attributes : Option (ℕ × ℕ) → Option WaterTank
water_tank_attributes none = none
water_tank_attributes (some (switches, alarms)) = some (record {
  water_tank_present = not (bit 4 switches);
  water_level_high = bit 7 switches;
  water_level_low = bit 6 switches;
  water_empty_alarm = bit 0 alarms;
  water_low_alarm = bit 16 alarms;
  water_tank_alarm = bit 13 alarms;
})

pub record WasteContainer : Type 0 where
  pub waste_container_present : Bool
  pub waste_full_alarm : Bool
  pub grounds_counter : ℤ

-- `grounds` is the property d551_cnt_coffee_fondi.
abbrev pub waste_container_attributes : Option Raw → Option (ℕ × ℕ) → Option WasteContainer
waste_container_attributes grounds none = none
waste_container_attributes grounds (some (switches, alarms)) = some (record {
  waste_container_present = not (bit 3 switches);
  waste_full_alarm = bit 1 alarms;
  grounds_counter = prop_int grounds;
})

-- The unique suffixes of the entities that are set up for one machine.
abbrev pub alarm_entities : ModelProfile → List Text
alarm_entities model =
    if not (uses_cloud_session model)
    then []
    else codes "water_tank_empty"
      ∷ codes "waste_container_full"
      ∷ codes "decalcification_needed"
      ∷ codes "filter_change_needed"
      ∷ []
