-- ===== src/Const/Tables.antt =====
-- const.py: the tables of the entities.
use mathlib.Core.List.{List, [], ◌∷◌, map}
use delonghi_coffeelink.Prelude.{Option, none, some, if◌then◌else◌}
use delonghi_coffeelink.Prelude.Text.{Text, codes, text_eq, in_texts, strip}
use delonghi_coffeelink.Prelude.Dict.{Dict, values}
use delonghi_coffeelink.Const.{machine_status}

-- The keys of BEVERAGES, which name the services' values and the buttons.
abbrev pub beverage_keys : Dict Text
beverage_keys =
    (0x01, codes "espresso")
    ∷ (0x02, codes "coffee")
    ∷ (0x03, codes "long_coffee")
    ∷ (0x04, codes "double_espresso")
    ∷ (0x05, codes "doppio")
    ∷ (0x06, codes "americano")
    ∷ (0x07, codes "cappuccino")
    ∷ (0x08, codes "latte_macchiato")
    ∷ (0x09, codes "caffelatte")
    ∷ (0x0a, codes "flat_white")
    ∷ (0x0b, codes "espresso_macchiato")
    ∷ (0x0c, codes "hot_milk")
    ∷ (0x0d, codes "cappuccino_doppio")
    ∷ (0x0f, codes "cappuccino_reverse")
    ∷ (0x10, codes "hot_water")
    ∷ (0x16, codes "tea")
    ∷ (0x17, codes "coffee_pot")
    ∷ (0x18, codes "cortado")
    ∷ (0x19, codes "long_black")
    ∷ (0x1a, codes "mug_to_go")
    ∷ (0x1b, codes "brew_over_ice")
    ∷ []

-- A row of COUNTER_SENSORS or INFO_SENSORS: the candidate properties, and the key of the entity.
pub record Row : Type 0 where
  pub candidates : List Text
  pub key : Text

abbrev pub row : List Text → Text → Row
row candidates key = record { candidates = candidates; key = key }

abbrev pub counter_sensors : List Row
counter_sensors =
    row (codes "d700_tot_bev_b" ∷ codes "d701_tot_bev_b" ∷ []) (codes "total_beverages")
    ∷ row (codes "d702_tot_bev_other" ∷ []) (codes "total_other_beverages")
    ∷ row (codes "d704_tot_bev_espressi" ∷ []) (codes "total_espresso")
    ∷ row (codes "d701_tot_bev_bw" ∷ []) (codes "total_milk_drinks")
    ∷ row (codes "d703_tot_bev_w" ∷ []) (codes "total_water")
    ∷ row (codes "d705_tot_id1_espr" ∷ []) (codes "total_espresso_alt")
    ∷ row (codes "d706_tot_id2_coffee" ∷ []) (codes "total_coffee")
    ∷ row (codes "d707_tot_id3_long" ∷ []) (codes "total_long_coffee")
    ∷ row (codes "d708_tot_id5_doppio_p" ∷ []) (codes "total_doppio")
    ∷ row (codes "d709_id6_americano" ∷ []) (codes "total_americano")
    ∷ row (codes "d710_tot_id7_capp" ∷ []) (codes "total_cappuccino")
    ∷ row (codes "d711_id8_lattmacc" ∷ []) (codes "total_latte_macchiato")
    ∷ row (codes "d712_id9_cafflatt" ∷ []) (codes "total_caffelatte")
    ∷ row (codes "d713_id10_flatwhite" ∷ []) (codes "total_flat_white")
    ∷ row (codes "d714_id11_esprmacc" ∷ []) (codes "total_espresso_macchiato")
    ∷ row (codes "d715_id12_hotmilk" ∷ []) (codes "total_hot_milk")
    ∷ row (codes "d716_id13_cappdoppio_p" ∷ []) (codes "total_cappuccino_doppio")
    ∷ row (codes "d717_id15_caprev" ∷ []) (codes "total_cappuccino_reverse")
    ∷ row (codes "d718_id16_hotwater" ∷ []) (codes "total_hot_water")
    ∷ row (codes "d719_id22_tea" ∷ []) (codes "total_tea")
    ∷ row (codes "d720_tot_id23_coffee_pot" ∷ []) (codes "total_coffee_pot")
    ∷ row (codes "d727_id24_cortado" ∷ []) (codes "total_cortado")
    ∷ row (codes "d728_id25_long_black" ∷ []) (codes "total_long_black")
    ∷ row (codes "d729_id26_travel_mug" ∷ []) (codes "total_mug_to_go")
    ∷ row (codes "d730_tot_id27_brew_over_ice" ∷ []) (codes "total_brew_over_ice")
    ∷ row (codes "d731_tot_mug_hot" ∷ []) (codes "total_mug_hot")
    ∷ row (codes "d732_tot_mug_cold" ∷ []) (codes "total_mug_cold")
    ∷ row (codes "d735_iced_bev" ∷ []) (codes "total_iced_bev")
    ∷ row (codes "d736_mug_bev" ∷ []) (codes "total_mug_bev")
    ∷ row (codes "d737_mug_iced_bev" ∷ []) (codes "total_mug_iced_bev")
    ∷ row (codes "d738_cold_brew_bev" ∷ []) (codes "total_cold_brew_bev")
    ∷ row (codes "d551_cnt_coffee_fondi" ∷ []) (codes "grounds_counter")
    ∷ row (codes "d552_cnt_calc_tot" ∷ []) (codes "total_descales")
    ∷ row (codes "d553_water_tot_qty" ∷ []) (codes "water_total_quantity")
    ∷ row (codes "d554_cnt_filter_tot" ∷ []) (codes "total_filters_used")
    ∷ row (codes "d555_water_filter_qty" ∷ []) (codes "water_filter_quantity")
    ∷ row (codes "d825_descale_status" ∷ []) (codes "descale_status")
    ∷ row (codes "d556_water_hardness" ∷ []) (codes "water_hardness")
    ∷ []

abbrev pub info_sensors : List Row
info_sensors = row (codes "software_version" ∷ []) (codes "software_version") ∷ []

-- The keys of COUNTER_MEASUREMENTS, all of which are volumes of water.
abbrev pub counter_measurements : List Text
counter_measurements = codes "water_total_quantity" ∷ codes "water_filter_quantity" ∷ []

-- tuple(dict.fromkeys(xs))
abbrev pub without : Text → List Text → List Text
without x [] = []
without x (y ∷ ys) = if text_eq x y then without x ys else y ∷ without x ys

abbrev pub from_keys : List Text → List Text
from_keys [] = []
from_keys (x ∷ xs) = x ∷ without x (from_keys xs)

unfoldable pub machine_status_options : List Text
machine_status_options = from_keys (map codes (values machine_status))

abbrev pub connection_status_options : List Text
connection_status_options = codes "online" ∷ codes "offline" ∷ codes "unknown" ∷ []

-- normalize_connection_status: of None or of the text of the value; `lower` is
-- `str.lower`.
unfoldable pub normalize_connection_status : (Text → Text) → Option Text → Text
normalize_connection_status lower none = codes "unknown"
normalize_connection_status lower (some value) =
    let normalized = lower (strip value) in
    if in_texts normalized connection_status_options then normalized else codes "unknown"
