-- ===== src/Catalog/Views.antt =====
-- catalog.py: what the coordinator and the buttons ask of the catalogue.
use delonghi_coffeelink.Prelude.{
  ℕ, zero, suc, ◌+◌, ◌/◌, ◌%◌, Option, none, some, List, [], ◌∷◌, ◌++◌, ltb, ◌==◌, if◌then◌else◌,
}
use delonghi_coffeelink.Prelude.Text.{Text, text_eq}
use delonghi_coffeelink.Prelude.Dict.{Dict, lookup, keys}
use delonghi_coffeelink.Catalog.Build.{Entry, Catalog, add_slots}

unfoldable pub declared_ids : Dict Entry → List ℕ
declared_ids [] = []
declared_ids ((b, item) ∷ beverages) =
    let rest = declared_ids beverages in if item.declared then b ∷ rest else rest

unfoldable pub catalog_beverage_ids : Option Catalog → List ℕ
catalog_beverage_ids none = []
catalog_beverage_ids (some c) = declared_ids c.beverages

unfoldable pub add_recipe_slots : Dict Entry → List ℕ → List ℕ
add_recipe_slots [] slots = slots
add_recipe_slots ((b, item) ∷ beverages) slots =
    add_recipe_slots beverages (add_slots (keys item.profiles) slots)

unfoldable pub catalog_profile_slots : Option Catalog → List ℕ
catalog_profile_slots none = []
catalog_profile_slots (some c) =
    add_slots (keys c.priority) (add_recipe_slots c.beverages (add_slots (keys c.profile_names) []))

-- str(n), the digits of `n` in front of those of `rest`; `fuel` is at least the number of digits.
unfoldable pub decimal_from : ℕ → ℕ → Text → Text
decimal_from zero n rest = rest
decimal_from (suc fuel) n rest =
    let digits = (0x30 + n % 10) ∷ rest in
    let longer = decimal_from fuel (n / 10) digits in if n / 10 == 0 then digits else longer

abbrev pub decimal : ℕ → Text
decimal n = decimal_from (suc n) n []

-- names.get(slot) or str(slot)
unfoldable pub plain_label : Dict Text → ℕ → Text
plain_label names slot = elim (lookup slot names) [
  | none ↦ decimal slot
  | some [] ↦ decimal slot
  | some (c ∷ s) ↦ c ∷ s
]

unfoldable pub count_label : Text → Dict Text → ℕ
count_label label [] = 0
count_label label ((slot, l) ∷ labels) =
    let rest = count_label label labels in if text_eq l label then suc rest else rest

unfoldable pub plain_labels : Dict Text → List ℕ → Dict Text
plain_labels names [] = []
plain_labels names (slot ∷ slots) = (slot, plain_label names slot) ∷ plain_labels names slots

-- f"{label} ({slot})"
unfoldable pub suffixed : Text → ℕ → Text
suffixed label slot = label ++ (0x20 ∷ 0x28 ∷ (decimal slot ++ 0x29 ∷ []))

unfoldable pub relabel : Dict Text → Dict Text → Dict Text
relabel all [] = []
relabel all ((slot, label) ∷ labels) =
    (slot, if ltb 1 (count_label label all) then suffixed label slot else label)
    ∷ relabel all labels

-- The slots with a name cell, or every slot that is mentioned where no name blob was read.
unfoldable pub label_slots : Option Catalog → List ℕ
label_slots none = []
label_slots (some c) = elim c.profile_slots [
  | [] ↦ catalog_profile_slots (some c)
  | k ∷ ks ↦ k ∷ ks
]

abbrev names_of : Option Catalog → Dict Text
names_of none = []
names_of (some c) = c.profile_names

unfoldable pub catalog_profile_labels : Option Catalog → Dict Text
catalog_profile_labels c =
    let labels = plain_labels (names_of c) (label_slots c) in relabel labels labels
