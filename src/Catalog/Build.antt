-- ===== src/Catalog/Build.antt =====
-- catalog.py: the folding of the blobs into the catalogue, `build_catalog`.
use delonghi_coffeelink.Prelude.{
  ℕ, ◌+◌, Bool, true, false, not, ◌&&◌, ◌||◌, Option, none, some, List, [], ◌∷◌, ◌++◌, length, ltb,
  leb, ◌==◌, if◌then◌else◌, drop, any,
}
use delonghi_coffeelink.Prelude.Result.{Result, ok, ◌>>=◌}
use delonghi_coffeelink.Prelude.Text.{Text, text_eq}
use delonghi_coffeelink.Prelude.Dict.{Dict, insert, lookup, values, keys}
use delonghi_coffeelink.Command.Inspect.{index}
use delonghi_coffeelink.Const.{
  blob_family_descriptor, blob_family_profile_recipe, blob_family_priority,
  blob_family_profile_names, blob_family_custom_names, blob_family_bean_names,
}
use delonghi_coffeelink.Catalog.{
  Props, Blob, Triple, is_custom_slot, is_bean_system, min_payload, parse_tlv, parse_triples,
  decode_text, decode_slot_cells, decode_slot_names, iter_blobs,
}

pub data Kind : Type 0 where
  custom bean_system builtin : Kind

pub record Entry : Type 0 where
  pub id : ℕ
  pub kind : Kind
  pub declared : Bool
  pub descriptor_truncated : Bool
  pub ranges : Dict Triple
  pub profiles : Dict (Dict ℕ)
  pub in_priority_list : Option Bool
  pub priority_position : Dict ℕ
  pub defined : Option Bool
  pub profiles_differ : Bool
  pub off_default : Option (Dict Bool)
  pub source_properties : List Text

unfoldable pub new_entry : ℕ → Entry
new_entry b = record {
  id = b;
  kind = if is_custom_slot b then custom else if is_bean_system b then bean_system else builtin;
  declared = false;
  descriptor_truncated = false;
  ranges = [];
  profiles = [];
  in_priority_list = none;
  priority_position = [];
  defined = none;
  profiles_differ = false;
  off_default = none;
  source_properties = [];
}

pub record Stats : Type 0 where
  pub blobs : ℕ
  pub crc_ok : ℕ
  pub crc_failed : ℕ
  pub truncated : ℕ
  pub unparsed_payloads : ℕ
  pub short_payloads : ℕ
  pub families : List (Text × ℕ)

pub record Catalog : Type 0 where
  pub beverages : Dict Entry
  pub priority : Dict (List ℕ)
  pub profile_names : Dict Text
  pub custom_names : Dict Text
  pub bean_names : Dict Text
  pub profile_slots : List ℕ
  pub stats : Stats

abbrev pub empty_catalog : Catalog
empty_catalog = record {
  beverages = [];
  priority = [];
  profile_names = [];
  custom_names = [];
  bean_names = [];
  profile_slots = [];
  stats = record {
    blobs = 0;
    crc_ok = 0;
    crc_failed = 0;
    truncated = 0;
    unparsed_payloads = 0;
    short_payloads = 0;
    families = [];
  };
}

-- item = beverages.setdefault(bev_id, _new_entry(bev_id)), and then a write to the item.
unfoldable pub update_entry : ℕ → (Entry → Entry) → Dict Entry → Dict Entry
update_entry b f beverages =
    insert b (f (elim (lookup b beverages) [ none ↦ new_entry b | some item ↦ item ])) beverages

-- stats["families"][label] = stats["families"].get(label, 0) + 1
unfoldable pub count_family : Text → List (Text × ℕ) → List (Text × ℕ)
count_family label [] = (label, 1) ∷ []
count_family label ((l, n) ∷ fs) =
    let rest = count_family label fs in if text_eq label l then (l, n + 1) ∷ fs else (l, n) ∷ rest

-- d.update(e)
unfoldable pub update {ℓ} : {V : Type ℓ} → Dict V → Dict V → Dict V
update d [] = d
update d ((k, v) ∷ e) = update (insert k v d) e

-- A set of slots is kept as its sorted list, which is what `sorted(profile_slots)` makes of it.
unfoldable pub add_slot : ℕ → List ℕ → List ℕ
add_slot k [] = k ∷ []
add_slot k (j ∷ js) =
    let rest = add_slot k js in if ltb k j then k ∷ j ∷ js else if k == j then j ∷ js else j ∷ rest

unfoldable pub add_slots : List ℕ → List ℕ → List ℕ
add_slots [] slots = slots
add_slots (k ∷ ks) slots = add_slots ks (add_slot k slots)

-- The branches on the family of a blob that has passed all gates.
unfoldable pub fold_descriptor : Text → List ℕ → Catalog → Result Catalog
fold_descriptor name payload c = do
  bev ← index payload 0
  let declare : Entry → Entry = λ item. record item {
    declared = true;
    source_properties = item.source_properties ++ name ∷ [];
  }
  ok (elim (parse_triples (drop 1 payload)) [
    | none ↦ record c {
      beverages = update_entry bev declare c.beverages;
      stats = record c.stats { unparsed_payloads = c.stats.unparsed_payloads + 1 };
    }
    | some triples ↦ record c {
      beverages = update_entry bev (λ item. record (declare item) { ranges = triples }) c.beverages;
    }
  ])

unfoldable pub fold_profile_recipe : Text → List ℕ → Catalog → Result Catalog
fold_profile_recipe name payload c = do
  slot ← index payload 0
  bev ← index payload 1
  let source : Entry → Entry =
      λ item. record item { source_properties = item.source_properties ++ name ∷ [] }
  ok (elim (parse_tlv (drop 2 payload)) [
    | none ↦ record c {
      beverages = update_entry bev source c.beverages;
      stats = record c.stats { unparsed_payloads = c.stats.unparsed_payloads + 1 };
    }
    | some params ↦ record c {
      beverages =
          update_entry bev
            (λ item. record (source item) { profiles = insert slot params item.profiles })
            c.beverages;
    }
  ])

unfoldable pub fold_priority : List ℕ → Catalog → Result Catalog
fold_priority payload c = do
  slot ← index payload 0
  ok (record c { priority = insert slot (drop 1 payload) c.priority })

-- if text: names[bucket][payload[0]] = text
abbrev pub name_bean : Option Text → List ℕ → Catalog → Result Catalog
name_bean none payload c = ok c
name_bean (some name) payload c =
    index payload 0 >>= λ slot. ok (record c { bean_names = insert slot name c.bean_names })

unfoldable pub fold_bean_name : List ℕ → Catalog → Result Catalog
fold_bean_name payload c = name_bean (decode_text (drop 2 payload)) payload c

unfoldable pub fold_family : Text → List ℕ → List ℕ → Catalog → Result Catalog
fold_family name family payload c =
    if text_eq family blob_family_descriptor
    then fold_descriptor name payload c
    else if text_eq family blob_family_profile_recipe
    then fold_profile_recipe name payload c
    else if text_eq family blob_family_priority
    then fold_priority payload c
    else if text_eq family blob_family_bean_names
    then fold_bean_name payload c
    else if text_eq family blob_family_profile_names
    then ok (record c {
      profile_slots = add_slots (keys (decode_slot_cells payload)) c.profile_slots;
      profile_names = update c.profile_names (decode_slot_names (decode_slot_cells payload));
    })
    else if text_eq family blob_family_custom_names
    then ok (record c {
      custom_names = update c.custom_names (decode_slot_names (decode_slot_cells payload));
    })
    else ok c

-- A truncated descriptor: the drink is declared, its ranges are not known.
unfoldable pub fold_truncated : Text → Blob → Catalog → Result Catalog
fold_truncated name blob c =
    if text_eq blob.family blob_family_descriptor && leb 5 (length blob.raw)
    then (do
      bev ← index blob.raw 4
      ok (record c {
        beverages =
            update_entry bev
              (λ item. record item {
                declared = true;
                descriptor_truncated = true;
                source_properties = item.source_properties ++ name ∷ [];
              })
              c.beverages;
      }))
    else ok c

abbrev counted : Blob → Catalog → Catalog
counted blob c = record c {
  stats = record c.stats {
    blobs = c.stats.blobs + 1;
    families = count_family blob.family_label c.stats.families;
  };
}

-- One turn of the loop of `build_catalog`.
unfoldable pub fold_blob : Text → Blob → Catalog → Result Catalog
fold_blob name blob before =
    let c = counted blob before in
    if blob.truncated
    then fold_truncated name blob
        (record c { stats = record c.stats { truncated = c.stats.truncated + 1 } })
    else if not blob.crc_valid
    then ok (record c { stats = record c.stats { crc_failed = c.stats.crc_failed + 1 } })
    else if ltb (length blob.payload) (min_payload blob.family)
    then ok (record c {
      stats = record c.stats {
        crc_ok = c.stats.crc_ok + 1;
        short_payloads = c.stats.short_payloads + 1;
      };
    })
    else fold_family name blob.family blob.payload
        (record c { stats = record c.stats { crc_ok = c.stats.crc_ok + 1 } })

unfoldable pub fold_blobs : List (Text × Blob) → Catalog → Result Catalog
fold_blobs [] c = ok c
fold_blobs ((name, blob) ∷ blobs) c = fold_blob name blob c >>= λ c'. fold_blobs blobs c'

-- for position, bev_id in enumerate(ids)
unfoldable pub place_ids : ℕ → ℕ → List ℕ → Dict Entry → Dict Entry
place_ids slot position [] beverages = beverages
place_ids slot position (b ∷ ids) beverages = place_ids slot (position + 1) ids (
    update_entry b
      (λ item. record item { priority_position = insert slot position item.priority_position })
      beverages)

unfoldable pub place_lists : Dict (List ℕ) → Dict Entry → Dict Entry
place_lists [] beverages = beverages
place_lists ((slot, ids) ∷ lists) beverages = place_lists lists (place_ids slot 0 ids beverages)

-- bev_id in listed
unfoldable pub is_listed : ℕ → Dict (List ℕ) → Bool
is_listed b lists = any (λ ids. any (λ i. i == b) ids) (values lists)

unfoldable pub map_values : (Entry → Entry) → Dict Entry → Dict Entry
map_values f [] = []
map_values f ((k, v) ∷ d) = (k, f v) ∷ map_values f d

unfoldable pub apply_priority : Dict Entry → Dict (List ℕ) → Dict Entry
apply_priority beverages [] = beverages
apply_priority beverages (l ∷ lists) =
    map_values (λ item. record item { in_priority_list = some (is_listed item.id (l ∷ lists)) })
      (place_lists (l ∷ lists) beverages)

-- params.get(tag), as a truth value
abbrev pours : ℕ → Dict ℕ → Bool
pours tag params = elim (lookup tag params) [ none ↦ false | some v ↦ not (v == 0) ]

unfoldable pub slot_is_defined : Dict ℕ → Bool
slot_is_defined params = pours 0x01 params || pours 0x09 params || pours 0x0f params

abbrev pub optional_eq : Option ℕ → Option ℕ → Bool
optional_eq none none = true
optional_eq (some a) (some b) = a == b
optional_eq _ _ = false

-- len({params.get(tag) for params in profiles.values()}) > 1
unfoldable pub tag_differs : ℕ → List (Dict ℕ) → Bool
tag_differs tag [] = false
tag_differs tag (p ∷ ps) = any (λ q. not (optional_eq (lookup tag p) (lookup tag q))) ps

unfoldable pub profiles_disagree : List (Dict ℕ) → Bool
profiles_disagree ps = any (λ p. any (λ tag. tag_differs tag ps) (keys p)) ps

-- [params[tag] for params in profiles.values() if tag in params]
unfoldable pub values_of_tag : ℕ → List (Dict ℕ) → List ℕ
values_of_tag tag [] = []
values_of_tag tag (p ∷ ps) =
    let rest = values_of_tag tag ps in elim (lookup tag p) [ none ↦ rest | some v ↦ v ∷ rest ]

abbrev changed_tag : ℕ → Triple → List ℕ → Dict Bool → Dict Bool
changed_tag tag triple [] rest = rest
changed_tag tag triple (v ∷ vs) rest = (tag, any (λ w. not (w == triple.default)) (v ∷ vs)) ∷ rest

unfoldable pub off_defaults : Dict Triple → List (Dict ℕ) → Dict Bool
off_defaults [] ps = []
off_defaults ((tag, triple) ∷ ranges) ps =
    changed_tag tag triple (values_of_tag tag ps) (off_defaults ranges ps)

abbrev pub has_entries {ℓ} : {V : Type ℓ} → Dict V → Bool
has_entries [] = false
has_entries (x ∷ d) = true

abbrev is_custom : Kind → Bool
is_custom custom = true
is_custom _ = false

unfoldable pub finalize : Entry → Entry
finalize item =
    let ps = values item.profiles in
    record item {
      defined =
          if is_custom item.kind && has_entries item.profiles
          then some (any slot_is_defined ps)
          else item.defined;
      profiles_differ =
          if ltb 1 (length item.profiles) then profiles_disagree ps else item.profiles_differ;
      off_default =
          if has_entries item.ranges && has_entries item.profiles
          then some (off_defaults item.ranges ps)
          else item.off_default;
    }

abbrev finished : Catalog → Catalog
finished c = record c { beverages = map_values finalize (apply_priority c.beverages c.priority) }

unfoldable pub build_catalog : Props → Result Catalog
build_catalog props = fold_blobs (iter_blobs props) empty_catalog >>= λ c. ok (finished c)
