-- ===== src/Entities/Distinct.antt =====
-- sensor.py: no two sensors of a machine have the same unique id.
use mathlib.Core.List.{map-append}
use delonghi_coffeelink.Prelude.{
  ◌≡◌, refl, ap, sym, subst, ◌∙◌, Bool, true, false, not, ◌&&◌, ◌||◌, Option, none, some, List, [],
  ◌∷◌, ◌++◌, map, &&_parts, ==_refl,
}
use delonghi_coffeelink.Prelude.Text.{Text, codes, in_texts, text_eq}
use delonghi_coffeelink.Const.Tables.{Row, counter_sensors, info_sensors}
use delonghi_coffeelink.Catalog.{Props}
use delonghi_coffeelink.Profile.{ModelProfile, uses_cloud_session}
use delonghi_coffeelink.Entities.Sensors.{
  Sensor, counter, info, resolve_property, has_property, add_resolved, row_sensors, session_sensors,
  device_sensors, sensors_of, unique_suffix, unique_id, sensor_ids,
}

-- No text occurs twice.
unfoldable pub distinct : List Text → Bool
distinct [] = true
distinct (t ∷ ts) = not (in_texts t ts) && distinct ts

-- The first list is the second with some of its texts left out.
data IsPart : List Text → List Text → Type 0 where
  nothing : IsPart [] []
  keep : (t : Text) {xs ys : List Text} → IsPart xs ys → IsPart (t ∷ xs) (t ∷ ys)
  skip : (t : Text) {xs ys : List Text} → IsPart xs ys → IsPart xs (t ∷ ys)

or_false_parts : (a b : Bool) → (a || b) ≡ false → (a ≡ false) × (b ≡ false)
or_false_parts true b h = cc
or_false_parts false b h = (refl, h)

IsPart-append :
    (xs ys zs ws : List Text) → IsPart xs ys → IsPart zs ws → IsPart (xs ++ zs) (ys ++ ws)
IsPart-append [] [] zs ws nothing q = q
IsPart-append (_ ∷ xs) [] zs ws p q = elim p [ ]
IsPart-append (_ ∷ xs) (_ ∷ ys) zs ws (keep t p) q = keep t (IsPart-append xs ys zs ws p q)
IsPart-append xs (_ ∷ ys) zs ws (skip t p) q = skip t (IsPart-append xs ys zs ws p q)

IsPart-in_texts :
    (t : Text) (xs ys : List Text) → IsPart xs ys → in_texts t ys ≡ false → in_texts t xs ≡ false
unfolding in_texts
IsPart-in_texts t [] [] nothing h = refl
IsPart-in_texts t (_ ∷ xs) [] p h = elim p [ ]
IsPart-in_texts t (_ ∷ xs) (_ ∷ ys) (keep u p) h =
    let (here, later) = or_false_parts (text_eq t u) (in_texts t ys) h in
    rw here (IsPart-in_texts t xs ys p later)
IsPart-in_texts t xs (_ ∷ ys) (skip u p) h =
    IsPart-in_texts t xs ys p (or_false_parts (text_eq t u) (in_texts t ys) h).1

not-true : (b : Bool) → not b ≡ true → b ≡ false
not-true true h = cc
not-true false h = refl

IsPart-distinct : (xs ys : List Text) → IsPart xs ys → distinct ys ≡ true → distinct xs ≡ true
unfolding distinct
IsPart-distinct [] [] nothing h = refl
IsPart-distinct (_ ∷ xs) [] p h = elim p [ ]
IsPart-distinct (_ ∷ xs) (_ ∷ ys) (keep t p) h =
    let (apart, rest) = &&_parts (not (in_texts t ys)) (distinct ys) h in
    rw (IsPart-in_texts t xs ys p (not-true (in_texts t ys) apart)) (IsPart-distinct xs ys p rest)
IsPart-distinct xs (_ ∷ ys) (skip t p) h =
    IsPart-distinct xs ys p (&&_parts (not (in_texts t ys)) (distinct ys) h).1

-- The texts with one and the same start.
text_eq-append : (p s t : Text) → text_eq (p ++ s) (p ++ t) ≡ text_eq s t
unfolding text_eq
text_eq-append [] s t = refl
text_eq-append (c ∷ p) s t = rw (==_refl c) (text_eq-append p s t)

in_texts-append :
    (p s : Text) (ts : List Text) → in_texts (p ++ s) (map (λ t. p ++ t) ts) ≡ in_texts s ts
unfolding in_texts
in_texts-append p s [] = refl
in_texts-append p s (t ∷ ts) = rw (text_eq-append p s t, in_texts-append p s ts) refl

distinct-append : (p : Text) (ts : List Text) → distinct (map (λ t. p ++ t) ts) ≡ distinct ts
unfolding distinct
distinct-append p [] = refl
distinct-append p (t ∷ ts) = rw (in_texts-append p t ts, distinct-append p ts) refl

abbrev keys : List Row → List Text
keys [] = []
keys (row ∷ rows) = row.key ∷ keys rows

abbrev suffixes : List Sensor → List Text
suffixes = map unique_suffix

-- The keys of the tables and of the other sensors.
all_keys : List Text
all_keys =
    keys counter_sensors
    ++ (keys info_sensors ++ (suffixes device_sensors ++ codes "cloud_session_app_id" ∷ []))

all_keys-distinct : distinct all_keys ≡ true
unfolding distinct in_texts text_eq all_keys
all_keys-distinct = refl

add_resolved-IsPart :
    (kind : Text → Text → Sensor) (key : Text) (o : Option Text) (sensors : List Sensor)
    (ys : List Text)
    → ((prop_name : Text) → unique_suffix (kind prop_name key) ≡ key)
    → IsPart (suffixes sensors) ys
    → IsPart (suffixes (add_resolved kind key o sensors)) (key ∷ ys)
add_resolved-IsPart kind key none sensors ys named p = skip key p
add_resolved-IsPart kind key (some prop_name) sensors ys named p = rw (named prop_name) (keep key p)

row_sensors-IsPart :
    (kind : Text → Text → Sensor) (props : Props) (rows : List Row)
    → ((prop_name key : Text) → unique_suffix (kind prop_name key) ≡ key)
    → IsPart (suffixes (row_sensors kind props rows)) (keys rows)
unfolding row_sensors
row_sensors-IsPart kind props [] named = nothing
row_sensors-IsPart kind props (row ∷ rows) named =
    add_resolved-IsPart kind row.key (resolve_property props row.candidates)
      (row_sensors kind props rows) (keys rows) (λ prop_name. named prop_name row.key)
      (row_sensors-IsPart kind props rows named)

session_sensors-IsPart :
    (b : Bool) → IsPart (suffixes (session_sensors b)) (codes "cloud_session_app_id" ∷ [])
session_sensors-IsPart true = keep (codes "cloud_session_app_id") nothing
session_sensors-IsPart false = skip (codes "cloud_session_app_id") nothing

IsPart-refl : (xs : List Text) → IsPart xs xs
IsPart-refl [] = nothing
IsPart-refl (x ∷ xs) = keep x (IsPart-refl xs)

suffixes-append :
    (xs ys : List Sensor) (zs ws : List Text)
    → IsPart (suffixes xs) zs
    → IsPart (suffixes ys) ws
    → IsPart (suffixes (xs ++ ys)) (zs ++ ws)
suffixes-append xs ys zs ws p q =
    subst (λ (ts : List Text). IsPart ts (zs ++ ws)) (sym (map-append unique_suffix xs ys))
      (IsPart-append (suffixes xs) zs (suffixes ys) ws p q)

-- The suffixes that are used are among those that there are.
sensors_of-IsPart :
    (model : ModelProfile) (props : Props) → IsPart (suffixes (sensors_of model props)) all_keys
unfolding sensors_of all_keys
sensors_of-IsPart model props =
    let last : Bool = uses_cloud_session model && has_property props (codes "app_id") in
    suffixes-append (row_sensors counter props counter_sensors)
      (row_sensors info props info_sensors ++ (device_sensors ++ session_sensors last))
      (keys counter_sensors)
      (keys info_sensors ++ (suffixes device_sensors ++ codes "cloud_session_app_id" ∷ []))
      (row_sensors-IsPart counter props counter_sensors (λ n k. refl))
      (suffixes-append (row_sensors info props info_sensors)
        (device_sensors ++ session_sensors last) (keys info_sensors)
        (suffixes device_sensors ++ codes "cloud_session_app_id" ∷ [])
        (row_sensors-IsPart info props info_sensors (λ n k. refl))
        (suffixes-append device_sensors (session_sensors last) (suffixes device_sensors)
          (codes "cloud_session_app_id" ∷ []) (IsPart-refl (suffixes device_sensors))
          (session_sensors-IsPart last)))

ids-append :
    (dsn : Text) (sensors : List Sensor)
    → map (unique_id dsn) sensors ≡ map (λ t. dsn ++ t) (map (λ t. b'_' ∷ t) (suffixes sensors))
ids-append dsn [] = refl
ids-append dsn (s ∷ sensors) =
    ap (λ (ts : List Text). unique_id dsn s ∷ ts) (ids-append dsn sensors)

-- Whatever a machine of any model publishes, no two of its sensors have the same unique id.
pub sensor_ids-distinct :
    (dsn : Text) (model : ModelProfile) (props : Props)
    → distinct (sensor_ids dsn model props) ≡ true
unfolding sensor_ids
sensor_ids-distinct dsn model props =
    let sensors : List Sensor = sensors_of model props in
    ap distinct (ids-append dsn sensors)
    ∙ distinct-append dsn (map (λ t. b'_' ∷ t) (suffixes sensors))
    ∙ distinct-append (b'_' ∷ []) (suffixes sensors)
    ∙ IsPart-distinct (suffixes sensors) all_keys (sensors_of-IsPart model props) all_keys-distinct
