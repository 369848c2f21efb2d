-- ===== src/Poll/Fetch.antt =====
-- coordinator.py: what a poll makes of the properties: the channels of the model, the monitor and the
-- catalogue.
use delonghi_coffeelink.Prelude.{
  ℕ, Bool, true, false, ◌&&◌, ◌||◌, Option, none, some, List, [], ◌∷◌, ltb, if◌then◌else◌,
}
use delonghi_coffeelink.Prelude.Text.{Text, text_eq, not_blank}
use delonghi_coffeelink.Prelude.Result.{Result, ok, err, cloud_error, ◌>>=◌}
use delonghi_coffeelink.Const.{monitor_max_age, monitor_property_candidates}
use delonghi_coffeelink.Catalog.{
  Props, Prop, described, Value, text, other, get_prop, catalog_fingerprint,
}
use delonghi_coffeelink.Catalog.Build.{Catalog, build_catalog}
use delonghi_coffeelink.Monitor.{Reading, failed, reading, parse_monitor_b64}

-- candidate in props
abbrev pub has_name : Text → Props → Bool
has_name name [] = false
has_name name ((n, prop) ∷ props) = text_eq name n || has_name name props

-- `_detect_property`, where the property is not required
unfoldable pub detect_property : Props → List Text → Option Text
detect_property props [] = none
detect_property props (candidate ∷ candidates) =
    let rest = detect_property props candidates in
    if has_name candidate props then some candidate else rest

abbrev pub or_cloud_error : Option Text → Result Text
or_cloud_error none = err cloud_error
or_cloud_error (some name) = ok name

-- The same where it is required.
unfoldable pub detect_required : Props → List Text → Result Text
detect_required props candidates = or_cloud_error (detect_property props candidates)

abbrev pub filled : Value → Option Text
filled other = none
filled (text t) = if not_blank t then some t else none

abbrev pub text_value : Option Prop → Option Text
text_value (some (described (some v))) = filled v
text_value _ = none

-- The value of a monitor candidate that is a text with characters.
unfoldable pub monitor_value : Props → Text → Option Text
monitor_value props name = text_value (get_prop name props)

-- A candidate that carries data, decoded.
abbrev pub with_candidate :
    Text → Option Text → Result (List (Text × Reading)) → Result (List (Text × Reading))
with_candidate name none rest = rest
with_candidate name (some value) rest = do
  mon ← parse_monitor_b64 value
  later ← rest
  ok ((name, mon) ∷ later)

unfoldable pub decoded_candidates : Props → List Text → Result (List (Text × Reading))
decoded_candidates props [] = ok []
decoded_candidates props (name ∷ names) =
    with_candidate name (monitor_value props name) (decoded_candidates props names)

-- `monitor` is none where the source has an empty dictionary.
pub record MonitorState : Type 0 where
  pub monitor : Option Reading
  pub monitor_property : Option Text
  pub monitor_updated_at : Option ℕ

abbrev pub is_decoded : Reading → Bool
is_decoded (failed f) = false
is_decoded (reading m) = true

-- The first that is decoded.
unfoldable pub first_decoded : List (Text × Reading) → Option (Text × Reading)
first_decoded [] = none
first_decoded ((name, mon) ∷ available) =
    let rest = first_decoded available in if is_decoded mon then some (name, mon) else rest

-- chosen or available[0]
abbrev pub or_available : Option (Text × Reading) → List (Text × Reading) → Option (Text × Reading)
or_available (some chosen) available = some chosen
or_available none [] = none
or_available none (first ∷ available) = some first

abbrev pub take_monitor : (Text → Option ℕ) → Option (Text × Reading) → MonitorState → MonitorState
take_monitor published_at none m = record m { monitor = none }
take_monitor published_at (some (name, mon)) m = record {
  monitor = some mon;
  monitor_property = some name;
  monitor_updated_at = published_at name;
}

abbrev pub choose_monitor :
    (Text → Option ℕ) → Result (List (Text × Reading)) → MonitorState → MonitorState
choose_monitor published_at (err e) m = record m { monitor = none }
choose_monitor published_at (ok available) m =
    take_monitor published_at (or_available (first_decoded available) available) m

-- `_update_monitor`; `published_at` reads the time of a property, which is the library's.
unfoldable pub update_monitor : (Text → Option ℕ) → Props → MonitorState → MonitorState
update_monitor published_at props m =
    choose_monitor published_at (decoded_candidates props monitor_property_candidates) m

-- `age` is in seconds, and none without a time from the cloud.
abbrev pub monitor_is_stale : Option ℕ → Bool
monitor_is_stale none = false
monitor_is_stale (some age) = ltb monitor_max_age age

pub record Cache : Type 0 where
  pub catalog : Option Catalog
  pub fingerprint : Option (List (Text × Text))

abbrev pub same_entries : List (Text × Text) → List (Text × Text) → Bool
same_entries [] [] = true
same_entries ((n, v) ∷ es) ((m, w) ∷ ds) = (text_eq n m && text_eq v w) && same_entries es ds
same_entries _ _ = false

abbrev pub same_fingerprint : List (Text × Text) → Option (List (Text × Text)) → Bool
same_fingerprint es none = false
same_fingerprint es (some ds) = same_entries es ds

abbrev pub has_catalog : Option Catalog → Bool
has_catalog none = false
has_catalog (some c) = true

-- catalog["source"] == "empty"
abbrev pub is_empty_catalog : Catalog → Bool
is_empty_catalog c = elim c.beverages [ [] ↦ true | _ ∷ _ ↦ false ]

abbrev pub keep_catalog : List (Text × Text) → Result Catalog → Cache → Cache
keep_catalog key (err e) s = s
keep_catalog key (ok c) s =
    if is_empty_catalog c then s else record { catalog = some c; fingerprint = some key }

-- `_update_catalog`; what is raised is logged.
unfoldable pub update_catalog : Props → Cache → Cache
update_catalog props s =
    let key = catalog_fingerprint props in
    if same_fingerprint key s.fingerprint && has_catalog s.catalog
    then s
    else keep_catalog key (build_catalog props) s
