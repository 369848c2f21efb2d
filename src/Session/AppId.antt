-- ===== src/Session/AppId.antt =====
-- coordinator.py and ayla_client.py: the holder of the session, read from the properties or from the
-- cloud (_read_app_id, _fetch_app_id_live, async_get_property_resilient).
use delonghi_coffeelink.Prelude.{
  ℕ, ◌≡◌, ap, sym, ◌∙◌, arith, Bool, true, false, not, ◌&&◌, ◌||◌, Option, none, some,
  if◌then◌else◌,
}
use delonghi_coffeelink.Prelude.Int.{ℤ, pos}
use delonghi_coffeelink.Prelude.Text.{Text, strip, not_blank}
use delonghi_coffeelink.Counters.{Raw, null, boolean, integer, string, float, structure, int10}
use delonghi_coffeelink.Command.{normalize_signed_app_id, low32}
use delonghi_coffeelink.Command.Tail.{low32-lt, signed32, normalize-eq, normalize_idem}
use delonghi_coffeelink.Client.{
  Reply, response, network_error, Answer, answered, failed, request_json, ok_only,
}

abbrev pub normalized : Option ℤ → Option ℤ
normalized none = none
normalized (some n) = some (normalize_signed_app_id n)

-- normalize_signed_app_id(int(str(raw).strip())), or none. The text of an integer is read back as
-- that integer, and the texts True and False are no numbers.
unfoldable pub parse_app_id_value : Raw → Option ℤ
parse_app_id_value null = none
parse_app_id_value (boolean b) = none
parse_app_id_value (integer n) = normalized (some n)
parse_app_id_value (string s) = normalized (int10 (strip s))
parse_app_id_value (float s n) = normalized (int10 (strip s))
parse_app_id_value (structure s) = normalized (int10 (strip s))

-- `_app_id_from_props`; the property is none where it is not there or no dictionary.
abbrev pub app_id_from_props : Option Raw → Option ℤ
app_id_from_props none = none
app_id_from_props (some raw) = parse_app_id_value raw

-- What the document of the cloud is: no dictionary, one without a property, or the property's value.
pub data Body : Type 0 where
  no_dictionary no_property : Body
  value : Raw → Body

-- What async_get_property_resilient makes of the answer: the value, a CloudError, the AttributeError
-- of `data.get` where the body is empty or no dictionary, or what async_authenticate raises: an
-- AuthError, or an error of the network or of a document, as it is, for neither is a CloudError.
pub data Property : Type 0 where
  found : Raw → Property
  cloud_error attribute_error sign_in_error : Property

abbrev pub property_of_body : Body → Property
property_of_body no_dictionary = attribute_error
property_of_body no_property = cloud_error
property_of_body (value raw) = found raw

abbrev pub property_of : Answer Body → Property
property_of (failed f) = cloud_error
property_of (answered none) = attribute_error
property_of (answered (some body)) = property_of_body body

-- `signed_in` is whether async_ensure_auth, which _request_json awaits first, returns: the token is
-- fresh or a new one is got. `parse` is `json.loads`, with the look at the document.
unfoldable pub get_property_resilient : Bool → (Text → Option Body) → (ℕ → Reply) → Property
get_property_resilient signed_in parse server =
    if signed_in then property_of (request_json parse ok_only server).answer else sign_in_error

-- The id and whether the cloud answered; none where an exception goes through.
abbrev pub fetched : Property → Option (Option ℤ × Bool)
fetched (found raw) = some (parse_app_id_value raw, true)
fetched cloud_error = some (none, false)
fetched attribute_error = none
fetched sign_in_error = none

unfoldable pub fetch_app_id_live :
    Bool → (Text → Option Body) → (ℕ → Reply) → Option (Option ℤ × Bool)
unfolding get_property_resilient
fetch_app_id_live signed_in parse server = fetched (get_property_resilient signed_in parse server)

abbrev id_of : Option (Option ℤ × Bool) → Option (Option ℤ)
id_of none = none
id_of (some (id, fetch_ok)) = some id

abbrev or_live : Option ℤ → Option (Option ℤ × Bool) → Option (Option ℤ)
or_live none fetched_id = id_of fetched_id
or_live (some id) fetched_id = some (some id)

-- `_read_app_id`, for the property of the last poll; none where an exception goes through.
unfoldable pub read_app_id :
    Bool → Option Raw → Bool → (Text → Option Body) → (ℕ → Reply) → Option (Option ℤ)
unfolding fetch_app_id_live
read_app_id live prop signed_in parse server =
    or_live (if live then none else app_id_from_props prop)
      (fetch_app_id_live signed_in parse server)

-- An accepted answer whose body is blank, or that is read as no dictionary.
abbrev odd_body : Option Body → Bool
odd_body (some no_dictionary) = true
odd_body _ = false

abbrev pub is_odd : (Text → Option Body) → Reply → Bool
is_odd parse network_error = false
is_odd parse (response status body) =
    ok_only status && (not (not_blank body) || odd_body (parse body))

low32-word : (id : ℤ) → low32 (pos (low32 id)) ≡ low32 id
unfolding low32
low32-word id = omega (arith, low32-lt id)

normalize-word : (id : ℤ) → normalize_signed_app_id (pos (low32 id)) ≡ normalize_signed_app_id id
unfolding low32
normalize-word id =
    normalize-eq (pos (low32 id)) ∙ ap signed32 (low32-word id) ∙ sym (normalize-eq id)

-- The id that the integration registers is read back as itself, whether the machine publishes it as
-- the signed number or as the word of 32 bits.
parse_app_id_value-own :
    (id : ℤ)
    → (parse_app_id_value (integer (normalize_signed_app_id id))
        ≡ some (normalize_signed_app_id id))
      × (parse_app_id_value (integer (pos (low32 id))) ≡ some (normalize_signed_app_id id))
unfolding parse_app_id_value
parse_app_id_value-own id = (ap some (normalize_idem id).0, ap some (normalize-word id))
