-- ===== src/Client.antt =====
-- ayla_client.py: the requests to the Ayla cloud and what is read out of the answers. The server's
-- answers, the clock, `json.loads` and the login are arguments.
pub mod Retry
pub mod Session
use delonghi_coffeelink.Prelude.{
  ℕ, zero, suc, ◌+◌, ◌-◌, ◌*◌, Bool, true, false, not, ◌&&◌, ◌||◌, Option, none, some, List, [],
  ◌∷◌, ◌++◌, ltb, ◌==◌, if◌then◌else◌,
}
use delonghi_coffeelink.Prelude.Int.{ℤ}
use delonghi_coffeelink.Prelude.Result.{Result, ok, err, ◌>>=◌}
use delonghi_coffeelink.Prelude.Text.{Text, codes, text_eq, not_blank}
use delonghi_coffeelink.Bytes.{to_bytes4}
use delonghi_coffeelink.Base64.{b64encode}
use delonghi_coffeelink.Const.{
  cloud_http_retry_count, cloud_http_retry_backoff, is_transient_http_code,
}
use delonghi_coffeelink.Command.{session_id_to_tail_bytes}

-- The token of the client: whether there is one, and when it expires, in seconds.
pub record Token : Type 0 where
  pub access_token : Bool
  pub expires_at : ℕ

-- `time.time() > expires_at - 30`, for a clock that may stand before the thirtieth second.
unfoldable pub needs_auth : ℕ → Token → Bool
needs_auth now t = not t.access_token || ltb t.expires_at (now + 30)

-- `login` is the answer of `async_authenticate`: the time when the new token expires, or nothing
-- where it raises AuthError.
unfoldable pub ensure_auth : ℕ → Option ℕ → Token → Option Token
ensure_auth now login t =
    if needs_auth now t
    then (elim login [
      | none ↦ none
      | some expires ↦ some (record { access_token = true; expires_at = expires })
    ])
    else some t

-- What comes back for one request: a status and a body, or an error of the network.
pub data Reply : Type 0 where
  response : ℕ → Text → Reply
  network_error : Reply

-- The CloudError of the source: an answer with a status, a body that is no JSON, an error of the
-- network, or the end of the loop without any of these.
pub data Fault : Type 0 where
  http_status : ℕ → Fault
  not_json : ℕ → Fault
  network exhausted : Fault

pub data Answer (Json : Type 0) : Type 0 where
  answered : Option Json → Answer Json
  failed : Fault → Answer Json

-- What the loop did: its answer, the number of requests, and the pauses in milliseconds.
pub record Exchange (Json : Type 0) : Type 0 where
  pub answer : Answer Json
  pub requests : ℕ
  pub pauses : List ℕ

-- The end of one attempt that is not repeated.
unfoldable pub judge : {Json : Type 0} → (Text → Option Json) → (ℕ → Bool) → Reply → Answer Json
judge parse ok_status network_error = failed network
judge parse ok_status (response status body) =
    if not (ok_status status)
    then failed (http_status status)
    else if not (not_blank body)
    then answered none
    else (elim (parse body) [ none ↦ failed (not_json status) | some j ↦ answered (some j) ])

abbrev pub is_transient : Reply → Bool
is_transient network_error = true
is_transient (response status body) = is_transient_http_code status

abbrev last_fault : Option Fault → Fault
last_fault none = exhausted
last_fault (some f) = f

-- `last_error` after an attempt that is repeated.
abbrev fault_of : Reply → Option Fault → Option Fault
fault_of network_error last = some network
fault_of (response status body) last = last

abbrev pub again : {Json : Type 0} → ℕ → Exchange Json → Exchange Json
again pause e = record { answer = e.answer; requests = e.requests + 1; pauses = pause ∷ e.pauses }

-- The loop of `_request_json`: `left` attempts are left, `attempt` is the number of the next one.
unfoldable pub request_from :
    {Json : Type 0}
    → (Text → Option Json)
    → (ℕ → Bool)
    → (ℕ → Reply)
    → ℕ
    → ℕ
    → Option Fault
    → Exchange Json
request_from parse ok_status server zero attempt last = record {
  answer = failed (last_fault last);
  requests = 0;
  pauses = [];
}
request_from parse ok_status server (suc left) attempt last =
    let reply = server attempt in
    let later = request_from parse ok_status server left (attempt + 1) (fault_of reply last) in
    if is_transient reply && ltb attempt cloud_http_retry_count
    then again (cloud_http_retry_backoff * (attempt + 1)) later
    else record { answer = judge parse ok_status reply; requests = 1; pauses = [] }

-- `_request_json` behind `async_ensure_auth`; `server` answers the attempts by their number.
unfoldable pub request_json :
    {Json : Type 0} → (Text → Option Json) → (ℕ → Bool) → (ℕ → Reply) → Exchange Json
request_json parse ok_status server =
    request_from parse ok_status server (cloud_http_retry_count + 1) 0 none

-- frozenset({200, 201}), and frozenset({200})
abbrev pub ok_created : ℕ → Bool
ok_created s = s == 200 || s == 201

abbrev pub ok_only : ℕ → Bool
ok_only s = s == 200

-- `async_set_property_value`: one request, whose body is not read where the write is taken.
unfoldable pub set_property_value : Reply → Answer (Unit {0})
set_property_value network_error = failed network
set_property_value (response status body) =
    if not (ok_created status) then failed (http_status status) else answered none

-- The payload of `async_post_cloud_session`, which raises OverflowError for a clock of more than 32
-- bits. The id is written by `integration_app_id_to_bytes`.
unfoldable pub integration_app_id_to_bytes : ℤ → Result (List ℕ)
unfolding session_id_to_tail_bytes
integration_app_id_to_bytes app_id = session_id_to_tail_bytes app_id

unfoldable pub session_payload : ℕ → ℤ → Result Text
session_payload now app_id = do
  seconds ← to_bytes4 now
  tail ← integration_app_id_to_bytes app_id
  ok (b64encode (seconds ++ tail))

-- A device as the cloud lists it, a key that is missing or null as `none`.
pub record Listed : Type 0 where
  pub dsn : Option Text
  pub product_name : Option Text
  pub oem_model : Option Text
  pub connection_status : Option Text
  pub connected_at : Option Text

-- The fields of AylaDevice that the program decides by.
pub record AylaDevice : Type 0 where
  pub dsn : Text
  pub name : Text
  pub oem_model : Text
  pub connection_status : Text
  pub connected_at : Text

abbrev pub or_text : Option Text → Text → Text
or_text none t = t
or_text (some s) t = s

-- `a or b`, for a text that may be missing or empty
abbrev pub or_filled : Option Text → Text → Text
or_filled none t = t
or_filled (some []) t = t
or_filled (some (c ∷ s)) t = c ∷ s

unfoldable pub read_device : Listed → AylaDevice
read_device d = record {
  dsn = or_text d.dsn [];
  name = or_filled d.product_name (or_text d.dsn []);
  oem_model = or_text d.oem_model [];
  connection_status = or_text d.connection_status (codes "Unknown");
  connected_at = or_filled d.connected_at [];
}

-- `async_get_properties`: the entries that have a name, the later of two with one name in the
-- place of the earlier.
unfoldable pub put_named : {P : Type 0} → Text → P → List (Text × P) → List (Text × P)
put_named n p [] = (n, p) ∷ []
put_named n p ((m, q) ∷ props) =
    let rest = put_named n p props in if text_eq n m then (m, p) ∷ props else (m, q) ∷ rest

unfoldable pub collect_properties :
    {P : Type 0} → List (Option Text × P) → List (Text × P) → List (Text × P)
collect_properties [] props = props
collect_properties ((none, p) ∷ items) props = collect_properties items props
collect_properties ((some [], p) ∷ items) props = collect_properties items props
collect_properties ((some (c ∷ n), p) ∷ items) props =
    collect_properties items (put_named (c ∷ n) p props)

unfoldable pub get_properties : {P : Type 0} → Option (List (Option Text × P)) → List (Text × P)
get_properties none = []
get_properties (some items) = collect_properties items []
