-- ===== src/Coordinator.antt =====
-- coordinator.py: one fetch of the coordinator (_fetch_once), over all the parts that it drives. What
-- the cloud returns is an argument.
pub mod Polls
use delonghi_coffeelink.Prelude.{
  ℕ, Bool, true, false, not, ◌||◌, Option, none, some, List, if◌then◌else◌,
}
use delonghi_coffeelink.Prelude.Int.{ℤ}
use delonghi_coffeelink.Prelude.Text.{Text}
use delonghi_coffeelink.Prelude.Result.{Result, Error, ok, err, update_failed}
use delonghi_coffeelink.Const.{
  command_property_candidates, response_property_candidates, connected_property_candidates,
}
use delonghi_coffeelink.Catalog.{Props, Prop, described, bare, Value, text, other, get_prop}
use delonghi_coffeelink.Profile.{
  ModelProfile, learns_from_app, uses_cloud_session, keeps_monitor_session, monitor_session_value,
  profile_for,
}
use delonghi_coffeelink.Session.{update_session_from_props}
use delonghi_coffeelink.Poll.{MonitorSession, refresh_monitor_session}
use delonghi_coffeelink.Poll.Fetch.{
  detect_property, detect_required, MonitorState, update_monitor, Cache, update_catalog,
}
use delonghi_coffeelink.Sniffer.{Sniffer, Datapoint}
use delonghi_coffeelink.Sniffer.Capture.{sniff_app_traffic}

-- The fields that a fetch reads and writes.
pub record Coordinator : Type 0 where
  pub oem_model : Option Text
  pub model : ModelProfile
  pub command_property : Option Text
  pub response_property : Option Text
  pub connected_property : Option Text
  pub cache : Cache
  pub sniffer : Sniffer
  pub monitoring : MonitorState
  pub keepalive : MonitorSession
  pub connection_status : Text
  pub device_seen_at : ℕ

-- What the cloud returns to one fetch: the properties with the times of their last writes, the
-- `app_id` among them, the status of this device where it is listed (none of it where the list is
-- refused), and whether it takes the keepalive.
pub record Fetched : Type 0 where
  pub now : ℕ
  pub props : Props
  pub data_updated_at : Text → Option (Option Text)
  pub published_at : Text → Option ℕ
  pub app_id : Option ℤ
  pub device : Option (Option Text)
  pub keepalive_accepted : Bool

abbrev pub text_of : Option Value → Option Text
text_of (some (text t)) = some t
text_of _ = none

-- A property that is a dictionary, as the sniffer reads it.
abbrev pub datapoint : Option (Option Text) → Option Prop → Option Datapoint
datapoint at (some (described v)) = some (record { value = text_of v; data_updated_at = at })
datapoint at _ = none

abbrev pub channel : Fetched → Option Text → Option Datapoint
channel f none = none
channel f (some name) = datapoint (f.data_updated_at name) (get_prop name f.props)

abbrev pub is_some {ℓ} : {A : Type ℓ} → Option A → Bool
is_some none = false
is_some (some a) = true

-- A property that is found once is kept.
abbrev pub or_detect : Option Text → Props → List Text → Option Text
or_detect (some name) props candidates = some name
or_detect none props candidates = detect_property props candidates

abbrev pub command_of : Option Text → Props → Result Text
command_of (some name) props = ok name
command_of none props = detect_required props command_property_candidates

-- The profile is refined with the command property that is found now.
abbrev pub refined : Option Text → Text → Coordinator → ModelProfile
refined (some old) name c = c.model
refined none name c = profile_for c.oem_model (some name)

abbrev pub connected_of : Bool → Option Text → Props → Option Text
connected_of needed old props =
    if needed then or_detect old props connected_property_candidates else old

-- The properties and the profile, and the flags of the parts that follow them.
unfoldable pub with_channels : Fetched → Text → Coordinator → Coordinator
with_channels f name c =
    let model = refined c.command_property name c in
    let connected =
      connected_of (uses_cloud_session model || keeps_monitor_session model) c.connected_property
        f.props in
    record c {
      model = model;
      command_property = some name;
      response_property = or_detect c.response_property f.props response_property_candidates;
      connected_property = connected;
      sniffer = record c.sniffer {
        learns_from_app = learns_from_app model;
        session = record c.sniffer.session {
          uses_cloud_session = uses_cloud_session model;
          connected_property = is_some connected;
        };
      };
      keepalive = record c.keepalive {
        keeps_monitor_session = keeps_monitor_session model;
        connected_property = is_some connected;
        session_value = is_some (monitor_session_value f.now model);
      };
    }

-- The catalogue before the sniffer, which asks for the beverages that it declares; then the monitor
-- and the session.
unfoldable pub read_props : Fetched → Coordinator → Coordinator
read_props f c =
    let cache = update_catalog f.props c.cache in
    let sniffed =
      sniff_app_traffic f.now (channel f c.command_property) (channel f c.response_property)
        (record c.sniffer { catalog = cache.catalog }) in
    record c {
      cache = cache;
      sniffer = record sniffed { session = update_session_from_props f.app_id sniffed.session };
      monitoring = update_monitor f.published_at f.props c.monitoring;
    }

abbrev pub seen : ℕ → Option Text → Coordinator → Coordinator
seen now none c = c
seen now (some status) c = record c { connection_status = status; device_seen_at = now }

-- The list of the devices, and the keepalive for the next poll.
unfoldable pub finish_fetch :
    Fetched → Option (Option Text) → Coordinator → Coordinator × Option Error
finish_fetch f none c = (c, some update_failed)
finish_fetch f (some status) c = (
  record (seen f.now status c) {
    keepalive = (refresh_monitor_session f.now f.keepalive_accepted c.keepalive).1;
  },
  none,
)

abbrev pub fetch_on : Result Text → Fetched → Coordinator → Coordinator × Option Error
fetch_on (err e) f c = (c, some update_failed)
fetch_on (ok name) f c = finish_fetch f f.device (read_props f (with_channels f name c))

-- `_fetch_once` over properties that the cloud has returned; where it returns none, UpdateFailed is
-- raised and nothing changes.
unfoldable pub fetch_once : Option Fetched → Coordinator → Coordinator × Option Error
fetch_once none c = (c, some update_failed)
fetch_once (some f) c = fetch_on (command_of c.command_property f.props) f c
