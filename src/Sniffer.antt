-- ===== src/Sniffer.antt =====
-- coordinator.py: the command sniffer, which tells the frames of the official app from those of the
-- integration, and the frames that are learned from it. Each part returns the state that it leaves
-- and what it raises: an exception keeps what was assigned before it.
pub mod Load
pub mod Capture
pub mod Attribution
pub mod Holds
pub mod Teach
pub mod Learned
pub mod Restore
use delonghi_coffeelink.Prelude.{
  ℕ, ◌+◌, ◌-◌, Bool, true, false, not, ◌&&◌, ◌||◌, Option, none, some, List, [], ◌∷◌, ◌++◌, map,
  length, drop, ◌==◌, if◌then◌else◌,
}
use delonghi_coffeelink.Prelude.Int.{ℤ, pos}
use delonghi_coffeelink.Prelude.Text.{Text, text_eq, in_texts, equal_texts, strip, not_blank}
use delonghi_coffeelink.Prelude.Result.{Result, Error, ok, err, ◌>>=◌}
use delonghi_coffeelink.Const.{action_stop}
use delonghi_coffeelink.Command.Inspect.{
  Decoded, FrameType, power, decode_command, replay_with_timestamp, is_type,
  validate_replayed_wake_frame, is_wake_power_frame,
}
use delonghi_coffeelink.Command.Learn.{
  Frames, Storage, find_frame, put_frame, learnable_beverage_id, builder_structural_b64,
  serialize_learned_frames, deserialize_learned_frames,
}
use delonghi_coffeelink.Command.Signature.{first_device_signature, app_id_from_signature}
use delonghi_coffeelink.Catalog.Build.{Catalog}
use delonghi_coffeelink.Catalog.Views.{catalog_beverage_ids}
use delonghi_coffeelink.Session.{Session, refresh_device_app_id}

-- What the sniffer keeps of a frame: its decoding, and the keys that it adds.
pub record Captured : Type 0 where
  pub decoded : Decoded
  pub from_app : Bool
  pub captured_at : Option Text
  pub builder_structural : Option Text

-- `saves` counts the debounced writes of the store that were asked for.
pub record Sniffer : Type 0 where
  pub learns_from_app : Bool
  pub catalog : Option Catalog
  pub last_cmd_marker : Option Text
  pub last_resp_marker : Option Text
  pub sent_values : List Text
  pub last_captured_command : Option Captured
  pub last_machine_response : Option Captured
  pub learned_start_frames : Frames
  pub learned_stop_frames : Frames
  pub learned_wake_frame : Option Text
  pub session : Session
  pub saves : ℕ

-- The state that is left, and the exception, if there is one.
abbrev pub Sniffed : Type 0
Sniffed = Sniffer × Option Error

-- The value of a property where it is a text, and its "data_updated_at", where the key is there.
pub record Datapoint : Type 0 where
  pub value : Option Text
  pub data_updated_at : Option (Option Text)

-- deque(maxlen=32).append
unfoldable pub record_sent : Text → List Text → List Text
record_sent value sent = let all = sent ++ value ∷ [] in drop (length all - 32) all

abbrev frame_texts : Frames → List (Option Text)
frame_texts [] = []
frame_texts ((bev, frame) ∷ frames) = some frame ∷ frame_texts frames

unfoldable pub learned_device_signature : Sniffer → Result (Option (List ℕ))
learned_device_signature c = first_device_signature (
    c.learned_wake_frame
    ∷ (frame_texts c.learned_start_frames ++ frame_texts c.learned_stop_frames))

abbrev pub rebound : Result (Option (List ℕ)) → Sniffer → Sniffed
rebound (err e) c = (c, some e)
rebound (ok signature) c =
    (record c { session = refresh_device_app_id (app_id_from_signature signature) c.session }, none)

-- `_refresh_device_app_id` over the frames that are learned now.
unfoldable pub refresh_from_learned : Sniffer → Sniffed
refresh_from_learned c = rebound (learned_device_signature c) c

-- The store is asked to save, and the id is derived again.
abbrev pub saved : Sniffer → Sniffed
saved c = refresh_from_learned (record c { saves = c.saves + 1 })

unfoldable pub learned_storage_data : Sniffer → Storage
learned_storage_data c =
    serialize_learned_frames c.learned_start_frames c.learned_stop_frames c.learned_wake_frame

abbrev pub is_stop : Option ℕ → Bool
is_stop none = false
is_stop (some a) = a == action_stop

unfoldable pub learn_wake : Text → Sniffer → Sniffed
learn_wake raw c =
    if equal_texts c.learned_wake_frame (some raw)
    then (c, none)
    else saved (record c { learned_wake_frame = some raw })

unfoldable pub learn_stop : ℕ → Text → Sniffer → Sniffed
learn_stop bev raw c =
    if equal_texts (find_frame (pos bev) c.learned_stop_frames) (some raw)
    then (c, none)
    else saved (record c { learned_stop_frames = put_frame (pos bev) raw c.learned_stop_frames })

unfoldable pub learn_start : ℕ → Text → Sniffer → Sniffed
learn_start bev raw c =
    if equal_texts (find_frame (pos bev) c.learned_start_frames) (some raw)
    then (c, none)
    else saved (record c { learned_start_frames = put_frame (pos bev) raw c.learned_start_frames })

abbrev pub learn_beverage : Decoded → Option ℕ → Sniffer → Sniffed
learn_beverage decoded none c = (c, none)
learn_beverage decoded (some bev) c =
    if is_stop decoded.action
    then learn_stop bev decoded.raw_b64 c
    else learn_start bev decoded.raw_b64 c

unfoldable pub maybe_learn_frame : Decoded → Sniffer → Sniffed
maybe_learn_frame decoded c =
    if not c.learns_from_app
    then (c, none)
    else if text_eq decoded.raw_b64 []
    then (c, none)
    else if is_type power decoded.type
    then (if is_wake_power_frame decoded then learn_wake decoded.raw_b64 c else (c, none))
    else learn_beverage decoded
        (learnable_beverage_id decoded (some (catalog_beverage_ids c.catalog))) c
