-- ===== src/Sniffer/Load.antt =====
-- coordinator.py: the learned frames that are loaded at the start.
use delonghi_coffeelink.Prelude.{ℕ, Bool, true, false, Option, none, some}
use delonghi_coffeelink.Prelude.Text.{Text}
use delonghi_coffeelink.Prelude.Result.{Result, ok, err, ◌>>=◌}
use delonghi_coffeelink.Command.Inspect.{
  decode_command, replay_with_timestamp, validate_replayed_wake_frame, is_wake_power_frame,
}
use delonghi_coffeelink.Command.Learn.{Frames, Storage, deserialize_learned_frames}
use delonghi_coffeelink.Sniffer.{Sniffer, Sniffed, refresh_from_learned}

-- The end of `async_load_learned`, for the answer of the test of the wake frame.
abbrev pub keep_checked : Result Bool → Sniffer → Sniffed
keep_checked (err e) c = (c, some e)
keep_checked (ok true) c = refresh_from_learned c
keep_checked (ok false) c = refresh_from_learned (record c { learned_wake_frame = none })

abbrev pub check_wake : ℕ → Bool → Text → Result Bool
check_wake now true wake =
    replay_with_timestamp now wake none >>= λ replayed. validate_replayed_wake_frame replayed
check_wake now false wake = decode_command wake >>= λ decoded. ok (is_wake_power_frame decoded)

abbrev pub sanitize : ℕ → Option Text → Sniffer → Sniffed
sanitize now none c = refresh_from_learned c
sanitize now (some wake) c = keep_checked (check_wake now c.learns_from_app wake) c

abbrev pub restore : Frames × Frames × Option Text → Sniffer → Sniffer
restore (start, stop, wake) c = record c {
  learned_start_frames = start;
  learned_stop_frames = stop;
  learned_wake_frame = wake;
}

-- `loaded` is what the store gives: an exception, or its dictionary, with an empty one as `none`.
unfoldable pub load_learned : ℕ → Result (Option Storage) → Sniffer → Sniffed
load_learned now (err e) c = (c, none)
load_learned now (ok none) c = (c, none)
load_learned now (ok (some stored)) c =
    let restored = restore (deserialize_learned_frames (some stored)) c in
    sanitize now restored.learned_wake_frame restored
