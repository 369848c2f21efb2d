-- ===== src/Tests.antt =====
-- The theorems at concrete inputs: frames and packets of the reference machines, and short sessions.
pub mod Commands
pub mod Services
pub mod Entities
use delonghi_coffeelink.Prelude.{
  ℕ, ◌-◌, ◌≡◌, ◌≢◌, refl, arith, true, false, not, ◌&&◌, ◌||◌, Option, none, some, [], ◌∷◌, ◌++◌,
  any, ltb, ◌==◌, if◌then◌else◌,
}
use delonghi_coffeelink.Prelude.Result.{ok, err, update_failed, Returns, IsSafe}
use delonghi_coffeelink.Prelude.Text.{codes}
use delonghi_coffeelink.Prelude.Int.{ℤ, pos, negsuc, eqb_ℤ}
use delonghi_coffeelink.Bytes.{be4}
use delonghi_coffeelink.Crc.{crc16_aug_ccitt}
use delonghi_coffeelink.Crc.Residue.{crc_detects_byte}
use delonghi_coffeelink.Bytes.{be2, from_bytes}
use delonghi_coffeelink.Base64.{b64encode}
use delonghi_coffeelink.Command.{
  build_beverage_command, build_power_command, build_profile_command, session_id_to_tail_bytes,
  low32, normalize_signed_app_id,
}
use delonghi_coffeelink.Command.Inspect.{replay_with_timestamp, decode_command, soul}
use delonghi_coffeelink.Command.Signature.{app_id_from_signature}
use delonghi_coffeelink.Command.RoundTrip.{
  captured, ReadsBeverage, ReadsPower, ReadsProfile, decode-build_beverage, decode-build_power,
  decode-build_profile,
}
use delonghi_coffeelink.Command.Replay.{framed, replay_with_timestamp-framed}
use delonghi_coffeelink.Command.Total.{decode_command-IsSafe}
use delonghi_coffeelink.Command.Tail.{session_tail-eq, normalize_idem}
use delonghi_coffeelink.Monitor.{parse_ecam_packet, parse_monitor_b64}
use delonghi_coffeelink.Monitor.Proofs.{
  ecam_packet, parse_monitor_b64-IsSafe, Reads, CarriesState, monitor_packet,
  parse_monitor_b64-monitor_packet,
}
use delonghi_coffeelink.Catalog.{Blob, parse_tlv, parse_tlv_from, Props, text, bare}
use delonghi_coffeelink.Catalog.Tlv.{print_tlv, parse_tlv-print_tlv, IsTlv, parse_tlv-IsTlv}
use delonghi_coffeelink.Catalog.Build.{Catalog, empty_catalog, new_entry, fold_blobs, build_catalog}
use delonghi_coffeelink.Catalog.Blobs.{HasDeclared, fold_blobs-keeps}
use delonghi_coffeelink.Session.{
  Session, Cloud, own_app_id, update_session_from_props, cold_connect_then, with_cloud_session,
  ignored, session_is_fresh, connect_cold, revert_foreign_app_id_if_session_clear, revert_to_own,
  wait_for_session_confirmed, finish_send,
}
use delonghi_coffeelink.Session.Ids.{
  is_traced, commanded, learned, happen_all, happen_all-is_traced,
}
use delonghi_coffeelink.Session.Connect.{
  is_send, confirms, registered, first_post, cold_connect-sends, cold_connect-foreign,
}
use delonghi_coffeelink.Poll.{MonitorSession, update_data, refresh_monitor_session}
use delonghi_coffeelink.Poll.Tolerance.{fail_times, update_data-tolerates}

-- An espresso of the PrimaDonna Soul.
decode-build_beverage_example :
    Returns
      (ReadsBeverage 1 3 (1 ∷ 0 ∷ 40 ∷ 2 ∷ 3 ∷ 6 ∷ []) soul 0x69e8c5ee)
      (captured (build_beverage_command 0 1 3 (1 ∷ 0 ∷ 40 ∷ 2 ∷ 3 ∷ 6 ∷ []) (some 0x69e8c5ee)))
decode-build_beverage_example =
    decode-build_beverage 0 1 3 1 0 40 2 3 6 0x69e8c5ee (omega arith) (omega arith)

decode-build_power_example : Returns (ReadsPower (2 ∷ 1 ∷ []) 0x12000001) (
    captured (
      build_power_command 0 (2 ∷ 1 ∷ []) (some 0x12000001) (some (0xc0 ∷ 0xff ∷ 0xee ∷ 0x11 ∷ []))))
decode-build_power_example =
    decode-build_power 0 2 1 0x12000001 (some (0xc0 ∷ 0xff ∷ 0xee ∷ 0x11 ∷ [])) (omega arith)
      (omega arith) (omega arith)

decode-build_profile_example :
    Returns
      (ReadsProfile 3 0x69e8c5ee)
      (captured (build_profile_command 0 3 (some 0x69e8c5ee) none))
decode-build_profile_example =
    decode-build_profile 0 3 0x69e8c5ee none (omega arith) (omega arith) (omega arith) (omega arith)

-- The captured wake frame with its signature.
replay_with_timestamp_example :
    replay_with_timestamp 0
      (b64encode (
        framed 0x0d (0x84 ∷ 0x0f ∷ 2 ∷ 1 ∷ 0x55 ∷ 0x12 ∷ [])
        ++ ((0x12 ∷ 0 ∷ 0 ∷ 1 ∷ []) ++ (0xc0 ∷ 0xff ∷ 0xee ∷ 0x11 ∷ []))))
      (some 0x69e8c5ee)
    ≡ ok (
        b64encode (
          framed 0x0d (0x84 ∷ 0x0f ∷ 2 ∷ 1 ∷ 0x55 ∷ 0x12 ∷ [])
          ++ (be4 0x69e8c5ee ++ (0xc0 ∷ 0xff ∷ 0xee ∷ 0x11 ∷ []))))
replay_with_timestamp_example =
    replay_with_timestamp-framed 0 0x0d 0x69e8c5ee (0x84 ∷ 0x0f ∷ 2 ∷ 1 ∷ 0x55 ∷ 0x12 ∷ [])
      (0x12 ∷ 0 ∷ 0 ∷ 1 ∷ []) (0xc0 ∷ 0xff ∷ 0xee ∷ 0x11 ∷ []) (omega arith) refl (omega arith)

decode_command_example : IsSafe (decode_command (codes "0A=="))
decode_command_example = decode_command-IsSafe (codes "0A==")

crc_detects_byte_example :
    crc16_aug_ccitt (0x0d ∷ 0x07 ∷ 0x84 ∷ []) ≢ crc16_aug_ccitt (0x0d ∷ 0x06 ∷ 0x84 ∷ [])
crc_detects_byte_example =
    crc_detects_byte (0x0d ∷ []) (0x84 ∷ []) 0x07 0x06 (omega arith) (omega arith) (omega arith)
      (omega arith) (omega arith)

monitor_packet_example :
    Returns (Reads (CarriesState 0xd0 0x0f 1 2 3 4 5 7 8 9 10 11 12 13 14 [] [])) (
      parse_monitor_b64 (b64encode (monitor_packet 0xd0 0x0f 1 2 3 4 5 7 8 9 10 11 12 13 14 [] [])))
monitor_packet_example =
    parse_monitor_b64-monitor_packet 0xd0 0x0f 1 2 3 4 5 7 8 9 10 11 12 13 14 [] [] (omega arith) tt
      (omega arith)

print_tlv_example : parse_tlv (print_tlv ((1, 40) ∷ (2, 3) ∷ [])) ≡ some ((1, 40) ∷ (2, 3) ∷ [])
print_tlv_example = parse_tlv-print_tlv ((1, 40) ∷ (2, 3) ∷ []) (omega arith)

tlv_read : parse_tlv (1 ∷ 0 ∷ 40 ∷ 2 ∷ 3 ∷ []) ≡ some ((1, 40) ∷ (2, 3) ∷ [])
unfolding parse_tlv parse_tlv_from from_bytes
tlv_read = refl

parse_tlv-IsTlv_example : IsTlv [] (1 ∷ 0 ∷ 40 ∷ 2 ∷ 3 ∷ []) ((1, 40) ∷ (2, 3) ∷ [])
parse_tlv-IsTlv_example =
    parse_tlv-IsTlv (1 ∷ 0 ∷ 40 ∷ 2 ∷ 3 ∷ []) ((1, 40) ∷ (2, 3) ∷ []) (omega arith) tlv_read

abbrev with_espresso : Catalog
with_espresso = record empty_catalog {
  beverages = (1, record (new_entry 1) { declared = true }) ∷ [];
}

-- A descriptor of the same drink that is cut off behind its header.
abbrev cut_descriptor : Blob
cut_descriptor = record {
  raw = 0xd0 ∷ 0x15 ∷ 0xb0 ∷ 0xf0 ∷ 0x01 ∷ 0x00 ∷ [];
  family = 0xb0 ∷ 0xf0 ∷ [];
  family_label = codes "factory_descriptor";
  declared_length = 22;
  truncated = true;
  crc_valid = false;
  payload = [];
  trailer = [];
}

fold_blobs_example :
    Returns
      (HasDeclared 1)
      (fold_blobs ((codes "d039_1_rec_espresso", cut_descriptor) ∷ []) with_espresso)
fold_blobs_example =
    fold_blobs-keeps 1 ((codes "d039_1_rec_espresso", cut_descriptor) ∷ []) with_espresso refl

abbrev idle : Session
idle = record {
  uses_cloud_session = true;
  connected_property = true;
  default_app_id = pos 7;
  device_app_id = none;
  integration_app_id = pos 7;
  last_connect_at = 0;
  session_confirmed = false;
  last_seen_app_id = none;
  session_cold_task = false;
}

idle-is_traced : is_traced [] idle ≡ true
unfolding own_app_id
idle-is_traced = refl

happen_all_example :
    is_traced
      (pos 9 ∷ [])
      (happen_all (commanded 1000 (some (pos 9)) ∷ learned (some (pos 8)) ∷ []) idle)
    ≡ true
happen_all_example =
    happen_all-is_traced (commanded 1000 (some (pos 9)) ∷ learned (some (pos 8)) ∷ []) [] idle
      idle-is_traced

abbrev adopted : Session
adopted = record idle { integration_app_id = pos 9; last_connect_at = 1000 }

abbrev held_by : Option ℤ → Cloud
held_by id = record {
  started = 1300;
  live = some id;
  post_accepted = true;
  answers = record { elapsed = 3; app_id = some (some (pos 7)) } ∷ [];
  connected_at = 1310;
  reachable = true;
}

idle_sends : any is_send (cold_connect_then (held_by none) idle).0 ≡ true
unfolding cold_connect_then connect_cold session_is_fresh revert_foreign_app_id_if_session_clear
    revert_to_own own_app_id wait_for_session_confirmed finish_send
idle_sends = refl

adopted_stale : session_is_fresh 1300 none adopted ≡ false
unfolding session_is_fresh
adopted_stale = refl

cold_connect-sends_example :
    (true
      && (false
          || false
          || any
              (confirms (registered (held_by none) idle))
              (record { elapsed = 3; app_id = some (some (pos 7)) } ∷ [])))
    ≡ true
cold_connect-sends_example = cold_connect-sends (held_by none) idle idle_sends

cold_connect-foreign_example :
    first_post (cold_connect_then (held_by (some (pos 9))) adopted).0 ≡ some (pos 9)
cold_connect-foreign_example =
    cold_connect-foreign (held_by (some (pos 9))) adopted adopted_stale refl refl

update_data_example :
    (update_data none (
      fail_times 2
        (update_data {Props = ℕ}
          (some 5)
          (record { consecutive_failures = 9; snapshot = none })).1)).0
    ≡ (if ltb 2 3 then ok 5 else err update_failed)
update_data_example =
    update_data-tolerates {Props = ℕ} 5 (record { consecutive_failures = 9; snapshot = none }) 2
