-- ===== src/Sniffer/Holds.antt =====
-- coordinator.py: what a learned frame is, for its decoding.
use delonghi_coffeelink.Prelude.{
  ◌≡◌, ◌≢◌, subst, arith, Bool, true, false, Option, none, some, &&_parts, All,
}
use delonghi_coffeelink.Prelude.Int.{ℤ}
use delonghi_coffeelink.Prelude.Text.{Text}
use delonghi_coffeelink.Prelude.Result.{ok}
use delonghi_coffeelink.Command.Inspect.{
  Decoded, FrameType, beverage, power, is_type, is_true, decode_command, is_wake_power_frame,
}
use delonghi_coffeelink.Command.Recapture.{decode_command-again}
use delonghi_coffeelink.Command.Learn.{Frames, beverage_id16}
use delonghi_coffeelink.Command.Stored.{IsTable}
use delonghi_coffeelink.Sniffer.{Sniffer, is_stop}
use delonghi_coffeelink.Sniffer.Capture.{compare_structure}

-- A frame of a beverage with a valid checksum, a stop or not, under the id that it carries.
abbrev pub BeverageOf : Bool → ℤ × Text → Decoded → Type 0
BeverageOf stop (bev, frame) d =
    (d.raw_b64 ≡ frame)
    × (is_type beverage d.type ≡ true)
    × (is_true d.crc_valid ≡ true)
    × (is_stop d.action ≡ stop)
    × (beverage_id16 d.beverage_id ≡ some bev)

abbrev pub WakeOf : Text → Decoded → Type 0
WakeOf frame d = (d.raw_b64 ≡ frame) × (is_wake_power_frame d ≡ true)

-- The frame is itself decoded so.
abbrev pub IsFrame : (Decoded → Type 0) → Text → Type 0
IsFrame P frame = (d : Decoded) × (decode_command frame ≡ ok d) × P d

abbrev pub HoldsBeverage : Bool → ℤ × Text → Type 0
HoldsBeverage stop (bev, frame) = IsFrame (BeverageOf stop (bev, frame)) frame

abbrev pub HoldsWake : Option Text → Type 0
HoldsWake none = Unit
HoldsWake (some frame) = IsFrame (WakeOf frame) frame

-- A table of starts or of stops, with a number of a beverage once at most.
abbrev pub HoldsTable : Bool → Frames → Type 0
HoldsTable stop d = All (HoldsBeverage stop) d × IsTable d

-- The start table holds starts, the stop table stops, each under its own id, once, and with a valid
-- checksum, and the wake frame is a power-on.
abbrev pub IsSound : Sniffer → Type 0
IsSound c =
    HoldsTable false c.learned_start_frames
    × HoldsTable true c.learned_stop_frames
    × HoldsWake c.learned_wake_frame

BeverageOf-undo :
    (stop : Bool) (entry : ℤ × Text) (built own : Option Text) (d : Decoded)
    → BeverageOf stop entry (compare_structure built own d)
    → BeverageOf stop entry d
BeverageOf-undo stop entry none own d h = h
BeverageOf-undo stop entry (some b) none d h = h
BeverageOf-undo stop entry (some b) (some o) d h = h

WakeOf-undo :
    (frame : Text) (built own : Option Text) (d : Decoded)
    → WakeOf frame (compare_structure built own d)
    → WakeOf frame d
unfolding is_wake_power_frame
WakeOf-undo frame none own d h = h
WakeOf-undo frame (some b) none d h = h
WakeOf-undo frame (some b) (some o) d h = h

-- A frame is handed on for what it is decoded to, the comparison with it.
abbrev pub IsComparisonOf : Decoded → Type 0
IsComparisonOf e =
    (value : Text) × (built own : Option Text) × (d : Decoded) × (decode_command value ≡ ok d)
    × (e ≡ compare_structure built own d)

typed_beverage : (t : Option FrameType) → is_type beverage t ≡ true → t ≢ none
typed_beverage none h e = absurd (ground arith)
typed_beverage (some k) h e = ground arith

typed_power : (t : Option FrameType) → is_type power t ≡ true → t ≢ none
typed_power none h e = absurd (ground arith)
typed_power (some k) h e = ground arith

pub IsComparisonOf-beverage :
    (e : Decoded) (stop : Bool) (bev : ℤ) (frame : Text)
    → IsComparisonOf e
    → BeverageOf stop (bev, frame) e
    → HoldsBeverage stop (bev, frame)
IsComparisonOf-beverage e stop bev frame (value, built, own, d, reads, eq) h =
    let seen =
      BeverageOf-undo stop (bev, frame) built own d (subst (BeverageOf stop (bev, frame)) eq h) in
    let again = decode_command-again value d reads (typed_beverage d.type seen.1) in
    (d, subst (λ (t : Text). decode_command t ≡ ok d) seen.0 again, seen)

is_wake-typed : (d : Decoded) → is_wake_power_frame d ≡ true → d.type ≢ none
unfolding is_wake_power_frame
is_wake-typed d h = typed_power d.type (&&_parts _ _ h).0

pub IsComparisonOf-wake :
    (e : Decoded) (frame : Text) → IsComparisonOf e → WakeOf frame e → IsFrame (WakeOf frame) frame
IsComparisonOf-wake e frame (value, built, own, d, reads, eq) h =
    let seen = WakeOf-undo frame built own d (subst (WakeOf frame) eq h) in
    let again = decode_command-again value d reads (is_wake-typed d seen.1) in
    (d, subst (λ (t : Text). decode_command t ≡ ok d) seen.0 again, seen)
