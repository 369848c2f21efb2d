-- ===== src/Entities/Bits.antt =====
-- binary_sensor.py: the alarms, from the bytes of the packet that the machine publishes.
use delonghi_coffeelink.Prelude.{
  ℕ, ◌≤◌, ◌≡◌, refl, ap, ◌∙◌, arith, Bool, true, false, not, ◌||◌, Option, some, List, [], ◌∷◌,
  length,
}
use delonghi_coffeelink.Prelude.Int.{ltb_ℤ, pos}
use delonghi_coffeelink.Counters.{Raw}
use delonghi_coffeelink.Prelude.Result.{Result, ok, err, Returns}
use delonghi_coffeelink.Bytes.{AreBytes, IsByte, from_bytes}
use delonghi_coffeelink.Base64.{b64encode}
use delonghi_coffeelink.Monitor.{Reading, failed, reading, parse_monitor_b64}
use delonghi_coffeelink.Monitor.Proofs.{
  Reads, CarriesState, monitor_content, monitor_packet, parse_monitor_b64-monitor_packet,
}
use delonghi_coffeelink.Entities.Alarms.{
  bit, prop_int, words, tank_of, container_of, descale_of, filter_of, water_tank_empty,
  waste_container_full, decalcification_needed, filter_change_needed,
}

not-not : (b : Bool) → not (not b) ≡ b
not-not true = refl
not-not false = refl

-- The bits of the low byte of a word.
switch_three : (low high : ℕ) → IsByte low → bit 3 (from_bytes (high ∷ low ∷ [])) ≡ bit 3 low
unfolding from_bytes
switch_three low high h = ground arith

switch_four : (low high : ℕ) → IsByte low → bit 4 (from_bytes (high ∷ low ∷ [])) ≡ bit 4 low
unfolding from_bytes
switch_four low high h = ground arith

module _ (a b c low : ℕ) (h : IsByte low) where
  alarm_zero : bit 0 (from_bytes (a ∷ b ∷ c ∷ low ∷ [])) ≡ bit 0 low
  unfolding from_bytes
  alarm_zero = ground arith

  alarm_one : bit 1 (from_bytes (a ∷ b ∷ c ∷ low ∷ [])) ≡ bit 1 low
  unfolding from_bytes
  alarm_one = ground arith

  alarm_two : bit 2 (from_bytes (a ∷ b ∷ c ∷ low ∷ [])) ≡ bit 2 low
  unfolding from_bytes
  alarm_two = ground arith

  alarm_three : bit 3 (from_bytes (a ∷ b ∷ c ∷ low ∷ [])) ≡ bit 3 low
  unfolding from_bytes
  alarm_three = ground arith

Returns-map :
    (P Q : Reading → Type 0) (r : Result Reading)
    → ((m : Reading) → P m → Q m)
    → Returns P r
    → Returns Q r
Returns-map P Q (ok m) f h = f m h
Returns-map P Q (err e) f h = h

-- What the four alarms show for the low bytes of the switches and of the alarms.
module _ (percent : Option Raw) (switches alarms : ℕ) where
  pub record Shows (r : Reading) : Type 0 where
    pub tank : water_tank_empty (some r) ≡ some (bit 0 alarms || bit 4 switches)
    pub container : waste_container_full (some r) ≡ some (bit 3 switches || bit 1 alarms)
    pub descale :
        decalcification_needed percent (some r)
        ≡ some (bit 2 alarms || not (ltb_ℤ (prop_int percent) (pos 90)))
    pub filter : filter_change_needed (some r) ≡ some (bit 3 alarms)

module _ (prefix request c0 c1 c2 c3 c4 c5 c6 c7 c8 c9 c10 c11 c12 : ℕ) (rest tail : List ℕ) where
  CarriesState-Shows :
      (percent : Option Raw) (m : Reading)
      → IsByte c1
      → IsByte c3
      → Reads (CarriesState prefix request c0 c1 c2 c3 c4 c5 c6 c7 c8 c9 c10 c11 c12 rest tail) m
      → Shows percent c1 c3 m
  unfolding decalcification_needed
  CarriesState-Shows percent (failed f) h1 h3 state = elim state [ ]
  CarriesState-Shows percent (reading m) h1 h3 state =
      let read : words (some (reading m))
          ≡ some (from_bytes (c2 ∷ c1 ∷ []), from_bytes (c9 ∷ c8 ∷ c4 ∷ c3 ∷ [])) =
        rw (state.switches, state.alarms) refl in
      record {
        tank = ap tank_of read ∙ rw (alarm_zero c9 c8 c4 c3 h3, switch_four c1 c2 h1) refl;
        container =
            ap container_of read
            ∙ rw (switch_three c1 c2 h1, alarm_one c9 c8 c4 c3 h3, not-not (bit 3 c1)) refl;
        descale = ap (descale_of (prop_int percent)) read ∙ rw (alarm_two c9 c8 c4 c3 h3) refl;
        filter = ap filter_of read ∙ rw (alarm_three c9 c8 c4 c3 h3) refl;
      }

  -- A MonitorV2 packet with a contents block of thirteen bytes or more decides the alarms: the tank
  -- by bit 0 of the block's fourth byte or bit 4 of its second, the container by bit 3 of the second or bit
  -- 1 of the fourth, the descaling by bit 2 of the fourth or by ninety per cent, and the filter by
  -- bit 3 of the fourth.
  pub monitor_packet-Shows :
      (percent : Option Raw)
      → AreBytes (
          prefix
          ∷ monitor_content request
              (c0 ∷ c1 ∷ c2 ∷ c3 ∷ c4 ∷ c5 ∷ c6 ∷ c7 ∷ c8 ∷ c9 ∷ c10 ∷ c11 ∷ c12 ∷ [])
              rest)
      → AreBytes tail
      → length rest ≤ 237
      → Returns (Shows percent c1 c3) (
          parse_monitor_b64 (
            b64encode
              (monitor_packet prefix request c0 c1 c2 c3 c4 c5 c6 c7 c8 c9 c10 c11 c12 rest tail)))
  monitor_packet-Shows percent h k short =
      Returns-map
        (Reads (CarriesState prefix request c0 c1 c2 c3 c4 c5 c6 c7 c8 c9 c10 c11 c12 rest tail))
        (Shows percent c1 c3) _
        (λ (m : Reading). CarriesState-Shows percent m (omega arith) (omega arith))
        (parse_monitor_b64-monitor_packet prefix request c0 c1 c2 c3 c4 c5 c6 c7 c8 c9 c10 c11 c12
          rest tail h k short)
