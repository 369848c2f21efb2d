-- ===== src/Sniffer/Teach.antt =====
-- coordinator.py: what one captured frame does to the tables of learned frames.
use delonghi_coffeelink.Prelude.{
  ℕ, ◌+◌, ◌≡◌, refl, ap, subst, arith, inl, inr, Bool, true, false, not, ◌||◌, Option, none, some,
  List, [], ◌∷◌, if◌then◌else◌, Bool-cases, if-both, All,
}
use delonghi_coffeelink.Prelude.Int.{ℤ, pos, negsuc, eqb_ℤ}
use delonghi_coffeelink.Prelude.Text.{Text, text_eq, equal_texts}
use delonghi_coffeelink.Prelude.Result.{Result, ok, err}
use delonghi_coffeelink.Session.Ids.{eqb_ℤ_sound}
use delonghi_coffeelink.Command.Inspect.{
  Decoded, beverage, power, is_type, is_true, is_wake_power_frame,
}
use delonghi_coffeelink.Command.Learn.{
  Frames, put_frame, find_frame, beverage_id16, known_beverage, known_if_read,
  learnable_beverage_id,
}
use delonghi_coffeelink.Command.Stored.{IsTable}
use delonghi_coffeelink.Catalog.Views.{catalog_beverage_ids}
use delonghi_coffeelink.Sniffer.{
  Sniffer, Sniffed, is_stop, rebound, learned_device_signature, refresh_from_learned, saved,
  learn_wake, learn_start, learn_stop, learn_beverage, maybe_learn_frame,
}
use delonghi_coffeelink.Sniffer.Holds.{
  WakeOf, IsFrame, HoldsBeverage, HoldsTable, IsSound, IsComparisonOf, IsComparisonOf-beverage,
  IsComparisonOf-wake,
}

put_frame-All :
    (P : ℤ × Text → Type 0) (k : ℤ) (frame : Text) (d : Frames)
    → P (k, frame)
    → All P d
    → All P (put_frame k frame d)
put_frame-All P k frame [] h all = (h, tt)
put_frame-All P k frame ((j, old) ∷ d) h all = elim (Bool-cases (eqb_ℤ k j)) [
  | inl same ↦ rw same (subst (λ i. P (i, frame)) (eqb_ℤ_sound k j same) h, all.1)
  | inr other ↦ rw other (all.0, put_frame-All P k frame d h all.1)
]

put_frame-IsTable :
    (n : ℕ) (frame : Text) (d : Frames) → IsTable d → IsTable (put_frame (pos n) frame d)
put_frame-IsTable n frame [] h = (tt, tt)
put_frame-IsTable n frame ((negsuc j, old) ∷ d) h = elim h [ ]
put_frame-IsTable n frame ((pos j, old) ∷ d) h = elim (Bool-cases (eqb_ℤ (pos n) (pos j))) [
  | inl same ↦ rw same h
  | inr other ↦ rw other (
    put_frame-All (λ entry. eqb_ℤ entry.0 (pos j) ≡ false) (pos n) frame d other h.0,
    put_frame-IsTable n frame d h.1,
  )
]

put_frame-HoldsTable :
    (stop : Bool) (n : ℕ) (frame : Text) (d : Frames)
    → HoldsBeverage stop (pos n, frame)
    → HoldsTable stop d
    → HoldsTable stop (put_frame (pos n) frame d)
put_frame-HoldsTable stop n frame d new h =
    (put_frame-All (HoldsBeverage stop) (pos n) frame d new h.0, put_frame-IsTable n frame d h.1)

rebound-IsSound : (r : Result (Option (List ℕ))) (c : Sniffer) → IsSound c → IsSound (rebound r c).0
rebound-IsSound (err e) c h = h
rebound-IsSound (ok signature) c h = h

saved-IsSound : (c : Sniffer) → IsSound c → IsSound (saved c).0
unfolding refresh_from_learned
saved-IsSound c h =
    rebound-IsSound (learned_device_signature (record c { saves = c.saves + 1 }))
      (record c { saves = c.saves + 1 }) h

if_some-eq : (b : Bool) (n m : ℕ) → (if b then some n else none) ≡ some m → n ≡ m
if_some-eq true n m e = ground arith
if_some-eq false n m e = absurd (ground arith)

known_beverage-id :
    (ids : Option (List ℕ)) (z : Option ℤ) (bev : ℕ)
    → known_if_read ids z ≡ some bev
    → z ≡ some (pos bev)
unfolding known_beverage
known_beverage-id ids none bev e = absurd (ground arith)
known_beverage-id ids (some (negsuc n)) bev e = absurd (ground arith)
known_beverage-id none (some (pos n)) bev e = ap (λ i. some (pos i)) (if_some-eq _ n bev e)
known_beverage-id (some ids) (some (pos n)) bev e = ap (λ i. some (pos i)) (if_some-eq _ n bev e)

nor_parts : (a b : Bool) → (not a || not b) ≡ false → (a ≡ true) × (b ≡ true)
nor_parts true true h = (refl, refl)
nor_parts true false h = absurd (ground arith)
nor_parts false b h = absurd (ground arith)

learnable_beverage_id-some :
    (d : Decoded) (ids : Option (List ℕ)) (bev : ℕ)
    → learnable_beverage_id d ids ≡ some bev
    → (is_type beverage d.type ≡ true)
      × (is_true d.crc_valid ≡ true)
      × (is_true d.matches_integration ≡ false)
      × (beverage_id16 d.beverage_id ≡ some (pos bev))
unfolding learnable_beverage_id
learnable_beverage_id-some d ids bev e =
    elim (Bool-cases (not (is_type beverage d.type) || not (is_true d.crc_valid))) [
      | inl refused ↦ absurd (ground arith)
      | inr valid ↦ elim (Bool-cases (is_true d.matches_integration)) [
        | inl own ↦ absurd (ground arith)
        | inr foreign ↦
            let (kind, sound) = nor_parts (is_type beverage d.type) (is_true d.crc_valid) valid in
            (
              kind,
              sound,
              foreign,
              known_beverage-id ids (beverage_id16 d.beverage_id) bev (ground arith),
            )
      ]
    ]

learn_wake-IsSound :
    (raw : Text) (c : Sniffer) → IsFrame (WakeOf raw) raw → IsSound c → IsSound (learn_wake raw c).0
unfolding learn_wake
learn_wake-IsSound raw c new h =
    let taught : Sniffer = record c { learned_wake_frame = some raw } in
    if-both (λ (s : Sniffed). IsSound s.0) (equal_texts c.learned_wake_frame (some raw)) (c, none)
      (saved taught) h (saved-IsSound taught (h.0, h.1, new))

learn_stop-IsSound :
    (bev : ℕ) (raw : Text) (c : Sniffer)
    → HoldsBeverage true (pos bev, raw)
    → IsSound c
    → IsSound (learn_stop bev raw c).0
unfolding learn_stop
learn_stop-IsSound bev raw c new h =
    let taught : Sniffer = record c {
      learned_stop_frames = put_frame (pos bev) raw c.learned_stop_frames;
    } in
    if-both (λ (s : Sniffed). IsSound s.0)
      (equal_texts (find_frame (pos bev) c.learned_stop_frames) (some raw)) (c, none) (saved taught)
      h
      (saved-IsSound taught
        (h.0, put_frame-HoldsTable true bev raw c.learned_stop_frames new h.1, h.2))

learn_start-IsSound :
    (bev : ℕ) (raw : Text) (c : Sniffer)
    → HoldsBeverage false (pos bev, raw)
    → IsSound c
    → IsSound (learn_start bev raw c).0
unfolding learn_start
learn_start-IsSound bev raw c new h =
    let taught : Sniffer = record c {
      learned_start_frames = put_frame (pos bev) raw c.learned_start_frames;
    } in
    if-both (λ (s : Sniffed). IsSound s.0)
      (equal_texts (find_frame (pos bev) c.learned_start_frames) (some raw)) (c, none)
      (saved taught) h
      (saved-IsSound taught
        (put_frame-HoldsTable false bev raw c.learned_start_frames new h.0, h.1, h.2))

learn_beverage-IsSound :
    (e : Decoded) (ids : Option (List ℕ)) (o : Option ℕ) (c : Sniffer)
    → learnable_beverage_id e ids ≡ o
    → IsComparisonOf e
    → IsSound c
    → IsSound (learn_beverage e o c).0
learn_beverage-IsSound e ids none c eq known h = h
learn_beverage-IsSound e ids (some bev) c eq known h =
    let (kind, valid, _, id) = learnable_beverage_id-some e ids bev eq in
    elim (Bool-cases (is_stop e.action)) [
      | inl stop ↦ rw stop (
          learn_stop-IsSound bev e.raw_b64 c
            (IsComparisonOf-beverage e true (pos bev) e.raw_b64 known (refl, kind, valid, stop, id))
            h)
      | inr start ↦ rw start (
          learn_start-IsSound bev e.raw_b64 c
            (IsComparisonOf-beverage e false (pos bev) e.raw_b64 known
              (refl, kind, valid, start, id))
            h)
    ]

learn_power-IsSound :
    (e : Decoded) (c : Sniffer)
    → IsComparisonOf e
    → IsSound c
    → IsSound (if is_wake_power_frame e then learn_wake e.raw_b64 c else (c, none)).0
learn_power-IsSound e c known h = elim (Bool-cases (is_wake_power_frame e)) [
  | inl wake ↦
      rw wake
        (learn_wake-IsSound e.raw_b64 c (IsComparisonOf-wake e e.raw_b64 known (refl, wake)) h)
  | inr other ↦ rw other h
]

pub maybe_learn_frame-IsSound :
    (e : Decoded) (c : Sniffer) → IsComparisonOf e → IsSound c → IsSound (maybe_learn_frame e c).0
unfolding maybe_learn_frame
maybe_learn_frame-IsSound e c known h =
    let P = λ (s : Sniffed). IsSound s.0 in
    let id = learnable_beverage_id e (some (catalog_beverage_ids c.catalog)) in
    let wake = if is_wake_power_frame e then learn_wake e.raw_b64 c else (c, none) in
    let drink = learn_beverage e id c in
    let framed = if is_type power e.type then wake else drink in
    if-both P (not c.learns_from_app) (c, none) (if text_eq e.raw_b64 [] then (c, none) else framed)
      h
      (if-both P (text_eq e.raw_b64 []) (c, none) framed h
        (if-both P (is_type power e.type) wake drink (learn_power-IsSound e c known h)
          (learn_beverage-IsSound e (some (catalog_beverage_ids c.catalog)) id c refl known h)))
