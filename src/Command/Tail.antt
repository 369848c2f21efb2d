-- ===== src/Command/Tail.antt =====
-- The cloud session id in the tail of a frame: how it is written, and that it is read back.
use Prim.Native.Nat.{bit_xor}
use delonghi_coffeelink.Prelude.{
  ℕ, ◌+◌, ◌-◌, ◌*◌, ◌^◌, ◌<◌, ◌≡◌, refl, sym, ap, ◌∙◌, arith, none, some, ltb, ◌==◌, lt→ltb,
  ltb-false, if◌then◌else◌, not, inl, inr, Bool-cases,
}
use delonghi_coffeelink.Prelude.Int.{ℤ, pos, negsuc, sub_ℕ}
use delonghi_coffeelink.Prelude.Result.{ok}
use delonghi_coffeelink.Bytes.{be4, signed_to_bytes4, signed_from_bytes4, from_bytes-be4}
use delonghi_coffeelink.Bits.{bit_xor_high}
use native.Mathlib.Decide.{dec_lt}
use delonghi_coffeelink.Command.{low32, normalize_signed_app_id, session_id_to_tail_bytes}
use delonghi_coffeelink.Command.Signature.{app_id_from_signature, nonzero}

pub low32-lt : (id : ℤ) → low32 id < 2 ^ 32
unfolding low32
low32-lt (pos n) = omega arith
low32-lt (negsuc n) = omega arith

-- The integer of 32 bits that a word stands for.
abbrev pub signed32 : ℕ → ℤ
signed32 w = if ltb w (2 ^ 31) then pos w else negsuc (2 ^ 32 - 1 - w)

flip_low : (w : ℕ) → w < 2 ^ 31 → bit_xor w (2 ^ 31) ≡ w + 2 ^ 31
flip_low w h =
    let e : 0 * 2 ^ 31 + w ≡ w = omega arith in
    let low : bit_xor 0 1 * 2 ^ 31 + w ≡ w + 2 ^ 31 = omega arith in
    ap (λ t. bit_xor t (2 ^ 31)) (sym e) ∙ bit_xor_high 31 0 w 1 h ∙ low

flip_high : (w : ℕ) → w < 2 ^ 31 → bit_xor (1 * 2 ^ 31 + w) (2 ^ 31) ≡ w
flip_high w h =
    let high : bit_xor 1 1 * 2 ^ 31 + w ≡ w = omega arith in bit_xor_high 31 1 w 1 h ∙ high

flip_signed : (w : ℕ) → w < 2 ^ 32 → sub_ℕ (bit_xor w (2 ^ 31)) (2 ^ 31) ≡ signed32 w
flip_signed w h = elim (dec_lt w (2 ^ 31)) [
  | yes p ↦ rw (flip_low w p) (ground arith)
  | no p ↦
      (let e : 1 * 2 ^ 31 + (w - 2 ^ 31) ≡ w = omega arith in
        let e' : bit_xor w (2 ^ 31) ≡ w - 2 ^ 31 =
          ap (λ t. bit_xor t (2 ^ 31)) (sym e) ∙ flip_high (w - 2 ^ 31) (omega arith) in
        rw e' (ground arith))
]

-- The id is normalised to the signed value of its 32 low bits.
pub normalize-eq : (id : ℤ) → normalize_signed_app_id id ≡ signed32 (low32 id)
unfolding normalize_signed_app_id
normalize-eq id = flip_signed (low32 id) (low32-lt id)

signed_bytes : (w : ℕ) → w < 2 ^ 32 → signed_to_bytes4 (signed32 w) ≡ ok (be4 w)
unfolding signed_to_bytes4
signed_bytes w h = elim (dec_lt w (2 ^ 31)) [
  | yes p ↦ rw (lt→ltb w (2 ^ 31) p) (rw (lt→ltb w (2 ^ 31) p) refl)
  | no p ↦
      (let e : 2 ^ 32 - 1 - (2 ^ 32 - 1 - w) ≡ w = omega arith in
        rw (ltb-false w (2 ^ 31) (omega arith))
          (rw (lt→ltb (2 ^ 32 - 1 - w) (2 ^ 31) (omega arith), e) refl))
]

-- The tail of a frame is the 32 low bits of the session id, big-endian, whatever the id; writing it
-- never raises.
pub session_tail-eq : (id : ℤ) → session_id_to_tail_bytes id ≡ ok (be4 (low32 id))
unfolding session_id_to_tail_bytes
session_tail-eq id = ap signed_to_bytes4 (normalize-eq id) ∙ signed_bytes (low32 id) (low32-lt id)

low32-signed32 : (w : ℕ) → w < 2 ^ 32 → low32 (signed32 w) ≡ w
unfolding low32
low32-signed32 w h = ground arith

-- Normalising twice is normalising once, and keeps the 32 low bits.
pub normalize_idem :
    (id : ℤ)
    → (normalize_signed_app_id (normalize_signed_app_id id) ≡ normalize_signed_app_id id)
      × (low32 (normalize_signed_app_id id) ≡ low32 id)
normalize_idem id =
    let same : low32 (normalize_signed_app_id id) ≡ low32 id =
      ap low32 (normalize-eq id) ∙ low32-signed32 (low32 id) (low32-lt id) in
    (normalize-eq (normalize_signed_app_id id) ∙ ap signed32 same ∙ sym (normalize-eq id), same)

signed-from-be4 : (w : ℕ) → w < 2 ^ 32 → signed_from_bytes4 (be4 w) ≡ signed32 w
unfolding signed_from_bytes4
signed-from-be4 w h = rw (from_bytes-be4 w h) refl

nonzero-be4 : (w : ℕ) → w < 2 ^ 32 → nonzero (be4 w) ≡ not (w == 0)
nonzero-be4 w h = ground arith

-- The signature that a session id is written as is read back as that id, normalised; an id whose
-- 32 low bits are zero is no id.
app_id_round_trip :
    (id : ℤ)
    → app_id_from_signature (some (be4 (low32 id)))
      ≡ (if low32 id == 0 then none else some (normalize_signed_app_id id))
unfolding app_id_from_signature
app_id_round_trip id =
    let w = low32 id in
    let back : signed_from_bytes4 (be4 w) ≡ normalize_signed_app_id id =
      signed-from-be4 w (low32-lt id) ∙ sym (normalize-eq id) in
    elim (Bool-cases (w == 0)) [
      | inl z ↦ rw (nonzero-be4 w (low32-lt id), z) refl
      | inr nz ↦ rw (nonzero-be4 w (low32-lt id), nz) (ap some back)
    ]
