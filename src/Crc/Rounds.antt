-- ===== src/Crc/Rounds.antt =====
-- The rounds of the checksum: they stay within 16 bits, shift small values, and can be undone.
use Prim.Native.Nat.{bit_xor}
use native.Mathlib.Nat.{pow-suc}
use delonghi_coffeelink.Prelude.{
  ℕ, zero, suc, ◌+◌, ◌*◌, ◌/◌, ◌%◌, ◌^◌, ◌<◌, ◌≤◌, ◌≡◌, refl, ap, ◌∙◌, sym, arith, ◌==◌, true,
  if◌then◌else◌, ==_iff,
}
use delonghi_coffeelink.Bits.{bit_and_ones, bit_xor-lt, bit_xor_cancel, all_below, all_below_sound}
use delonghi_coffeelink.Bits.{bit_xor_injective, one_le_pow, bit_xor_high, bit_xor_self}
use delonghi_coffeelink.Crc.{crc_round, crc_rounds, crc_byte, crc_poly}

crc_round-lt : (c : ℕ) → crc_round c < 2 ^ 16
unfolding crc_round
crc_round-lt c = rw (bit_and_ones 16) (omega arith)

low_table : all_below (2 ^ 15) (λ c. crc_round c == 2 * c) ≡ true
unfolding all_below crc_round
low_table = refl

-- Below 2^15 a round doubles.
crc_round_low : (c : ℕ) → c < 2 ^ 15 → crc_round c ≡ 2 * c
crc_round_low c h = (==_iff _ _).0 (all_below_sound (2 ^ 15) _ low_table c h)

-- The round backwards: the polynomial is odd and a doubled word is even, so the lowest bit says
-- which branch was taken.
abbrev crc_unround : ℕ → ℕ
crc_unround d = if d % 2 == 0 then d / 2 else bit_xor d crc_poly / 2 + 0x8000

undo_table : all_below (2 ^ 16) (λ c. (crc_unround (crc_round c) % 2 ^ 16) == c) ≡ true
unfolding all_below crc_round
undo_table = refl

crc_round_injective : (c d : ℕ) → c < 2 ^ 16 → d < 2 ^ 16 → crc_round c ≡ crc_round d → c ≡ d
crc_round_injective c d hc hd e =
    sym ((==_iff _ c).0 (all_below_sound (2 ^ 16) _ undo_table c hc))
    ∙ ap (λ t. crc_unround t % 2 ^ 16) e
    ∙ (==_iff _ d).0 (all_below_sound (2 ^ 16) _ undo_table d hd)

crc_rounds-lt : (n c : ℕ) → c < 2 ^ 16 → crc_rounds n c < 2 ^ 16
unfolding crc_rounds
crc_rounds-lt zero c h = h
crc_rounds-lt (suc n) c h = crc_rounds-lt n (crc_round c) (crc_round-lt c)

crc_rounds_injective :
    (n c d : ℕ) → c < 2 ^ 16 → d < 2 ^ 16 → crc_rounds n c ≡ crc_rounds n d → c ≡ d
unfolding crc_rounds
crc_rounds_injective zero c d hc hd e = e
crc_rounds_injective (suc n) c d hc hd e =
    crc_round_injective c d hc hd
      (crc_rounds_injective n (crc_round c) (crc_round d) (crc_round-lt c) (crc_round-lt d) e)

half_small : (c m : ℕ) → 1 ≤ m → 2 * (c * m) < 2 ^ 16 → c < 2 ^ 15
half_small c zero h k = elim h [ ]
half_small c (suc m) h k = grind arith

-- As long as the top bit is clear, the rounds shift.
pub crc_rounds_shift : (n c : ℕ) → c * 2 ^ n < 2 ^ 16 → crc_rounds n c ≡ c * 2 ^ n
unfolding crc_rounds
crc_rounds_shift zero c h = omega arith
crc_rounds_shift (suc n) c h =
    let double : 2 * c * 2 ^ n ≡ c * 2 ^ suc n =
      omega (arith, ap (λ (t : ℕ). c * t) (pow-suc 2 n)) in
    let small : c < 2 ^ 15 = half_small c (2 ^ n) (one_le_pow n) (omega arith) in
    rw (crc_round_low c small, ← double) (crc_rounds_shift n (2 * c) (omega arith))

mask-lt : (b : ℕ) → b < 256 → b * 256 < 2 ^ 16
mask-lt b h = omega arith

pub crc_byte-lt : (c b : ℕ) → c < 2 ^ 16 → b < 256 → crc_byte c b < 2 ^ 16
unfolding crc_byte
crc_byte-lt c b hc hb = crc_rounds-lt 8 _ (bit_xor-lt 16 c (b * 256) hc (mask-lt b hb))

-- A register absorbs two different bytes, or two registers the same byte, differently.
pub crc_byte_injective_left :
    (c d b : ℕ) → c < 2 ^ 16 → d < 2 ^ 16 → b < 256 → crc_byte c b ≡ crc_byte d b → c ≡ d
unfolding crc_byte
crc_byte_injective_left c d b hc hd hb e =
    sym (bit_xor_cancel c (b * 256))
    ∙ ap (λ t. bit_xor t (b * 256))
        (crc_rounds_injective 8 _ _ (bit_xor-lt 16 c (b * 256) hc (mask-lt b hb))
          (bit_xor-lt 16 d (b * 256) hd (mask-lt b hb)) e)
    ∙ bit_xor_cancel d (b * 256)

pub crc_byte_injective :
    (c a b : ℕ) → c < 2 ^ 16 → a < 256 → b < 256 → crc_byte c a ≡ crc_byte c b → a ≡ b
unfolding crc_byte
crc_byte_injective c a b hc ha hb e =
    let masks : a * 256 ≡ b * 256 = bit_xor_injective c (a * 256) (b * 256) (
      crc_rounds_injective 8 _ _ (bit_xor-lt 16 c (a * 256) hc (mask-lt a ha))
        (bit_xor-lt 16 c (b * 256) hc (mask-lt b hb)) e) in
    omega arith

-- A register and the byte equal to its high half cancel.
pub crc_byte_high : (h l : ℕ) → h < 256 → l < 256 → crc_byte (h * 256 + l) h ≡ l * 256
unfolding crc_byte
crc_byte_high h l hh hl =
    ap (crc_rounds 8) (bit_xor_high 8 h l h hl ∙ rw bit_xor_self refl)
    ∙ crc_rounds_shift 8 (0 * 2 ^ 8 + l) (omega arith)
    ∙ omega arith
