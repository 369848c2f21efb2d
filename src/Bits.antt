-- ===== src/Bits.antt =====
-- Laws of `^`, `&` and `|` on unbounded numbers, from the recursion on binary digits that the
-- native operations stand for. Python's integers have the same operations.
use Prim.Native.Nat.{bit_xor, bit_and, digits, differ, min}
use Prim.Native.Nat.{bit_xor-bitwise, bit_and-bitwise}
use native.Mathlib.Nat.{pow-suc, div-add-mod, mod-lt, mod-eq_of_lt, mul-add-mod_self_left}
use delonghi_coffeelink.Prelude.{
  ℕ, zero, suc, ◌+◌, ◌-◌, ◌*◌, ◌/◌, ◌%◌, ◌^◌, ◌≤◌, ◌<◌, ◌≡◌, refl, ap, sym, ◌∙◌, arith, Bool, true,
  false, if◌then◌else◌,
}

module _ (z : ℕ → ℕ) (f : ℕ → ℕ → ℕ) where
  -- Any count of digits from the first number up gives the same result.
  digits_enough : (n m a b : ℕ) → a ≤ n → a ≤ m → digits z f n a b ≡ digits z f m a b
  digits_enough zero zero a b p q = refl
  digits_enough zero (suc m) zero b p q = refl
  digits_enough zero (suc m) (suc a) b p q = absurd (omega arith)
  digits_enough (suc n) zero zero b p q = refl
  digits_enough (suc n) zero (suc a) b p q = absurd (omega arith)
  digits_enough (suc n) (suc m) zero b p q = refl
  digits_enough (suc n) (suc m) (suc a) b p q =
      ap (λ t. t * 2 + f (suc a % 2) (b % 2))
        (digits_enough n m (suc a / 2) (b / 2) (omega arith) (omega arith))

differ_low : (x y : ℕ) → x < 2 → y < 2 → differ x y ≡ (x + y) % 2
differ_low zero y p q = omega arith
differ_low (suc zero) zero p q = refl
differ_low (suc zero) (suc zero) p q = refl
differ_low (suc zero) (suc (suc y)) p q = absurd (omega arith)
differ_low (suc (suc x)) y p q = absurd (omega arith)

-- The lowest digit of an exclusive or, and the rest.
pub bit_xor_step : (a b : ℕ) → bit_xor a b ≡ bit_xor (a / 2) (b / 2) * 2 + (a + b) % 2
bit_xor_step zero b = omega (arith, bit_xor-bitwise 0 b, bit_xor-bitwise 0 (b / 2))
bit_xor_step (suc a) b = omega (
  arith,
  bit_xor-bitwise (suc a) b,
  bit_xor-bitwise (suc a / 2) (b / 2),
  digits_enough (λ y. y) differ a (suc a / 2) (suc a / 2) (b / 2) (omega arith) (omega arith),
  differ_low (suc a % 2) (b % 2) (omega arith) (omega arith),
)

-- Induction on a number by halving, with the number bounded by fuel.
bit_xor-zero_fuel : (n a : ℕ) → a ≤ n → bit_xor a 0 ≡ a
bit_xor-zero_fuel n zero h = refl
bit_xor-zero_fuel zero (suc a) h = absurd (omega arith)
bit_xor-zero_fuel (suc n) (suc a) h =
    omega (arith, bit_xor_step (suc a) 0, bit_xor-zero_fuel n (suc a / 2) (omega arith))

pub bit_xor-zero : (a : ℕ) → bit_xor a 0 ≡ a
bit_xor-zero a = bit_xor-zero_fuel a a (omega arith)

pub zero-bit_xor : (b : ℕ) → bit_xor 0 b ≡ b
zero-bit_xor b = bit_xor-bitwise 0 b

bit_xor_cancel_fuel : (n a b : ℕ) → a ≤ n → b ≤ n → bit_xor (bit_xor a b) b ≡ a
bit_xor_cancel_fuel zero zero zero p q = refl
bit_xor_cancel_fuel zero zero (suc b) p q = absurd (omega arith)
bit_xor_cancel_fuel zero (suc a) b p q = absurd (omega arith)
bit_xor_cancel_fuel (suc n) a b p q =
    let half : bit_xor a b / 2 ≡ bit_xor (a / 2) (b / 2) = omega (arith, bit_xor_step a b) in
    omega (
      arith,
      bit_xor_step a b,
      bit_xor_step (bit_xor a b) b,
      ap (λ t. bit_xor t (b / 2)) half,
      bit_xor_cancel_fuel n (a / 2) (b / 2) (omega arith) (omega arith),
    )

bit_xor_comm_fuel : (n a b : ℕ) → a ≤ n → b ≤ n → bit_xor a b ≡ bit_xor b a
bit_xor_comm_fuel zero zero zero p q = refl
bit_xor_comm_fuel zero zero (suc b) p q = absurd (omega arith)
bit_xor_comm_fuel zero (suc a) b p q = absurd (omega arith)
bit_xor_comm_fuel (suc n) a b p q = omega (
  arith,
  bit_xor_step a b,
  bit_xor_step b a,
  bit_xor_comm_fuel n (a / 2) (b / 2) (omega arith) (omega arith),
)

pub bit_xor_comm : (a b : ℕ) → bit_xor a b ≡ bit_xor b a
bit_xor_comm a b = bit_xor_comm_fuel (a + b) a b (omega arith) (omega arith)

-- Applying the same mask twice gives the number back.
pub bit_xor_cancel : (a b : ℕ) → bit_xor (bit_xor a b) b ≡ a
bit_xor_cancel a b = bit_xor_cancel_fuel (a + b) a b (omega arith) (omega arith)

pub bit_xor_injective : (c a b : ℕ) → bit_xor c a ≡ bit_xor c b → a ≡ b
bit_xor_injective c a b e =
    sym (bit_xor_cancel a c)
    ∙ ap (λ t. bit_xor t c) (bit_xor_comm a c ∙ e ∙ bit_xor_comm c b)
    ∙ bit_xor_cancel b c

pub bit_xor_self : (a : ℕ) → bit_xor a a ≡ 0
bit_xor_self a = rw zero-bit_xor at (bit_xor_cancel 0 a)

pub bit_xor-lt : (k a b : ℕ) → a < 2 ^ k → b < 2 ^ k → bit_xor a b < 2 ^ k
bit_xor-lt zero zero zero p q = p
bit_xor-lt zero zero (suc b) p q = absurd (omega arith)
bit_xor-lt zero (suc a) b p q = absurd (omega arith)
bit_xor-lt (suc k) a b p q = omega (
  arith,
  pow-suc 2 k,
  bit_xor_step a b,
  bit_xor-lt k (a / 2) (b / 2) (omega (arith, pow-suc 2 k)) (omega (arith, pow-suc 2 k)),
)

mul_pow_suc : (q k : ℕ) → q * 2 ^ suc k ≡ 2 * (q * 2 ^ k)
mul_pow_suc q k = omega (arith, ap (λ (t : ℕ). q * t) (pow-suc 2 k))

-- A mask shifted by `k` leaves the `k` low bits alone.
pub bit_xor_high :
    (k h l b : ℕ) → l < 2 ^ k → bit_xor (h * 2 ^ k + l) (b * 2 ^ k) ≡ bit_xor h b * 2 ^ k + l
bit_xor_high zero h zero b p =
    let e : h * 2 ^ 0 + 0 ≡ h = omega arith in
    let e' : b * 2 ^ 0 ≡ b = omega arith in rw (e, e') (omega arith)
bit_xor_high zero h (suc l) b p = absurd (omega arith)
bit_xor_high (suc k) h l b p =
    let e : (h * 2 ^ suc k + l) / 2 ≡ h * 2 ^ k + l / 2 = omega (arith, mul_pow_suc h k) in
    let e' : b * 2 ^ suc k / 2 ≡ b * 2 ^ k = omega (arith, mul_pow_suc b k) in
    let low : (h * 2 ^ suc k + l + b * 2 ^ suc k) % 2 ≡ l % 2 =
      omega (arith, mul_pow_suc h k, mul_pow_suc b k) in
    bit_xor_step (h * 2 ^ suc k + l) (b * 2 ^ suc k)
    ∙ rw (e, e', low, bit_xor_high k h (l / 2) b (omega (arith, pow-suc 2 k)))
        (omega (arith, mul_pow_suc (bit_xor h b) k))

-- The lowest digit of an and, and the rest.
pub bit_and_step : (a b : ℕ) → bit_and a b ≡ bit_and (a / 2) (b / 2) * 2 + min (a % 2) (b % 2)
bit_and_step zero b = omega (arith, bit_and-bitwise 0 (b / 2), bit_and-bitwise 0 b)
bit_and_step (suc a) b =
    let rest : ℕ = suc a / 2 in
    let same : digits (λ y. 0) min a rest (b / 2) ≡ digits (λ y. 0) min rest rest (b / 2) =
      digits_enough (λ y. 0) min a rest rest (b / 2) (omega arith) (omega arith) in
    omega (arith, same, bit_and-bitwise rest (b / 2), bit_and-bitwise (suc a) b)

-- Induction on a number by halving.
by_halves : (P : ℕ → Type 0) → P 0 → ((a : ℕ) → P (a / 2) → P a) → (n a : ℕ) → a ≤ n → P a
by_halves P base step n zero h = base
by_halves P base step zero (suc a) h = absurd (omega arith)
by_halves P base step (suc n) (suc a) h =
    step (suc a) (by_halves P base step n (suc a / 2) (omega arith))

pub bit_and-zero : (a : ℕ) → bit_and a 0 ≡ 0
bit_and-zero a =
    by_halves (λ b. bit_and b 0 ≡ 0) refl (λ b half. omega (arith, bit_and_step b 0, half)) a a
      (omega arith)

pub one_le_pow : (k : ℕ) → 1 ≤ 2 ^ k
one_le_pow zero = omega arith
one_le_pow (suc k) = omega (arith, pow-suc 2 k, one_le_pow k)

mod_double : (a m : ℕ) → 0 < m → a % (2 * m) ≡ a / 2 % m * 2 + a % 2
mod_double a m h =
    let r = a / 2 % m * 2 + a % 2 in
    let split : a ≡ 2 * m * (a / 2 / m) + r = omega (arith, div-add-mod (a / 2) m) in
    let small : r < 2 * m = omega (arith, mod-lt (a / 2) h) in
    ap (λ t. t % (2 * m)) split ∙ mul-add-mod_self_left (2 * m) (a / 2 / m) r ∙ mod-eq_of_lt small

mod_pow_suc : (a k : ℕ) → a % 2 ^ suc k ≡ a / 2 % 2 ^ k * 2 + a % 2
mod_pow_suc a k = rw pow-suc (grind (arith, mod_double a (2 ^ k) (one_le_pow k)))

-- x & (2^k - 1) is the remainder by 2^k.
pub bit_and_ones : (k a : ℕ) → bit_and a (2 ^ k - 1) ≡ a % 2 ^ k
bit_and_ones zero a = rw bit_and-zero (omega arith)
bit_and_ones (suc k) a =
    let e : (2 ^ suc k - 1) / 2 ≡ 2 ^ k - 1 = omega (arith, pow-suc 2 k, one_le_pow k) in
    let e' : (2 ^ suc k - 1) % 2 ≡ 1 = omega (arith, pow-suc 2 k, one_le_pow k) in
    bit_and_step a (2 ^ suc k - 1)
    ∙ rw (e, e', bit_and_ones k (a / 2)) (omega (arith, mod_pow_suc a k))

-- Over a small range, every value is checked by evaluation.
unfoldable pub all_below : ℕ → (ℕ → Bool) → Bool
all_below zero p = true
all_below (suc n) p = let rest = all_below n p in if p n then rest else false

pub all_below_sound : (n : ℕ) (p : ℕ → Bool) → all_below n p ≡ true → (x : ℕ) → x < n → p x ≡ true
unfolding all_below
all_below_sound zero p h x lt = absurd (omega arith)
all_below_sound (suc n) p h x lt = ground (arith, all_below_sound n p (ground arith) x)
