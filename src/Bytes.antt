-- ===== src/Bytes.antt =====
-- `bytes` as lists of numbers, and `int.to_bytes(n, "big")`, `int.from_bytes(b, "big")`, with the
-- signed forms that command_builder.py and ayla_client.py use for the cloud session id.
use delonghi_coffeelink.Prelude.{
  ℕ, ◌+◌, ◌-◌, ◌*◌, ◌/◌, ◌%◌, ◌^◌, ◌<◌, ◌≡◌, arith, List, [], ◌∷◌, All, ltb, if◌then◌else◌,
}
use delonghi_coffeelink.Prelude.Int.{ℤ, pos, negsuc}
use delonghi_coffeelink.Prelude.Result.{Result, ok, err, overflow_error}

abbrev pub IsByte : ℕ → Type 0
IsByte b = b < 256

abbrev pub AreBytes : List ℕ → Type 0
AreBytes = All IsByte

-- n.to_bytes(2, "big") and n.to_bytes(4, "big") of a number that fits.
abbrev pub be2 : ℕ → List ℕ
be2 n = n / 256 ∷ n % 256 ∷ []

abbrev pub be4 : ℕ → List ℕ
be4 n = n / 2 ^ 24 ∷ n / 2 ^ 16 % 256 ∷ n / 2 ^ 8 % 256 ∷ n % 256 ∷ []

-- n.to_bytes(4, "big"), which raises OverflowError for a number of more than 32 bits.
unfoldable pub to_bytes4 : ℕ → Result (List ℕ)
to_bytes4 n = if ltb n (2 ^ 32) then ok (be4 n) else err overflow_error

-- int.from_bytes(b, "big")
pub from_bytes_acc : ℕ → List ℕ → ℕ
from_bytes_acc acc [] = acc
from_bytes_acc acc (b ∷ bs) = from_bytes_acc (acc * 256 + b) bs

unfoldable pub from_bytes : List ℕ → ℕ
unfolding from_bytes_acc
from_bytes bs = from_bytes_acc 0 bs

-- n.to_bytes(4, "big", signed=True), for a number of the range of int32.
unfoldable pub signed_to_bytes4 : ℤ → Result (List ℕ)
signed_to_bytes4 (pos n) = if ltb n (2 ^ 31) then ok (be4 n) else err overflow_error
signed_to_bytes4 (negsuc n) =
    if ltb n (2 ^ 31) then ok (be4 (2 ^ 32 - 1 - n)) else err overflow_error

-- int.from_bytes(b, "big", signed=True), for four bytes.
unfoldable pub signed_from_bytes4 : List ℕ → ℤ
unfolding from_bytes
signed_from_bytes4 bs =
    let n = from_bytes bs in if ltb n (2 ^ 31) then pos n else negsuc (2 ^ 32 - 1 - n)

pub be2-AreBytes : (n : ℕ) → n < 2 ^ 16 → AreBytes (be2 n)
be2-AreBytes n h = omega arith

pub be4-AreBytes : (n : ℕ) → n < 2 ^ 32 → AreBytes (be4 n)
be4-AreBytes n h = omega arith

pub from_bytes-be2 : (n : ℕ) → n < 2 ^ 16 → from_bytes (be2 n) ≡ n
unfolding from_bytes
from_bytes-be2 n h = omega arith

pub from_bytes-be4 : (n : ℕ) → n < 2 ^ 32 → from_bytes (be4 n) ≡ n
unfolding from_bytes
from_bytes-be4 n h = omega arith

pub be4-from_bytes :
    (a b c d : ℕ)
    → AreBytes (a ∷ b ∷ c ∷ d ∷ [])
    → be4 (from_bytes (a ∷ b ∷ c ∷ d ∷ [])) ≡ a ∷ b ∷ c ∷ d ∷ []
unfolding from_bytes
be4-from_bytes a b c d h = ground arith
