-- ===== src/Crc.antt =====
-- command_builder.py, `crc16_aug_ccitt`: the checksum of every frame and blob.
mod Rounds
pub mod Residue
use Prim.Native.Nat.{bit_xor, bit_and}
use delonghi_coffeelink.Prelude.{ℕ, zero, suc, ◌*◌, List, [], ◌∷◌, ◌==◌, if◌then◌else◌}

abbrev pub crc_poly : ℕ
crc_poly = 0x1021

abbrev pub crc_init : ℕ
crc_init = 0x1D0F

-- One turn of the inner loop. Python's integers do not wrap: the mask does it.
unfoldable pub crc_round : ℕ → ℕ
crc_round crc =
    bit_and (if bit_and crc 0x8000 == 0 then crc * 2 else bit_xor (crc * 2) crc_poly) 0xFFFF

unfoldable pub crc_rounds : ℕ → ℕ → ℕ
crc_rounds zero crc = crc
crc_rounds (suc n) crc = crc_rounds n (crc_round crc)

-- One turn of the outer loop.
unfoldable pub crc_byte : ℕ → ℕ → ℕ
crc_byte crc byte = crc_rounds 8 (bit_xor crc (byte * 256))

unfoldable pub crc_from : ℕ → List ℕ → ℕ
crc_from crc [] = crc
crc_from crc (byte ∷ rest) = crc_from (crc_byte crc byte) rest

unfoldable pub crc16_aug_ccitt : List ℕ → ℕ
crc16_aug_ccitt frame = crc_from crc_init frame
