-- ===== src/Crc/Residue.antt =====
-- What the checksum is good for: a frame followed by its checksum has residue zero, and no change
-- of a single byte goes unnoticed.
use delonghi_coffeelink.Prelude.{
  ℕ, ◌+◌, ◌*◌, ◌/◌, ◌%◌, ◌^◌, ◌<◌, ◌≡◌, ◌≢◌, refl, ap, sym, ◌∙◌, arith, List, [], ◌∷◌, ◌++◌,
}
use delonghi_coffeelink.Bytes.{AreBytes, be2}
use delonghi_coffeelink.Crc.{crc_byte, crc_from, crc16_aug_ccitt, crc_init}
use delonghi_coffeelink.Crc.Rounds.{
  crc_byte-lt, crc_byte_injective, crc_byte_injective_left, crc_byte_high,
}

crc_from-append : (c : ℕ) (xs ys : List ℕ) → crc_from c (xs ++ ys) ≡ crc_from (crc_from c xs) ys
unfolding crc_from
crc_from-append c [] ys = refl
crc_from-append c (x ∷ xs) ys = crc_from-append (crc_byte c x) xs ys

crc_from-lt : (c : ℕ) (xs : List ℕ) → c < 2 ^ 16 → AreBytes xs → crc_from c xs < 2 ^ 16
unfolding crc_from
crc_from-lt c [] hc h = hc
crc_from-lt c (x ∷ xs) hc h = crc_from-lt (crc_byte c x) xs (crc_byte-lt c x hc h.0) h.1

-- The checksum of any bytes fits two bytes.
pub crc16_aug_ccitt-lt : (frame : List ℕ) → AreBytes frame → crc16_aug_ccitt frame < 2 ^ 16
unfolding crc16_aug_ccitt
crc16_aug_ccitt-lt frame h = crc_from-lt crc_init frame (omega arith) h

crc_from_own : (c : ℕ) → c < 2 ^ 16 → crc_from c (be2 c) ≡ 0
unfolding crc_from
crc_from_own c h =
    let split : c ≡ c / 256 * 256 + c % 256 = omega arith in
    ap (λ t. crc_byte t (c % 256))
      (ap (λ t. crc_byte t (c / 256)) split
        ∙ crc_byte_high (c / 256) (c % 256) (omega arith) (omega arith))
    ∙ ap (λ t. crc_byte t (c % 256)) (omega arith)
    ∙ crc_byte_high (c % 256) 0 (omega arith) (omega arith)

-- A frame of bytes followed by its big-endian checksum has checksum zero.
crc_residue :
    (frame : List ℕ) → AreBytes frame → crc16_aug_ccitt (frame ++ be2 (crc16_aug_ccitt frame)) ≡ 0
unfolding crc16_aug_ccitt
crc_residue frame h =
    crc_from-append crc_init frame _
    ∙ crc_from_own (crc_from crc_init frame) (crc_from-lt crc_init frame (omega arith) h)

crc_from_injective :
    (c d : ℕ) (xs : List ℕ)
    → c < 2 ^ 16
    → d < 2 ^ 16
    → AreBytes xs
    → crc_from c xs ≡ crc_from d xs
    → c ≡ d
unfolding crc_from
crc_from_injective c d [] hc hd h e = e
crc_from_injective c d (x ∷ xs) hc hd h e = crc_byte_injective_left c d x hc hd h.0 (
    crc_from_injective (crc_byte c x) (crc_byte d x) xs (crc_byte-lt c x hc h.0)
      (crc_byte-lt d x hd h.0) h.1 e)

-- Two frames of bytes that differ in exactly one byte have different checksums.
pub crc_detects_byte :
    (front back : List ℕ) (a b : ℕ)
    → AreBytes front
    → AreBytes back
    → a < 256
    → b < 256
    → a ≢ b
    → crc16_aug_ccitt (front ++ (a ∷ back)) ≢ crc16_aug_ccitt (front ++ (b ∷ back))
unfolding crc16_aug_ccitt crc_from
crc_detects_byte front back a b hf hk ha hb ne e =
    let c = crc_from crc_init front in
    let hc : c < 2 ^ 16 = crc_from-lt crc_init front (omega arith) hf in
    let same : crc_from (crc_byte c a) back ≡ crc_from (crc_byte c b) back =
      sym (crc_from-append crc_init front (a ∷ back))
      ∙ e
      ∙ crc_from-append crc_init front (b ∷ back) in
    ne (
      crc_byte_injective c a b hc ha hb
        (crc_from_injective _ _ back (crc_byte-lt c a hc ha) (crc_byte-lt c b hc hb) hk same))
