-- ===== src/Command/Total.antt =====
-- Reading never raises: every index that the decoder takes is behind a test of the length.
use delonghi_coffeelink.Prelude.{
  ℕ, zero, suc, ◌≤◌, ◌<◌, ◌≡◌, ◌≢◌, refl, arith, true, some, List, [], ◌∷◌, length, leb, Bool-cases,
  Option-cases, inl, inr, ◌∙◌, leb→le,
}
use delonghi_coffeelink.Prelude.Result.{ok, IsSafe, IsSafe-ok, ok-IsSafe}
use delonghi_coffeelink.Prelude.Text.{Text, not_blank, join_split-not_blank}
use delonghi_coffeelink.Base64.{b64decode}
use delonghi_coffeelink.Base64.Nonempty.{b64decode-nonempty}
use delonghi_coffeelink.Command.Inspect.{
  index, Decoded, decode_command, decode_clean, decode_raw, decode_family, decode_header,
  decode_beverage, decode_profile, decode_response, parse_profile_bytes,
}

pub index-eq-ok : (raw : List ℕ) (i : ℕ) → i < length raw → (b : ℕ) × (index raw i ≡ ok b)
unfolding index
index-eq-ok [] i h = elim h [ ]
index-eq-ok (b ∷ bs) zero h = (b, refl)
index-eq-ok (b ∷ bs) (suc i) h = index-eq-ok bs i (omega arith)

module _ (raw : List ℕ) where
  parse_profile_bytes-IsSafe : IsSafe (parse_profile_bytes raw)
  unfolding parse_profile_bytes
  parse_profile_bytes-IsSafe e =
      ground (arith, index-eq-ok raw 0, index-eq-ok raw 1, index-eq-ok raw 4, index-eq-ok raw 5)

  decode_header-IsSafe : (out : Decoded) → IsSafe (decode_header out raw)
  unfolding decode_header
  decode_header-IsSafe out e = ground (arith, index-eq-ok raw 0, index-eq-ok raw 1)

  decode_beverage-IsSafe : (out : Decoded) → 8 ≤ length raw → IsSafe (decode_beverage out raw)
  unfolding decode_beverage
  decode_beverage-IsSafe out long e =
      ground (arith, index-eq-ok raw 1, index-eq-ok raw 4, index-eq-ok raw 5)

  decode_profile-IsSafe : (out : Decoded) → 7 ≤ length raw → IsSafe (decode_profile out raw)
  unfolding decode_profile
  decode_profile-IsSafe out long e = ground (arith, index-eq-ok raw 4)

  decode_response-IsSafe :
      (out : Decoded) (family : List ℕ) → IsSafe (decode_response out family raw)
  unfolding decode_response
  decode_response-IsSafe out family e = ground (arith, parse_profile_bytes-IsSafe e)

  decode_family-IsSafe :
      (out : Decoded) (family : List ℕ) → 1 ≤ length raw → IsSafe (decode_family out family raw)
  unfolding decode_family
  decode_family-IsSafe out family some_byte e = elim (Bool-cases (leb 8 (length raw))) [
    | inl long ↦ ground (
      arith,
      index-eq-ok raw 0,
      decode_beverage-IsSafe out (leb→le 8 (length raw) long) e,
      decode_profile-IsSafe out (le_trans_of long) e,
      decode_response-IsSafe out family e,
    )
    | inr short ↦ elim (Bool-cases (leb 7 (length raw))) [
      | inl seven ↦ ground (
        arith,
        index-eq-ok raw 0,
        decode_profile-IsSafe out (leb→le 7 (length raw) seven) e,
        decode_response-IsSafe out family e,
        short,
      )
      | inr six ↦ ground (arith, index-eq-ok raw 0, decode_response-IsSafe out family e, short, six)
    ]
  ]
    where
      le_trans_of : leb 8 (length raw) ≡ true → 7 ≤ length raw
      le_trans_of long = omega (arith, leb→le 8 (length raw) long)

  decode_raw-IsSafe : (out : Decoded) → 1 ≤ length raw → IsSafe (decode_raw out raw)
  unfolding decode_raw
  decode_raw-IsSafe value some_byte e =
      let (out, eq) = IsSafe-ok (decode_header value raw) (decode_header-IsSafe value) in
      rw (decode_raw, eq) (decode_family-IsSafe out _ some_byte e)

nonempty_long : (raw : List ℕ) → some raw ≢ some [] → 1 ≤ length raw
nonempty_long [] ne = elim (ne refl) [ ]
nonempty_long (b ∷ bs) ne = arith_long
  where
    arith_long : 1 ≤ length (b ∷ bs)
    arith_long = omega arith

decode_clean-IsSafe : (c : ℕ) (clean : Text) → IsSafe (decode_clean (c ∷ clean))
unfolding decode_clean
decode_clean-IsSafe c clean e = elim (Option-cases (b64decode true (c ∷ clean))) [
  | inl eq ↦ rw (eq, decode_clean) (ok-IsSafe _ e)
  | inr (raw, eq) ↦
      rw (eq, decode_clean)
        (decode_raw-IsSafe raw _
          (nonempty_long raw λ is_empty. b64decode-nonempty c clean (eq ∙ is_empty)) e)
]

-- `decode_command` raises nothing, whatever the text: every index that it takes is behind a test of
-- the length, and a text that decodes to no byte at all is refused before the first byte is read.
pub decode_command-IsSafe : (value : Text) → IsSafe (decode_command value)
unfolding decode_command
decode_command-IsSafe value e = elim (Bool-cases (not_blank value)) [
  | inl filled ↦
      let (c, t, eq) = join_split-not_blank value filled in
      rw (filled, eq) (decode_clean-IsSafe c t e)
  | inr blank ↦ rw blank (ok-IsSafe _ e)
]
