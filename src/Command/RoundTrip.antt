-- ===== src/Command/RoundTrip.antt =====
-- Every frame that is built decodes to the command it was built for, with a checksum that holds.
use delonghi_coffeelink.Prelude.{
  ℕ, ◌^◌, ◌≤◌, ◌<◌, ◌≡◌, refl, ap, arith, true, Option, none, some, List, [], ◌∷◌, ◌++◌, length,
  ◌==◌, ==_refl, leb-true, All-append,
}
use delonghi_coffeelink.Prelude.Result.{Result, ◌>>=◌, Returns}
use delonghi_coffeelink.Prelude.Text.{Text, not_blank, join_split, text_eq}
use delonghi_coffeelink.Bytes.{
  IsByte, AreBytes, be2, be4, from_bytes, from_bytes-be2, from_bytes-be4,
}
use delonghi_coffeelink.Crc.{crc16_aug_ccitt}
use delonghi_coffeelink.Crc.Residue.{crc16_aug_ccitt-lt}
use delonghi_coffeelink.Base64.{b64decode}
use delonghi_coffeelink.Base64.RoundTrip.{
  b64decode-b64encode, join_split-b64encode, not_blank-b64encode,
}
use delonghi_coffeelink.Hex.{hex, hex0x}
use delonghi_coffeelink.Command.{
  build_beverage_command, build_power_command, build_profile_command, encode_command,
}
use delonghi_coffeelink.Command.Build.{bytes_of-eq, to_bytes4-eq}
use delonghi_coffeelink.Command.Inspect.{
  Decoded, undecoded, decode_command, decode_clean, decode_raw, decode_family, decode_header,
  decode_beverage, decode_power, decode_profile, beverage, power, profile, Style, soul, crc_matches,
  index,
}

clean_eq :
    (clean : Text) (raw : List ℕ)
    → b64decode true clean ≡ some raw
    → decode_clean clean ≡ decode_raw (undecoded clean) raw
unfolding decode_clean
clean_eq clean raw bytes = rw (bytes, decode_clean) refl

-- What a text decodes to, by its bytes.
pub decode_text_bytes :
    (value clean : Text) (raw : List ℕ)
    → not_blank value ≡ true
    → join_split value ≡ clean
    → b64decode true clean ≡ some raw
    → decode_command value ≡ decode_raw (undecoded clean) raw
unfolding decode_command
decode_text_bytes value clean raw full same bytes = rw (full, same) (clean_eq clean raw bytes)

-- A frame that is sent as text is decoded from the same bytes.
pub decode-encode :
    (b : ℕ) (bs : List ℕ)
    → AreBytes (b ∷ bs)
    → decode_command (encode_command (b ∷ bs))
      ≡ decode_raw (undecoded (encode_command (b ∷ bs))) (b ∷ bs)
decode-encode b bs h =
    decode_text_bytes _ _ (b ∷ bs) (not_blank-b64encode b bs h) (join_split-b64encode (b ∷ bs) h)
      (b64decode-b64encode true (b ∷ bs) h)

-- The command is built, sent as text, captured and decoded.
abbrev pub captured : Result (List ℕ) → Result Decoded
captured built = built >>= λ frame. decode_command (encode_command frame)

pub record ReadsBeverage (bev act : ℕ) (params : List ℕ) (style : Style) (ts : ℕ) (d : Decoded)
    : Type 0 where
  pub type : d.type ≡ some beverage
  pub beverage_id : d.beverage_id ≡ some (hex0x bev)
  pub action : d.action ≡ some act
  pub crc_valid : d.crc_valid ≡ some true
  pub style_of : d.style ≡ some style
  pub recipe : d.recipe ≡ some (hex params)
  pub timestamp : d.timestamp ≡ some ts
  pub no_error : d.error ≡ none

pub crc_self : (c : ℕ) → c < 2 ^ 16 → (c == from_bytes (be2 c)) ≡ true
crc_self c h = rw (from_bytes-be2 c h) (==_refl c)

soul_reads :
    (bev act a b c d e f crc ts : ℕ) (out : Decoded)
    → crc16_aug_ccitt (0x0d ∷ 0x0d ∷ 0x83 ∷ 0xf0 ∷ bev ∷ act ∷ a ∷ b ∷ c ∷ d ∷ e ∷ f ∷ []) ≡ crc
    → crc < 2 ^ 16
    → ts < 2 ^ 32
    → out.error ≡ none
    → Returns (ReadsBeverage bev act (a ∷ b ∷ c ∷ d ∷ e ∷ f ∷ []) soul ts) (
        decode_raw out
          (0x0d ∷ 0x0d ∷ 0x83 ∷ 0xf0 ∷ bev ∷ act ∷ a ∷ b ∷ c ∷ d ∷ e ∷ f ∷ be2 crc ++ be4 ts))
unfolding decode_raw decode_family decode_header decode_beverage index text_eq
soul_reads bev act a b c d e f crc ts out hc fits hts he = record {
  type = refl;
  beverage_id = refl;
  action = refl;
  crc_valid = ap some (rw hc (crc_self crc fits));
  style_of = refl;
  recipe = refl;
  timestamp = ap some (from_bytes-be4 ts hts);
  no_error = he;
}

-- A Soul beverage frame of bytes is built, and is read back as the command that it was built for:
-- the beverage, the action, the six parameters, the dialect and the timestamp.
pub decode-build_beverage :
    (now bev act a b c d e f ts : ℕ)
    → AreBytes (bev ∷ act ∷ a ∷ b ∷ c ∷ d ∷ e ∷ f ∷ [])
    → ts < 2 ^ 32
    → Returns
        (ReadsBeverage bev act (a ∷ b ∷ c ∷ d ∷ e ∷ f ∷ []) soul ts)
        (captured (build_beverage_command now bev act (a ∷ b ∷ c ∷ d ∷ e ∷ f ∷ []) (some ts)))
unfolding build_beverage_command
decode-build_beverage now bev act a b c d e f ts h hts =
    let header : List ℕ = 0x0d ∷ 0x0d ∷ 0x83 ∷ 0xf0 ∷ bev ∷ act ∷ a ∷ b ∷ c ∷ d ∷ e ∷ f ∷ [] in
    let fits : crc16_aug_ccitt header < 2 ^ 16 = crc16_aug_ccitt-lt header (omega arith) in
    rw (bytes_of-eq (0x0d ∷ 0x0d ∷ 0x83 ∷ 0xf0 ∷ bev ∷ act ∷ []) (omega arith), to_bytes4-eq ts hts)
      (rw
        (decode-encode 0x0d
          ((0x0d ∷ 0x83 ∷ 0xf0 ∷ bev ∷ act ∷ a ∷ b ∷ c ∷ d ∷ e ∷ f ∷ [])
            ++ (be2 (crc16_aug_ccitt header) ++ be4 ts))
          (omega arith))
        (soul_reads bev act a b c d e f (crc16_aug_ccitt header) ts _ refl fits hts refl))

pub record ReadsPower (params : List ℕ) (ts : ℕ) (d : Decoded) : Type 0 where
  pub type : d.type ≡ some power
  pub params_of : d.params ≡ some (hex params)
  pub crc_valid : d.crc_valid ≡ some true
  pub timestamp : d.timestamp ≡ some ts
  pub no_error : d.error ≡ none

power_reads :
    (a b crc ts : ℕ) (signature : List ℕ) (out : Decoded)
    → crc16_aug_ccitt (0x0d ∷ 0x07 ∷ 0x84 ∷ 0x0f ∷ a ∷ b ∷ []) ≡ crc
    → crc < 2 ^ 16
    → ts < 2 ^ 32
    → out.error ≡ none
    → Returns
        (ReadsPower (a ∷ b ∷ []) ts)
        (decode_raw out ((0x0d ∷ 0x07 ∷ 0x84 ∷ 0x0f ∷ a ∷ b ∷ be2 crc ++ be4 ts) ++ signature))
unfolding decode_raw decode_family decode_header decode_power crc_matches index text_eq
power_reads a b crc ts signature out hc fits hts he =
    let raw = (0x0d ∷ 0x07 ∷ 0x84 ∷ 0x0f ∷ a ∷ b ∷ be2 crc ++ be4 ts) ++ signature in
    rw (leb-true 4 (length raw) (omega arith), leb-true 12 (length raw) (omega arith))
      (record {
        type = refl;
        params_of = refl;
        crc_valid = ap some (rw hc (crc_self crc fits));
        timestamp = ap some (from_bytes-be4 ts hts);
        no_error = he;
      })

-- The bytes of a signature that may be there.
abbrev pub signature_bytes : Option (List ℕ) → List ℕ
signature_bytes none = []
signature_bytes (some signature) = signature

power_captured :
    (a b ts : ℕ) (signature : List ℕ)
    → AreBytes (a ∷ b ∷ [])
    → AreBytes signature
    → ts < 2 ^ 32
    → let crc = crc16_aug_ccitt (0x0d ∷ 0x07 ∷ 0x84 ∷ 0x0f ∷ a ∷ b ∷ []) in
      Returns (ReadsPower (a ∷ b ∷ []) ts) (
        decode_command
          (encode_command ((0x0d ∷ 0x07 ∷ 0x84 ∷ 0x0f ∷ a ∷ b ∷ be2 crc ++ be4 ts) ++ signature)))
power_captured a b ts signature h hs hts =
    let header : List ℕ = 0x0d ∷ 0x07 ∷ 0x84 ∷ 0x0f ∷ a ∷ b ∷ [] in
    let crc = crc16_aug_ccitt header in
    let fits : crc < 2 ^ 16 = crc16_aug_ccitt-lt header (omega arith) in
    let bytes : AreBytes ((header ++ (be2 crc ++ be4 ts)) ++ signature) =
      All-append IsByte (header ++ (be2 crc ++ be4 ts)) signature (omega arith) hs in
    rw (decode-encode 0x0d ((0x07 ∷ 0x84 ∷ 0x0f ∷ a ∷ b ∷ be2 crc ++ be4 ts) ++ signature) bytes)
      (power_reads a b crc ts signature _ refl fits hts refl)

-- A power frame of two parameter bytes, with or without a signature, is built, and is read back as
-- a power frame with those parameters and that timestamp.
pub decode-build_power :
    (now a b ts : ℕ) (signature : Option (List ℕ))
    → AreBytes (a ∷ b ∷ [])
    → AreBytes (signature_bytes signature)
    → ts < 2 ^ 32
    → Returns
        (ReadsPower (a ∷ b ∷ []) ts)
        (captured (build_power_command now (a ∷ b ∷ []) (some ts) signature))
unfolding build_power_command
decode-build_power now a b ts none h hs hts =
    rw (to_bytes4-eq ts hts) (power_captured a b ts [] h tt hts)
decode-build_power now a b ts (some signature) h hs hts =
    rw (to_bytes4-eq ts hts) (power_captured a b ts signature h hs hts)

pub record ReadsProfile (slot ts : ℕ) (d : Decoded) : Type 0 where
  pub type : d.type ≡ some profile
  pub profile_id : d.profile_id ≡ some slot
  pub crc_valid : d.crc_valid ≡ some true
  pub timestamp : d.timestamp ≡ some ts
  pub no_error : d.error ≡ none

profile_reads :
    (slot crc ts : ℕ) (signature : List ℕ) (out : Decoded)
    → crc16_aug_ccitt (0x0d ∷ 0x06 ∷ 0xa9 ∷ 0xf0 ∷ slot ∷ []) ≡ crc
    → crc < 2 ^ 16
    → ts < 2 ^ 32
    → out.error ≡ none
    → Returns
        (ReadsProfile slot ts)
        (decode_raw out ((0x0d ∷ 0x06 ∷ 0xa9 ∷ 0xf0 ∷ slot ∷ be2 crc ++ be4 ts) ++ signature))
unfolding decode_raw decode_family decode_header decode_profile crc_matches index text_eq
profile_reads slot crc ts signature out hc fits hts he =
    let raw = (0x0d ∷ 0x06 ∷ 0xa9 ∷ 0xf0 ∷ slot ∷ be2 crc ++ be4 ts) ++ signature in
    rw
      (
        leb-true 4 (length raw) (omega arith),
        leb-true 7 (length raw) (omega arith),
        leb-true 11 (length raw) (omega arith),
      )
      (record {
        type = refl;
        profile_id = refl;
        crc_valid = ap some (rw hc (crc_self crc fits));
        timestamp = ap some (from_bytes-be4 ts hts);
        no_error = he;
      })

profile_captured :
    (slot ts : ℕ) (signature : List ℕ)
    → slot < 256
    → AreBytes signature
    → ts < 2 ^ 32
    → let crc = crc16_aug_ccitt (0x0d ∷ 0x06 ∷ 0xa9 ∷ 0xf0 ∷ slot ∷ []) in
      Returns (ReadsProfile slot ts) (
        decode_command
          (encode_command ((0x0d ∷ 0x06 ∷ 0xa9 ∷ 0xf0 ∷ slot ∷ be2 crc ++ be4 ts) ++ signature)))
profile_captured slot ts signature h hs hts =
    let header : List ℕ = 0x0d ∷ 0x06 ∷ 0xa9 ∷ 0xf0 ∷ slot ∷ [] in
    let crc = crc16_aug_ccitt header in
    let fits : crc < 2 ^ 16 = crc16_aug_ccitt-lt header (omega arith) in
    let bytes : AreBytes ((header ++ (be2 crc ++ be4 ts)) ++ signature) =
      All-append IsByte (header ++ (be2 crc ++ be4 ts)) signature (omega arith) hs in
    rw (decode-encode 0x0d ((0x06 ∷ 0xa9 ∷ 0xf0 ∷ slot ∷ be2 crc ++ be4 ts) ++ signature) bytes)
      (profile_reads slot crc ts signature _ refl fits hts refl)

-- A profile switch to a slot of 1 to 255, with or without a signature, is built, and is read back
-- as a switch to that slot at that time.
pub decode-build_profile :
    (now slot ts : ℕ) (signature : Option (List ℕ))
    → 1 ≤ slot
    → slot < 256
    → AreBytes (signature_bytes signature)
    → ts < 2 ^ 32
    → Returns (ReadsProfile slot ts) (captured (build_profile_command now slot (some ts) signature))
unfolding build_profile_command
decode-build_profile now slot ts none lo hi hs hts =
    rw
      (
        leb-true 1 slot lo,
        leb-true slot 255 (omega arith),
        bytes_of-eq (0x0d ∷ 0x06 ∷ 0xa9 ∷ 0xf0 ∷ slot ∷ []) (omega arith),
        to_bytes4-eq ts hts,
      )
      (profile_captured slot ts [] hi tt hts)
decode-build_profile now slot ts (some signature) lo hi hs hts =
    rw
      (
        leb-true 1 slot lo,
        leb-true slot 255 (omega arith),
        bytes_of-eq (0x0d ∷ 0x06 ∷ 0xa9 ∷ 0xf0 ∷ slot ∷ []) (omega arith),
        to_bytes4-eq ts hts,
      )
      (profile_captured slot ts signature hi hs hts)
