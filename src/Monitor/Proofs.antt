-- ===== src/Monitor/Proofs.antt =====
-- monitor.py: what a packet is read as, and that reading raises nothing.
use delonghi_coffeelink.Prelude.{
  ℕ, suc, ◌+◌, ◌-◌, ◌*◌, ◌^◌, ◌≤◌, ◌<◌, ◌≡◌, ◌≢◌, refl, ◌∙◌, sym, ap, arith, Bool, true, false,
  some, List, [], ◌∷◌, ◌++◌, length, leb, ltb, if◌then◌else◌, Bool-cases, Option-cases, inl, inr,
  take, drop, slice, All-append, append_assoc, length-append, slice-append, drop-drop, take-append,
  drop-append, leb-true, ltb-false,
}
use delonghi_coffeelink.Prelude.Result.{
  Result, ok, err, Error, value_error, value_message, Returns, IsSafe, ok-IsSafe, Result-cases,
  overflow_error, index_error, cloud_error, update_failed, machine_offline, unknown_profile,
}
use delonghi_coffeelink.Prelude.Text.{Text, not_blank, join_split}
use delonghi_coffeelink.Bytes.{IsByte, AreBytes, be2, be2-AreBytes, from_bytes, from_bytes-be2}
use delonghi_coffeelink.Crc.{crc16_aug_ccitt}
use delonghi_coffeelink.Crc.Residue.{crc16_aug_ccitt-lt}
use delonghi_coffeelink.Base64.{b64decode, b64encode}
use delonghi_coffeelink.Base64.RoundTrip.{
  b64decode-b64encode, join_split-b64encode, not_blank-b64encode,
}
use delonghi_coffeelink.Command.Total.{index-eq-ok}
use delonghi_coffeelink.Command.Inspect.{index}
use delonghi_coffeelink.Monitor.{
  parse_ecam_packet, parse_monitor_contents, Monitor, Reading, failed, reading, catch_value,
  parse_monitor_bytes, parse_monitor_b64,
}

-- Only a ValueError is caught.
abbrev caught : Error → Bool
caught (value_message m) = true
caught value_error = true
caught e = false

-- The call returns, or raises a ValueError.
IsCaught {ℓ} : {A : Type ℓ} → Result A → Type ℓ
IsCaught r = (e : Error) → caught e ≡ false → r ≢ err e

parse_ecam_packet-IsCaught : (raw : List ℕ) → IsCaught (parse_ecam_packet raw)
unfolding parse_ecam_packet IsCaught
parse_ecam_packet-IsCaught raw e other = ground (arith, index-eq-ok raw 1)

parse_monitor_contents-IsCaught : (contents : List ℕ) → IsCaught (parse_monitor_contents contents)
unfolding parse_monitor_contents IsCaught
parse_monitor_contents-IsCaught contents e other = ground (
  arith,
  index-eq-ok contents 0,
  index-eq-ok contents 1,
  index-eq-ok contents 2,
  index-eq-ok contents 3,
  index-eq-ok contents 4,
  index-eq-ok contents 5,
  index-eq-ok contents 6,
  index-eq-ok contents 7,
  index-eq-ok contents 8,
  index-eq-ok contents 9,
)

parse_monitor_bytes-IsCaught : (raw : List ℕ) → IsCaught (parse_monitor_bytes raw)
unfolding parse_monitor_bytes IsCaught
parse_monitor_bytes-IsCaught raw e other = elim (Result-cases (parse_ecam_packet raw)) [
  | inl (packet, eq) ↦
      ground (arith, eq, parse_monitor_contents-IsCaught (drop 2 packet.content) e other)
  | inr (e', eq) ↦ ground (arith, eq, parse_ecam_packet-IsCaught raw e other)
]

catch_value-IsSafe : (r : Result Reading) → IsCaught r → IsSafe (catch_value r)
unfolding IsCaught
catch_value-IsSafe (ok a) h = ok-IsSafe a
catch_value-IsSafe (err (value_message m)) h = ok-IsSafe _
catch_value-IsSafe (err value_error) h = ok-IsSafe _
catch_value-IsSafe (err overflow_error) h = elim (h overflow_error refl refl) [ ]
catch_value-IsSafe (err index_error) h = elim (h index_error refl refl) [ ]
catch_value-IsSafe (err cloud_error) h = elim (h cloud_error refl refl) [ ]
catch_value-IsSafe (err update_failed) h = elim (h update_failed refl refl) [ ]
catch_value-IsSafe (err machine_offline) h = elim (h machine_offline refl refl) [ ]
catch_value-IsSafe (err unknown_profile) h = elim (h unknown_profile refl refl) [ ]

-- `parse_monitor_b64` raises nothing, whatever the text.
pub parse_monitor_b64-IsSafe : (value : Text) → IsSafe (parse_monitor_b64 value)
unfolding parse_monitor_b64
parse_monitor_b64-IsSafe value e = elim (Bool-cases (not_blank value)) [
  | inl full ↦ elim (Option-cases (b64decode true (join_split value))) [
    | inl eq ↦ rw (full, eq) (ok-IsSafe _ e)
    | inr (raw, eq) ↦ rw (full, eq) (catch_value-IsSafe _ (parse_monitor_bytes-IsCaught raw) e)
  ]
  | inr blank ↦ rw blank (ok-IsSafe _ e)
]

-- The envelope of the packets: prefix, length byte, content, checksum, and what stands behind it.
abbrev pub ecam_packet : ℕ → List ℕ → List ℕ → List ℕ
ecam_packet prefix content tail =
    let header = prefix ∷ (length content + 3) ∷ content in
    header ++ (be2 (crc16_aug_ccitt header) ++ tail)

-- What the checks of a packet come to, and what is cut out of it then.
cut_packet :
    (raw : List ℕ) (len : ℕ) (content tail : List ℕ)
    → index raw 1 ≡ ok len
    → 4 ≤ len
    → length raw ≡ len + 1 + length tail
    → crc16_aug_ccitt (take (len - 1) raw) ≡ from_bytes (slice (len - 1) (len + 1) raw)
    → slice 2 (len - 1) raw ≡ content
    → drop (len + 1) raw ≡ tail
    → parse_ecam_packet raw
      ≡ ok (record {
        content = content;
        timestamp = if leb 4 (length tail) then take 4 tail else [];
        extra = if ltb 4 (length tail) then drop 4 tail else [];
      })
unfolding parse_ecam_packet
cut_packet raw len content tail second long size sum cut rest =
    let four : len + 5 - (len + 1) ≡ 4 = omega arith in
    let stamp : slice (len + 1) (len + 5) raw ≡ take 4 tail =
      rw rest (ap (λ n. take n tail) four) in
    let after : drop (len + 5) raw ≡ drop 4 tail =
      rw (drop-drop (len + 1) 4 (len + 5) raw (omega arith), rest) refl in
    ground (arith, second, long, size, sum, cut, stamp, after)

-- An envelope around one to 252 bytes, whatever stands behind its checksum, is taken apart into that
-- content, the four bytes of the timestamp if there are four, and the bytes after them.
parse_ecam_packet-ecam_packet :
    (prefix : ℕ) (content tail : List ℕ)
    → AreBytes (prefix ∷ content)
    → 1 ≤ length content
    → length content ≤ 252
    → parse_ecam_packet (ecam_packet prefix content tail)
      ≡ ok (record {
        content = content;
        timestamp = if leb 4 (length tail) then take 4 tail else [];
        extra = if ltb 4 (length tail) then drop 4 tail else [];
      })
unfolding index
parse_ecam_packet-ecam_packet prefix content tail h filled short =
    let header : List ℕ = prefix ∷ (length content + 3) ∷ content in
    let fits : crc16_aug_ccitt header < 2 ^ 16 =
      crc16_aug_ccitt-lt header (h.0, (omega arith, h.1)) in
    let check : List ℕ = be2 (crc16_aug_ccitt header) in
    let whole : length (header ++ (check ++ tail)) ≡ length content + 4 + length tail =
      omega (arith, length-append header (check ++ tail)) in
    cut_packet (header ++ (check ++ tail)) (length content + 3) content tail refl (omega arith)
      (omega (arith, whole))
      (rw
        (
          take-append header (check ++ tail) (length content + 3 - 1) (omega arith),
          slice-append (length content + 3 - 1) (length content + 3 + 1) header check tail
              (omega arith) (omega arith),
          from_bytes-be2 (crc16_aug_ccitt header) fits,
        )
        refl)
      (slice-append 2 (length content + 3 - 1) (prefix ∷ (length content + 3) ∷ []) content
        (check ++ tail) refl (omega arith))
      (ap (drop (length content + 3 + 1)) (sym (append_assoc header check tail))
        ∙ drop-append (header ++ check) tail (length content + 3 + 1)
            (omega (arith, length-append header check)))

ecam_packet-AreBytes :
    (prefix : ℕ) (content tail : List ℕ)
    → AreBytes (prefix ∷ content)
    → AreBytes tail
    → length content ≤ 252
    → AreBytes (ecam_packet prefix content tail)
ecam_packet-AreBytes prefix content tail h k short =
    let header : List ℕ = prefix ∷ (length content + 3) ∷ content in
    let byte : length content + 3 < 256 = omega arith in
    All-append IsByte header (be2 (crc16_aug_ccitt header) ++ tail) (h.0, (byte, h.1))
      (All-append IsByte (be2 (crc16_aug_ccitt header)) tail
        (be2-AreBytes _ (crc16_aug_ccitt-lt header (h.0, (byte, h.1)))) k)

-- The content of a MonitorV2 packet whose contents block has thirteen bytes or more.
abbrev pub monitor_content : ℕ → List ℕ → List ℕ → List ℕ
monitor_content request block rest = 0x75 ∷ request ∷ (block ++ rest)

abbrev pub Reads : (Monitor → Type 0) → Reading → Type 0
Reads P (failed f) = ⊥
Reads P (reading m) = P m

Returns-catch_value :
    (P : Reading → Type 0) (r : Result Reading) → Returns P r → Returns P (catch_value r)
Returns-catch_value P (ok a) h = h
Returns-catch_value P (err e) h = elim h [ ]

module _ (prefix request c0 c1 c2 c3 c4 c5 c6 c7 c8 c9 c10 c11 c12 : ℕ) (rest tail : List ℕ) where
  pub record CarriesState (m : Monitor) : Type 0 where
    pub accessory : m.accessory ≡ c0
    pub status : m.status ≡ c5
    pub action : m.action ≡ c6
    pub progress : m.progress ≡ c7
    pub switches : m.switches ≡ some (from_bytes (c2 ∷ c1 ∷ []))
    pub alarms : m.alarms ≡ some (from_bytes (c9 ∷ c8 ∷ c4 ∷ c3 ∷ []))

  abbrev pub monitor_packet : List ℕ
  monitor_packet =
      ecam_packet prefix
        (monitor_content request
          (c0 ∷ c1 ∷ c2 ∷ c3 ∷ c4 ∷ c5 ∷ c6 ∷ c7 ∷ c8 ∷ c9 ∷ c10 ∷ c11 ∷ c12 ∷ []) rest)
        tail

  contents_fields :
      parse_monitor_contents
        (c0 ∷ c1 ∷ c2 ∷ c3 ∷ c4 ∷ c5 ∷ c6 ∷ c7 ∷ c8 ∷ c9 ∷ c10 ∷ c11 ∷ c12 ∷ rest)
      ≡ ok (record {
        accessory = c0;
        status = c5;
        action = c6;
        progress = c7;
        switches = some (c1 + c2 * 0x100);
        alarms = some (c3 + c4 * 0x100 + c8 * 0x10000 + c9 * 0x1000000);
      })
  unfolding parse_monitor_contents index
  contents_fields =
      let block : List ℕ =
        c0 ∷ c1 ∷ c2 ∷ c3 ∷ c4 ∷ c5 ∷ c6 ∷ c7 ∷ c8 ∷ c9 ∷ c10 ∷ c11 ∷ c12 ∷ rest in
      rw (ltb-false (length block) 8 (omega arith), leb-true 13 (length block) (omega arith)) refl

  monitor_bytes :
      AreBytes (
        prefix
        ∷ monitor_content request
            (c0 ∷ c1 ∷ c2 ∷ c3 ∷ c4 ∷ c5 ∷ c6 ∷ c7 ∷ c8 ∷ c9 ∷ c10 ∷ c11 ∷ c12 ∷ [])
            rest)
      → length rest ≤ 237
      → Returns (Reads CarriesState) (parse_monitor_bytes monitor_packet)
  unfolding parse_monitor_bytes from_bytes
  monitor_bytes h short =
      rw
        (
          parse_ecam_packet-ecam_packet prefix
              (monitor_content request
                (c0 ∷ c1 ∷ c2 ∷ c3 ∷ c4 ∷ c5 ∷ c6 ∷ c7 ∷ c8 ∷ c9 ∷ c10 ∷ c11 ∷ c12 ∷ []) rest)
              tail h (omega arith) (omega arith),
          ltb-false
              (suc (
                suc (
                  length
                    (c0 ∷ c1 ∷ c2 ∷ c3 ∷ c4 ∷ c5 ∷ c6 ∷ c7 ∷ c8 ∷ c9 ∷ c10 ∷ c11 ∷ c12 ∷ rest))))
              2 (omega arith),
          contents_fields,
        )
        (record {
          accessory = refl;
          status = refl;
          action = refl;
          progress = refl;
          switches = ap some (omega arith);
          alarms = ap some (omega arith);
        })

  -- A MonitorV2 packet with a contents block of thirteen bytes or more, whatever stands behind its
  -- checksum, is read as the state that it carries: each field from its own offset, the switches as
  -- the sixteen bits and the alarms as the thirty-two bits that their bytes make.
  pub parse_monitor_b64-monitor_packet :
      AreBytes (
        prefix
        ∷ monitor_content request
            (c0 ∷ c1 ∷ c2 ∷ c3 ∷ c4 ∷ c5 ∷ c6 ∷ c7 ∷ c8 ∷ c9 ∷ c10 ∷ c11 ∷ c12 ∷ [])
            rest)
      → AreBytes tail
      → length rest ≤ 237
      → Returns (Reads CarriesState) (parse_monitor_b64 (b64encode monitor_packet))
  unfolding parse_monitor_b64
  parse_monitor_b64-monitor_packet h k short =
      let content : List ℕ =
        monitor_content request
          (c0 ∷ c1 ∷ c2 ∷ c3 ∷ c4 ∷ c5 ∷ c6 ∷ c7 ∷ c8 ∷ c9 ∷ c10 ∷ c11 ∷ c12 ∷ []) rest in
      let bytes : AreBytes monitor_packet =
        ecam_packet-AreBytes prefix content tail h k (omega arith) in
      rw
        (
          not_blank-b64encode prefix _ bytes,
          join_split-b64encode monitor_packet bytes,
          b64decode-b64encode true monitor_packet bytes,
        )
        (Returns-catch_value (Reads CarriesState) (parse_monitor_bytes monitor_packet)
          (monitor_bytes h short))
