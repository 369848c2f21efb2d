-- ===== src/Send/Bodies.antt =====
-- coordinator.py: what the body of each command writes, on a model without a cloud session.
use delonghi_coffeelink.Prelude.{
  ℕ, ◌^◌, ◌<◌, ◌≤◌, ◌+◌, ◌≡◌, refl, sym, subst, arith, true, false, ◌&&◌, Option, none, some, List,
  [], ◌∷◌, length, leb, ltb-false, ◌==◌, Bool-cases, inl, inr, slice, if◌then◌else◌,
}
use delonghi_coffeelink.Prelude.Text.{Text, strip}
use delonghi_coffeelink.Prelude.Result.{Result, ok, err, unknown_profile, Returns, ◌>>=◌}
use delonghi_coffeelink.Bytes.{AreBytes}
use delonghi_coffeelink.Base64.{b64decode}
use delonghi_coffeelink.Command.{
  build_power_command, build_wake_command, build_wake_encoded, build_standby_command,
  build_standby_encoded, build_profile_command, build_profile_encoded, encode_command,
}
use delonghi_coffeelink.Command.Inspect.{Decoded, index}
use delonghi_coffeelink.Command.Signature.{
  signature_of_bytes, device_signature_from_frame, nonzero, first_device_signature,
}
use delonghi_coffeelink.Command.RoundTrip.{
  captured, ReadsPower, ReadsProfile, decode-build_power, decode-build_profile,
}
use delonghi_coffeelink.Profile.{
  ModelProfile, uses_cloud_session, wake_value, standby_value, profile_value, always,
}
use delonghi_coffeelink.Sniffer.{Sniffer, learned_device_signature}
use delonghi_coffeelink.Send.{Setting, fails, send_built, value_or}
use delonghi_coffeelink.Send.Commands.{wake_body, standby_body, or_unknown_profile, profile_body}
use delonghi_coffeelink.Send.Soul.{WritesOne, send_built-WritesOne}

-- The signature of the learned frames is looked for without a raise.
signature_of_bytes-returns :
    (raw : List ℕ) → (s : Option (List ℕ)) × (signature_of_bytes raw ≡ ok s)
unfolding signature_of_bytes index
signature_of_bytes-returns [] = (none, refl)
signature_of_bytes-returns (a ∷ []) = (none, refl)
signature_of_bytes-returns (a ∷ b ∷ rest) = (
  if length (slice (b + 1 + 4) (b + 1 + 8) (a ∷ b ∷ rest)) == 4
      then some (slice (b + 1 + 4) (b + 1 + 8) (a ∷ b ∷ rest))
      else none,
  rw (ltb-false (length (a ∷ b ∷ rest)) 2 (omega arith)) refl,
)

read-returns :
    (o : Option (List ℕ))
    → (s : Option (List ℕ)) × ((elim o [ none ↦ ok none | some raw ↦ signature_of_bytes raw ])
        ≡ ok s)
read-returns none = (none, refl)
read-returns (some raw) = signature_of_bytes-returns raw

device_signature_from_frame-returns :
    (frame : Option Text) → (s : Option (List ℕ)) × (device_signature_from_frame frame ≡ ok s)
unfolding device_signature_from_frame
device_signature_from_frame-returns none = (none, refl)
device_signature_from_frame-returns (some []) = (none, refl)
device_signature_from_frame-returns (some (c ∷ t)) = read-returns (b64decode true (strip (c ∷ t)))

first-returns :
    (sig rest : Option (List ℕ)) (later : Result (Option (List ℕ)))
    → later ≡ ok rest
    → (s : Option (List ℕ)) × ((elim sig [
      | none ↦ later
      | some t ↦ (if nonzero t then ok (some t) else later)
    ])
        ≡ ok s)
first-returns none rest later h = (rest, h)
first-returns (some t) rest later h = elim (Bool-cases (nonzero t)) [
  | inl used ↦ (some t, rw used refl)
  | inr zero ↦ (rest, rw zero h)
]

first_device_signature-returns :
    (frames : List (Option Text)) → (s : Option (List ℕ)) × (first_device_signature frames ≡ ok s)
unfolding first_device_signature
first_device_signature-returns [] = (none, refl)
first_device_signature-returns (frame ∷ frames) =
    let (sig, eq) = device_signature_from_frame-returns frame in
    let (rest, later) = first_device_signature-returns frames in
    let (s, chosen) = first-returns sig rest (first_device_signature frames) later in
    (s, rw eq chosen)

learned_device_signature-returns :
    (c : Sniffer) → (s : Option (List ℕ)) × (learned_device_signature c ≡ ok s)
unfolding learned_device_signature
learned_device_signature-returns c = first_device_signature-returns _

wake_value-soul :
    (now : ℕ) (model : ModelProfile) (frame : Option Text)
    → uses_cloud_session model ≡ false
    → wake_value now model frame ≡ always (build_wake_encoded now)
unfolding wake_value
wake_value-soul now ModelProfile.soul frame h = refl
wake_value-soul now ModelProfile.generic_soul frame h = refl
wake_value-soul now ModelProfile.eletta frame h = absurd (ground arith)

standby_value-soul :
    (now : ℕ) (model : ModelProfile) (signature : Option (List ℕ))
    → uses_cloud_session model ≡ false
    → standby_value now model signature ≡ always (build_standby_encoded now none)
unfolding standby_value
standby_value-soul now ModelProfile.soul signature h = refl
standby_value-soul now ModelProfile.generic_soul signature h = refl
standby_value-soul now ModelProfile.eletta signature h = absurd (ground arith)

profile_value-soul :
    (now : ℕ) (model : ModelProfile) (slot : ℕ) (signature : Option (List ℕ)) (ts : Option ℕ)
    → uses_cloud_session model ≡ false
    → profile_value now model slot signature ts ≡ always (build_profile_encoded now slot ts none)
unfolding profile_value
profile_value-soul now ModelProfile.soul slot signature ts h = refl
profile_value-soul now ModelProfile.generic_soul slot signature ts h = refl
profile_value-soul now ModelProfile.eletta slot signature ts h = absurd (ground arith)

build_power-now :
    (now a b : ℕ)
    → AreBytes (a ∷ b ∷ [])
    → now < 2 ^ 32
    → Returns
        (ReadsPower (a ∷ b ∷ []) now)
        (captured (build_power_command now (a ∷ b ∷ []) none none))
unfolding build_power_command
build_power-now now a b h hts = decode-build_power now a b now none h tt hts

send_profile_frame-WritesOne :
    (at : Setting) (P : Decoded → Type 0) (built : Result (List ℕ)) (fallback : Result Text)
    (c : Sniffer)
    → Returns P (captured built)
    → WritesOne at P (
        send_built at
          (or_unknown_profile
            (value_or (always (built >>= λ frame. ok (encode_command frame))) fallback))
          c)
send_profile_frame-WritesOne at P (err e) fallback c h = elim h [ ]
send_profile_frame-WritesOne at P (ok frame) fallback c h =
    send_built-WritesOne at P (ok frame) fallback c h

module _ (at : Setting) (model : uses_cloud_session at.model ≡ false) (fits : at.now < 2 ^ 32) where
  pub wake_body-WritesOne :
      (c : Sniffer) → WritesOne at (ReadsPower (2 ∷ 1 ∷ []) at.now) (wake_body false at c)
  unfolding build_wake_encoded build_wake_command
  wake_body-WritesOne c =
      let P = ReadsPower (2 ∷ 1 ∷ []) at.now in
      let fallback = build_wake_encoded at.now in
      subst (λ (v : Result (Option Text)). WritesOne at P (send_built at (value_or v fallback) c))
        (sym (wake_value-soul at.now at.model c.learned_wake_frame model))
        (send_built-WritesOne at P (build_power_command at.now (2 ∷ 1 ∷ []) none none) fallback c
          (build_power-now at.now 2 1 (omega arith) fits))

  pub standby_body-WritesOne :
      (c : Sniffer) → WritesOne at (ReadsPower (1 ∷ 1 ∷ []) at.now) (standby_body false at c)
  unfolding build_standby_encoded build_standby_command
  standby_body-WritesOne c =
      let P = ReadsPower (1 ∷ 1 ∷ []) at.now in
      let fallback = build_standby_encoded at.now none in
      let (signature, found) = learned_device_signature-returns c in
      rw found (
        subst (λ (v : Result (Option Text)). WritesOne at P (send_built at (value_or v fallback) c))
          (sym (standby_value-soul at.now at.model signature model))
          (send_built-WritesOne at P (build_power_command at.now (1 ∷ 1 ∷ []) none none) fallback c
            (build_power-now at.now 1 1 (omega arith) fits)))

  pub profile_body-WritesOne :
      (slot : ℕ) (c : Sniffer)
      → 1 ≤ slot
      → slot < 256
      → WritesOne at (ReadsProfile slot at.now) (profile_body false at slot c)
  unfolding build_profile_encoded
  profile_body-WritesOne slot c lo hi =
      let P = ReadsProfile slot at.now in
      let fallback = build_profile_encoded at.now slot (some at.now) none in
      let (signature, found) = learned_device_signature-returns c in
      rw found (
        subst
          (λ (v : Result (Option Text)).
            WritesOne at P (send_built at (or_unknown_profile (value_or v fallback)) c))
          (sym (profile_value-soul at.now at.model slot signature (some at.now) model))
          (send_profile_frame-WritesOne at P (build_profile_command at.now slot (some at.now) none)
            fallback c (decode-build_profile at.now slot at.now none lo hi tt fits)))

  -- No frame can be built for 0 or for what is no byte.
  pub profile_body-fails :
      (slot : ℕ) (c : Sniffer)
      → (leb 1 slot && leb slot 255) ≡ false
      → profile_body false at slot c ≡ fails unknown_profile c
  unfolding build_profile_encoded build_profile_command
  profile_body-fails slot c none_such =
      let (signature, found) = learned_device_signature-returns c in
      rw (found, profile_value-soul at.now at.model slot signature (some at.now) model)
        (rw none_such refl)
