-- ===== src/Command/Recapture.antt =====
-- command_builder.py: what a decoding keeps of its value, so that it can be decoded again.
use delonghi_coffeelink.Prelude.{
  ℕ, ◌+◌, ◌≡◌, ◌≢◌, refl, sym, ap, ◌∙◌, subst, true, false, ◌&&◌, ◌||◌, Option, none, some, List,
  [], ◌∷◌, length, leb, ltb, ◌==◌, slice, if◌then◌else◌, Bool-cases, Option-cases, if-both, inl,
  inr,
}
use delonghi_coffeelink.Prelude.Text.{Text, text_eq, is_space, not_blank, join_split}
use delonghi_coffeelink.Prelude.Result.{Result, ok, Passes, Passes-bind, Passes-step}
use delonghi_coffeelink.Base64.{b64decode}
use delonghi_coffeelink.Const.{
  cmd_prefix, cmd_response_prefix, cmd_family_profile, cmd_family_brew, cmd_family_power,
}
use delonghi_coffeelink.Command.Inspect.{
  index, Decoded, unknown, undecoded, ProfileResponse, parse_profile_bytes, decode_beverage,
  decode_power, decode_profile, merge_response, decode_response, decode_header, decode_family,
  decode_raw, decode_clean, decode_command,
}

-- The text that the decoding keeps is that of `out`.
abbrev Keeps : Decoded → Result Decoded → Type 0
Keeps out r = Passes (λ (d : Decoded). d.raw_b64 ≡ out.raw_b64) r

decode_header-Keeps : (out : Decoded) (raw : List ℕ) → Keeps out (decode_header out raw)
unfolding decode_header
decode_header-Keeps out raw =
    if-both (Keeps out) (leb 4 (length raw)) _ _
      (Passes-bind _ (index raw 0) _ (λ prefix. Passes-bind _ (index raw 1) _ (λ size. refl))) refl

decode_beverage-Keeps : (out : Decoded) (raw : List ℕ) → Keeps out (decode_beverage out raw)
unfolding decode_beverage
decode_beverage-Keeps out raw = Passes-bind _ (index raw 1) _ (λ size.
    Passes-bind _ (index raw 4) _ (λ bev. Passes-bind _ (index raw 5) _ (λ act.
      elim (Bool-cases (ltb (size + 1) 8 || ltb (length raw) (size + 1))) [
        | inl short ↦ rw short refl
        | inr long ↦ rw long refl
      ])))

decode_profile-Keeps : (out : Decoded) (raw : List ℕ) → Keeps out (decode_profile out raw)
unfolding decode_profile
decode_profile-Keeps out raw = Passes-bind _ (index raw 4) _ (λ slot. refl)

merge_response-keeps :
    (out : Decoded) (o : Option ProfileResponse) → (merge_response out o).raw_b64 ≡ out.raw_b64
merge_response-keeps out none = refl
merge_response-keeps out (some r) = refl

decode_response-Keeps :
    (out : Decoded) (family raw : List ℕ) → Keeps out (decode_response out family raw)
unfolding decode_response
decode_response-Keeps out family raw =
    elim (Bool-cases (text_eq family cmd_family_profile && leb 8 (length raw))) [
      | inl answer ↦
          rw answer
            (Passes-bind _ (parse_profile_bytes raw) _ (λ parsed. merge_response-keeps _ parsed))
      | inr other ↦ rw other refl
    ]

-- The branches behind the first byte.
other_family-Keeps :
    (first : ℕ) (out : Decoded) (family raw : List ℕ)
    → Keeps out (
        if first == cmd_prefix && text_eq family cmd_family_profile && leb 7 (length raw)
        then decode_profile out raw
        else if leb 1 (length raw) && first == cmd_response_prefix
        then decode_response out family raw
        else ok (record out { type = some unknown }))
other_family-Keeps first out family raw =
    elim (Bool-cases
      (first == cmd_prefix && text_eq family cmd_family_profile && leb 7 (length raw))) [
        | inl slot ↦ rw slot (decode_profile-Keeps out raw)
        | inr no_slot ↦ elim (Bool-cases (leb 1 (length raw) && first == cmd_response_prefix)) [
          | inl answer ↦ rw (no_slot, answer) (decode_response-Keeps out family raw)
          | inr strange ↦ rw (no_slot, strange) refl
        ]
      ]

decode_family-Keeps :
    (out : Decoded) (family raw : List ℕ) → Keeps out (decode_family out family raw)
unfolding decode_family decode_power
decode_family-Keeps out family raw =
    elim (Bool-cases (text_eq family cmd_family_brew && leb 8 (length raw))) [
      | inl brew ↦ rw brew (decode_beverage-Keeps out raw)
      | inr not_brew ↦ elim (Bool-cases (text_eq family cmd_family_power && leb 12 (length raw))) [
        | inl power ↦ rw (not_brew, power) refl
        | inr not_power ↦
            rw (not_brew, not_power)
              (Passes-bind _ (index raw 0) _ (λ first. other_family-Keeps first out family raw))
      ]
    ]

decode_raw-Keeps : (out : Decoded) (raw : List ℕ) → Keeps out (decode_raw out raw)
unfolding decode_raw
decode_raw-Keeps out raw =
    let family = if leb 4 (length raw) then slice 2 4 raw else [] in
    let P = λ (d : Decoded). d.raw_b64 ≡ out.raw_b64 in
    Passes-step P P (decode_header out raw) (λ (d : Decoded). decode_family d family raw)
      (decode_header-Keeps out raw)
      (λ d h.
        subst (λ (t : Text). Passes (λ (e : Decoded). e.raw_b64 ≡ t) (decode_family d family raw)) h
          (decode_family-Keeps d family raw))

decode_clean-Keeps : (clean : Text) → Keeps (undecoded clean) (decode_clean clean)
unfolding decode_clean
decode_clean-Keeps clean = elim (Option-cases (b64decode true clean)) [
  | inl bad ↦ rw (bad, decode_clean) refl
  | inr (raw, good) ↦ rw (good, decode_clean) (decode_raw-Keeps (undecoded clean) raw)
]

join_split_idem : (s : Text) → join_split (join_split s) ≡ join_split s
unfolding join_split
join_split_idem [] = refl
join_split_idem (c ∷ s) = elim (Bool-cases (is_space c)) [
  | inl space ↦ rw space (join_split_idem s)
  | inr ink ↦ rw ink (rw (ink, join_split_idem s) refl)
]

not_blank-join_split : (s : Text) → not_blank (join_split s) ≡ not_blank s
unfolding join_split not_blank
not_blank-join_split [] = refl
not_blank-join_split (c ∷ s) = elim (Bool-cases (is_space c)) [
  | inl space ↦ rw space (not_blank-join_split s)
  | inr ink ↦ rw ink (rw ink refl)
]

decode_command-clean :
    (value : Text) → not_blank value ≡ true → decode_command value ≡ decode_clean (join_split value)
unfolding decode_command
decode_command-clean value h = rw h refl

decode_command-blank :
    (value : Text) (d : Decoded)
    → not_blank value ≡ false
    → decode_command value ≡ ok d
    → d.type ≡ none
unfolding decode_command
decode_command-blank value d h reads =
    subst (λ (r : Result Decoded). Passes (λ (e : Decoded). e.type ≡ none) r) reads (rw h refl)

-- A value that is decoded to a frame of some type leaves a text that is decoded alike.
pub decode_command-again :
    (value : Text) (d : Decoded)
    → decode_command value ≡ ok d
    → d.type ≢ none
    → decode_command d.raw_b64 ≡ ok d
decode_command-again value d reads typed = elim (Bool-cases (not_blank value)) [
  | inr blank ↦ elim (typed (decode_command-blank value d blank reads)) [ ]
  | inl filled ↦
      let clean : Text = join_split value in
      let once : decode_clean clean ≡ ok d = sym (decode_command-clean value filled) ∙ reads in
      let kept : d.raw_b64 ≡ clean =
        subst (λ (r : Result Decoded). Passes (λ (e : Decoded). e.raw_b64 ≡ clean) r) once
          (decode_clean-Keeps clean) in
      ap decode_command kept
      ∙ decode_command-clean clean (not_blank-join_split value ∙ filled)
      ∙ ap decode_clean (join_split_idem value)
      ∙ once
]
