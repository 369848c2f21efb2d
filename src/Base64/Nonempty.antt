-- ===== src/Base64/Nonempty.antt =====
-- A text that validates and is not empty decodes to at least one byte.
use delonghi_coffeelink.Prelude.{
  ℕ, ◌≡◌, ◌≢◌, refl, arith, true, false, Option, none, some, List, [], ◌∷◌, ◌==◌, Bool-cases,
  Option-cases, inl, inr,
}
use delonghi_coffeelink.Prelude.Text.{Text}
use delonghi_coffeelink.Base64.{
  a2b_loop, b64decode, take_pad, take_sextet, sextet_of_char, pad, prepend,
}

-- One character of a group and padding behind it: no text that follows is accepted.
padded_single :
    (l p : ℕ) (s : Text)
    → a2b_loop true (record { quad_pos = 1; leftchar = l; pads = p; padding_started = true }) s
      ≡ none
unfolding a2b_loop take_pad
padded_single l p [] = refl
padded_single l p (c ∷ s) = ground (arith, padded_single l p s)

prepended : (b : ℕ) (r : Option (List ℕ)) (raw : List ℕ) → prepend (b ∷ []) r ≡ some raw → raw ≢ []
prepended b none raw h = cc
prepended b (some out) raw h = λ e. cc

single_nonempty :
    (l p : ℕ) (s : Text)
    → a2b_loop true (record { quad_pos = 1; leftchar = l; pads = p; padding_started = false }) s
      ≢ some []
unfolding a2b_loop take_pad take_sextet
single_nonempty l p [] h = cc
single_nonempty l p (c ∷ s) h = ground (arith, padded_single l p s)

pub b64decode-nonempty : (c : ℕ) (s : Text) → b64decode true (c ∷ s) ≢ some []
unfolding b64decode a2b_loop take_pad take_sextet
b64decode-nonempty c s h = elim (Bool-cases (c == pad)) [
  | inl p ↦ ground arith
  | inr p ↦ (elim (Option-cases (sextet_of_char c)) [
    | inl e ↦ ground (arith, e)
    | inr (v, e) ↦ ground (arith, e, single_nonempty v 0 s)
  ])
]
