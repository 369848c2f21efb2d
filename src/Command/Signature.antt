-- ===== src/Command/Signature.antt =====
-- command_builder.py: the device signature that app frames carry behind the timestamp, and the
-- cloud session id that it stands for.
use delonghi_coffeelink.Prelude.{
  ℕ, ◌+◌, Bool, true, not, ◌||◌, Option, none, some, List, [], ◌∷◌, length, ltb, ◌==◌,
  if◌then◌else◌, slice, any,
}
use delonghi_coffeelink.Prelude.Int.{ℤ}
use delonghi_coffeelink.Prelude.Text.{Text, strip}
use delonghi_coffeelink.Bytes.{signed_from_bytes4}
use delonghi_coffeelink.Base64.{b64decode}
use delonghi_coffeelink.Prelude.Result.{Result, ok, ◌>>=◌}
use delonghi_coffeelink.Command.Inspect.{index}

-- The bytes behind frame and timestamp, if there are four.
unfoldable pub signature_of_bytes : List ℕ → Result (Option (List ℕ))
unfolding index
signature_of_bytes raw = if ltb (length raw) 2 then ok none else (do
  size ← index raw 1
  let structural_len = size + 1
  let sig = slice (structural_len + 4) (structural_len + 8) raw
  ok (if length sig == 4 then some sig else none))

unfoldable pub device_signature_from_frame : Option Text → Result (Option (List ℕ))
unfolding signature_of_bytes
device_signature_from_frame none = ok none
device_signature_from_frame (some []) = ok none
device_signature_from_frame (some (c ∷ s)) = elim (b64decode true (strip (c ∷ s))) [
  | none ↦ ok none
  | some raw ↦ signature_of_bytes raw
]

-- any(sig)
abbrev pub nonzero : List ℕ → Bool
nonzero = any (λ b. not (b == 0))

unfoldable pub first_device_signature : List (Option Text) → Result (Option (List ℕ))
unfolding device_signature_from_frame
first_device_signature [] = ok none
first_device_signature (frame ∷ frames) = device_signature_from_frame frame >>= λ sig.
    (let rest = first_device_signature frames in
      elim sig [ none ↦ rest | some s ↦ (if nonzero s then ok (some s) else rest) ])

unfoldable pub app_id_from_signature : Option (List ℕ) → Option ℤ
app_id_from_signature none = none
app_id_from_signature (some signature) =
    if not (length signature == 4) || not (nonzero signature)
    then none
    else some (signed_from_bytes4 signature)
