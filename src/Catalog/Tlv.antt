-- ===== src/Catalog/Tlv.antt =====
-- catalog.py: the grammar of the parameters, against a printer that the source does not have.
use delonghi_coffeelink.Prelude.{
  ℕ, ◌/◌, ◌%◌, ◌^◌, ◌<◌, ◌≡◌, ◌≢◌, refl, sym, ◌∙◌, arith, Bool, true, false, none, some, List, [],
  ◌∷◌, ◌++◌, if◌then◌else◌, Bool-cases, inl, inr, All,
}
use delonghi_coffeelink.Prelude.Dict.{Dict, insert}
use delonghi_coffeelink.Bytes.{AreBytes, be2, from_bytes, from_bytes-be2}
use delonghi_coffeelink.Catalog.{is_wide, parse_tlv, parse_tlv_from}

-- A parameter as the machine writes it: the tag, and a value of two bytes or of one.
unfoldable pub print_param : ℕ × ℕ → List ℕ
print_param (tag, v) = if is_wide tag then tag ∷ be2 v else tag ∷ v ∷ []

unfoldable pub print_tlv : List (ℕ × ℕ) → List ℕ
print_tlv [] = []
print_tlv (p ∷ ps) = print_param p ++ print_tlv ps

-- The parameters as a dictionary: of two with one tag the later one counts.
abbrev pub as_dict : Dict ℕ → List (ℕ × ℕ) → Dict ℕ
as_dict out [] = out
as_dict out ((tag, v) ∷ ps) = as_dict (insert tag v out) ps

-- The value fits in the width of its tag.
abbrev pub Fits : ℕ × ℕ → Type 0
Fits (tag, v) = v < 2 ^ (if is_wide tag then 16 else 8)

parse_wide :
    (tag a b : ℕ) (rest : List ℕ) (out : Dict ℕ)
    → is_wide tag ≡ true
    → parse_tlv_from out (tag ∷ a ∷ b ∷ rest)
      ≡ parse_tlv_from (insert tag (from_bytes (a ∷ b ∷ [])) out) rest
unfolding parse_tlv_from
parse_wide tag a b rest out w = rw (w, parse_tlv_from) refl

parse_narrow :
    (tag a : ℕ) (rest : List ℕ) (out : Dict ℕ)
    → is_wide tag ≡ false
    → parse_tlv_from out (tag ∷ a ∷ rest) ≡ parse_tlv_from (insert tag a out) rest
unfolding parse_tlv_from
parse_narrow tag a [] out w = rw (w, parse_tlv_from) refl
parse_narrow tag a (b ∷ rest) out w = rw (w, parse_tlv_from) refl

parse_nil : (out : Dict ℕ) → parse_tlv_from out [] ≡ some out
unfolding parse_tlv_from
parse_nil out = refl

parse_single : (tag : ℕ) (out : Dict ℕ) → parse_tlv_from out (tag ∷ []) ≡ none
unfolding parse_tlv_from
parse_single tag out = refl

parse_wide_short :
    (tag a : ℕ) (out : Dict ℕ) → is_wide tag ≡ true → parse_tlv_from out (tag ∷ a ∷ []) ≡ none
unfolding parse_tlv_from
parse_wide_short tag a out w = rw (w, parse_tlv_from) refl

wide_fits : (b : Bool) (v : ℕ) → v < 2 ^ (if b then 16 else 8) → b ≡ true → v < 2 ^ 16
wide_fits true v h w = h
wide_fits false v h w = omega arith

print_wide : (tag v : ℕ) → is_wide tag ≡ true → print_param (tag, v) ≡ tag ∷ be2 v
unfolding print_param
print_wide tag v w = rw w refl

print_narrow : (tag v : ℕ) → is_wide tag ≡ false → print_param (tag, v) ≡ tag ∷ v ∷ []
unfolding print_param
print_narrow tag v w = rw w refl

parse_tlv_from-print_tlv :
    (ps : List (ℕ × ℕ)) (out : Dict ℕ)
    → All Fits ps
    → parse_tlv_from out (print_tlv ps) ≡ some (as_dict out ps)
unfolding print_tlv
parse_tlv_from-print_tlv [] out h = parse_nil out
parse_tlv_from-print_tlv ((tag, v) ∷ ps) out h = elim (Bool-cases (is_wide tag)) [
  | inl w ↦
      rw
        (
          print_wide tag v w,
          parse_wide tag (v / 256) (v % 256) (print_tlv ps) out w,
          from_bytes-be2 v (wide_fits (is_wide tag) v h.0 w),
        )
        (parse_tlv_from-print_tlv ps (insert tag v out) h.1)
  | inr w ↦
      rw (print_narrow tag v w, parse_narrow tag v (print_tlv ps) out w)
        (parse_tlv_from-print_tlv ps (insert tag v out) h.1)
]

-- What a sequence of parameters prints as is read as the dictionary of these parameters, wherever
-- each value fits in the width of its tag.
pub parse_tlv-print_tlv :
    (ps : List (ℕ × ℕ)) → All Fits ps → parse_tlv (print_tlv ps) ≡ some (as_dict [] ps)
unfolding parse_tlv
parse_tlv-print_tlv ps h = parse_tlv_from-print_tlv ps [] h

-- A payload that is read as `out` is what some parameters print as, and `out` is their dictionary.
pub record IsTlv (out : Dict ℕ) (payload : List ℕ) (found : Dict ℕ) : Type 0 where
  pub params : List (ℕ × ℕ)
  pub printed : print_tlv params ≡ payload
  pub read : as_dict out params ≡ found

none-not_some {ℓ} : {A : Type ℓ} {a : A} → none ≢ some a
none-not_some h = ground (arith, h)

cons_wide :
    (tag a b : ℕ) (rest : List ℕ) (out found : Dict ℕ)
    → is_wide tag ≡ true
    → a < 256
    → b < 256
    → IsTlv (insert tag (from_bytes (a ∷ b ∷ [])) out) rest found
    → IsTlv out (tag ∷ a ∷ b ∷ rest) found
unfolding print_tlv from_bytes
cons_wide tag a b rest out found w ha hb t = record {
  params = (tag, from_bytes (a ∷ b ∷ [])) ∷ t.params;
  printed =
      let high : from_bytes (a ∷ b ∷ []) / 256 ≡ a = omega arith in
      let low : from_bytes (a ∷ b ∷ []) % 256 ≡ b = omega arith in
      rw (print_wide tag (from_bytes (a ∷ b ∷ [])) w, high, low, t.printed) refl;
  read = t.read;
}

cons_narrow :
    (tag a : ℕ) (rest : List ℕ) (out found : Dict ℕ)
    → is_wide tag ≡ false
    → IsTlv (insert tag a out) rest found
    → IsTlv out (tag ∷ a ∷ rest) found
unfolding print_tlv
cons_narrow tag a rest out found w t = record {
  params = (tag, a) ∷ t.params;
  printed = rw (print_narrow tag a w, t.printed) refl;
  read = t.read;
}

nil-IsTlv : (out found : Dict ℕ) → some out ≡ some found → IsTlv out [] found
unfolding print_tlv
nil-IsTlv out found h = record { params = []; printed = refl; read = cc }

parse_tlv_from-IsTlv :
    (payload : List ℕ) (out found : Dict ℕ)
    → AreBytes payload
    → parse_tlv_from out payload ≡ some found
    → IsTlv out payload found
parse_tlv_from-IsTlv [] out found h eq = nil-IsTlv out found (sym (parse_nil out) ∙ eq)
parse_tlv_from-IsTlv (tag ∷ []) out found h eq =
    absurd (none-not_some (sym (parse_single tag out) ∙ eq))
parse_tlv_from-IsTlv (tag ∷ a ∷ []) out found h eq = elim (Bool-cases (is_wide tag)) [
  | inl w ↦ absurd (none-not_some (sym (parse_wide_short tag a out w) ∙ eq))
  | inr w ↦
      cons_narrow tag a [] out found w
        (parse_tlv_from-IsTlv [] _ found tt (sym (parse_narrow tag a [] out w) ∙ eq))
]
parse_tlv_from-IsTlv (tag ∷ a ∷ b ∷ rest) out found h eq = elim (Bool-cases (is_wide tag)) [
  | inl w ↦
      cons_wide tag a b rest out found w h.1.0 h.1.1.0
        (parse_tlv_from-IsTlv rest _ found h.1.1.1 (sym (parse_wide tag a b rest out w) ∙ eq))
  | inr w ↦ cons_narrow tag a (b ∷ rest) out found w (
      parse_tlv_from-IsTlv (b ∷ rest) _ found h.1.1
        (sym (parse_narrow tag a (b ∷ rest) out w) ∙ eq))
]

-- What `parse_tlv` returns is all of the payload: whenever a payload of bytes is read, it is, byte
-- for byte, what some list of parameters prints as, and what is returned is their dictionary. A
-- payload with a byte left over is never read in part.
pub parse_tlv-IsTlv :
    (payload : List ℕ) (found : Dict ℕ)
    → AreBytes payload
    → parse_tlv payload ≡ some found
    → IsTlv [] payload found
unfolding parse_tlv
parse_tlv-IsTlv payload found h eq = parse_tlv_from-IsTlv payload [] found h eq
