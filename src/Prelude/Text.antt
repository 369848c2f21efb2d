-- ===== src/Prelude/Text.antt =====
-- Python texts as lists of code points, with what the program calls of `str`.
use Prim.Native.Nat.{ℕ}
use Prim.Native.Char.{code}
use Prim.Native.String.{String}
use mathlib.Core.Path.{◌≡◌, refl}
use mathlib.Core.Logic.{◌↔◌, inl, inr}
use mathlib.Core.Bool.{Bool, true, false, not, ◌&&◌, ◌||◌}
use mathlib.Core.Option.{Option, none, some}
use mathlib.Core.List.{List, [], ◌∷◌, reverse}
use native.Mathlib.Omega.{arith}
use delonghi_coffeelink.Prelude.Tests.{ltb, leb, ◌==◌, if◌then◌else◌, Bool-cases}
use delonghi_coffeelink.Prelude.Lists.{any, All}

abbrev pub Text : Type 0
Text = List ℕ

-- The code points of a literal.
abbrev pub codes : String → Text
codes String.[] = []
codes (String.◌∷◌ c s) = code c ∷ codes s

-- s == t
unfoldable pub text_eq : Text → Text → Bool
text_eq [] [] = true
text_eq [] (d ∷ t) = false
text_eq (c ∷ s) [] = false
text_eq (c ∷ s) (d ∷ t) = c == d && text_eq s t

pub text_eq_refl : (s : Text) → text_eq s s ≡ true
unfolding text_eq
text_eq_refl [] = refl
text_eq_refl (c ∷ s) = ground (arith, text_eq_refl s)

pub text_eq_sound : (s t : Text) → text_eq s t ≡ true → s ≡ t
unfolding text_eq
text_eq_sound [] [] h = refl
text_eq_sound [] (d ∷ t) h = cc
text_eq_sound (c ∷ s) [] h = cc
text_eq_sound (c ∷ s) (d ∷ t) h = ground (arith, text_eq_sound s t)

pub text_eq_iff : (s t : Text) → (text_eq s t ≡ true) ↔ (s ≡ t)
text_eq_iff s t = (text_eq_sound s t, λ e. rw e (text_eq_refl t))

-- s <= t in code point order, which is the order of `sorted`.
unfoldable pub text_leb : Text → Text → Bool
text_leb [] t = true
text_leb (c ∷ s) [] = false
text_leb (c ∷ s) (d ∷ t) = ltb c d || (c == d && text_leb s t)

-- The characters that `str.split()` and `str.strip()` take for white space.
unfoldable pub is_space : ℕ → Bool
is_space c =
    (leb 9 c && leb c 13)
    || (leb 28 c && leb c 32)
    || (c == 0x85)
    || (c == 0xa0)
    || (c == 0x1680)
    || (leb 0x2000 c && leb c 0x200a)
    || (c == 0x2028)
    || (c == 0x2029)
    || (c == 0x202f)
    || (c == 0x205f)
    || (c == 0x3000)

-- "".join(s.split())
unfoldable pub join_split : Text → Text
join_split [] = []
join_split (c ∷ s) = let rest = join_split s in if is_space c then rest else c ∷ rest

-- bool(s.strip())
unfoldable pub not_blank : Text → Bool
not_blank = any (λ c. not (is_space c))

-- s.lstrip()
unfoldable pub lstrip : Text → Text
lstrip [] = []
lstrip (c ∷ s) = let rest = lstrip s in if is_space c then rest else c ∷ s

-- s.strip()
unfoldable pub strip : Text → Text
unfolding lstrip
strip s = reverse (lstrip (reverse (lstrip s)))

-- A text without white space is its own `"".join(s.split())`.
pub join_split_self : (s : Text) → All (λ c. is_space c ≡ false) s → join_split s ≡ s
unfolding join_split
join_split_self [] h = refl
join_split_self (c ∷ s) h = rw (h.0, join_split_self s h.1) refl

-- A text that `strip` does not empty keeps a character without its white space.
pub join_split-not_blank :
    (s : Text) → not_blank s ≡ true → (c : ℕ) × (t : Text) × (join_split s ≡ c ∷ t)
unfolding join_split not_blank
join_split-not_blank [] h = ground (arith, h)
join_split-not_blank (c ∷ s) h = elim (Bool-cases (is_space c)) [
  | inl space ↦
      let (d, t, eq) = join_split-not_blank s (ground (arith, h, space)) in
      (d, t, rw (space, eq) refl)
  | inr plain ↦ (c, join_split s, rw plain refl)
]

-- t in s
unfoldable pub is_prefix : Text → Text → Bool
is_prefix [] s = true
is_prefix (c ∷ t) [] = false
is_prefix (c ∷ t) (d ∷ s) = c == d && is_prefix t s

unfoldable pub contains_text : Text → Text → Bool
unfolding is_prefix
contains_text t [] = is_prefix t []
contains_text t (d ∷ s) = is_prefix t (d ∷ s) || contains_text t s

-- x in xs, for texts
unfoldable pub in_texts : Text → List Text → Bool
in_texts t = any (λ u. text_eq t u)

-- The comparison of two texts, either of which may be None.
abbrev pub equal_texts : Option Text → Option Text → Bool
equal_texts none none = true
equal_texts (some s) (some t) = text_eq s t
equal_texts _ _ = false

pub equal_texts_refl : (t : Option Text) → equal_texts t t ≡ true
equal_texts_refl none = refl
equal_texts_refl (some t) = text_eq_refl t
