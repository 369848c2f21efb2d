-- ===== src/Base64/RoundTrip.antt =====
-- Decoding what was encoded, and the shape of encoded text.
use delonghi_coffeelink.Prelude.{
  ℕ, ◌+◌, ◌*◌, ◌/◌, ◌%◌, ◌<◌, ◌≡◌, refl, ap, ◌∙◌, arith, ◌++◌, Bool, true, false, some, List, [],
  ◌∷◌, ◌==◌, leb, All, any,
}
use delonghi_coffeelink.Prelude.Text.{Text, is_space, join_split, lstrip, not_blank}
use mathlib.Core.Path.{ap₂}
use delonghi_coffeelink.Bytes.{AreBytes}
use delonghi_coffeelink.Base64.{
  char_of_sextet, sextet_of_char, b64encode, Group, start, take_sextet, prepend, take_pad, a2b_loop,
  b64decode, pad,
}

-- What every character of an encoded text is.
pub record IsPlain (c : ℕ) : Type 0 where
  pub ascii : leb 128 c ≡ false
  pub not_space : is_space c ≡ false

sextet-char : (v : ℕ) → v < 64 → sextet_of_char (char_of_sextet v) ≡ some v
unfolding sextet_of_char char_of_sextet
sextet-char v h = ground arith

char-IsPlain : (v : ℕ) → v < 64 → IsPlain (char_of_sextet v)
unfolding char_of_sextet is_space
char-IsPlain v h = record { ascii = ground arith; not_space = ground arith }

pad-IsPlain : IsPlain pad
unfolding is_space
pad-IsPlain = record { ascii = refl; not_space = refl }

char-ne-pad : (v : ℕ) → v < 64 → (char_of_sextet v == pad) ≡ false
unfolding char_of_sextet
char-ne-pad v h = ground arith

-- A group with no padding before it.
abbrev group_at : ℕ → ℕ → Group
group_at q l = record { quad_pos = q; leftchar = l; pads = 0; padding_started = false }

-- One character of the alphabet, with no padding before it, is one turn of the loop.
a2b_loop_char :
    (strict : Bool) (q l v : ℕ) (s : Text)
    → v < 64
    → a2b_loop strict (group_at q l) (char_of_sextet v ∷ s)
      ≡ prepend
          (take_sextet (group_at q l) v).0
          (a2b_loop strict (take_sextet (group_at q l) v).1 s)
unfolding a2b_loop
a2b_loop_char true q l v s h = rw (char-ne-pad v h, sextet-char v h) refl
a2b_loop_char false q l v s h = rw (char-ne-pad v h, sextet-char v h) refl

module _ (strict : Bool) (a b : ℕ) (ha : a < 64) (hb : b < 64) where
  -- The first two characters of a group give one byte.
  two_chars :
      (s : Text)
      → a2b_loop strict start (char_of_sextet a ∷ char_of_sextet b ∷ s)
        ≡ prepend ((a * 4 + b / 16) ∷ []) (a2b_loop strict (group_at 2 (b % 16)) s)
  unfolding take_sextet
  two_chars s =
      rw (a2b_loop_char strict 0 0 a (char_of_sextet b ∷ s) ha, a2b_loop_char strict 1 a b s hb)

  three_chars :
      (c : ℕ) (s : Text)
      → c < 64
      → a2b_loop strict start (char_of_sextet a ∷ char_of_sextet b ∷ char_of_sextet c ∷ s)
        ≡ prepend
            ((a * 4 + b / 16) ∷ [])
            (prepend ((b % 16 * 16 + c / 4) ∷ []) (a2b_loop strict (group_at 3 (c % 4)) s))
  unfolding take_sextet
  three_chars c s hc = rw (two_chars (char_of_sextet c ∷ s), a2b_loop_char strict 2 (b % 16) c s hc)

padded_two : (strict : Bool) (l : ℕ) → a2b_loop strict (group_at 2 l) (pad ∷ pad ∷ []) ≡ some []
unfolding a2b_loop take_pad
padded_two true l = refl
padded_two false l = refl

padded_one : (strict : Bool) (l : ℕ) → a2b_loop strict (group_at 3 l) (pad ∷ []) ≡ some []
unfolding a2b_loop take_pad
padded_one true l = refl
padded_one false l = refl

fourth_char :
    (strict : Bool) (l v : ℕ) (s : Text)
    → v < 64
    → a2b_loop strict (group_at 3 l) (char_of_sextet v ∷ s)
      ≡ prepend ((l * 64 + v) ∷ []) (a2b_loop strict start s)
unfolding take_sextet
fourth_char strict l v s h = a2b_loop_char strict 3 l v s h

a2b_loop-nil : (strict : Bool) → a2b_loop strict start [] ≡ some []
unfolding a2b_loop
a2b_loop-nil strict = refl

a2b_loop-b64encode :
    (strict : Bool) (bytes : List ℕ)
    → AreBytes bytes
    → a2b_loop strict start (b64encode bytes) ≡ some bytes
unfolding b64encode
a2b_loop-b64encode strict [] h = a2b_loop-nil strict
a2b_loop-b64encode strict (a ∷ []) h =
    two_chars strict (a / 4) (a % 4 * 16) (omega arith) (omega arith) (pad ∷ pad ∷ [])
    ∙ rw padded_two (ap some (ap (λ t. t ∷ []) (omega arith)))
a2b_loop-b64encode strict (a ∷ b ∷ []) h =
    three_chars strict (a / 4) (a % 4 * 16 + b / 16) (omega arith) (omega arith) (b % 16 * 4)
      (pad ∷ []) (omega arith)
    ∙ rw padded_one (ap₂ (λ s t. some (s ∷ t ∷ [])) (omega arith) (omega arith))
a2b_loop-b64encode strict (a ∷ b ∷ c ∷ rest) h =
    three_chars strict (a / 4) (a % 4 * 16 + b / 16) (omega arith) (omega arith)
      (b % 16 * 4 + c / 64) (char_of_sextet (c % 64) ∷ b64encode rest) (omega arith)
    ∙ rw
        (
          fourth_char strict ((b % 16 * 4 + c / 64) % 4) (c % 64) (b64encode rest) (omega arith),
          a2b_loop-b64encode strict rest h.1.1.1,
        )
        (ap₂ (λ (x y : List ℕ). some (x ++ y)) (two_bytes a b c h.0 h.1.0 h.1.1.0)
          (ap (λ t. t ∷ rest) (omega arith)))
  where
    two_bytes :
        (a b c : ℕ)
        → a < 256
        → b < 256
        → c < 256
        → (a / 4 * 4 + (a % 4 * 16 + b / 16) / 16)
            ∷ ((a % 4 * 16 + b / 16) % 16 * 16 + (b % 16 * 4 + c / 64) / 4)
            ∷ []
          ≡ a ∷ b ∷ []
    two_bytes a b c h k l = ground arith

-- Encoded text is ASCII and holds no white space.
pub b64encode-IsPlain : (bytes : List ℕ) → AreBytes bytes → All IsPlain (b64encode bytes)
unfolding b64encode
b64encode-IsPlain [] h = tt
b64encode-IsPlain (a ∷ []) h =
    (char-IsPlain _ (omega arith), (char-IsPlain _ (omega arith), (pad-IsPlain, (pad-IsPlain, tt))))
b64encode-IsPlain (a ∷ b ∷ []) h = (
  char-IsPlain _ (omega arith),
  (char-IsPlain _ (omega arith), (char-IsPlain _ (omega arith), (pad-IsPlain, tt))),
)
b64encode-IsPlain (a ∷ b ∷ c ∷ rest) h = (
  char-IsPlain _ (omega arith),
  (
    char-IsPlain _ (omega arith),
    (char-IsPlain _ (omega arith), (char-IsPlain _ (omega arith), b64encode-IsPlain rest h.1.1.1)),
  ),
)

plain_ascii : (s : Text) → All IsPlain s → any (leb 128) s ≡ false
plain_ascii [] h = refl
plain_ascii (c ∷ s) h = ground (arith, h.0.ascii, plain_ascii s h.1)

plain_join_split : (s : Text) → All IsPlain s → join_split s ≡ s
unfolding join_split
plain_join_split [] h = refl
plain_join_split (c ∷ s) h = rw (h.0.not_space, plain_join_split s h.1) refl

plain_lstrip : (s : Text) → All IsPlain s → lstrip s ≡ s
unfolding lstrip
plain_lstrip [] h = refl
plain_lstrip (c ∷ s) h = rw (h.0.not_space) refl

-- Decoding what was encoded gives the bytes back, with and without validation.
pub b64decode-b64encode :
    (strict : Bool) (bytes : List ℕ)
    → AreBytes bytes
    → b64decode strict (b64encode bytes) ≡ some bytes
unfolding b64decode
b64decode-b64encode strict bytes h =
    rw (plain_ascii (b64encode bytes) (b64encode-IsPlain bytes h))
      (a2b_loop-b64encode strict bytes h)

-- Removing white space changes nothing in an encoded text.
pub join_split-b64encode :
    (bytes : List ℕ) → AreBytes bytes → join_split (b64encode bytes) ≡ b64encode bytes
join_split-b64encode bytes h = plain_join_split (b64encode bytes) (b64encode-IsPlain bytes h)

-- An encoded text is blank only for no bytes.
pub not_blank-b64encode :
    (b : ℕ) (bytes : List ℕ) → AreBytes (b ∷ bytes) → not_blank (b64encode (b ∷ bytes)) ≡ true
unfolding not_blank b64encode
not_blank-b64encode b [] h = ground (arith, (char-IsPlain (b / 4) (omega arith)).not_space)
not_blank-b64encode b (c ∷ []) h = ground (arith, (char-IsPlain (b / 4) (omega arith)).not_space)
not_blank-b64encode b (c ∷ d ∷ rest) h =
    ground (arith, (char-IsPlain (b / 4) (omega arith)).not_space)
