-- ===== src/Command/Stored.antt =====
-- command_builder.py: the store of learned frames, written and read again.
use delonghi_coffeelink.Prelude.{
  ℕ, zero, suc, ◌+◌, ◌*◌, ◌/◌, ◌%◌, ◌≤◌, ◌<◌, ◌≡◌, refl, ap, sym, ◌∙◌, subst, arith, Bool, true,
  false, Option, none, some, [], ◌∷◌, ◌++◌, map, ltb, ◌==◌, All, Bool-cases, inl, inr, All-append,
  append_assoc, ==_iff, append-nil,
}
use mathlib.Core.Option.{none-ne-some}
use mathlib.Core.List.{reverse, reverse_aux, reverse-reverse}
use delonghi_coffeelink.Prelude.Int.{ℤ, pos, negsuc, eqb_ℤ}
use delonghi_coffeelink.Prelude.Text.{Text, is_space, lstrip, strip}
use delonghi_coffeelink.Command.Learn.{
  Frames, put_frame, put_read, section_entry, read_entries, read_section, read_wake, stored_wake,
  serialize_learned_frames, deserialize_learned_frames,
}
use delonghi_coffeelink.Hex.{
  hex_digit, hex_digits, hex2, hex0x, hex0x_int, digit_value, digits16, unsigned16, signed16, int16,
}

digit_value-hex_digit : (v : ℕ) → v < 16 → digit_value (hex_digit v) ≡ some v
unfolding digit_value hex_digit
digit_value-hex_digit v h = ground arith

digits16-hex_digit :
    (acc v r : ℕ) (after : Bool) (s : Text)
    → v < 16
    → acc * 16 + v ≡ r
    → digits16 acc after (hex_digit v ∷ s) ≡ digits16 r true s
unfolding digits16
digits16-hex_digit acc v r after s h eq =
    rw (digit_value-hex_digit v h, digits16) (ap (λ (m : ℕ). digits16 m true s) eq)

digits16-hex_digits :
    (fuel n : ℕ) (after : Bool) (s : Text)
    → n ≤ fuel
    → 1 ≤ fuel
    → digits16 0 after (hex_digits fuel n s) ≡ digits16 n true s
unfolding hex_digits
digits16-hex_digits zero n after s h k = absurd (omega arith)
digits16-hex_digits (suc fuel) n after s h k = elim (Bool-cases (ltb n 16)) [
  | inl small ↦ rw small (digits16-hex_digit 0 n n after s (ground arith) (omega arith))
  | inr large ↦ rw large (
      digits16-hex_digits fuel (n / 16) after (hex_digit (n % 16) ∷ s) (ground arith) (ground arith)
      ∙ digits16-hex_digit (n / 16) (n % 16) n true s (omega arith) (omega arith))
]

digits16-hex2 : (n : ℕ) → digits16 0 false (hex2 n) ≡ some n
unfolding hex2 digits16
digits16-hex2 n = elim (Bool-cases (ltb n 256)) [
  | inl small ↦ rw small (
      digits16-hex_digit 0 (n / 16) (n / 16) false (hex_digit (n % 16) ∷ []) (ground arith)
        (omega arith)
      ∙ digits16-hex_digit (n / 16) (n % 16) n true [] (omega arith) (omega arith))
  | inr large ↦ rw large (digits16-hex_digits n n false [] (omega arith) (ground arith))
]

-- Behind the prefix stands no underscore, so that it changes nothing.
unsigned16-prefixed :
    (t : Text) (n : ℕ) → digits16 0 false t ≡ some n → unsigned16 (b'0' ∷ b'x' ∷ t) ≡ some n
unfolding unsigned16 digits16 digit_value
unsigned16-prefixed [] n h = absurd (ground arith)
unsigned16-prefixed (u ∷ s) n h = elim (Bool-cases (u == b'_')) [
  | inl underscore ↦
      let bad : digits16 0 false (b'_' ∷ s) ≡ some n =
        subst (λ (c : ℕ). digits16 0 false (c ∷ s) ≡ some n) ((==_iff u b'_').0 underscore) h in
      elim (none-ne-some n bad) [ ]
  | inr plain ↦ rw plain h
]

abbrev HasNoSpace : Text → Type 0
HasNoSpace = All (λ c. is_space c ≡ false)

hex_digit-no_space : (v : ℕ) → v < 16 → is_space (hex_digit v) ≡ false
unfolding is_space hex_digit
hex_digit-no_space v h = ground arith

hex_digits-HasNoSpace :
    (fuel n : ℕ) (s : Text) → n ≤ fuel → 1 ≤ fuel → HasNoSpace s → HasNoSpace (hex_digits fuel n s)
unfolding hex_digits
hex_digits-HasNoSpace zero n s h k all = absurd (omega arith)
hex_digits-HasNoSpace (suc fuel) n s h k all = elim (Bool-cases (ltb n 16)) [
  | inl small ↦ rw small (hex_digit-no_space n (ground arith), all)
  | inr large ↦ rw large (
      hex_digits-HasNoSpace fuel (n / 16) (hex_digit (n % 16) ∷ s) (ground arith) (ground arith)
        (hex_digit-no_space (n % 16) (omega arith), all))
]

hex2-HasNoSpace : (n : ℕ) → HasNoSpace (hex2 n)
unfolding hex2
hex2-HasNoSpace n = elim (Bool-cases (ltb n 256)) [
  | inl small ↦
      rw small (
        hex_digit-no_space (n / 16) (ground arith),
        (hex_digit-no_space (n % 16) (omega arith), tt),
      )
  | inr large ↦ rw large (hex_digits-HasNoSpace n n [] (omega arith) (ground arith) tt)
]

lstrip_self : (s : Text) → HasNoSpace s → lstrip s ≡ s
unfolding lstrip
lstrip_self [] h = refl
lstrip_self (c ∷ s) h = rw (h.0) refl

reverse_aux-HasNoSpace : (s t : Text) → HasNoSpace s → HasNoSpace t → HasNoSpace (reverse_aux s t)
reverse_aux-HasNoSpace [] t h k = k
reverse_aux-HasNoSpace (c ∷ s) t h k = reverse_aux-HasNoSpace s (c ∷ t) h.1 (h.0, k)

strip_self : (s : Text) → HasNoSpace s → strip s ≡ s
unfolding strip
strip_self s h =
    ap (λ (t : Text). reverse (lstrip (reverse t))) (lstrip_self s h)
    ∙ ap reverse (lstrip_self (reverse s) (reverse_aux-HasNoSpace s [] h tt))
    ∙ reverse-reverse s

-- A key that `serialize_learned_frames` writes is the number that `int(key, 16)` reads.
int16-hex0x : (n : ℕ) → int16 (hex0x n) ≡ some (pos n)
unfolding int16 signed16 hex0x is_space
int16-hex0x n =
    ap signed16 (strip_self (b'0' ∷ b'x' ∷ hex2 n) (refl, (refl, hex2-HasNoSpace n)))
    ∙ rw (unsigned16-prefixed (hex2 n) n (digits16-hex2 n), signed16) refl

-- The keys are numbers of beverages, each of which occurs once.
abbrev pub IsNew : ℤ → Frames → Type 0
IsNew key = All (λ entry. eqb_ℤ entry.0 key ≡ false)

abbrev pub IsTable : Frames → Type 0
IsTable [] = Unit
IsTable ((negsuc n, frame) ∷ entries) = ⊥
IsTable ((pos n, frame) ∷ entries) = IsNew (pos n) entries × IsTable entries

put_frame-new :
    (key : ℤ) (frame : Text) (out : Frames)
    → All (λ entry. eqb_ℤ key entry.0 ≡ false) out
    → put_frame key frame out ≡ out ++ (key, frame) ∷ []
put_frame-new key frame [] h = refl
put_frame-new key frame ((j, old) ∷ out) h =
    rw (h.0) (ap (λ (d : Frames). (j, old) ∷ d) (put_frame-new key frame out h.1))

-- The loop of `_section` over what was written, behind the entries that it has read.
abbrev AreApart : Frames → Frames → Type 0
AreApart out = All (λ entry. All (λ old. eqb_ℤ entry.0 old.0 ≡ false) out)

AreApart-add :
    (key : ℤ) (frame : Text) (out entries : Frames)
    → IsNew key entries
    → AreApart out entries
    → AreApart (out ++ (key, frame) ∷ []) entries
AreApart-add key frame out [] new apart = tt
AreApart-add key frame out (e ∷ entries) new apart = (
  All-append (λ old. eqb_ℤ e.0 old.0 ≡ false) out ((key, frame) ∷ []) apart.0 (new.0, tt),
  AreApart-add key frame out entries new.1 apart.1,
)

apart_of_nothing : (entries : Frames) → AreApart [] entries
apart_of_nothing [] = tt
apart_of_nothing (e ∷ entries) = (tt, apart_of_nothing entries)

read_entries-section :
    (entries out : Frames)
    → IsTable entries
    → AreApart out entries
    → read_entries (map section_entry entries) out ≡ out ++ entries
unfolding read_entries hex0x_int hex0x
read_entries-section [] out table apart = sym (append-nil out)
read_entries-section ((negsuc n, frame) ∷ entries) out table apart = elim table [ ]
read_entries-section ((pos n, frame) ∷ entries) out table apart =
    ap (read_entries (map section_entry entries)) (
      ap (λ (k : Option ℤ). put_read k frame out) (int16-hex0x n)
      ∙ put_frame-new (pos n) frame out apart.0)
    ∙ read_entries-section entries (out ++ (pos n, frame) ∷ []) table.1
        (AreApart-add (pos n) frame out entries table.0 apart.1)
    ∙ append_assoc out ((pos n, frame) ∷ []) entries

abbrev pub stored_text : Option Text → Option Text
stored_text none = none
stored_text (some []) = none
stored_text (some (c ∷ s)) = some (c ∷ s)

read_wake-stored : (wake : Option Text) → read_wake (stored_wake wake) ≡ stored_text wake
read_wake-stored none = refl
read_wake-stored (some []) = refl
read_wake-stored (some (c ∷ s)) = refl

pub deserialize-serialize :
    (start stop : Frames) (wake : Option Text)
    → IsTable start
    → IsTable stop
    → deserialize_learned_frames (some (serialize_learned_frames start stop wake))
      ≡ (start, stop, stored_text wake)
unfolding deserialize_learned_frames serialize_learned_frames
deserialize-serialize start stop wake hstart hstop =
    ap
      (λ (s : Frames).
        (s, read_section (some (map section_entry stop)), read_wake (stored_wake wake)))
      (read_entries-section start [] hstart (apart_of_nothing start))
    ∙ ap (λ (s : Frames). (start, s, read_wake (stored_wake wake)))
        (read_entries-section stop [] hstop (apart_of_nothing stop))
    ∙ ap (λ (w : Option Text). (start, stop, w)) (read_wake-stored wake)
