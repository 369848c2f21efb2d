-- ===== src/Counters/Sums.antt =====
-- counters.py: what a counter with a breakdown counts.
use delonghi_coffeelink.Prelude.{
  ◌≡◌, refl, ap, sym, ◌∙◌, arith, Bool, true, false, ◌||◌, Option, none, some, List, [], ◌∷◌,
  if◌then◌else◌, All, Bool-cases, inl, inr,
}
use delonghi_coffeelink.Prelude.Int.{ℤ, pos, ◌+ℤ◌, +ℤ_parts, eq_of_parts}
use delonghi_coffeelink.Prelude.Text.{Text, codes, strip, text_eq}
use delonghi_coffeelink.Prelude.Result.{Result, ok, err, overflow_error, ◌>>=◌}
use delonghi_coffeelink.Counters.{
  Document, breakdown_text, entries_of, total_of, Raw, null, boolean, integer, string, float,
  structure, int10, looks_like_json_object, add_sub, add_subs, entry_values, parse_text,
  parse_counter_value, counter_breakdown,
}

-- What `int` gives for a sub-value, and nothing where it raises.
abbrev or_zero : Option ℤ → ℤ
or_zero none = pos 0
or_zero (some n) = n

abbrev if_finite : Result ℤ → ℤ
if_finite (ok n) = n
if_finite (err e) = pos 0

abbrev pub count_of : Raw → ℤ
count_of null = pos 0
count_of (boolean true) = pos 1
count_of (boolean false) = pos 0
count_of (integer n) = n
count_of (string s) = or_zero (int10 s)
count_of (float s r) = if_finite r
count_of (structure s) = pos 0

abbrev pub total_count : List Raw → ℤ
total_count [] = pos 0
total_count (sub ∷ subs) = count_of sub +ℤ total_count subs

-- Every value but an infinite float.
abbrev pub IsFinite : Raw → Type 0
IsFinite (float s (err overflow_error)) = ⊥
IsFinite _ = Unit

+ℤ_zero : (a : ℤ) → a +ℤ pos 0 ≡ a
+ℤ_zero a = eq_of_parts (a +ℤ pos 0) a (omega (arith, +ℤ_parts a (pos 0)))

zero_+ℤ : (a : ℤ) → pos 0 +ℤ a ≡ a
zero_+ℤ a = eq_of_parts (pos 0 +ℤ a) a (omega (arith, +ℤ_parts (pos 0) a))

+ℤ_assoc : (a b c : ℤ) → (a +ℤ b) +ℤ c ≡ a +ℤ (b +ℤ c)
+ℤ_assoc a b c =
    eq_of_parts ((a +ℤ b) +ℤ c) (a +ℤ (b +ℤ c))
      (omega (arith, +ℤ_parts (a +ℤ b) c, +ℤ_parts a b, +ℤ_parts a (b +ℤ c), +ℤ_parts b c))

add_read :
    (o : Option ℤ) (total : ℤ)
    → (elim o [ none ↦ ok total | some n ↦ ok (total +ℤ n) ]) ≡ ok (total +ℤ or_zero o)
add_read none total = ap ok (sym (+ℤ_zero total))
add_read (some n) total = refl

add_sub-count :
    (sub : Raw) (total : ℤ) → IsFinite sub → add_sub sub total ≡ ok (total +ℤ count_of sub)
unfolding add_sub
add_sub-count null total h = ap ok (sym (+ℤ_zero total))
add_sub-count (boolean true) total h = refl
add_sub-count (boolean false) total h = refl
add_sub-count (integer n) total h = refl
add_sub-count (string s) total h = add_read (int10 s) total
add_sub-count (float s (ok n)) total h = refl
add_sub-count (float s (err overflow_error)) total h = elim h [ ]
add_sub-count (float s (err e)) total h = ap ok (sym (+ℤ_zero total))
add_sub-count (structure s) total h = ap ok (sym (+ℤ_zero total))

add_subs-total :
    (subs : List Raw) (total : ℤ)
    → All IsFinite subs
    → add_subs subs total ≡ ok (total +ℤ total_count subs)
unfolding add_subs
add_subs-total [] total h = ap ok (sym (+ℤ_zero total))
add_subs-total (sub ∷ subs) total h =
    ap (λ (r : Result ℤ). r >>= add_subs subs) (add_sub-count sub total h.0)
    ∙ add_subs-total subs (total +ℤ count_of sub) h.1
    ∙ ap ok (+ℤ_assoc total (count_of sub) (total_count subs))

module _ (json_loads : Text → Document) where
  total_of-entries :
      (d : Document) (entries : List (Text × Raw))
      → entries_of json_loads d ≡ some entries
      → All IsFinite (entry_values entries)
      → total_of json_loads d ≡ ok (some (total_count (entry_values entries)))
  total_of-entries none entries shown finite = absurd (ground arith)
  total_of-entries (some none) entries shown finite = absurd (ground arith)
  total_of-entries (some (some read)) entries shown finite =
      let same : read ≡ entries = ground (arith, shown) in
      rw same (
        ap (λ (r : Result ℤ). r >>= λ n. ok (some n))
          (add_subs-total (entry_values entries) (pos 0) finite)
        ∙ ap (λ (n : ℤ). ok (some n)) (zero_+ℤ (total_count (entry_values entries))))

  parse_text-breakdown :
      (s : Text) (entries : List (Text × Raw))
      → breakdown_text json_loads s ≡ some entries
      → All IsFinite (entry_values entries)
      → parse_text json_loads s ≡ ok (some (total_count (entry_values entries)))
  unfolding parse_text
  parse_text-breakdown s entries shown finite = elim (Bool-cases (looks_like_json_object s)) [
    | inl object ↦ rw object (
        total_of-entries (json_loads s) entries
          (ap (λ (b : Bool). if b then entries_of json_loads (json_loads s) else none) (sym object)
            ∙ shown)
          finite)
    | inr plain ↦ absurd (ground (arith, shown, plain))
  ]

  -- A counter that shows a breakdown counts the sum of what `int` gives for its parts, where none of
  -- them is infinite: an integer, the integer of a text, the whole part of a float, one for true and
  -- nothing for false; a part that `int` refuses counts nothing.
  pub parse_counter_value-breakdown :
      (value : Raw) (entries : List (Text × Raw))
      → counter_breakdown json_loads value ≡ some entries
      → All IsFinite (entry_values entries)
      → parse_counter_value json_loads value ≡ ok (some (total_count (entry_values entries)))
  unfolding parse_counter_value counter_breakdown
  parse_counter_value-breakdown null entries shown finite = absurd (ground arith)
  parse_counter_value-breakdown (boolean b) entries shown finite = absurd (ground arith)
  parse_counter_value-breakdown (integer n) entries shown finite = absurd (ground arith)
  parse_counter_value-breakdown (string s) entries shown finite =
      parse_text-breakdown (strip s) entries shown finite
  parse_counter_value-breakdown (float s n) entries shown finite =
      parse_text-breakdown (strip s) entries shown finite
  parse_counter_value-breakdown (structure s) entries shown finite =
      elim (Bool-cases (text_eq s (codes "{}") || text_eq s (codes "[]"))) [
        | inl empty ↦ absurd (ground (arith, shown, empty))
        | inr full ↦
            parse_text-breakdown (strip s) entries
              (ap (λ (b : Bool). if b then none else breakdown_text json_loads (strip s)) (sym full)
                ∙ shown)
              finite
      ]
