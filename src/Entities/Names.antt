-- ===== src/Entities/Names.antt =====
-- monitor.py and const.py: the name of a status is one of the options.
use mathlib.Core.Bool.{or-true}
use delonghi_coffeelink.Prelude.{
  ℕ, ◌≡◌, refl, ap, sym, ◌∙◌, arith, Bool, true, false, ◌||◌, Option, none, some, List, [], ◌∷◌,
  map, Bool-cases, inl, inr, ◌==◌, if-both, drop, get_elem?, not,
}
use Prim.Native.String.{String}
use delonghi_coffeelink.Prelude.Text.{
  Text, codes, in_texts, text_eq, text_eq_refl, text_eq_sound, join_split, not_blank,
}
use delonghi_coffeelink.Base64.{b64decode}
use delonghi_coffeelink.Prelude.Dict.{Dict, lookup, values}
use delonghi_coffeelink.Prelude.Result.{
  Result, ok, err, value_error, value_message, ◌>>=◌, Passes, Passes-bind,
}
use delonghi_coffeelink.Const.{machine_status}
use delonghi_coffeelink.Const.Tables.{without, from_keys, machine_status_options}
use delonghi_coffeelink.Monitor.{
  Reading, failed, reading, reading_of, is_other, not_monitor, empty_value, or_unknown,
  status_names, catch_value, parse_monitor_bytes, parse_monitor_decoded, parse_ecam_packet,
  parse_monitor_contents, parse_monitor_b64,
}

or_twice : (a b : Bool) → (a || (a || b)) ≡ (a || b)
or_twice true b = refl
or_twice false b = refl

or_under : (a b c d : Bool) → (a || c) ≡ (a || d) → (a || (b || c)) ≡ (a || (b || d))
or_under true b c d h = refl
or_under false b c d h = ap (λ (e : Bool). b || e) h

-- Dropping what is equal to `x` drops no other text.
in_texts-without :
    (t x : Text) (ys : List Text)
    → (text_eq t x || in_texts t (without x ys)) ≡ (text_eq t x || in_texts t ys)
unfolding in_texts
in_texts-without t x [] = refl
in_texts-without t x (y ∷ ys) = elim (Bool-cases (text_eq x y)) [
  | inl same ↦ rw same (
      in_texts-without t x ys
      ∙ sym (or_twice (text_eq t x) (in_texts t ys))
      ∙ ap (λ (u : Text). text_eq t x || (text_eq t u || in_texts t ys)) (text_eq_sound x y same))
  | inr differs ↦ rw differs (
      or_under (text_eq t x) (text_eq t y) (in_texts t (without x ys)) (in_texts t ys)
        (in_texts-without t x ys))
]

in_texts-from_keys : (t : Text) (xs : List Text) → in_texts t (from_keys xs) ≡ in_texts t xs
unfolding in_texts
in_texts-from_keys t [] = refl
in_texts-from_keys t (x ∷ xs) =
    in_texts-without t x (from_keys xs)
    ∙ ap (λ (b : Bool). text_eq t x || b) (in_texts-from_keys t xs)

lookup-in_texts :
    (k : ℕ) (d : Dict String) (name : String)
    → lookup k d ≡ some name
    → in_texts (codes name) (map codes (values d)) ≡ true
unfolding in_texts
lookup-in_texts k [] name found = absurd (ground arith)
lookup-in_texts k ((i, other) ∷ d) name found = elim (Bool-cases (k == i)) [
  | inl same ↦
      let this : other ≡ name = ground (arith, found, same) in
      rw (this, text_eq_refl (codes name)) refl
  | inr differs ↦
      let later : lookup k d ≡ some name = ground (arith, found, differs) in
      rw (lookup-in_texts k d name later) (or-true (text_eq (codes name) (codes other)))
]

or_unknown-option :
    (o : Option String)
    → ((name : String)
        → o ≡ some name
        → in_texts (codes name) (map codes (values machine_status)) ≡ true)
    → in_texts (codes (or_unknown o)) (map codes (values machine_status)) ≡ true
unfolding in_texts text_eq
or_unknown-option none h = refl
or_unknown-option (some name) h = h name refl

status_names-option : (s : ℕ) → in_texts (codes (status_names s)) machine_status_options ≡ true
unfolding machine_status_options
status_names-option s =
    in_texts-from_keys (codes (status_names s)) (map codes (values machine_status))
    ∙ or_unknown-option (lookup s machine_status) (lookup-in_texts s machine_status)

-- The name of the status, where the monitor is read.
abbrev pub NamesOption : Reading → Type 0
NamesOption (failed f) = Unit
NamesOption (reading m) = in_texts (codes m.status_name) machine_status_options ≡ true

catch_value-NamesOption :
    (r : Result Reading) → Passes NamesOption r → Passes NamesOption (catch_value r)
catch_value-NamesOption (ok m) h = h
catch_value-NamesOption (err (value_message m)) h = tt
catch_value-NamesOption (err value_error) h = tt
catch_value-NamesOption (err e) h = tt

parse_monitor_bytes-NamesOption : (raw : List ℕ) → Passes NamesOption (parse_monitor_bytes raw)
unfolding parse_monitor_bytes
parse_monitor_bytes-NamesOption raw = Passes-bind NamesOption (parse_ecam_packet raw) _ (λ packet.
    if-both (Passes NamesOption) (is_other packet.content)
      (ok (failed (not_monitor (get_elem? packet.content 0))))
      (parse_monitor_contents (drop 2 packet.content) >>= λ fields. ok (reading_of fields)) tt
      (Passes-bind NamesOption (parse_monitor_contents (drop 2 packet.content))
        (λ fields. ok (reading_of fields)) (λ fields. status_names-option fields.status)))

pub parse_monitor_b64-NamesOption : (value : Text) → Passes NamesOption (parse_monitor_b64 value)
unfolding parse_monitor_b64
parse_monitor_b64-NamesOption value =
    if-both (Passes NamesOption) (not (not_blank value)) (ok (failed empty_value))
      (parse_monitor_decoded (b64decode true (join_split value))) tt
      (decoded (b64decode true (join_split value)))
  where
    decoded : (o : Option (List ℕ)) → Passes NamesOption (parse_monitor_decoded o)
    decoded none = tt
    decoded (some raw) =
        catch_value-NamesOption (parse_monitor_bytes raw) (parse_monitor_bytes-NamesOption raw)
