-- ===== src/Targets/Lookup.antt =====
-- __init__.py: the lists of device ids and of machines, and what is looked up in them.
use delonghi_coffeelink.Prelude.{
  ◌≡◌, refl, ap, sym, subst, ◌∙◌, arith, Bool, true, false, ◌||◌, some, List, [], ◌∷◌, ◌++◌, any,
  All, All-append, if-both, Bool-cases, Option-cases, inl, inr,
}
use mathlib.Core.Bool.{or-true}
use delonghi_coffeelink.Prelude.Text.{
  Text, text_eq, text_eq_refl, text_eq_sound, text_leb, in_texts,
}
use delonghi_coffeelink.Targets.{Machine, has_items, add_text, sorted_texts}
use delonghi_coffeelink.Targets.Machines.{find_machine, first_machine, is_target, add_target}
use delonghi_coffeelink.Targets.Resolve.{IsDistinct, text_eq_sym, is_target-append}

in_texts-add_text :
    (t u : Text) (us : List Text) → in_texts t (add_text u us) ≡ (text_eq t u || in_texts t us)
unfolding in_texts add_text
in_texts-add_text t u [] = refl
in_texts-add_text t u (v ∷ us) = elim (Bool-cases (text_eq u v)) [
  | inl same ↦ rw same (rw (text_eq_sound u v same) (ground arith))
  | inr new ↦ elim (Bool-cases (text_leb u v)) [
    | inl before ↦ rw (new, before) refl
    | inr after ↦ rw (new, after, in_texts-add_text t u us) (ground arith)
  ]
]

-- Sorting keeps the texts.
pub in_texts-sorted_texts :
    (t : Text) (ts : List Text) → in_texts t (sorted_texts ts) ≡ in_texts t ts
unfolding in_texts sorted_texts
in_texts-sorted_texts t [] = refl
in_texts-sorted_texts t (u ∷ us) =
    in_texts-add_text t u (sorted_texts us) ∙ rw (in_texts-sorted_texts t us) refl

pub in_texts-append :
    (t : Text) (us vs : List Text) → in_texts t (us ++ vs) ≡ (in_texts t us || in_texts t vs)
unfolding in_texts
in_texts-append t [] vs = refl
in_texts-append t (u ∷ us) vs = rw (in_texts-append t us vs) (ground arith)

is_target-same_dsn :
    (k m : Machine) (found : List Machine)
    → text_eq k.dsn m.dsn ≡ true
    → is_target k found ≡ is_target m found
unfolding is_target
is_target-same_dsn k m found h =
    ap (λ d. any (λ (t : Machine). text_eq d t.dsn) found) (text_eq_sound k.dsn m.dsn h)

is_target-one : (k m : Machine) → is_target k (m ∷ []) ≡ text_eq k.dsn m.dsn
unfolding is_target
is_target-one k m = ground arith

is_target-add_target :
    (k m : Machine) (found : List Machine)
    → is_target k (add_target m found) ≡ (is_target k found || text_eq k.dsn m.dsn)
is_target-add_target k m found = elim (Bool-cases (is_target m found)) [
  | inr new ↦
      rw new
        (is_target-append k found (m ∷ []) ∙ ap (λ b. is_target k found || b) (is_target-one k m))
  | inl there ↦ elim (Bool-cases (text_eq k.dsn m.dsn)) [
    | inl same ↦ rw (there, is_target-same_dsn k m found same, there) refl
    | inr other ↦ rw (there, other) (ground arith)
  ]
]

pub has_items-nil : (ts : List Text) → has_items ts ≡ false → ts ≡ []
has_items-nil [] h = refl
has_items-nil (t ∷ ts) h = absurd (ground arith)

pub is_target-add_old :
    (k m : Machine) (found : List Machine)
    → is_target k found ≡ true
    → is_target k (add_target m found) ≡ true
is_target-add_old k m found h = is_target-add_target k m found ∙ rw h refl

pub is_target-add_new :
    (m : Machine) (found : List Machine) → is_target m (add_target m found) ≡ true
is_target-add_new m found = is_target-add_target m m found ∙ rw (text_eq_refl m.dsn) (ground arith)

find_machine_sound :
    (dsn : Text) (known : List Machine) (m : Machine)
    → find_machine dsn known ≡ some m
    → (m.dsn ≡ dsn) × (is_target m known ≡ true)
unfolding find_machine is_target
find_machine_sound dsn [] m e = absurd (ground arith)
find_machine_sound dsn (k ∷ ms) m e = elim (Bool-cases (text_eq dsn k.dsn)) [
  | inl same ↦
      let eq : k ≡ m = ground arith in
      (
        sym (ap (λ (n : Machine). n.dsn) eq) ∙ sym (text_eq_sound dsn k.dsn same),
        subst (λ (n : Machine). is_target n (k ∷ ms) ≡ true) eq (rw (text_eq_refl k.dsn) refl),
      )
  | inr other ↦
      let (eq, there) = find_machine_sound dsn ms m (ground arith) in
      (eq, rw there (or-true (text_eq m.dsn k.dsn)))
]

-- The machine of a device is set up, and its DSN is an identifier of the device.
pub first_machine_sound :
    (dsns : List Text) (known : List Machine) (m : Machine)
    → first_machine dsns known ≡ some m
    → (in_texts m.dsn dsns ≡ true) × (is_target m known ≡ true)
unfolding first_machine in_texts
first_machine_sound [] known m e = absurd (ground arith)
first_machine_sound (dsn ∷ dsns) known m e = elim (Option-cases (find_machine dsn known)) [
  | inl nothing ↦
      let (named, there) = first_machine_sound dsns known m (ground arith) in
      (rw named (or-true (text_eq m.dsn dsn)), there)
  | inr (k, is_k) ↦
      let eq : k ≡ m = ground arith in
      let (here, there) = find_machine_sound dsn known m (is_k ∙ ap some eq) in
      (subst (λ d. in_texts m.dsn (d ∷ dsns) ≡ true) here (rw (text_eq_refl m.dsn) refl), there)
]

pub All-in_texts :
    (P : Text → Type 0) (ts : List Text) (t : Text) → All P ts → in_texts t ts ≡ true → P t
unfolding in_texts
All-in_texts P [] t h e = absurd (ground arith)
All-in_texts P (u ∷ us) t h e = elim (Bool-cases (text_eq t u)) [
  | inl same ↦ subst P (sym (text_eq_sound t u same)) h.0
  | inr other ↦ All-in_texts P us t h.1 (ground arith)
]

pub add_target-All :
    (P : Machine → Type 0) (m : Machine) (found : List Machine)
    → All P found
    → P m
    → All P (add_target m found)
add_target-All P m found h k =
    if-both (All P) (is_target m found) found (found ++ m ∷ []) h
      (All-append P found (m ∷ []) h (k, tt))

or_false : (a b : Bool) → (a || b) ≡ false → (a ≡ false) × (b ≡ false)
or_false true b h = absurd (ground arith)
or_false false b h = (refl, h)

IsDistinct-append :
    (m : Machine) (found : List Machine)
    → IsDistinct found
    → is_target m found ≡ false
    → IsDistinct (found ++ m ∷ [])
unfolding is_target
IsDistinct-append m [] h new = (refl, tt)
IsDistinct-append m (n ∷ found) h new =
    let (apart, fresh) = or_false (text_eq m.dsn n.dsn) (is_target m found) new in
    (
      is_target-append n found (m ∷ []) ∙ rw (h.0, text_eq_sym n.dsn m.dsn, apart) refl,
      IsDistinct-append m found h.1 fresh,
    )

pub add_target-IsDistinct :
    (m : Machine) (found : List Machine) → IsDistinct found → IsDistinct (add_target m found)
add_target-IsDistinct m found h = elim (Bool-cases (is_target m found)) [
  | inl there ↦ rw there h
  | inr new ↦ rw new (IsDistinct-append m found h new)
]

pub has_items-in_texts : (t : Text) (ts : List Text) → in_texts t ts ≡ true → has_items ts ≡ true
unfolding in_texts
has_items-in_texts t [] h = absurd (ground arith)
has_items-in_texts t (u ∷ us) h = refl
