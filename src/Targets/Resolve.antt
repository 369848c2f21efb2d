-- ===== src/Targets/Resolve.antt =====
-- __init__.py: the machines of a service call.
use mathlib.Core.Bool.{or-true}
use delonghi_coffeelink.Prelude.{
  ◌≡◌, ◌⊎◌, refl, ap, sym, ◌∙◌, arith, true, false, ◌||◌, none, List, [], ◌∷◌, ◌++◌, Bool-cases,
  inl, inr,
}
use delonghi_coffeelink.Prelude.Text.{Text, text_eq, text_eq_refl, text_eq_sound}
use delonghi_coffeelink.Targets.{
  Machine, Published, coordinators, something_else, set_default, set_defaults, all_from,
  all_coordinators, Call, Registry, has_target, named_devices,
}
use delonghi_coffeelink.Targets.Machines.{
  is_target, targets, refused, target_required, resolve_known, resolve_targets, lone,
}

-- No two of the machines have one DSN.
abbrev pub IsDistinct : List Machine → Type 0
IsDistinct [] = Unit
IsDistinct (m ∷ ms) = (is_target m ms ≡ false) × IsDistinct ms

-- All machines of all entries.
abbrev pub published : List Published → List Machine
published [] = []
published (something_else ∷ entries) = published entries
published (coordinators ms ∷ entries) = ms ++ published entries

pub text_eq_sym : (s t : Text) → text_eq s t ≡ text_eq t s
text_eq_sym s t = elim (Bool-cases (text_eq s t)) [
  | inl h ↦ rw (text_eq_sound s t h) refl
  | inr h ↦ elim (Bool-cases (text_eq t s)) [
    | inl k ↦ rw (text_eq_sound t s k) refl
    | inr k ↦ h ∙ sym k
  ]
]

-- After the default is set, the machines are those of before and the new one.
is_target-set_default :
    (k m : Machine) (ms : List Machine)
    → is_target k (set_default m ms) ≡ (is_target k ms || text_eq k.dsn m.dsn)
unfolding set_default is_target
is_target-set_default k m [] = ground arith
is_target-set_default k m (n ∷ ms) = elim (Bool-cases (text_eq m.dsn n.dsn)) [
  | inl same ↦ rw same (rw (text_eq_sound m.dsn n.dsn same) (ground arith))
  | inr new ↦ rw (new, is_target-set_default k m ms) (ground arith)
]

is_target-set_defaults :
    (k : Machine) (ms known : List Machine)
    → is_target k (set_defaults ms known) ≡ (is_target k known || is_target k ms)
unfolding set_defaults is_target
is_target-set_defaults k [] known = ground arith
is_target-set_defaults k (m ∷ ms) known =
    is_target-set_defaults k ms (set_default m known)
    ∙ rw (is_target-set_default k m known) (ground arith)

pub is_target-append :
    (k : Machine) (ms ns : List Machine)
    → is_target k (ms ++ ns) ≡ (is_target k ms || is_target k ns)
unfolding is_target
is_target-append k [] ns = refl
is_target-append k (m ∷ ms) ns = rw (is_target-append k ms ns) (ground arith)

is_target-all_from :
    (k : Machine) (entries : List Published) (known : List Machine)
    → is_target k (all_from entries known) ≡ (is_target k known || is_target k (published entries))
unfolding all_from is_target
is_target-all_from k [] known = ground arith
is_target-all_from k (something_else ∷ entries) known = is_target-all_from k entries known
is_target-all_from k (coordinators ms ∷ entries) known =
    is_target-all_from k entries (set_defaults ms known)
    ∙ rw (is_target-set_defaults k ms known, is_target-append k ms (published entries))
        (ground arith)

set_default-IsDistinct :
    (m : Machine) (ms : List Machine) → IsDistinct ms → IsDistinct (set_default m ms)
unfolding set_default is_target
set_default-IsDistinct m [] h = (refl, tt)
set_default-IsDistinct m (n ∷ ms) h = elim (Bool-cases (text_eq m.dsn n.dsn)) [
  | inl same ↦ rw same h
  | inr new ↦ rw new (
    is_target-set_default n m ms ∙ rw (h.0, text_eq_sym n.dsn m.dsn, new) refl,
    set_default-IsDistinct m ms h.1,
  )
]

set_defaults-IsDistinct :
    (ms known : List Machine) → IsDistinct known → IsDistinct (set_defaults ms known)
unfolding set_defaults
set_defaults-IsDistinct [] known h = h
set_defaults-IsDistinct (m ∷ ms) known h =
    set_defaults-IsDistinct ms (set_default m known) (set_default-IsDistinct m known h)

all_from-IsDistinct :
    (entries : List Published) (known : List Machine)
    → IsDistinct known
    → IsDistinct (all_from entries known)
unfolding all_from
all_from-IsDistinct [] known h = h
all_from-IsDistinct (something_else ∷ entries) known h = all_from-IsDistinct entries known h
all_from-IsDistinct (coordinators ms ∷ entries) known h =
    all_from-IsDistinct entries (set_defaults ms known) (set_defaults-IsDistinct ms known h)

-- The machines that a service call knows are those of all config entries, each DSN once: no DSN
-- is lost and no DSN is made up, and no two of them have one DSN.
all_coordinators-once :
    (entries : List Published)
    → ((k : Machine) → is_target k (all_coordinators entries) ≡ is_target k (published entries))
      × IsDistinct (all_coordinators entries)
unfolding all_coordinators is_target
all_coordinators-once entries =
    (λ k. is_target-all_from k entries [], all_from-IsDistinct entries [] tt)

named_devices-none :
    (reg : Registry) (call : Call) → has_target call ≡ false → named_devices reg call ≡ none
unfolding named_devices
named_devices-none reg call h = rw h refl

resolve_known-lone :
    (reg : Registry) (call : Call) (m : Machine) (ms : List Machine)
    → has_target call ≡ false
    → resolve_known reg call (m ∷ ms) ≡ lone (m ∷ ms)
unfolding resolve_known
resolve_known-lone reg call m ms h = rw (named_devices-none reg call h) refl

-- Two distinct machines do not have one DSN.
same_dsn :
    (k m n : Machine) (ms : List Machine)
    → IsDistinct (m ∷ n ∷ ms)
    → ¬ ((j : Machine) → is_target j (m ∷ n ∷ ms) ≡ text_eq j.dsn k.dsn)
unfolding is_target
same_dsn k m n ms distinct all =
    let first : text_eq m.dsn k.dsn ≡ true = sym (all m) ∙ rw (text_eq_refl m.dsn) refl in
    let second : text_eq n.dsn k.dsn ≡ true =
      sym (all n) ∙ rw (text_eq_refl n.dsn) (or-true (text_eq n.dsn m.dsn)) in
    let same : m.dsn ≡ n.dsn =
      text_eq_sound m.dsn k.dsn first ∙ sym (text_eq_sound n.dsn k.dsn second) in
    let apart : text_eq m.dsn n.dsn ≡ false = ground (arith, distinct.0) in
    absurd (ground (arith, apart, ap (λ t. text_eq m.dsn t) (sym same) ∙ text_eq_refl m.dsn))

lone-settled :
    (reg : Registry) (call : Call) (k : Machine) (known all : List Machine)
    → has_target call ≡ false
    → ((j : Machine) → is_target j known ≡ is_target j all)
    → IsDistinct known
    → is_target k known ≡ true
    → (((j : Machine) → is_target j all ≡ text_eq j.dsn k.dsn)
        × (m : Machine) × (resolve_known reg call known ≡ targets (m ∷ []))
        × (text_eq k.dsn m.dsn ≡ true))
      ⊎ ((¬ ((j : Machine) → is_target j all ≡ text_eq j.dsn k.dsn))
          × (resolve_known reg call known ≡ refused target_required))
unfolding is_target
lone-settled reg call k [] all h same distinct here = absurd (ground arith)
lone-settled reg call k (m ∷ []) all h same distinct here =
    let own : text_eq k.dsn m.dsn ≡ true = ground (arith, here) in
    inl (
      λ j. sym (same j) ∙ rw (text_eq_sound k.dsn m.dsn own) (ground arith),
      m,
      resolve_known-lone reg call m [] h,
      own,
    )
lone-settled reg call k (m ∷ n ∷ ms) all h same distinct here = inr (
  λ one. same_dsn k m n ms distinct (λ j. same j ∙ one j),
  resolve_known-lone reg call m (n ∷ ms) h,
)

-- All machines of all entries have the DSN of `k`.
abbrev pub AreOne : List Published → Machine → Type 0
AreOne entries k = (j : Machine) → is_target j (published entries) ≡ text_eq j.dsn k.dsn

-- A call without a target, on an account with a machine `k`: either all machines of all entries have
-- the DSN of `k`, and the call is answered by one machine, of that DSN, so that an account that is set
-- up twice does not count as two machines; or they do not, and the call is refused, for it has to name
-- its target.
pub resolve_targets-lone :
    (entries : List Published) (reg : Registry) (call : Call) (k : Machine)
    → has_target call ≡ false
    → is_target k (published entries) ≡ true
    → (AreOne entries k
        × (m : Machine) × (resolve_targets entries reg call ≡ targets (m ∷ []))
        × (text_eq k.dsn m.dsn ≡ true))
      ⊎ ((¬ AreOne entries k) × (resolve_targets entries reg call ≡ refused target_required))
unfolding resolve_targets
resolve_targets-lone entries reg call k h here =
    let known = all_coordinators-once entries in
    lone-settled reg call k (all_coordinators entries) (published entries) h known.0 known.1
      (known.0 k ∙ here)
