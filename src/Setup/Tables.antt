-- ===== src/Setup/Tables.antt =====
-- __init__.py: what the operations do to the published coordinators and to the services.
use mathlib.Core.Bool.{or-true}
use delonghi_coffeelink.Prelude.{
  ℕ, ◌<◌, ◌≡◌, ◌⊎◌, inl, inr, refl, ap, sym, ◌∙◌, subst, arith, true, false, ◌||◌, List, [], ◌∷◌,
  ◌++◌, ◌==◌, ==_iff, All, Bool-cases, if-both,
}
use delonghi_coffeelink.Prelude.Dict.{Dict, insert}
use delonghi_coffeelink.Command.Learn.{member}
use delonghi_coffeelink.Setup.{
  Service, start_beverage, stop_beverage, send_raw_command, has_service, same_service, register,
  register_services, without, pop, setups_of, services_left,
}
use delonghi_coffeelink.Setup.Steps.{IsApart, HasServices}

module _ {ℓ} {A : Type ℓ} (P Q : A → Type 0) where
  pub All-map : (xs : List A) → ((x : A) → P x → Q x) → All P xs → All Q xs
  All-map [] f h = tt
  All-map (x ∷ xs) f h = (f x h.0, All-map xs f h.1)

module _ (P : ℕ × ℕ → Type 0) where
  pub insert-All : (e s : ℕ) (d : Dict ℕ) → P (e, s) → All P d → All P (insert e s d)
  insert-All e s [] new h = (new, tt)
  insert-All e s ((i, old) ∷ d) new h = elim (Bool-cases (e == i)) [
    | inl same ↦ rw same (subst (λ k. P (k, s)) ((==_iff e i).0 same) new, h.1)
    | inr other ↦ rw other (h.0, insert-All e s d new h.1)
  ]

  pub pop-All : (e : ℕ) (d : Dict ℕ) → All P d → All P (pop e d)
  pop-All e [] h = tt
  pop-All e ((i, s) ∷ d) h = elim (Bool-cases (e == i)) [
    | inl same ↦ rw same (pop-All e d h.1)
    | inr other ↦ rw other (h.0, pop-All e d h.1)
  ]

pub insert-IsApart :
    (e s : ℕ) (d : Dict ℕ) → All (λ p. p.1 < s) d → IsApart d → IsApart (insert e s d)
insert-IsApart e s [] below h = (tt, tt)
insert-IsApart e s ((i, old) ∷ d) below h = elim (Bool-cases (e == i)) [
  | inl same ↦
      rw same
        (All-map (λ p. p.1 < s) (λ p. (p.1 == s) ≡ false) d (λ p b. ground arith) below.1, h.1)
  | inr other ↦ rw other (
    insert-All (λ p. (p.1 == old) ≡ false) e s d (ground (arith, below.0)) h.0,
    insert-IsApart e s d below.1 h.1,
  )
]

pub pop-IsApart : (e : ℕ) (d : Dict ℕ) → IsApart d → IsApart (pop e d)
pop-IsApart e [] h = tt
pop-IsApart e ((i, s) ∷ d) h = elim (Bool-cases (e == i)) [
  | inl same ↦ rw same (pop-IsApart e d h.1)
  | inr other ↦ rw other (pop-All (λ p. (p.1 == s) ≡ false) e d h.0, pop-IsApart e d h.1)
]

pub All-zip :
    {A : Type 0} (P Q R : A → Type 0) (xs : List A)
    → ((x : A) → P x → Q x → R x)
    → All P xs
    → All Q xs
    → All R xs
All-zip P Q R [] f h k = tt
All-zip P Q R (x ∷ xs) f h k = (f x h.0 k.0, All-zip P Q R xs f h.1 k.1)

pub member-append : (n : ℕ) (xs ys : List ℕ) → member n (xs ++ ys) ≡ (member n xs || member n ys)
member-append n [] ys = refl
member-append n (x ∷ xs) ys = ground (arith, member-append n xs ys)

-- What is taken off is no set-up that stays.
setups_of-none :
    (e s : ℕ) (d : Dict ℕ) → All (λ p. (p.1 == s) ≡ false) d → member s (setups_of e d) ≡ false
setups_of-none e s [] h = refl
setups_of-none e s ((i, t) ∷ d) h = elim (Bool-cases (e == i)) [
  | inl same ↦ rw same (ground (arith, h.0, setups_of-none e s d h.1))
  | inr other ↦ rw other (setups_of-none e s d h.1)
]

pub setups_of-apart :
    (e : ℕ) (d : Dict ℕ) → IsApart d → All (λ p. member p.1 (setups_of e d) ≡ false) (pop e d)
setups_of-apart e [] h = tt
setups_of-apart e ((i, s) ∷ d) h = elim (Bool-cases (e == i)) [
  | inl same ↦ rw same (
      All-zip (λ p. (p.1 == s) ≡ false) (λ p. member p.1 (setups_of e d) ≡ false) _ (pop e d)
        (λ p a b. rw (a, b) refl) (pop-All (λ p. (p.1 == s) ≡ false) e d h.0)
        (setups_of-apart e d h.1))
  | inr other ↦ rw other (setups_of-none e s d h.0, setups_of-apart e d h.1)
]

pub setups_of-All :
    (P : ℕ → Type 0) (e : ℕ) (d : Dict ℕ) → All (λ p. P p.1) d → All P (setups_of e d)
setups_of-All P e [] h = tt
setups_of-All P e ((i, s) ∷ d) h = elim (Bool-cases (e == i)) [
  | inl same ↦ rw same (h.0, setups_of-All P e d h.1)
  | inr other ↦ rw other (setups_of-All P e d h.1)
]

pub member-without :
    (k e : ℕ) (is : List ℕ) → (k == e) ≡ false → member k is ≡ true → member k (without e is) ≡ true
member-without k e [] differs h = h
member-without k e (i ∷ is) differs h = elim (Bool-cases (e == i)) [
  | inl same ↦ rw same (member-without k e is differs (ground (arith, h, differs, same)))
  | inr other ↦ elim (Bool-cases (k == i)) [
    | inl here ↦ rw (other, here) refl
    | inr there ↦ rw (other, there) (member-without k e is differs (ground (arith, h, there)))
  ]
]

pub without-All : (P : ℕ → Type 0) (e : ℕ) (is : List ℕ) → All P is → All P (without e is)
without-All P e [] h = tt
without-All P e (i ∷ is) h = elim (Bool-cases (e == i)) [
  | inl same ↦ rw same (without-All P e is h.1)
  | inr other ↦ rw other (h.0, without-All P e is h.1)
]

same_service_refl : (s : Service) → same_service s s ≡ true
same_service_refl start_beverage = refl
same_service_refl stop_beverage = refl
same_service_refl send_raw_command = refl

register-own : (s : Service) (services : List Service) → has_service s (register s services) ≡ true
unfolding register
register-own s services = elim (Bool-cases (has_service s services)) [
  | inl known ↦ rw known known
  | inr new ↦ rw (new, same_service_refl s) refl
]

register-keeps :
    (s t : Service) (services : List Service)
    → has_service s services ≡ true
    → has_service s (register t services) ≡ true
unfolding register
register-keeps s t services h =
    if-both (λ (after : List Service). has_service s after ≡ true) (has_service t services) services
      (t ∷ services) h (rw h (or-true (same_service s t)))

pub below-member : (n : ℕ) (ns : List ℕ) → All (λ s. s < n) ns → member n ns ≡ false
below-member n [] h = refl
below-member n (s ∷ ns) h = ground (arith, h.0, below-member n ns h.1)

pub pop-differs : (e : ℕ) (d : Dict ℕ) → All (λ p. (p.0 == e) ≡ false) (pop e d)
pop-differs e [] = tt
pop-differs e ((i, s) ∷ d) = elim (Bool-cases (e == i)) [
  | inl same ↦ rw same (pop-differs e d)
  | inr other ↦ rw other (ground (arith, other), pop-differs e d)
]

pub owned-unloaded :
    (k e : ℕ) (loaded begun : List ℕ)
    → (k == e) ≡ false
    → (member k loaded || member k begun) ≡ true
    → (member k (without e loaded) || member k begun) ≡ true
owned-unloaded k e loaded begun differs h = elim (Bool-cases (member k loaded)) [
  | inl here ↦ rw (member-without k e loaded differs here) refl
  | inr gone ↦
      rw (sym (ap (λ b. b || member k begun) gone) ∙ h) (or-true (member k (without e loaded)))
]

pub owned-begun :
    (k e : ℕ) (loaded begun : List ℕ)
    → (k == e) ≡ false
    → (member k loaded || member k begun) ≡ true
    → (member k loaded || member k (without e begun)) ≡ true
owned-begun k e loaded begun differs h = elim (Bool-cases (member k loaded)) [
  | inl here ↦ rw here refl
  | inr gone ↦
      rw (member-without k e begun differs (sym (ap (λ b. b || member k begun) gone) ∙ h))
        (or-true (member k loaded))
]

pub owned-set_up :
    (k e : ℕ) (loaded begun : List ℕ)
    → (member k loaded || member k begun) ≡ true
    → (member k (e ∷ loaded) || member k (without e begun)) ≡ true
owned-set_up k e loaded begun h = elim (Bool-cases (k == e)) [
  | inl same ↦ rw same refl
  | inr other ↦ rw other (owned-begun k e loaded begun other h)
]

pub owned-started :
    (k e : ℕ) (loaded begun : List ℕ)
    → (member k loaded || member k begun) ≡ true
    → (member k loaded || member k (e ∷ begun)) ≡ true
owned-started k e loaded begun h = ground (arith, h)

-- What is neither loaded nor being set up is not the entry of a published coordinator.
pub owned-other :
    (k e : ℕ) (loaded begun : List ℕ)
    → member e loaded ≡ false
    → member e begun ≡ false
    → (member k loaded || member k begun) ≡ true
    → (k == e) ≡ false
owned-other k e loaded begun idle done h = elim (Bool-cases (k == e)) [
  | inr other ↦ other
  | inl same ↦
      let eq : k ≡ e = (==_iff k e).0 same in
      absurd
        (ground (arith, idle, done, subst (λ n. (member n loaded || member n begun) ≡ true) eq h))
]

pub without-served :
    (e : ℕ) (loaded : List ℕ) (services : List Service)
    → (loaded ≡ []) ⊎ HasServices services
    → (without e loaded ≡ []) ⊎ HasServices services
without-served e loaded services (inl idle) = inl (ap (without e) idle)
without-served e loaded services (inr all) = inr all

differs_all : (e : ℕ) (ns : List ℕ) → member e ns ≡ false → All (λ i. (i == e) ≡ false) ns
differs_all e [] h = tt
differs_all e (n ∷ ns) h = (ground (arith, h), differs_all e ns (ground (arith, h)))

pub still_listed :
    (e : ℕ) (entries ns : List ℕ)
    → member e ns ≡ false
    → All (λ i. member i entries ≡ true) ns
    → All (λ i. member i (without e entries) ≡ true) ns
still_listed e entries ns gone h =
    All-zip (λ i. (i == e) ≡ false) (λ i. member i entries ≡ true)
      (λ i. member i (without e entries) ≡ true) ns (λ i d m. member-without i e entries d m)
      (differs_all e ns gone) h

pub listed-member :
    (entries : List ℕ) (e : ℕ) (ns : List ℕ)
    → All (λ i. member i entries ≡ true) ns
    → member e ns ≡ true
    → member e entries ≡ true
listed-member entries e [] h k = absurd (ground arith)
listed-member entries e (n ∷ ns) h k = elim (Bool-cases (e == n)) [
  | inl same ↦ rw ((==_iff e n).0 same) (h.0)
  | inr other ↦ listed-member entries e ns h.1 (ground (arith, k, other))
]

pub services_left-served :
    (left loaded : List ℕ) (services : List Service)
    → All (λ e. member e left ≡ true) loaded
    → (loaded ≡ []) ⊎ HasServices services
    → (loaded ≡ []) ⊎ HasServices (services_left left services)
services_left-served [] [] services listed served = inl refl
services_left-served [] (e ∷ loaded) services listed served = absurd (ground (arith, listed.0))
services_left-served (i ∷ left) loaded services listed served = served

pub register_services-HasServices :
    (services : List Service) → HasServices (register_services services)
unfolding register_services
register_services-HasServices services =
    let one : List Service = register start_beverage services in
    let two : List Service = register stop_beverage one in
    (
      register-keeps start_beverage send_raw_command two
          (register-keeps start_beverage stop_beverage one (register-own start_beverage services)),
      register-keeps stop_beverage send_raw_command two (register-own stop_beverage one),
      register-own send_raw_command two,
    )
