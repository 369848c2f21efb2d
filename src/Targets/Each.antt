-- ===== src/Targets/Each.antt =====
-- __init__.py, coordinator.py (async_send_to_each): one command on each machine of a call.
use delonghi_coffeelink.Prelude.{
  ◌≡◌, refl, ap, sym, ◌∙◌, Option, none, some, List, [], ◌∷◌, ◌++◌, append-nil, append_assoc,
}
use delonghi_coffeelink.Targets.{Machine}
use delonghi_coffeelink.Targets.Machines.{first_error, send_to_each}

-- The command with a log of the machines that it was sent to.
abbrev pub logged :
    {S E : Type 0}
    → (Machine → S → S × Option E)
    → Machine
    → List Machine × S
    → (List Machine × S) × Option E
logged send m (log, s) = let (s', raised) = send m s in ((log ++ m ∷ [], s'), raised)

abbrev pub errors_of : {E : Type 0} → List (Option E) → List E
errors_of [] = []
errors_of (none ∷ es) = errors_of es
errors_of (some e ∷ es) = e ∷ errors_of es

-- What each command raised, in order, each on the state that the one before it left.
abbrev pub outcomes :
    {S E : Type 0} → (Machine → S → S × Option E) → List Machine → S → List (Option E)
outcomes send [] s = []
outcomes send (m ∷ ms) s = (send m s).1 ∷ outcomes send ms (send m s).0

abbrev pub first : {E : Type 0} → List E → Option E
first [] = none
first (e ∷ es) = some e

first_error-first :
    {E : Type 0} (o : Option E) (es : List (Option E))
    → first_error o (first (errors_of es)) ≡ first (errors_of (o ∷ es))
first_error-first none es = refl
first_error-first (some e) es = refl

-- Every machine of the call gets its command, in order and whatever the commands before it raised,
-- and what the call raises is the first of all that was raised, or nothing where nothing was.
pub send_to_each-attempts :
    {S E : Type 0} (send : Machine → S → S × Option E) (ms log : List Machine) (s : S)
    → ((send_to_each (logged send) ms (log, s)).0.0 ≡ log ++ ms)
      × ((send_to_each (logged send) ms (log, s)).1 ≡ first (errors_of (outcomes send ms s)))
unfolding send_to_each
send_to_each-attempts send [] log s = (sym (append-nil log), refl)
send_to_each-attempts send (m ∷ ms) log s =
    let later = send_to_each-attempts send ms (log ++ m ∷ []) (send m s).0 in
    (
      later.0 ∙ append_assoc log (m ∷ []) ms,
      ap (λ o. first_error (send m s).1 o) later.1
          ∙ first_error-first (send m s).1 (outcomes send ms (send m s).0),
    )
