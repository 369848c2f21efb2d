-- ===== src/Prelude/Dict.antt =====
-- Python dictionaries keyed by numbers: the entries in insertion order, one for each key. A write
-- to a key that is present keeps its place.
use Prim.Native.Nat.{ℕ}
use mathlib.Core.Path.{◌≡◌, refl}
use mathlib.Core.Bool.{Bool, true, false}
use mathlib.Core.Option.{Option, none, some}
use mathlib.Core.List.{List, [], ◌∷◌}
use native.Mathlib.Omega.{arith}
use delonghi_coffeelink.Prelude.Tests.{◌==◌, if◌then◌else◌}

abbrev pub Dict {ℓ} : Type ℓ → Type ℓ
Dict V = List (ℕ × V)

module _ {ℓ} {V : Type ℓ} where
  -- d.values()
  abbrev pub values : Dict V → List V
  values [] = []
  values ((key, value) ∷ rest) = value ∷ values rest

  -- list(d)
  abbrev pub keys : Dict V → List ℕ
  keys [] = []
  keys ((key, value) ∷ rest) = key ∷ keys rest

  -- d[k] = v
  abbrev pub insert : (key : ℕ) (value : V) → Dict V → Dict V
  insert key value ((i, old) ∷ rest) =
      if key == i then (i, value) ∷ rest else (i, old) ∷ insert key value rest
  insert key value [] = (key, value) ∷ []

  -- d.get(k)
  abbrev pub lookup : (key : ℕ) → Dict V → Option V
  lookup key ((i, value) ∷ rest) = if key == i then some value else lookup key rest
  lookup key [] = none

  -- k in d
  abbrev pub contains : (key : ℕ) → Dict V → Bool
  contains key entries = elim (lookup key entries) [ some value ↦ true | none ↦ false ]

  pub lookup-insert :
      (j k : ℕ) (v : V) (d : Dict V)
      → lookup j (insert k v d) ≡ (if j == k then some v else lookup j d)
  lookup-insert j k v [] = refl
  lookup-insert j k v ((i, w) ∷ d) = ground (arith, lookup-insert j k v d)
