-- ===== src/Poll/Choice.antt =====
-- coordinator.py: which datapoint the monitor is read from.
use delonghi_coffeelink.Prelude.{ℕ, ◌≡◌, refl, ap, ◌∙◌, Option, none, some, List, [], ◌∷◌}
use delonghi_coffeelink.Prelude.Text.{Text, codes}
use delonghi_coffeelink.Prelude.Result.{Result, ok, err, IsSafe-ok}
use delonghi_coffeelink.Catalog.{Props}
use delonghi_coffeelink.Monitor.{Reading, failed, reading, parse_monitor_b64}
use delonghi_coffeelink.Monitor.Proofs.{parse_monitor_b64-IsSafe}
use delonghi_coffeelink.Poll.Fetch.{
  monitor_value, with_candidate, decoded_candidates, MonitorState, first_decoded, or_available,
  take_monitor, choose_monitor, update_monitor,
}

abbrev pub heard_of : Result Reading → Option Reading
heard_of (err e) = none
heard_of (ok mon) = some mon

-- What the value of a candidate has to say: nothing without data, and a reading or a failure with it.
abbrev pub heard : Option Text → Option Reading
heard none = none
heard (some value) = heard_of (parse_monitor_b64 value)

abbrev pub named : Text → Option Reading → Option (Text × Reading)
named name none = none
named name (some mon) = some (name, mon)

-- Of two candidates, the one that is decoded, the first before the second; else the failure of the
-- first that has data.
abbrev pub preferred : Option Reading → Option Reading → Option (Text × Reading)
preferred none second = named (codes "d302_monitor") second
preferred (some (reading m)) second = some (codes "d302_monitor_machine", reading m)
preferred (some (failed f)) (some (reading m)) = some (codes "d302_monitor", reading m)
preferred (some (failed f)) _ = some (codes "d302_monitor_machine", failed f)

abbrev listed : Text → Option Reading → List (Text × Reading) → List (Text × Reading)
listed name none rest = rest
listed name (some mon) rest = (name, mon) ∷ rest

with_candidate-listed :
    (name : Text) (o : Option Text) (rest : List (Text × Reading))
    → with_candidate name o (ok rest) ≡ ok (listed name (heard o) rest)
with_candidate-listed name none rest = refl
with_candidate-listed name (some value) rest =
    let (mon, reads) = IsSafe-ok (parse_monitor_b64 value) (parse_monitor_b64-IsSafe value) in
    rw reads refl

decoded_candidates-listed :
    (props : Props) (first second : Text)
    → decoded_candidates props (first ∷ second ∷ [])
      ≡ ok (
          listed first
            (heard (monitor_value props first))
            (listed second (heard (monitor_value props second)) []))
unfolding decoded_candidates
decoded_candidates-listed props first second =
    ap (with_candidate first (monitor_value props first))
      (with_candidate-listed second (monitor_value props second) [])
    ∙ with_candidate-listed first (monitor_value props first)
        (listed second (heard (monitor_value props second)) [])

or_available-preferred :
    (r₁ r₂ : Option Reading)
    → (let available =
          listed (codes "d302_monitor_machine") r₁ (listed (codes "d302_monitor") r₂ []) in
        or_available (first_decoded available) available)
      ≡ preferred r₁ r₂
unfolding first_decoded
or_available-preferred none none = refl
or_available-preferred none (some (failed f)) = refl
or_available-preferred none (some (reading m)) = refl
or_available-preferred (some (failed f)) none = refl
or_available-preferred (some (failed f)) (some (failed g)) = refl
or_available-preferred (some (failed f)) (some (reading m)) = refl
or_available-preferred (some (reading m)) none = refl
or_available-preferred (some (reading m)) (some (failed g)) = refl
or_available-preferred (some (reading m)) (some (reading n)) = refl

-- The update of the monitor is the choice of `preferred` between the two candidates: a datapoint
-- that is decoded wins whatever the other holds, a failure is shown only where nothing is decoded,
-- and without any data the monitor is cleared and the property kept.
pub update_monitor-preferred :
    (published_at : Text → Option ℕ) (props : Props) (m : MonitorState)
    → update_monitor published_at props m
      ≡ take_monitor published_at
          (preferred
            (heard (monitor_value props (codes "d302_monitor_machine")))
            (heard (monitor_value props (codes "d302_monitor"))))
          m
unfolding update_monitor
update_monitor-preferred published_at props m =
    let r₁ = heard (monitor_value props (codes "d302_monitor_machine")) in
    let r₂ = heard (monitor_value props (codes "d302_monitor")) in
    ap (λ (r : Result (List (Text × Reading))). choose_monitor published_at r m)
      (decoded_candidates-listed props (codes "d302_monitor_machine") (codes "d302_monitor"))
    ∙ ap (λ (o : Option (Text × Reading)). take_monitor published_at o m)
        (or_available-preferred r₁ r₂)
