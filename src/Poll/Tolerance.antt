-- ===== src/Poll/Tolerance.antt =====
-- coordinator.py: how many polls may fail before the entities are unavailable.
use delonghi_coffeelink.Prelude.{
  ℕ, zero, suc, ◌+◌, ◌≡◌, ap, arith, none, some, ltb, ◌∙◌, if◌then◌else◌,
}
use delonghi_coffeelink.Prelude.Result.{ok, err, update_failed}
use delonghi_coffeelink.Const.{transient_failure_tolerance}
use delonghi_coffeelink.Poll.{Polled, update_data}

-- `n` polls in a row that fail.
abbrev pub fail_times : {Props : Type 0} → ℕ → Polled Props → Polled Props
fail_times zero p = p
fail_times (suc n) p = fail_times n (update_data none p).1

fail_times-fields :
    {Props : Type 0} (n k : ℕ) (props : Props)
    → fail_times n (record { consecutive_failures = k; snapshot = some props })
      ≡ record { consecutive_failures = k + n; snapshot = some props }
unfolding update_data
fail_times-fields zero k props =
    ap (λ m. record { consecutive_failures = m; snapshot = some props }) (omega arith)
fail_times-fields (suc n) k props =
    fail_times-fields n (k + 1) props
    ∙ ap (λ m. record { consecutive_failures = m; snapshot = some props }) (omega arith)

-- After a poll that succeeded with `props` and `n` that failed, the next poll that fails still
-- serves `props` where `n` is at most two, and raises UpdateFailed where it is three or more.
pub update_data-tolerates :
    {Props : Type 0} (props : Props) (p : Polled Props) (n : ℕ)
    → (update_data none (fail_times n (update_data (some props) p).1)).0
      ≡ (if ltb n transient_failure_tolerance then ok props else err update_failed)
unfolding update_data
update_data-tolerates props p n = rw (fail_times-fields n 0 props) (ground arith)
