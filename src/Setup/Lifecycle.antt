-- ===== src/Setup/Lifecycle.antt =====
-- __init__.py: the accounts of a run of Home Assistant, in any order of their steps.
use mathlib.Core.Bool.{or-true}
use delonghi_coffeelink.Prelude.{
  ℕ, ◌+◌, ◌<◌, ◌≡◌, inr, refl, ◌∙◌, arith, true, false, List, ◌∷◌, ◌++◌, ◌==◌, ==_refl, All,
  All-append,
}
use delonghi_coffeelink.Command.Learn.{member}
use delonghi_coffeelink.Setup.{
  Hass, without, pop, setups_of, publish, finish_setup, fail_setup, unload_entry, remove_entry,
}
use delonghi_coffeelink.Setup.Steps.{
  Step, added, published, set_up, not_set_up, unloaded, removed, Run, begun, then_step, IsLive,
  IsOwned, IsOrderly,
}
use delonghi_coffeelink.Setup.Tables.{
  All-map, insert-All, pop-All, insert-IsApart, pop-IsApart, All-zip, member-append,
  setups_of-apart, setups_of-All, member-without, without-All, below-member, without-served,
  listed-member, still_listed, pop-differs, owned-unloaded, owned-begun, owned-set_up,
  owned-started, owned-other, services_left-served, register_services-HasServices,
}

module _ (h : Hass) (orderly : IsOrderly h) where
  added-IsOrderly : (e : ℕ) → IsOrderly (record h { entries = e ∷ h.entries })
  added-IsOrderly e = record {
    live =
        All-map (IsLive h.entries h.retired h.next) (IsLive (e ∷ h.entries) h.retired h.next)
          h.published (λ p l. (rw (l.0) (or-true (p.0 == e)), l.1, l.2)) orderly.live;
    apart = orderly.apart;
    past = orderly.past;
    owned = orderly.owned;
    begun_listed =
        All-map (λ i. member i h.entries ≡ true) (λ i. member i (e ∷ h.entries) ≡ true) h.setting_up
          (λ i m. rw m (or-true (i == e))) orderly.begun_listed;
    listed =
        All-map (λ i. member i h.entries ≡ true) (λ i. member i (e ∷ h.entries) ≡ true) h.loaded
          (λ i m. rw m (or-true (i == e))) orderly.listed;
    served = orderly.served;
  }

  publish-IsOrderly : (e : ℕ) → member e h.entries ≡ true → IsOrderly (publish e h)
  publish-IsOrderly e known = record {
    live =
        insert-All (IsLive h.entries h.retired (h.next + 1)) e h.next h.published
          (known, below-member h.next h.retired orderly.past, omega arith)
          (All-map (IsLive h.entries h.retired h.next) (IsLive h.entries h.retired (h.next + 1))
            h.published (λ p l. (l.0, l.1, omega (arith, l.2))) orderly.live);
    apart =
        insert-IsApart e h.next h.published
          (All-map (IsLive h.entries h.retired h.next) (λ p. p.1 < h.next) h.published (λ p l. l.2)
            orderly.live)
          orderly.apart;
    past =
        All-map (λ s. s < h.next) (λ s. s < h.next + 1) h.retired (λ s b. omega (arith, b))
          orderly.past;
    owned =
        insert-All (IsOwned h.loaded (e ∷ h.setting_up)) e h.next h.published
          (rw (==_refl e) (or-true (member e h.loaded)))
          (All-map (IsOwned h.loaded h.setting_up) (IsOwned h.loaded (e ∷ h.setting_up)) h.published
            (λ p o. owned-started p.0 e h.loaded h.setting_up o) orderly.owned);
    begun_listed = (known, orderly.begun_listed);
    listed = orderly.listed;
    served = orderly.served;
  }

  finish_setup-IsOrderly : (e : ℕ) → member e h.setting_up ≡ true → IsOrderly (finish_setup e h)
  unfolding finish_setup
  finish_setup-IsOrderly e known = record {
    live = orderly.live;
    apart = orderly.apart;
    past = orderly.past;
    owned =
        All-map (IsOwned h.loaded h.setting_up) (IsOwned (e ∷ h.loaded) (without e h.setting_up))
          h.published (λ p o. owned-set_up p.0 e h.loaded h.setting_up o) orderly.owned;
    begun_listed = without-All (λ i. member i h.entries ≡ true) e h.setting_up orderly.begun_listed;
    listed = (listed-member h.entries e h.setting_up orderly.begun_listed known, orderly.listed);
    served = inr (register_services-HasServices h.services);
  }

  fail_setup-IsOrderly : (e : ℕ) → IsOrderly (fail_setup e h)
  unfolding fail_setup
  fail_setup-IsOrderly e = record {
    live = pop-All (IsLive h.entries h.retired h.next) e h.published orderly.live;
    apart = pop-IsApart e h.published orderly.apart;
    past = orderly.past;
    owned =
        All-zip (λ p. (p.0 == e) ≡ false) (IsOwned h.loaded h.setting_up)
          (IsOwned h.loaded (without e h.setting_up)) (pop e h.published)
          (λ p d o. owned-begun p.0 e h.loaded h.setting_up d o) (pop-differs e h.published)
          (pop-All (IsOwned h.loaded h.setting_up) e h.published orderly.owned);
    begun_listed = without-All (λ i. member i h.entries ≡ true) e h.setting_up orderly.begun_listed;
    listed = orderly.listed;
    served = orderly.served;
  }

  unload_entry-IsOrderly : (e : ℕ) → IsOrderly (unload_entry e h)
  unfolding unload_entry
  unload_entry-IsOrderly e = record {
    live =
        All-zip (IsLive h.entries h.retired h.next)
          (λ p. member p.1 (setups_of e h.published) ≡ false)
          (IsLive h.entries (setups_of e h.published ++ h.retired) h.next) (pop e h.published)
          (λ p l a.
            (l.0, member-append p.1 (setups_of e h.published) h.retired ∙ rw (a, l.1) refl, l.2))
          (pop-All (IsLive h.entries h.retired h.next) e h.published orderly.live)
          (setups_of-apart e h.published orderly.apart);
    apart = pop-IsApart e h.published orderly.apart;
    past =
        All-append (λ s. s < h.next) (setups_of e h.published) h.retired
          (setups_of-All (λ s. s < h.next) e h.published
            (All-map (IsLive h.entries h.retired h.next) (λ p. p.1 < h.next) h.published
              (λ p l. l.2) orderly.live))
          orderly.past;
    owned =
        All-zip (λ p. (p.0 == e) ≡ false) (IsOwned h.loaded h.setting_up)
          (IsOwned (without e h.loaded) h.setting_up) (pop e h.published)
          (λ p d o. owned-unloaded p.0 e h.loaded h.setting_up d o) (pop-differs e h.published)
          (pop-All (IsOwned h.loaded h.setting_up) e h.published orderly.owned);
    begun_listed = orderly.begun_listed;
    listed = without-All (λ i. member i h.entries ≡ true) e h.loaded orderly.listed;
    served = without-served e h.loaded h.services orderly.served;
  }

  remove_entry-IsOrderly :
      (e : ℕ)
      → member e h.loaded ≡ false
      → member e h.setting_up ≡ false
      → IsOrderly (remove_entry e h)
  unfolding remove_entry
  remove_entry-IsOrderly e idle done =
      let left : List ℕ = without e h.entries in
      let still : All (λ i. member i left ≡ true) h.loaded =
        still_listed e h.entries h.loaded idle orderly.listed in
      record {
        live =
            All-zip (IsOwned h.loaded h.setting_up) (IsLive h.entries h.retired h.next)
              (IsLive left h.retired h.next) h.published
              (λ p o l. (
                member-without p.0 e h.entries (owned-other p.0 e h.loaded h.setting_up idle done o)
                    l.0,
                l.1,
                l.2,
              ))
              orderly.owned orderly.live;
        apart = orderly.apart;
        past = orderly.past;
        owned = orderly.owned;
        begun_listed = still_listed e h.entries h.setting_up done orderly.begun_listed;
        listed = still;
        served = services_left-served left h.loaded h.services still orderly.served;
      }

Step-IsOrderly : (h j : Hass) → Step h j → IsOrderly h → IsOrderly j
Step-IsOrderly h _ (added e) o = added-IsOrderly h o e
Step-IsOrderly h _ (published e known idle done) o = publish-IsOrderly h o e known
Step-IsOrderly h _ (set_up e busy) o = finish_setup-IsOrderly h o e busy
Step-IsOrderly h _ (not_set_up e busy) o = fail_setup-IsOrderly h o e
Step-IsOrderly h _ (unloaded e busy) o = unload_entry-IsOrderly h o e
Step-IsOrderly h _ (removed e idle done) o = remove_entry-IsOrderly h o e idle done

-- However the accounts are added, set up, unloaded and removed, their steps in any order, a set-up
-- that fails at its platforms included: every published coordinator belongs to an entry that Home
-- Assistant lists and that is loaded or being set up, and to a set-up that is not unloaded; no set-up
-- is published twice, and while an entry is loaded all three services are registered.
pub Run-IsOrderly : (h j : Hass) → Run h j → IsOrderly h → IsOrderly j
Run-IsOrderly h _ begun o = o
Run-IsOrderly h _ (then_step {i} {j} run step) o = Step-IsOrderly i j step (Run-IsOrderly h i run o)
