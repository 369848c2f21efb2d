-- ===== src/Coordinator/Polls.antt =====
-- coordinator.py: what any number of fetches leaves behind.
use delonghi_coffeelink.Prelude.{
  ℕ, ◌≡◌, refl, subst, arith, Bool, true, false, not, ◌||◌, Option, none, some, List, [], ◌∷◌,
}
use delonghi_coffeelink.Prelude.Text.{Text, equal_texts, equal_texts_refl, text_eq}
use delonghi_coffeelink.Prelude.Result.{Result, ok, err}
use delonghi_coffeelink.Catalog.{Props}
use delonghi_coffeelink.Poll.Fetch.{has_catalog, update_catalog}
use delonghi_coffeelink.Poll.Cache.{
  IsFaithful, update_catalog-IsFaithful, update_catalog-has_catalog,
}
use delonghi_coffeelink.Sniffer.Holds.{IsSound}
use delonghi_coffeelink.Sniffer.Learned.{sniff_app_traffic-IsSound}
use delonghi_coffeelink.Coordinator.{
  Coordinator, Fetched, channel, command_of, with_channels, read_props, seen, finish_fetch,
  fetch_on, fetch_once,
}

-- The learned frames are sound, the cached catalogue is faithful, and the machine has lost neither
-- the catalogue nor the command property that `before` had.
abbrev pub IsHealthy : Coordinator → Coordinator → Type 0
IsHealthy before c =
    IsSound c.sniffer
    × IsFaithful c.cache
    × ((not (has_catalog before.cache.catalog) || has_catalog c.cache.catalog) ≡ true)
    × ((equal_texts before.command_property none
          || equal_texts before.command_property c.command_property)
        ≡ true)

abbrev pub fetch_all : List (Option Fetched) → Coordinator → Coordinator
fetch_all [] c = c
fetch_all (f ∷ fs) c = fetch_all fs (fetch_once f c).0

or_keeps :
    (held before after : Bool)
    → (not held || before) ≡ true
    → (before ≡ true → after ≡ true)
    → (not held || after) ≡ true
or_keeps true before after h k = k h
or_keeps false before after h k = refl

command_stays :
    (b o : Option Text) (props : Props) (name : Text)
    → command_of o props ≡ ok name
    → (equal_texts b none || equal_texts b o) ≡ true
    → (equal_texts b none || equal_texts b (some name)) ≡ true
command_stays none o props name found h = refl
command_stays (some t) none props name found h = absurd (ground arith)
command_stays (some t) (some n) props name found h =
    subst (λ (m : Text). text_eq t m ≡ true) (ground arith) h

module _ (before : Coordinator) where
  with_channels-IsHealthy :
      (f : Fetched) (name : Text) (c : Coordinator)
      → command_of c.command_property f.props ≡ ok name
      → IsHealthy before c
      → IsHealthy before (with_channels f name c)
  unfolding with_channels
  with_channels-IsHealthy f name c found h = (
    h.0,
    h.1,
    h.2,
    command_stays before.command_property c.command_property f.props name found h.3,
  )

  read_props-IsHealthy :
      (f : Fetched) (c : Coordinator) → IsHealthy before c → IsHealthy before (read_props f c)
  unfolding read_props
  read_props-IsHealthy f c h =
      let cache = update_catalog f.props c.cache in
      (
        sniff_app_traffic-IsSound f.now (channel f c.command_property)
            (channel f c.response_property) (record c.sniffer { catalog = cache.catalog }) h.0,
        update_catalog-IsFaithful f.props c.cache h.1,
        or_keeps (has_catalog before.cache.catalog) (has_catalog c.cache.catalog)
            (has_catalog cache.catalog) h.2 (update_catalog-has_catalog f.props c.cache),
        h.3,
      )

  seen-IsHealthy :
      (now : ℕ) (o : Option Text) (c : Coordinator)
      → IsHealthy before c
      → IsHealthy before (seen now o c)
  seen-IsHealthy now none c h = h
  seen-IsHealthy now (some status) c h = h

  finish_fetch-IsHealthy :
      (f : Fetched) (o : Option (Option Text)) (c : Coordinator)
      → IsHealthy before c
      → IsHealthy before (finish_fetch f o c).0
  unfolding finish_fetch
  finish_fetch-IsHealthy f none c h = h
  finish_fetch-IsHealthy f (some status) c h = seen-IsHealthy f.now status c h

  fetch_on-IsHealthy :
      (r : Result Text) (f : Fetched) (c : Coordinator)
      → command_of c.command_property f.props ≡ r
      → IsHealthy before c
      → IsHealthy before (fetch_on r f c).0
  fetch_on-IsHealthy (err e) f c found h = h
  fetch_on-IsHealthy (ok name) f c found h =
      finish_fetch-IsHealthy f f.device (read_props f (with_channels f name c))
        (read_props-IsHealthy f (with_channels f name c) (with_channels-IsHealthy f name c found h))

  fetch_once-IsHealthy :
      (o : Option Fetched) (c : Coordinator)
      → IsHealthy before c
      → IsHealthy before (fetch_once o c).0
  unfolding fetch_once
  fetch_once-IsHealthy none c h = h
  fetch_once-IsHealthy (some f) c h =
      fetch_on-IsHealthy (command_of c.command_property f.props) f c refl h

  fetch_all-from :
      (fs : List (Option Fetched)) (c : Coordinator)
      → IsHealthy before c
      → IsHealthy before (fetch_all fs c)
  fetch_all-from [] c h = h
  fetch_all-from (f ∷ fs) c h = fetch_all-from fs (fetch_once f c).0 (fetch_once-IsHealthy f c h)

held_again : (b : Bool) → (not b || b) ≡ true
held_again true = refl
held_again false = refl

same_again : (o : Option Text) → (equal_texts o none || equal_texts o o) ≡ true
same_again none = refl
same_again (some t) = equal_texts_refl (some t)

-- Any fetches, whether the cloud returns the properties or refuses at any point, keep the learned
-- frames sound and the cache of the catalogue faithful, and lose neither a catalogue nor a command
-- property that was found.
pub fetch_all-IsHealthy :
    (fs : List (Option Fetched)) (c : Coordinator)
    → IsSound c.sniffer
    → IsFaithful c.cache
    → IsHealthy c (fetch_all fs c)
fetch_all-IsHealthy fs c sound faithful =
    fetch_all-from c fs c
      (sound, faithful, held_again (has_catalog c.cache.catalog), same_again c.command_property)
