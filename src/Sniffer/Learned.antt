-- ===== src/Sniffer/Learned.antt =====
-- coordinator.py: what stands in the tables of learned frames.
use delonghi_coffeelink.Prelude.{
  ℕ, ◌≡◌, refl, sym, subst, inl, inr, true, false, Option, none, some, List, [], ◌∷◌, if◌then◌else◌,
  Bool-cases, if-both,
}
use delonghi_coffeelink.Prelude.Text.{Text, in_texts, equal_texts}
use delonghi_coffeelink.Prelude.Result.{Result, ok, err}
use delonghi_coffeelink.Command.Inspect.{Decoded, decode_command}
use delonghi_coffeelink.Command.Learn.{Frames, builder_structural_b64}
use delonghi_coffeelink.Session.{Session}
use delonghi_coffeelink.Catalog.Build.{Catalog}
use delonghi_coffeelink.Sniffer.Attribution.{unless_raised-learned}
use delonghi_coffeelink.Sniffer.{Sniffer, Sniffed, Datapoint, record_sent}
use delonghi_coffeelink.Sniffer.Capture.{
  compare_structure, attribute, capture_decoded, capture_command, marker_of, captured_at_of,
  is_first, observe_command, shown, updated_at, if_shown, sniff_app_traffic,
}
use delonghi_coffeelink.Sniffer.Holds.{HoldsTable, HoldsWake, IsSound}
use delonghi_coffeelink.Sniffer.Teach.{maybe_learn_frame-IsSound}

attribute-IsSound :
    (value : Text) (at : Option Text) (d : Decoded) (r : Result (Option Text)) (c : Sniffer)
    → decode_command value ≡ ok d
    → IsSound c
    → IsSound (attribute value at d r c).0
attribute-IsSound value at d (err e) c reads h = h
attribute-IsSound value at d (ok built) c reads h =
    elim (Bool-cases (in_texts value c.sent_values)) [
      | inl own ↦ rw own h
      | inr foreign ↦ rw foreign (
          maybe_learn_frame-IsSound (compare_structure built d.structural_b64 d) _
            (value, built, d.structural_b64, d, reads, refl) h)
    ]

capture_decoded-IsSound :
    (now : ℕ) (value : Text) (at : Option Text) (r : Result Decoded) (c : Sniffer)
    → decode_command value ≡ r
    → IsSound c
    → IsSound (capture_decoded now value at r c).0
capture_decoded-IsSound now value at (err e) c reads h = h
capture_decoded-IsSound now value at (ok d) c reads h =
    attribute-IsSound value at d (builder_structural_b64 now d) c reads h

observe_command-IsSound :
    (now : ℕ) (value : Text) (at : Option (Option Text)) (c : Sniffer)
    → IsSound c
    → IsSound (observe_command now value at c).0
unfolding observe_command capture_command
observe_command-IsSound now value at c h =
    let seen : Sniffer = record c { last_cmd_marker = marker_of at value } in
    if-both (λ (s : Sniffed). IsSound s.0) (equal_texts (marker_of at value) c.last_cmd_marker)
      (c, none)
      (if is_first c.last_cmd_marker
        then (seen, none)
        else capture_command now value (captured_at_of at) seen)
      h
      (if-both (λ (s : Sniffed). IsSound s.0) (is_first c.last_cmd_marker) (seen, none)
        (capture_command now value (captured_at_of at) seen) h
        (capture_decoded-IsSound now value (captured_at_of at) (decode_command value) seen refl h))

if_shown-IsSound :
    (now : ℕ) (o : Option Text) (at : Option (Option Text)) (c : Sniffer)
    → IsSound c
    → IsSound (if_shown o (λ (value : Text). observe_command now value at) c).0
if_shown-IsSound now none at c h = h
if_shown-IsSound now (some value) at c h = observe_command-IsSound now value at c h

pub sniff_app_traffic-IsSound :
    (now : ℕ) (command response : Option Datapoint) (c : Sniffer)
    → IsSound c
    → IsSound (sniff_app_traffic now command response c)
unfolding sniff_app_traffic
sniff_app_traffic-IsSound now command response c h =
    let observe = λ (v : Text). observe_command now v (updated_at command) in
    let after : Sniffed = if_shown (shown command) observe c in
    subst
      (λ (t : Frames × Frames × Option Text × Session × ℕ).
        HoldsTable false t.0 × HoldsTable true t.1 × HoldsWake t.2)
      (sym (unless_raised-learned response after))
      (if_shown-IsSound now (shown command) (updated_at command) c h)

-- What happens to the sniffer: a poll at a time with the two channels, a value that is sent, and a
-- catalogue that is read.
pub data Event : Type 0 where
  polled : ℕ → Option Datapoint → Option Datapoint → Event
  wrote : Text → Event
  catalogued : Option Catalog → Event

abbrev pub happen : Event → Sniffer → Sniffer
happen (polled now command response) c = sniff_app_traffic now command response c
happen (wrote value) c = record c { sent_values = record_sent value c.sent_values }
happen (catalogued catalog) c = record c { catalog = catalog }

abbrev pub happen_all : List Event → Sniffer → Sniffer
happen_all [] c = c
happen_all (e ∷ events) c = happen_all events (happen e c)

-- Whatever is polled, sent and catalogued, and in whatever order: the table of starts holds only
-- frames that are decoded to a beverage and no stop, the table of stops only stops, each with a
-- valid checksum and under the beverage that it carries, no beverage stands twice in a table, and
-- the wake frame is decoded to a power-on.
pub happen_all-IsSound :
    (events : List Event) (c : Sniffer) → IsSound c → IsSound (happen_all events c)
happen_all-IsSound [] c h = h
happen_all-IsSound (polled now command response ∷ events) c h =
    happen_all-IsSound events (sniff_app_traffic now command response c)
      (sniff_app_traffic-IsSound now command response c h)
happen_all-IsSound (wrote value ∷ events) c h =
    happen_all-IsSound events (record c { sent_values = record_sent value c.sent_values }) h
happen_all-IsSound (catalogued catalog ∷ events) c h =
    happen_all-IsSound events (record c { catalog = catalog }) h
