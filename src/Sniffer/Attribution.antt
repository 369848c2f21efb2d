-- ===== src/Sniffer/Attribution.antt =====
-- coordinator.py: what the sniffer takes for the integration's own.
use delonghi_coffeelink.Prelude.{
  ℕ, zero, suc, ◌+◌, ◌-◌, ◌≤◌, ◌≡◌, refl, ap, ◌∙◌, arith, true, Option, none, some, List, [], ◌∷◌,
  ◌++◌, length, drop, if◌then◌else◌, if-both, length-append, length-drop, append_assoc,
}
use mathlib.Core.Bool.{or-true}
use delonghi_coffeelink.Prelude.Text.{Text, text_eq, text_eq_refl, in_texts, equal_texts}
use delonghi_coffeelink.Prelude.Result.{Result, ok, err}
use delonghi_coffeelink.Command.Inspect.{Decoded, decode_command}
use delonghi_coffeelink.Command.Learn.{Frames, builder_structural_b64}
use delonghi_coffeelink.Session.{Session}
use delonghi_coffeelink.Sniffer.{Sniffer, Sniffed, Datapoint, record_sent}
use delonghi_coffeelink.Sniffer.Capture.{
  attribute, capture_decoded, capture_command, keep_response, marker_of, captured_at_of, is_first,
  observe_command, observe_response, shown, updated_at, if_shown, unless_raised, sniff_app_traffic,
}

-- All that learning a frame can change.
abbrev pub learned : Sniffer → Frames × Frames × Option Text × Session × ℕ
learned c =
    (c.learned_start_frames, c.learned_stop_frames, c.learned_wake_frame, c.session, c.saves)

-- The values that are sent one after the other.
abbrev pub record_all : List Text → List Text → List Text
record_all [] sent = sent
record_all (v ∷ vs) sent = record_all vs (record_sent v sent)

drop-append_left : (n : ℕ) (xs ys : List Text) → n ≤ length xs → drop n (xs ++ ys) ≡ drop n xs ++ ys
drop-append_left zero xs ys h = refl
drop-append_left (suc n) [] ys h = absurd (omega arith)
drop-append_left (suc n) (x ∷ xs) ys h = drop-append_left n xs ys (omega arith)

in_texts-middle : (v : Text) (pre post : List Text) → in_texts v (pre ++ v ∷ post) ≡ true
unfolding in_texts
in_texts-middle v [] post = rw (text_eq_refl v) refl
in_texts-middle v (u ∷ pre) post = rw (in_texts-middle v pre post) (or-true (text_eq v u))

-- One more value in the queue pushes out none of the last thirty-one.
record_sent-after :
    (w v : Text) (pre post : List Text)
    → length post ≤ 30
    → (pre' : List Text) × (record_sent w (pre ++ v ∷ post) ≡ pre' ++ v ∷ (post ++ w ∷ []))
unfolding record_sent
record_sent-after w v pre post h =
    let kept = v ∷ (post ++ w ∷ []) in
    let n : ℕ = length ((pre ++ v ∷ post) ++ w ∷ []) - 32 in
    (
      drop n pre,
      ap (drop n) (append_assoc pre (v ∷ post) (w ∷ []))
          ∙ drop-append_left n pre kept (
              omega
                (arith, length-append (pre ++ v ∷ post) (w ∷ []), length-append pre (v ∷ post))),
    )

record_all-middle :
    (v : Text) (vs pre post : List Text)
    → length post + length vs ≤ 31
    → in_texts v (record_all vs (pre ++ v ∷ post)) ≡ true
record_all-middle v [] pre post h = in_texts-middle v pre post
record_all-middle v (w ∷ vs) pre post h =
    let (pre', eq) = record_sent-after w v pre post (omega arith) in
    ap (λ sent. in_texts v (record_all vs sent)) eq
    ∙ record_all-middle v vs pre' (post ++ w ∷ []) (omega (arith, length-append post (w ∷ [])))

record_sent-length : (w : Text) (sent : List Text) → length (record_sent w sent) ≤ 32
unfolding record_sent
record_sent-length w sent =
    omega (arith, length-drop (length (sent ++ w ∷ []) - 32) (sent ++ w ∷ []))

record_all-length : (vs sent : List Text) → length sent ≤ 32 → length (record_all vs sent) ≤ 32
record_all-length [] sent h = h
record_all-length (v ∷ vs) sent h =
    record_all-length vs (record_sent v sent) (record_sent-length v sent)

-- The value that was sent last stands last.
last-middle :
    (v : Text) (sent : List Text) → (pre : List Text) × (record_sent v sent ≡ pre ++ v ∷ [])
unfolding record_sent
last-middle v sent =
    let n : ℕ = length (sent ++ v ∷ []) - 32 in
    (drop n sent, drop-append_left n sent (v ∷ []) (omega (arith, length-append sent (v ∷ []))))

-- A value that was sent is told from the app's through the next thirty-one values that are sent,
-- and the queue never holds more than thirty-two.
pub record_sent-recent :
    (v : Text) (vs sent : List Text)
    → length vs ≤ 31
    → (in_texts v (record_all vs (record_sent v sent)) ≡ true)
      × (length (record_all vs (record_sent v sent)) ≤ 32)
record_sent-recent v vs sent h =
    let (pre, eq) = last-middle v sent in
    (
      ap (λ s. in_texts v (record_all vs s)) eq ∙ record_all-middle v vs pre [] (omega arith),
      record_all-length vs (record_sent v sent) (record_sent-length v sent),
    )

attribute-own :
    (value : Text) (at : Option Text) (decoded : Decoded) (r : Result (Option Text)) (c : Sniffer)
    → in_texts value c.sent_values ≡ true
    → learned (attribute value at decoded r c).0 ≡ learned c
attribute-own value at decoded (err e) c h = refl
attribute-own value at decoded (ok structural) c h = rw h refl

capture_decoded-own :
    (now : ℕ) (value : Text) (at : Option Text) (r : Result Decoded) (c : Sniffer)
    → in_texts value c.sent_values ≡ true
    → learned (capture_decoded now value at r c).0 ≡ learned c
capture_decoded-own now value at (err e) c h = refl
capture_decoded-own now value at (ok decoded) c h =
    attribute-own value at decoded (builder_structural_b64 now decoded) c h

observe_command-own :
    (now : ℕ) (value : Text) (at : Option (Option Text)) (c : Sniffer)
    → in_texts value c.sent_values ≡ true
    → learned (observe_command now value at c).0 ≡ learned c
unfolding observe_command capture_command
observe_command-own now value at c h =
    let seen : Sniffer = record c { last_cmd_marker = marker_of at value } in
    if-both (λ (s : Sniffed). learned s.0 ≡ learned c)
      (equal_texts (marker_of at value) c.last_cmd_marker) (c, none)
      (if is_first c.last_cmd_marker
        then (seen, none)
        else capture_command now value (captured_at_of at) seen)
      refl
      (if-both (λ (s : Sniffed). learned s.0 ≡ learned c) (is_first c.last_cmd_marker) (seen, none)
        (capture_command now value (captured_at_of at) seen) refl
        (capture_decoded-own now value (captured_at_of at) (decode_command value) seen h))

keep_response-learned :
    (at : Option Text) (r : Result Decoded) (c : Sniffer)
    → learned (keep_response at r c).0 ≡ learned c
keep_response-learned at (err e) c = refl
keep_response-learned at (ok decoded) c = refl

observe_response-learned :
    (value : Text) (at : Option (Option Text)) (c : Sniffer)
    → learned (observe_response value at c).0 ≡ learned c
unfolding observe_response
observe_response-learned value at c =
    let seen : Sniffer = record c { last_resp_marker = marker_of at value } in
    if-both (λ (s : Sniffed). learned s.0 ≡ learned c)
      (equal_texts (marker_of at value) c.last_resp_marker) (c, none)
      (if is_first c.last_resp_marker
        then (seen, none)
        else keep_response (captured_at_of at) (decode_command value) seen)
      refl
      (if-both (λ (s : Sniffed). learned s.0 ≡ learned c) (is_first c.last_resp_marker) (seen, none)
        (keep_response (captured_at_of at) (decode_command value) seen) refl
        (keep_response-learned (captured_at_of at) (decode_command value) seen))

if_shown-response :
    (o : Option Text) (at : Option (Option Text)) (c : Sniffer)
    → learned (if_shown o (λ (value : Text). observe_response value at) c).0 ≡ learned c
if_shown-response none at c = refl
if_shown-response (some value) at c = observe_response-learned value at c

-- The response channel teaches nothing, so what is learned is what the command channel left.
pub unless_raised-learned :
    (response : Option Datapoint) (s : Sniffed)
    → learned (
        unless_raised
          (if_shown
            (shown response)
            (λ (value : Text). observe_response value (updated_at response)))
          s)
      ≡ learned s.0
unless_raised-learned response (c, some e) = refl
unless_raised-learned response (c, none) =
    if_shown-response (shown response) (updated_at response) c

-- A poll that finds a value of the integration's own on the command channel learns nothing: the
-- frames, the session and the store stay, whatever the response channel shows.
pub sniff_app_traffic-own :
    (now : ℕ) (command response : Option Datapoint) (value : Text) (c : Sniffer)
    → shown command ≡ some value
    → in_texts value c.sent_values ≡ true
    → learned (sniff_app_traffic now command response c) ≡ learned c
unfolding sniff_app_traffic
sniff_app_traffic-own now command response value c is_shown own =
    let observe = λ (v : Text). observe_command now v (updated_at command) in
    unless_raised-learned response (if_shown (shown command) observe c)
    ∙ ap (λ (o : Option Text). learned (if_shown o observe c).0) is_shown
    ∙ observe_command-own now value (updated_at command) c own
