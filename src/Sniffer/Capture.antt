-- ===== src/Sniffer/Capture.antt =====
-- coordinator.py: what the sniffer makes of the two channels of a poll.
use delonghi_coffeelink.Prelude.{ℕ, Bool, true, false, not, Option, none, some, if◌then◌else◌}
use delonghi_coffeelink.Prelude.Text.{Text, text_eq, in_texts, equal_texts, strip, not_blank}
use delonghi_coffeelink.Prelude.Result.{Result, ok, err}
use delonghi_coffeelink.Command.Inspect.{Decoded, decode_command}
use delonghi_coffeelink.Command.Learn.{builder_structural_b64}
use delonghi_coffeelink.Sniffer.{Sniffer, Sniffed, Datapoint, maybe_learn_frame}

-- decoded["matches_integration"], where both structures are there.
abbrev pub compare_structure : Option Text → Option Text → Decoded → Decoded
compare_structure (some built) (some own) decoded = record decoded {
  matches_integration = some (text_eq own built);
}
compare_structure _ _ decoded = decoded

abbrev pub both_structures : Option Text → Option Text → Option Text
both_structures (some built) (some own) = some built
both_structures _ _ = none

abbrev pub captured_at_of : Option (Option Text) → Option Text
captured_at_of none = none
captured_at_of (some at) = at

abbrev pub attribute : Text → Option Text → Decoded → Result (Option Text) → Sniffer → Sniffed
attribute value at decoded (err e) c = (c, some e)
attribute value at decoded (ok structural) c =
    let compared = compare_structure structural decoded.structural_b64 decoded in
    let from_app = not (in_texts value c.sent_values) in
    let kept = record c {
      last_captured_command = some (record {
        decoded = compared;
        from_app = from_app;
        captured_at = at;
        builder_structural = both_structures structural decoded.structural_b64;
      });
    } in
    if from_app then maybe_learn_frame compared kept else (kept, none)

abbrev pub capture_decoded : ℕ → Text → Option Text → Result Decoded → Sniffer → Sniffed
capture_decoded now value at (err e) c = (c, some e)
capture_decoded now value at (ok decoded) c =
    attribute value at decoded (builder_structural_b64 now decoded) c

-- A new value of the command channel.
unfoldable pub capture_command : ℕ → Text → Option Text → Sniffer → Sniffed
capture_command now value at c = capture_decoded now value at (decode_command value) c

abbrev pub keep_response : Option Text → Result Decoded → Sniffer → Sniffed
keep_response at (err e) c = (c, some e)
keep_response at (ok decoded) c = (
  record c {
    last_machine_response = some (record {
      decoded = decoded;
      from_app = false;
      captured_at = at;
      builder_structural = none;
    });
  },
  none,
)

-- prop.get("data_updated_at", value)
abbrev pub marker_of : Option (Option Text) → Text → Option Text
marker_of none value = some value
marker_of (some at) value = at

abbrev pub is_first : Option Text → Bool
is_first none = true
is_first (some t) = false

-- A value of the command channel that is not blank, without the white space around it.
unfoldable pub observe_command : ℕ → Text → Option (Option Text) → Sniffer → Sniffed
observe_command now value at c =
    let marker = marker_of at value in
    if equal_texts marker c.last_cmd_marker
    then (c, none)
    else if is_first c.last_cmd_marker
    then (record c { last_cmd_marker = marker }, none)
    else capture_command now value (captured_at_of at) (record c { last_cmd_marker = marker })

unfoldable pub observe_response : Text → Option (Option Text) → Sniffer → Sniffed
observe_response value at c =
    let marker = marker_of at value in
    if equal_texts marker c.last_resp_marker
    then (c, none)
    else if is_first c.last_resp_marker
    then (record c { last_resp_marker = marker }, none)
    else keep_response (captured_at_of at) (decode_command value)
        (record c { last_resp_marker = marker })

-- What a channel shows: nothing, where its property has no value that is a text with characters.
abbrev pub shown_value : Option Text → Option Text
shown_value none = none
shown_value (some value) = if not_blank value then some (strip value) else none

abbrev pub shown : Option Datapoint → Option Text
shown none = none
shown (some prop) = shown_value prop.value

abbrev pub updated_at : Option Datapoint → Option (Option Text)
updated_at none = none
updated_at (some prop) = prop.data_updated_at

abbrev pub if_shown : Option Text → (Text → Sniffer → Sniffed) → Sniffer → Sniffed
if_shown none observe c = (c, none)
if_shown (some value) observe c = observe value c

abbrev pub unless_raised : (Sniffer → Sniffed) → Sniffed → Sniffer
unless_raised next (c, some e) = c
unless_raised next (c, none) = (next c).0

-- `_sniff_app_traffic` over the properties of the two channels; what is raised is logged.
unfoldable pub sniff_app_traffic : ℕ → Option Datapoint → Option Datapoint → Sniffer → Sniffer
sniff_app_traffic now command response c =
    unless_raised
      (if_shown (shown response) (λ (value : Text). observe_response value (updated_at response)))
      (if_shown (shown command) (λ (value : Text). observe_command now value (updated_at command))
        c)
