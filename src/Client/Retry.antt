-- ===== src/Client/Retry.antt =====
-- ayla_client.py: the retries of a request, against a specification without a loop.
use delonghi_coffeelink.Prelude.{
  ℕ, zero, suc, ◌+◌, ◌≡◌, ◌≢◌, refl, arith, Bool, not, Option, List, [], ◌∷◌, if◌then◌else◌,
  Bool-cases, inl, inr,
}
use delonghi_coffeelink.Prelude.Text.{Text}
use delonghi_coffeelink.Client.{
  Reply, response, network_error, exhausted, failed, judge, is_transient, request_from,
  request_json,
}

-- The number of the attempt that settles a request: the first whose reply is not transient, and
-- the third at the latest.
abbrev pub settled_at : (ℕ → Reply) → ℕ
settled_at server =
    if not (is_transient (server 0)) then 0 else if not (is_transient (server 1)) then 1 else 2

-- The pauses before that attempt.
abbrev pub pauses_before : ℕ → List ℕ
pauses_before zero = []
pauses_before (suc zero) = 1500 ∷ []
pauses_before (suc (suc n)) = 1500 ∷ 3000 ∷ []

-- A request with its retries is one look at the attempt that settles it: its answer is the judgment
-- on that reply alone, after one request more than that attempt's number and the pauses of 1.5 and
-- 3 seconds before it. So there are three requests at most, and always an end.
pub request_json-settles :
    {Json : Type 0} (parse : Text → Option Json) (ok_status : ℕ → Bool) (server : ℕ → Reply)
    → request_json parse ok_status server ≡ record {
      answer = judge parse ok_status (server (settled_at server));
      requests = settled_at server + 1;
      pauses = pauses_before (settled_at server);
    }
unfolding request_json request_from
request_json-settles parse ok_status server = elim (Bool-cases (is_transient (server 0))) [
  | inr done ↦ rw done refl
  | inl first ↦ elim (Bool-cases (is_transient (server 1))) [
    | inr done ↦ rw (first, done) refl
    | inl second ↦ elim (Bool-cases (is_transient (server 2))) [
      | inl third ↦ rw (first, second, third) refl
      | inr done ↦ rw (first, second, done) refl
    ]
  ]
]

judge-ne-exhausted :
    {Json : Type 0} (parse : Text → Option Json) (ok_status : ℕ → Bool) (reply : Reply)
    → judge parse ok_status reply ≢ failed exhausted
unfolding judge
judge-ne-exhausted parse ok_status network_error = ground arith
judge-ne-exhausted parse ok_status (response status body) = ground arith

-- The end of the loop without an answer is never reached.
request_json-ne-exhausted :
    {Json : Type 0} (parse : Text → Option Json) (ok_status : ℕ → Bool) (server : ℕ → Reply)
    → (request_json parse ok_status server).answer ≢ failed exhausted
request_json-ne-exhausted parse ok_status server =
    rw (request_json-settles parse ok_status server)
      (judge-ne-exhausted parse ok_status (server (settled_at server)))
