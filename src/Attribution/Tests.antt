-- ===== src/Attribution/Tests.antt =====
-- A run of three calls, two of which timed out, on a lossy path and unobserved.
use tracedown_probe_agent.Base.{
  ◌+◌, ◌*◌, ℕ, ◌≡◌, ◌≢◌, ◌↔◌, refl, true, Option, none, some, List, [], ◌∷◌, map, Text, codes,
  select,
}
use tracedown_probe_agent.Tcp.{awaiting_response, network, unknown, losing_packets}
use tracedown_probe_agent.Progress.{Target, Timeout}
use tracedown_probe_agent.Attribution.{
  Call, CallOutcome, Judged, Attribution, is_timeout, judged_by, attribute_call_timeouts, judge,
  run_verdict,
}
use tracedown_probe_agent.Attribution.Verdicts.{Precedence, attribute_call_timeouts_lem}

-- Seconds of one digit.
abbrev clock : Text → Option ℕ
clock (c ∷ []) = some (c * 1000000)
clock _ = none

abbrev call : ℕ → CallOutcome → ℕ → Call
call i o s = record {
  index = some i;
  outcome = o;
  started_at = some (s ∷ []);
  ended_at = some ((s + 5) ∷ []);
}

abbrev calls : List Call
calls =
    call 0 CallOutcome.success 1
    ∷ call 1 CallOutcome.timeout 10
    ∷ call 2 CallOutcome.timeout 20
    ∷ []

abbrev lost : Timeout
lost = record {
  at = 15000000;
  phase = awaiting_response;
  verdict = network;
  reason = losing_packets;
  method = codes "GET";
  url = codes "https://example.com/";
  target = record { host = codes "example.com"; port = 443; tls = true };
  tcp = none;
}

abbrev judged_calls : List Judged
judged_calls = judged_by (some 1) (some lost) ∷ judged_by (some 2) none ∷ []

abbrev attribution : Attribution
attribution = record { verdict = unknown; calls = judged_calls; target = none }

attributed : attribute_call_timeouts clock calls (lost ∷ []) ≡ some attribution
unfolding attribute_call_timeouts run_verdict
attributed = refl

attribute_call_timeouts_lem_example :
    Precedence unknown judged_calls
    × (judged_calls ≡ map (judge clock (lost ∷ [])) (select is_timeout calls))
    × ((◌≡◌ {A = Option Target} none none) ↔ (unknown ≢ network))
attribute_call_timeouts_lem_example =
    attribute_call_timeouts_lem clock calls (lost ∷ []) attribution attributed
