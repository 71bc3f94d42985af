-- ===== src/Expired.antt =====
-- `_run_budget_timeout` and `_notification_event` of src/services/executor.py, and `describe` of
-- src/services/run_progress.py: the result that the agent makes for a run that outlived its budget.
pub mod Announced
pub mod Blamed
mod Tests
use mathlib.Core.Option.{map}
use tracedown_probe_agent.Base.{
  ℕ, ◌+◌, Bool, true, false, Option, none, some, List, [], ◌∷◌, ◌++◌, Text, codes, get_elem?, ◌==◌,
  if◌then◌else◌,
}
use tracedown_probe_agent.Int.{ℤ, negsuc}
use tracedown_probe_agent.Bytes.{contains}
use tracedown_probe_agent.Redact.{replace}
use tracedown_probe_agent.Bootstrap.{str_of}
use tracedown_probe_agent.Tcp.{
  Phase, resolving, connecting, tls_handshake, sending, receiving, storing_bodies, Verdict, network,
  Reason,
}
use tracedown_probe_agent.Progress.{Target, Progress}
use tracedown_probe_agent.Progress.Snapshots.{Sample, Stall}

abbrev onto_part : ℕ → List Text → List Text
onto_part c [] = (c ∷ []) ∷ []
onto_part c (s ∷ parts) = (c ∷ s) ∷ parts

-- `text.split("/")`
unfoldable pub split_slashes : Text → List Text
split_slashes [] = [] ∷ []
split_slashes (c ∷ s) =
    let parts = split_slashes s in if c == 47 then [] ∷ parts else onto_part c parts

-- `host` in `describe`; none where the index is out of range.
unfoldable pub host_of : Text → Option Text
unfolding split_slashes
host_of url = if contains (codes "//") url then get_elem? (split_slashes url) 2 else some url

-- `after`
unfoldable pub after_requests : ℕ → Text
unfolding str_of
after_requests completed =
    codes "after "
    ++ (str_of completed
        ++ (codes " completed request" ++ (if completed == 1 then [] else codes "s")))

-- `what` and `waited`
unfoldable pub request_named : ℕ → Sample → Text
unfolding str_of
request_named completed r =
    codes "request "
    ++ (str_of (completed + 1) ++ (codes " (" ++ (r.method ++ (codes " " ++ (r.url ++ codes ")")))))

unfoldable pub waited_for : ℕ → Text
unfolding str_of
waited_for ms = str_of ms ++ codes "ms"

-- The clause for a request under way.
unfoldable pub describe_request : Phase → Text → Text → Text → ℕ → Text
unfolding str_of
describe_request resolving what host waited count =
    what ++ (codes " was still resolving " ++ (host ++ (codes " after " ++ waited)))
describe_request connecting what host waited count =
    what ++ (codes " was still connecting after " ++ waited)
describe_request tls_handshake what host waited count =
    what ++ (codes " was still in the TLS handshake after " ++ waited)
describe_request sending what host waited count =
    what ++ (codes " was still being sent after " ++ waited)
describe_request receiving what host waited count =
    what
    ++ (codes " was still receiving its response: "
        ++ (str_of count ++ (codes " bytes in " ++ waited)))
describe_request _ what host waited count = what ++ (codes " had no response after " ++ waited)

unfoldable pub describe_idle : Phase → ℕ → Text
unfolding after_requests
describe_idle storing_bodies completed =
    codes "storing response bodies, " ++ after_requests completed
describe_idle _ completed = codes "between requests, " ++ after_requests completed

-- `describe`
unfoldable pub describe : Stall → Option Text
unfolding describe_idle describe_request request_named waited_for host_of
describe s = elim s.request [
  | none ↦ some (describe_idle s.phase s.requests_completed)
  | some r ↦
      map
        (λ host.
          describe_request s.phase (request_named s.requests_completed r) host
            (waited_for s.phase_ms) r.bytes_received)
        (host_of r.url)
]

-- `_notification_event`, without its `scope`, which is None.
pub record Notification : Type 0 where
  pub call_index : ℤ
  pub condition_index : ℤ
  pub trigger : Text
  pub tag : Text
  pub value : Text

pub notification_event : Text → Text → Notification
notification_event trigger text = record {
  call_index = negsuc 0;
  condition_index = negsuc 0;
  trigger = trigger;
  tag = codes "text";
  value = text;
}

-- `result["attribution"]`
pub record Blame : Type 0 where
  pub verdict : Verdict
  pub reason : Reason
  pub target : Option Target

-- The result; `runVars`, `calls` are empty in it.
pub record TimeoutResult : Type 0 where
  pub outcome : Text
  pub started_at : Text
  pub ended_at : Text
  pub elapsed : ℕ
  pub notification : Notification
  pub error : Text
  pub ingress : ℕ
  pub egress : ℕ
  pub stall : Option Stall
  pub attribution : Option Blame

abbrev pub is_network : Verdict → Bool
is_network network = true
is_network _ = false

unfoldable pub blame_of : Stall → Blame
blame_of s = record {
  verdict = s.verdict;
  reason = s.reason;
  target = if is_network s.verdict then s.target else none;
}

-- `where.replace('${', chr(92) + '${')`
unfoldable pub escape : Text → Text
unfolding replace
escape text = replace text (codes "${") (92 ∷ codes "${")

abbrev pub service_prefix : Text
service_prefix = codes "${s.name} in ${w.name}.${p.name}"

-- `error` and `text`, with the clause of a stall.
unfoldable pub error_text : ℕ → Option Text → Text
unfolding str_of
error_text budget clause =
    codes "probe did not finish within its "
    ++ (str_of budget
        ++ (codes "ms run budget" ++ elim clause [ none ↦ [] | some s ↦ codes ": " ++ s ]))

unfoldable pub event_text : ℕ → Option Text → Text
unfolding str_of escape
event_text budget clause =
    service_prefix
    ++ (codes " timed out: the run did not complete within "
        ++ (str_of budget
            ++ (codes "ms"
                ++ elim clause [ none ↦ [] | some s ↦ codes " (" ++ (escape s ++ codes ")") ])))

unfoldable pub timeout_result :
    ℕ → Text → Text → ℕ → ℕ → ℕ → Option Stall → Option Text → TimeoutResult
unfolding error_text event_text notification_event blame_of
timeout_result budget started_at ended_at elapsed ingress egress stall clause = record {
  outcome = codes "timeout";
  started_at = started_at;
  ended_at = ended_at;
  elapsed = elapsed;
  notification = notification_event (codes "timeout") (event_text budget clause);
  error = error_text budget clause;
  ingress = ingress;
  egress = egress;
  stall = stall;
  attribution = map blame_of stall;
}

-- `_run_budget_timeout` with a record: what its snapshot gives, and the record as it is read for
-- the counters behind that. None where `describe` fails.
unfoldable pub run_budget_timeout :
    ℕ → Text → Text → ℕ → Option Stall → Progress → Option TimeoutResult
unfolding describe timeout_result
run_budget_timeout budget started_at ended_at elapsed none p =
    some (timeout_result budget started_at ended_at elapsed p.ingress p.egress none none)
run_budget_timeout budget started_at ended_at elapsed (some s) p =
    map
      (λ clause.
        timeout_result budget started_at ended_at elapsed p.ingress p.egress (some s) (some clause))
      (describe s)
