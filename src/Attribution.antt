-- ===== src/Attribution.antt =====
-- src/services/executor.py, `_attribute_call_timeouts`: who each timed-out call belongs to, and
-- the verdict on the run. Times are in microseconds; `datetime.fromisoformat` is the standard
-- library's and a parameter, none where it raises ValueError.
pub mod Verdicts
mod Tests
use tracedown_probe_agent.Base.{
  ℕ, ◌+◌, Bool, true, false, ◌&&◌, Option, none, some, List, [], ◌∷◌, map, Text, any, find?, select,
  last?, leb,
}
use tracedown_probe_agent.Tcp.{Verdict, endpoint, network, agent, unknown, Reason, not_observed}
use tracedown_probe_agent.Progress.{Target, Timeout}

pub data CallOutcome : Type 0 where
  success failure timeout : CallOutcome

-- What is read of a call record of the executor's result.
pub record Call : Type 0 where
  pub index : Option ℕ
  pub outcome : CallOutcome
  pub started_at : Option Text
  pub ended_at : Option Text

pub record Judged : Type 0 where
  pub call_index : Option ℕ
  pub verdict : Verdict
  pub reason : Reason
  pub record' : Option Timeout

pub record Attribution : Type 0 where
  pub verdict : Verdict
  pub calls : List Judged
  pub target : Option Target

abbrev pub same_verdict : Verdict → Verdict → Bool
same_verdict endpoint endpoint = true
same_verdict network network = true
same_verdict agent agent = true
same_verdict unknown unknown = true
same_verdict _ _ = false

-- `_VERDICT_ORDER`
abbrev pub verdict_order : List Verdict
verdict_order = endpoint ∷ unknown ∷ network ∷ agent ∷ []

abbrev pub is_timeout : Call → Bool
is_timeout c = elim c.outcome [ timeout ↦ true | _ ↦ false ]

-- Ten milliseconds.
abbrev pub slack : ℕ
slack = 10000

-- `started - 0.01 <= t["at"] <= ended + 0.01`
abbrev pub is_during : Option ℕ → Option ℕ → Timeout → Bool
is_during (some started) (some ended) t = leb started (t.at + slack) && leb t.at (ended + slack)
is_during _ _ t = false

abbrev pub judged_by : Option ℕ → Option Timeout → Judged
judged_by i (some t) = record {
  call_index = i;
  verdict = t.verdict;
  reason = t.reason;
  record' = some t;
}
judged_by i none = record {
  call_index = i;
  verdict = unknown;
  reason = not_observed;
  record' = none;
}

-- `next(v for v in _VERDICT_ORDER if v in verdicts)`; none stands for StopIteration.
pub run_verdict : List Judged → Option Verdict
run_verdict judged = find? (λ v. any (λ j. same_verdict v j.verdict) judged) verdict_order

-- `j.get("target")` of a network verdict.
abbrev pub network_target : Judged → Option Target
network_target j = elim (same_verdict j.verdict network) [
  | true ↦ elim j.record' [ none ↦ none | some t ↦ some t.target ]
  | false ↦ none
]

pub first_target : List Judged → Option Target
first_target [] = none
first_target (j ∷ js) = elim (network_target j) [ none ↦ first_target js | some t ↦ some t ]

pub target_for : Verdict → List Judged → Option Target
unfolding first_target
target_for network judged = first_target judged
target_for _ judged = none

pub conclude : List Judged → Option Attribution
unfolding target_for
conclude judged = elim (run_verdict judged) [
  | none ↦ none
  | some v ↦ some (record { verdict = v; calls = judged; target = target_for v judged })
]

module _ (fromisoformat : Text → Option ℕ) where
  -- `_parse_iso`: a field that is missing reads `None`, which is no date.
  pub parse_iso : Option Text → Option ℕ
  parse_iso none = none
  parse_iso (some s) = fromisoformat s

  -- The records of the call: those taken between its start and its end.
  pub own : Call → List Timeout → List Timeout
  unfolding parse_iso
  own call timeouts =
      select (is_during (parse_iso call.started_at) (parse_iso call.ended_at)) timeouts

  -- A call that was retried is judged by its last record.
  pub judge : List Timeout → Call → Judged
  unfolding own
  judge timeouts call = judged_by call.index (last? (own call timeouts))

  -- From `if not calls` on.
  pub attribute_timed_out : List Timeout → List Call → Option Attribution
  unfolding judge conclude
  attribute_timed_out timeouts [] = none
  attribute_timed_out timeouts (c ∷ cs) = conclude (map (judge timeouts) (c ∷ cs))

  -- `_attribute_call_timeouts`
  pub attribute_call_timeouts : List Call → List Timeout → Option Attribution
  unfolding attribute_timed_out
  attribute_call_timeouts calls timeouts = attribute_timed_out timeouts (select is_timeout calls)
