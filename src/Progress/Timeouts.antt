-- ===== src/Progress/Timeouts.antt =====
-- One record for each request whose timer expired, at most.
use native.Mathlib.Nat.{zero-add}
use tracedown_probe_agent.Base.{
  Option-cases, inl, inr, ◌++◌, ℕ, ◌+◌, ◌≤◌, ◌≡◌, Option, none, some, List, [], ◌∷◌, length,
  length-append, arith, if◌then◌else◌,
}
use tracedown_probe_agent.Progress.{
  Request, Timeout, Progress, Event, request_begins, timed_out, init, enter, fresh, first_byte,
  timeout_record, on_timeout, on_close, on_received, step, run,
}
use tracedown_probe_agent.Progress.Accounting.{total}

abbrev pub begun : Event → ℕ
begun (request_begins now id method url name port tls) = 1
begun _ = 0

abbrev got : Option Request → ℕ
got none = 0
got (some r) = r.bytes_received

abbrev present : Option Request → ℕ
present none = 0
present (some r) = 1

-- The request under way can still time out.
abbrev unexpired : Option Request → ℕ
unexpired none = 0
unexpired (some r) = if r.timed_out then 0 else 1

-- The record against the number of requests that have begun.
pub record IsConsistent (p : Progress) (n : ℕ) : Type 0 where
  pub within : got p.request ≤ p.ingress
  pub completed : p.requests_completed + present p.request ≤ n
  pub expired : length p.timeouts + unexpired p.request ≤ n

on_timeout-length :
    (p : Progress) (e : Timeout) → length (p.timeouts ++ e ∷ []) ≡ length p.timeouts + 1
on_timeout-length p e = length-append {0} p.timeouts (e ∷ [])

step-IsConsistent :
    (p : Progress) (n : ℕ) (e : Event) → IsConsistent p n → IsConsistent (step p e) (n + begun e)
unfolding step enter fresh first_byte on_timeout on_close on_received
step-IsConsistent p n (request_begins now id method url name port tls) h = ground arith
step-IsConsistent p n (timed_out at kernel) h = elim (Option-cases p.request) [
  | inl e ↦ ground arith
  | inr (r, e) ↦ ground (arith, on_timeout-length p (timeout_record at kernel r p))
]
step-IsConsistent p n _ h = ground arith

run_from-IsConsistent :
    (p : Progress) (n : ℕ) (es : List Event)
    → IsConsistent p n
    → IsConsistent (run p es) (n + total begun es)
unfolding run
run_from-IsConsistent p n [] h = ground arith
run_from-IsConsistent p n (e ∷ es) h =
    let k = run_from-IsConsistent (step p e) (n + begun e) es (step-IsConsistent p n e h) in
    ground arith

-- In a run from the start: no more bytes for the request under way than for the run, and at most
-- as many requests completed, and as many timeouts recorded, as requests have begun.
pub run-IsConsistent :
    (now : ℕ) (es : List Event) → IsConsistent (run (init now) es) (total begun es)
unfolding init
run-IsConsistent now es =
    rw (← zero-add (total begun es)) (run_from-IsConsistent (init now) 0 es (omega arith))
