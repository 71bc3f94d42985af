-- ===== src/Progress/Phases.antt =====
-- Outside a request the record says so: no phase of a connection is left standing.
use tracedown_probe_agent.Base.{
  ◌≡◌, ◌⊎◌, inl, inr, any, Bool-cases, Bool, true, false, ◌||◌, Option, none, some, List, [], ◌∷◌,
  arith,
}
use tracedown_probe_agent.Tcp.{Phase, starting, between_requests, storing_bodies}
use tracedown_probe_agent.Progress.{
  Request, Progress, Event, request_written, closes, enter, fresh, on_timeout, on_close,
  on_received, step, run,
}

abbrev pub is_idle_phase : Phase → Bool
is_idle_phase starting = true
is_idle_phase between_requests = true
is_idle_phase storing_bodies = true
is_idle_phase _ = false

abbrev pub has_request : Option Request → Bool
has_request none = false
has_request (some r) = true

-- With no request under way the phase is one of those outside requests.
abbrev pub IsSettled : Progress → Type 0
IsSettled p = (has_request p.request || is_idle_phase p.phase) ≡ true

-- `http.client` does not close the connection inside the call that writes the request, unless the
-- call raises: behind the call the request is still under way.
abbrev pub IsAllowed : Progress → Event → Type 0
IsAllowed p (request_written now) = has_request p.request ≡ true
IsAllowed p _ = Unit

abbrev pub IsTrace : Progress → List Event → Type 0
IsTrace p [] = Unit
IsTrace p (e ∷ es) = IsAllowed p e × IsTrace (step p e) es

step-IsSettled : (p : Progress) (e : Event) → IsAllowed p e → IsSettled p → IsSettled (step p e)
unfolding step enter fresh on_timeout on_close on_received
step-IsSettled p (request_written now) a h = ground arith
step-IsSettled p _ a h = ground arith

-- After any events in which a request is written while it is under way, a record with no request
-- is in a phase outside requests.
pub run-IsSettled :
    (p : Progress) (es : List Event) → IsTrace p es → IsSettled p → IsSettled (run p es)
unfolding run
run-IsSettled p [] t h = h
run-IsSettled p (e ∷ es) t h = run-IsSettled (step p e) es t.1 (step-IsSettled p e t.0 h)

-- The event may take the request away.
abbrev pub is_close : Event → Bool
is_close (closes now id) = true
is_close _ = false

-- Only a close takes the request away.
step-has_request :
    (p : Progress) (e : Event)
    → is_close e ≡ false
    → has_request p.request ≡ true
    → has_request (step p e).request ≡ true
unfolding step enter fresh on_timeout on_close on_received
step-has_request p (closes now id) c h = cc c
step-has_request p _ c h = ground arith

pub run-has_request :
    (p : Progress) (es : List Event)
    → has_request p.request ≡ true
    → (has_request (run p es).request ≡ true) ⊎ (any is_close es ≡ true)
unfolding run
run-has_request p [] h = inl h
run-has_request p (e ∷ es) h = elim (Bool-cases (is_close e)) [
  | inl c ↦ inr (ground (arith, c))
  | inr c ↦ elim (run-has_request (step p e) es (step-has_request p e c h)) [
    | inl k ↦ inl k
    | inr k ↦ inr (ground (arith, k))
  ]
]
