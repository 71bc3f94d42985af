-- ===== src/Progress/Tests.antt =====
-- A run of one request over TLS whose answer never comes, and the theorems at it.
use tracedown_probe_agent.Base.{true, none, List, [], ◌∷◌, codes, arith}
use tracedown_probe_agent.Int.{pos}
use tracedown_probe_agent.Tcp.{storing_bodies, agent, own_work}
use tracedown_probe_agent.Progress.{
  Event, request_begins, request_written, resolve_begins, resolve_ends, connect_begins,
  connect_ends, tls_begins, tls_ends, timed_out, closes, sent, received, stores_bodies, init, step,
  run,
}
use tracedown_probe_agent.Progress.Timeouts.{IsConsistent, run-IsConsistent}
use tracedown_probe_agent.Progress.Phases.{IsTrace}
use tracedown_probe_agent.Progress.Snapshots.{Stall}

abbrev events : List Event
events =
    request_begins 10 7 (codes "GET") (codes "https://example.com/") (codes "example.com") 443 true
    ∷ resolve_begins 20
    ∷ resolve_ends 20 3020
    ∷ connect_begins 3030 (pos 5)
    ∷ connect_ends 3030 15030
    ∷ tls_begins 15040
    ∷ tls_ends 15040 45040
    ∷ sent 45050 120
    ∷ request_written 45060
    ∷ received 50000 512
    ∷ timed_out 90000 (λ fd. none)
    ∷ timed_out 90001 (λ fd. none)
    ∷ closes 90002 7
    ∷ stores_bodies 90100
    ∷ []

events-IsTrace : IsTrace (init 0) events
unfolding init step
events-IsTrace = ground arith

run-IsConsistent_example : IsConsistent (run (init 0) events) 1
run-IsConsistent_example = run-IsConsistent 0 events

abbrev storing : Stall
storing = record {
  phase = storing_bodies;
  phase_ms = 0;
  requests_completed = 1;
  verdict = agent;
  reason = own_work;
  target = none;
  tcp = none;
  request = none;
}
