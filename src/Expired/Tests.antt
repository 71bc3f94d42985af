-- ===== src/Expired/Tests.antt =====
-- A run that is given up while it resolves a name, and the theorems at it.
use mathlib.Core.Option
use mathlib.Core.Option.{Option}
use tracedown_probe_agent.Base.{◌≡◌, refl, true, none, some, List, [], ◌∷◌, ◌++◌, codes}
use tracedown_probe_agent.Tcp.{resolving, network, not_resolved, verdict}
use tracedown_probe_agent.Tcp.Reading.{read}
use tracedown_probe_agent.Progress.{Event, request_begins, resolve_begins, closes, init, run, step}
use tracedown_probe_agent.Progress.Phases.{IsTrace}
use tracedown_probe_agent.Progress.Snapshots.{Stall, snapshot, in_turn}
use tracedown_probe_agent.Redact.{replace, replace_from}
use tracedown_probe_agent.Bootstrap.{str_of, digits_from}
use tracedown_probe_agent.Expired
use tracedown_probe_agent.Expired.Announced.{IsAnnounced, run_budget_timeout-IsAnnounced}
use tracedown_probe_agent.Expired.Blamed.{IsBlamed, run_budget_timeout-IsBlamed}

abbrev events : List Event
events =
    request_begins 10 7 (codes "GET") (codes "https://h/${a}") (codes "h") 443 true
    ∷ resolve_begins 2000
    ∷ []

abbrev stall : Stall
stall = record {
  phase = resolving;
  phase_ms = 5;
  requests_completed = 0;
  verdict = network;
  reason = not_resolved;
  target = some (record { host = codes "h"; port = 443; tls = true });
  tcp = none;
  request = some (record {
    method = codes "GET";
    url = codes "https://h/${a}";
    elapsed = 6;
    dns_ms = none;
    connect_ms = none;
    tls_ms = none;
    ttfb_ms = none;
    bytes_received = 0;
  });
}

described :
    Expired.describe stall
    ≡ some (codes "request 1 (GET https://h/${a}) was still resolving h after 5ms")
unfolding Expired.describe Expired.describe_request Expired.request_named Expired.waited_for
    Expired.host_of Expired.split_slashes str_of digits_from
described = refl

escaped_url : Expired.escape (codes "a${b}$") ≡ codes "a" ++ (92 ∷ codes "${b}$")
unfolding Expired.escape replace replace_from
escaped_url = refl

run_budget_timeout-IsAnnounced_example : IsAnnounced (
    Expired.run_budget_timeout 1000
      (codes "t0")
      (codes "t1")
      1001
      (some stall)
      (run (init 0) events))
run_budget_timeout-IsAnnounced_example =
    run_budget_timeout-IsAnnounced 1000 (codes "t0") (codes "t1") 1001 (some stall)
      (run (init 0) events)

events-IsTrace : IsTrace (init 0) events
unfolding init step
events-IsTrace = (tt, (tt, tt))

-- A request that ends between the readings is blamed on the network, without a target.
abbrev torn : Option Stall
torn =
    snapshot 7000
      (in_turn (run (init 0) events) 2000 (run (run (init 0) events) (closes 5000 7 ∷ []))) 0 true
      (λ fd. none)

torn_snapshot :
    (Option.map (λ (s : Stall). s.verdict) torn ≡ some network)
    × (Option.map (λ (s : Stall). s.target) torn ≡ some none)
unfolding init run step snapshot verdict read
torn_snapshot = (refl, refl)

run_budget_timeout-IsBlamed_example : IsBlamed (resolve_begins 2000 ∷ []) stall (
    Expired.run_budget_timeout 1000
      (codes "t0")
      (codes "t1")
      1001
      (some stall)
      (run (init 0) events))
unfolding init run step snapshot verdict read
run_budget_timeout-IsBlamed_example =
    run_budget_timeout-IsBlamed 0 7000 2000 events (resolve_begins 2000 ∷ []) 0 true (λ fd. none)
      stall 1000 (codes "t0") (codes "t1") 1001 (run (init 0) events) events-IsTrace refl
