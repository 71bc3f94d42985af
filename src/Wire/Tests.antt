-- ===== src/Wire/Tests.antt =====
-- One request on a measured and tracked thread, and the theorems at it.
use tracedown_probe_agent.Base.{◌≡◌, refl, true, false, none, List, [], ◌∷◌, codes}
use tracedown_probe_agent.Progress.{request_begins, init, step}
use tracedown_probe_agent.Wire.{
  Thread, Op, sends, opens, reads, marks, passed, timeout, raised, bytes, other, on_event, on_end,
  count_sent, patched_send, patched_resp_init, count_received, counting_read, read_of, perform,
  perform_all, measure, track, traced_run,
}
use tracedown_probe_agent.Wire.Counted.{IsTotal, traced_run-totals}
use tracedown_probe_agent.Wire.Restored.{perform_all-counter}

abbrev idle : Thread
idle = record {
  counter = record { active = false; ingress = 0; egress = 0 };
  progress = none;
  readers = [];
}

abbrev ops : List Op
ops =
    marks (request_begins 10 7 (codes "GET") (codes "http://h/") (codes "h") 80 false)
    ∷ sends 20 (bytes (codes "GET / HTTP/1.1")) (passed 0)
    ∷ sends 25 other raised
    ∷ opens true
    ∷ reads 0 30 (passed 15)
    ∷ reads 0 40 (passed 0)
    ∷ reads 0 50 (timeout 60 (λ fd. none))
    ∷ []

ops_totals : (traced_run (init 0) ops idle).0.1 ≡ record { ingress = 15; egress = 14 }
unfolding traced_run measure track perform_all perform on_event on_end count_sent patched_send
    patched_resp_init count_received counting_read read_of step
ops_totals = refl

-- A chunk is counted before it is sent, so also where the send then fails.
failed_send :
    (traced_run (init 0) (sends 20 (bytes (codes "GET")) raised ∷ []) idle).0.1
    ≡ record { ingress = 0; egress = 3 }
unfolding traced_run measure track perform_all perform on_event on_end count_sent patched_send step
failed_send = refl

-- Outside every measurement nothing is counted.
unmeasured : (perform_all ops idle).counter ≡ idle.counter
unmeasured = perform_all-counter ops idle refl

abbrev answers : List Op
answers = opens true ∷ reads 0 30 (passed 15) ∷ sends 40 (bytes (codes "GET")) raised ∷ []

traced_run-totals_example :
    IsTotal (init 0) (traced_run (init 0) answers idle).0.1 (traced_run (init 0) answers idle).0.0
    × ((traced_run (init 0) answers idle).1.counter ≡ idle.counter)
    × ((traced_run (init 0) answers idle).1.progress ≡ none)
traced_run-totals_example = traced_run-totals (init 0) answers idle (tt, (tt, (tt, tt)))
