-- ===== src/Progress/Accounting.antt =====
-- The byte counters of a run, and its count of requests.
use tracedown_probe_agent.Base.{ℕ, ◌+◌, ◌≡◌, List, [], ◌∷◌, arith}
use tracedown_probe_agent.Progress.{
  Progress, Event, sent, received, enter, on_timeout, on_close, on_received, step, run,
}

abbrev pub bytes_in : Event → ℕ
bytes_in (received now count) = count
bytes_in _ = 0

abbrev pub bytes_out : Event → ℕ
bytes_out (sent now count) = count
bytes_out _ = 0

abbrev pub total {ℓ} : {A : Type ℓ} → (A → ℕ) → List A → ℕ
total f [] = 0
total f (e ∷ es) = f e + total f es

pub step-ingress : (p : Progress) (e : Event) → (step p e).ingress ≡ p.ingress + bytes_in e
unfolding step enter on_timeout on_close on_received
step-ingress p (received now count) = ground arith
step-ingress p _ = ground arith

pub step-egress : (p : Progress) (e : Event) → (step p e).egress ≡ p.egress + bytes_out e
unfolding step enter on_timeout on_close on_received
step-egress p (sent now count) = ground arith
step-egress p _ = ground arith

-- Whatever the run does, the counters grow by exactly the bytes that the hooks saw.
pub run_bytes :
    (p : Progress) (es : List Event)
    → ((run p es).ingress ≡ p.ingress + total bytes_in es)
      × ((run p es).egress ≡ p.egress + total bytes_out es)
unfolding run
run_bytes p [] = (omega arith, omega arith)
run_bytes p (e ∷ es) =
    let (i, o) = run_bytes (step p e) es in
    (omega (arith, step-ingress p e), omega (arith, step-egress p e))
