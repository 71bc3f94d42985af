-- ===== src/Expired/Blamed.antt =====
-- Who a run is blamed on that was given up, over the run's whole record.
use tracedown_probe_agent.Base.{
  ℕ, ◌≡◌, ◌≢◌, ◌↔◌, refl, Bool, true, false, Option, none, some, List, Text, arith, Option-cases,
  inl, inr, ◌⊎◌, any, Bool-cases,
}
use tracedown_probe_agent.Tcp.{
  Phase, starting, storing_bodies, between_requests, Verdict, network, verdict,
}
use tracedown_probe_agent.Tcp.Reading.{Kernel}
use tracedown_probe_agent.Progress.{Event, Progress, init, run}
use tracedown_probe_agent.Progress.Phases.{
  is_close, run-has_request, IsSettled, IsTrace, run-IsSettled, is_idle_phase, has_request,
}
use tracedown_probe_agent.Progress.Snapshots.{Stall, Readings, in_turn, snapshot, stall_of, tcp_of}
use tracedown_probe_agent.Expired.{
  Blame, is_network, blame_of, TimeoutResult, timeout_result, run_budget_timeout,
}
use tracedown_probe_agent.Expired.Announced.{describe_total}

-- A result with the verdict of the stall, and a target exactly if that is the network, unless a close
-- fell between the readings of the stall.
abbrev pub IsBlamed : List Event → Stall → Option TimeoutResult → Type 0
IsBlamed between s none = ⊥
IsBlamed between s (some r) =
    (b : Blame) × (r.attribution ≡ some b)
    × (b.verdict ≡ s.verdict)
    × (b.reason ≡ s.reason)
    × (b.target ≢ none → b.verdict ≡ network)
    × (b.verdict ≡ network → (b.target ≢ none) ⊎ (any is_close between ≡ true))

-- The network is never blamed where no request is under way.
no_request_lem :
    (phase : Phase) → is_idle_phase phase ≡ true → is_network (verdict phase none).0 ≡ false
unfolding verdict
no_request_lem starting h = refl
no_request_lem between_requests h = refl
no_request_lem storing_bodies h = refl
no_request_lem _ h = ground arith

is_network_lem : (v : Verdict) → (is_network v ≡ true) ↔ (v ≡ network)
is_network_lem network = (λ h. refl, λ h. refl)
is_network_lem _ = (λ h. cc h, λ h. cc h)

-- The target is that of the request that was read.
stall_target :
    (now : ℕ) (p : Readings) (completed : ℕ) (still : Bool) (kernel : Kernel) (s : Stall)
    → snapshot now p completed still kernel ≡ some s
    → has_request p.request ≡ true
    → s.target ≢ none
unfolding snapshot stall_of tcp_of
stall_target now p completed still kernel s h has = elim (Option-cases p.request) [
  | inl e ↦ ground (arith, e)
  | inr (r, e) ↦ ground (arith, e)
]

stall_idle :
    (now : ℕ) (p : Readings) (completed : ℕ) (still : Bool) (kernel : Kernel) (s : Stall)
    → snapshot now p completed still kernel ≡ some s
    → is_idle_phase p.phase ≡ true
    → has_request p.request ≡ false
    → is_network s.verdict ≡ false
unfolding snapshot stall_of tcp_of
stall_idle now p completed still kernel s h idle gone = elim (Option-cases p.request) [
  | inl e ↦ ground (arith, no_request_lem p.phase, e)
  | inr (r, e) ↦ ground (arith, e)
]

-- With a settled record where the phase was read, a network verdict has a request or a close.
network_seen :
    (p : Progress) (es : List Event) (now since : ℕ) (completed : ℕ) (still : Bool)
    (kernel : Kernel) (s : Stall)
    → IsSettled p
    → snapshot now (in_turn p since (run p es)) completed still kernel ≡ some s
    → is_network s.verdict ≡ true
    → (s.target ≢ none) ⊎ (any is_close es ≡ true)
network_seen p es now since completed still kernel s settled h net =
    elim (Bool-cases (has_request (run p es).request)) [
      | inl seen ↦
          inl (stall_target now (in_turn p since (run p es)) completed still kernel s h seen)
      | inr gone ↦ elim (Bool-cases (has_request p.request)) [
        | inl was ↦ elim (run-has_request p es was) [
          | inl seen ↦ absurd (cc (seen, gone))
          | inr closed ↦ inr closed
        ]
        | inr never ↦
            let idle : is_idle_phase p.phase ≡ true = ground (arith, settled, never) in
            let calm =
              stall_idle now (in_turn p since (run p es)) completed still kernel s h idle gone in
            absurd (cc (calm, net))
      ]
    ]

blame_lem :
    (s : Stall) (between : List Event)
    → (is_network s.verdict ≡ true → (s.target ≢ none) ⊎ (any is_close between ≡ true))
    → ((blame_of s).target ≢ none → s.verdict ≡ network)
      × (s.verdict ≡ network → ((blame_of s).target ≢ none) ⊎ (any is_close between ≡ true))
unfolding blame_of
blame_lem s between named =
    let (there, back) = is_network_lem s.verdict in
    (
      λ h. there (ground (arith, h)),
      λ h. elim (named (back h)) [ inl t ↦ inl (rw (back h) t) | inr c ↦ inr c ],
    )

-- Of a run from its start that is given up with a snapshot, which reads the phase, and then the
-- request, while the run may go on in between: its result carries the snapshot's verdict and reason;
-- it names a target for a second agent only if the verdict is the network; and then it does name one,
-- unless the run closed a connection between the two readings.
pub run_budget_timeout-IsBlamed :
    (now later since : ℕ) (es between : List Event) (completed : ℕ) (still : Bool) (kernel : Kernel)
    (s : Stall) (budget : ℕ) (started_at ended_at : Text) (elapsed : ℕ) (p : Progress)
    → IsTrace (init now) es
    → snapshot later
        (in_turn (run (init now) es) since (run (run (init now) es) between))
        completed
        still
        kernel
      ≡ some s
    → IsBlamed between s (run_budget_timeout budget started_at ended_at elapsed (some s) p)
unfolding run_budget_timeout timeout_result blame_of init
run_budget_timeout-IsBlamed now later since es between completed still kernel s budget started_at
      ended_at elapsed p trace h =
    let (clause, e) = describe_total s in
    let (only, named) = blame_lem s between (
      network_seen (run (init now) es) between later since completed still kernel s
        (run-IsSettled (init now) es trace refl) h) in
    rw e (blame_of s, refl, refl, refl, only, named)
