-- ===== src/Progress/Snapshots.antt =====
-- `RunProgress.snapshot`, as the thread that enforces the budget reads it while the run goes on.
use mathlib.Core.Option
use tracedown_probe_agent.Base.{
  ℕ, ◌≡◌, ◌≢◌, ◌↔◌, refl, Bool, true, ◌&&◌, Option, none, some, List, Text, ◌==◌, arith,
  if◌then◌else◌,
}
use tracedown_probe_agent.Tcp.{
  Phase, starting, between_requests, storing_bodies, TcpInfo, Verdict, agent, Reason, verdict,
}
use tracedown_probe_agent.Tcp.Reading.{Kernel, read}
use tracedown_probe_agent.Progress.{
  Request, Target, target_of, Progress, Event, init, run, same_phase, elapsed_ms,
}
use tracedown_probe_agent.Progress.Phases.{IsSettled, IsTrace, run-IsSettled, is_idle_phase}

-- The `request` part of a stall.
pub record Sample : Type 0 where
  pub method : Text
  pub url : Text
  pub elapsed : ℕ
  pub dns_ms : Option ℕ
  pub connect_ms : Option ℕ
  pub tls_ms : Option ℕ
  pub ttfb_ms : Option ℕ
  pub bytes_received : ℕ

pub record Stall : Type 0 where
  pub phase : Phase
  pub phase_ms : ℕ
  pub requests_completed : ℕ
  pub verdict : Verdict
  pub reason : Reason
  pub target : Option Target
  pub tcp : Option TcpInfo
  pub request : Option Sample

-- What `phase, since, request = self.phase, self.phase_since, self.request` reads, one attribute after
-- the other, while the run goes on.
pub record Readings : Type 0 where
  pub phase : Phase
  pub phase_since : ℕ
  pub request : Option Request

-- The readings of a record that no hook writes to meanwhile.
abbrev pub at_once : Progress → Readings
at_once p = record { phase = p.phase; phase_since = p.phase_since; request = p.request }

-- The phase of one state of the record and the request of a later one.
abbrev pub in_turn : Progress → ℕ → Progress → Readings
in_turn p since later = record { phase = p.phase; phase_since = since; request = later.request }

unfoldable pub sample : ℕ → Request → Sample
sample now r = record {
  method = r.method;
  url = r.url;
  elapsed = elapsed_ms r.started now;
  dns_ms = r.dns_ms;
  connect_ms = r.connect_ms;
  tls_ms = r.tls_ms;
  ttfb_ms = r.first_byte_ms;
  bytes_received = r.bytes_received;
}

-- The kernel's record of the request that was read, dropped if the request has finished meanwhile.
unfoldable pub tcp_of : Kernel → Bool → Option Request → Option TcpInfo
tcp_of kernel still none = none
tcp_of kernel still (some r) = if still then read true kernel r.fd else none

unfoldable pub stall_of : ℕ → Readings → ℕ → Option TcpInfo → Stall
unfolding sample
stall_of now p completed tcp =
    let (who, why) = verdict p.phase tcp in
    record {
      phase = p.phase;
      phase_ms = elapsed_ms p.phase_since now;
      requests_completed = completed;
      verdict = who;
      reason = why;
      target = Option.map target_of p.request;
      tcp = tcp;
      request = Option.map (sample now) p.request;
    }

-- `snapshot`, of what was read first, as `p`; the number of completed requests is read behind it; and `still` says whether the request that was read is
-- the one under way when its connection has been looked at.
unfoldable pub snapshot : ℕ → Readings → ℕ → Bool → Kernel → Option Stall
unfolding stall_of tcp_of
snapshot now p completed still kernel =
    if same_phase p.phase starting && completed == 0
    then none
    else some (stall_of now p completed (tcp_of kernel still p.request))

same_phase_starting : (phase : Phase) → (same_phase phase starting ≡ true) ↔ (phase ≡ starting)
same_phase_starting starting = (λ h. refl, λ h. refl)
same_phase_starting _ = (λ h. cc h, λ h. cc h)

-- There is no snapshot exactly when nothing has begun: the phase is the first and no request has
-- been completed.
pub snapshot-none_iff :
    (now : ℕ) (p : Readings) (completed : ℕ) (still : Bool) (kernel : Kernel)
    → (snapshot now p completed still kernel ≡ none) ↔ ((p.phase ≡ starting) × (completed ≡ 0))
unfolding snapshot
snapshot-none_iff now p completed still kernel =
    let (there, back) = same_phase_starting p.phase in
    (λ h. (there (ground arith), ground arith), λ (first, idle). ground (arith, back first))

verdict_idle :
    (phase : Phase) → is_idle_phase phase ≡ true → phase ≢ starting → (verdict phase none).0 ≡ agent
unfolding verdict
verdict_idle starting h ne = absurd (ne refl)
verdict_idle between_requests h ne = refl
verdict_idle storing_bodies h ne = refl
verdict_idle _ h ne = cc h

snapshot_settled :
    (now : ℕ) (p : Progress) (completed : ℕ) (still : Bool) (kernel : Kernel) (s : Stall)
    → IsSettled p
    → p.request ≡ none
    → p.phase ≢ starting
    → snapshot now (at_once p) completed still kernel ≡ some s
    → (s.verdict ≡ agent) × (s.target ≡ none) × (s.request ≡ none)
unfolding snapshot
snapshot_settled now p completed still kernel s settled gone begun h =
    ground (arith, verdict_idle p.phase, gone, begun)

-- A stall outside any request, in a run from the start, is the agent's own, and has no target.
pub snapshot_idle :
    (now then' : ℕ) (es : List Event) (completed : ℕ) (still : Bool) (kernel : Kernel) (s : Stall)
    → IsTrace (init now) es
    → (run (init now) es).request ≡ none
    → (run (init now) es).phase ≢ starting
    → snapshot then' (at_once (run (init now) es)) completed still kernel ≡ some s
    → (s.verdict ≡ agent) × (s.target ≡ none) × (s.request ≡ none)
unfolding init
snapshot_idle now then' es completed still kernel s t gone begun h =
    snapshot_settled then' (run (init now) es) completed still kernel s
      (run-IsSettled (init now) es t refl) gone begun h
