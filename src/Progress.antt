-- ===== src/Progress.antt =====
-- src/services/run_progress.py: the record of one run, the hooks that write to it, and the
-- snapshot that another thread reads.
--
-- A hook wraps a call of the standard library; what it does before the call and what it does
-- behind it are two events here, since a snapshot can fall between them. An event is one or several
-- assignments of attributes. A snapshot, which reads them one by one, can fall among these too; each
-- of its readings sees an attribute as it is before the event or behind it. Clock readings are in
-- microseconds and come with the events. No hooked call runs another that replaces the request
-- under way, so the end of a hook writes to the request that its beginning saw.
pub mod Accounting
pub mod Timeouts
pub mod Phases
pub mod Snapshots
mod Tests
use tracedown_probe_agent.Base.{
  ℕ, zero, suc, ◌+◌, ◌-◌, ◌/◌, Bool, true, false, ◌&&◌, Option, none, some, List, [], ◌∷◌, ◌++◌,
  Text, ◌==◌, if◌then◌else◌,
}
use tracedown_probe_agent.Int.{ℤ, pos, negsuc}
use tracedown_probe_agent.Tcp.{
  Phase, starting, between_requests, resolving, connecting, tls_handshake, sending,
  awaiting_response, receiving, storing_bodies, TcpInfo, Verdict, Reason, verdict,
}
use tracedown_probe_agent.Tcp.Reading.{Kernel, read}

abbrev pub same_phase : Phase → Phase → Bool
same_phase starting starting = true
same_phase between_requests between_requests = true
same_phase resolving resolving = true
same_phase connecting connecting = true
same_phase tls_handshake tls_handshake = true
same_phase sending sending = true
same_phase awaiting_response awaiting_response = true
same_phase receiving receiving = true
same_phase storing_bodies storing_bodies = true
same_phase _ _ = false

-- `_ms`
abbrev pub elapsed_ms : ℕ → ℕ → ℕ
elapsed_ms since until = (until - since) / 1000

-- `_Request`
pub record Request : Type 0 where
  pub conn_id : ℕ
  pub method : Text
  pub url : Text
  pub name : Text
  pub port : ℕ
  pub tls : Bool
  pub fd : ℤ
  pub timed_out : Bool
  pub started : ℕ
  pub dns_ms : Option ℕ
  pub connect_ms : Option ℕ
  pub tls_ms : Option ℕ
  pub first_byte_ms : Option ℕ
  pub bytes_received : ℕ

-- Where a request went.
pub record Target : Type 0 where
  pub host : Text
  pub port : ℕ
  pub tls : Bool

-- `_target`
abbrev pub target_of : Request → Target
target_of r = record { host = r.name; port = r.port; tls = r.tls }

-- An entry of `timeouts`.
pub record Timeout : Type 0 where
  pub at : ℕ
  pub phase : Phase
  pub verdict : Verdict
  pub reason : Reason
  pub method : Text
  pub url : Text
  pub target : Target
  pub tcp : Option TcpInfo

-- `RunProgress`
pub record Progress : Type 0 where
  pub phase : Phase
  pub phase_since : ℕ
  pub requests_completed : ℕ
  pub request : Option Request
  pub ingress : ℕ
  pub egress : ℕ
  pub timeouts : List Timeout

-- `RunProgress()`
unfoldable pub init : ℕ → Progress
init now = record {
  phase = starting;
  phase_since = now;
  requests_completed = 0;
  request = none;
  ingress = 0;
  egress = 0;
  timeouts = [];
}

-- `enter`
unfoldable pub enter : Phase → ℕ → Progress → Progress
enter phase now p =
    if same_phase phase p.phase then p else record p { phase = phase; phase_since = now }

-- What the hooks see on the run's thread, with their readings of the clock.
pub data Event : Type 0 where
  -- `request`: before the call, with the identity of the connection, the method, the url as it
  -- is recorded, the host's name, the port and whether it is https; and behind the call.
  request_begins : ℕ → ℕ → Text → Text → Text → ℕ → Bool → Event
  request_written : ℕ → Event
  -- `getaddrinfo`, `connect` (with the descriptor) and `wrap_socket`: before the call; behind it,
  -- with the reading from before; and where the call raised TimeoutError.
  resolve_begins : ℕ → Event
  resolve_ends : ℕ → ℕ → Event
  connect_begins : ℕ → ℤ → Event
  connect_ends : ℕ → ℕ → Event
  tls_begins : ℕ → Event
  tls_ends : ℕ → ℕ → Event
  -- `on_timeout`, with the reading of the wall clock and the kernel's answer.
  timed_out : ℕ → Kernel → Event
  -- `close`, of a connection.
  closes : ℕ → ℕ → Event
  -- `on_sent` and `on_received`: a reading, and a number of bytes.
  sent received : ℕ → ℕ → Event
  -- `progress.enter(STORING_BODIES)` of src/services/executor.py.
  stores_bodies : ℕ → Event

pub fresh : ℕ → ℕ → Text → Text → Text → ℕ → Bool → Request
fresh now id method url name port tls = record {
  conn_id = id;
  method = method;
  url = url;
  name = name;
  port = port;
  tls = tls;
  fd = negsuc 0;
  timed_out = false;
  started = now;
  dns_ms = none;
  connect_ms = none;
  tls_ms = none;
  first_byte_ms = none;
  bytes_received = 0;
}

-- A hook that does nothing without a request under way.
abbrev with_request : (Request → Progress → Progress) → Progress → Progress
with_request f p = elim p.request [ none ↦ p | some r ↦ f r p ]

-- The entry that `on_timeout` appends.
pub timeout_record : ℕ → Kernel → Request → Progress → Timeout
timeout_record at kernel r p =
    let tcp = read true kernel r.fd in
    let (who, why) = verdict p.phase tcp in
    record {
      at = at;
      phase = p.phase;
      verdict = who;
      reason = why;
      method = r.method;
      url = r.url;
      target = target_of r;
      tcp = tcp;
    }

pub on_timeout : ℕ → Kernel → Request → Progress → Progress
on_timeout at kernel r p = if r.timed_out then p else record p {
  request = some (record r { timed_out = true });
  timeouts = p.timeouts ++ timeout_record at kernel r p ∷ [];
}

-- The assignments of `close`, in their order; the phase is the last.
abbrev pub without_request : Progress → Progress
without_request p = record p { request = none }

abbrev pub with_completed : Progress → Progress
with_completed p = record p { requests_completed = p.requests_completed + 1 }

pub on_close : ℕ → ℕ → Request → Progress → Progress
unfolding enter
on_close id now r p =
    if r.conn_id == id then enter between_requests now (with_completed (without_request p)) else p

pub first_byte : Option ℕ → ℕ → ℕ → Option ℕ
first_byte none started now = some (elapsed_ms started now)
first_byte (some ms) started now = some ms

pub on_received : ℕ → ℕ → Request → Progress → Progress
unfolding enter first_byte
on_received now count r p = enter receiving now (record p {
  request = some (record r {
    first_byte_ms = first_byte r.first_byte_ms r.started now;
    bytes_received = r.bytes_received + count;
  });
})

-- One event on a tracked thread.
unfoldable pub step : Progress → Event → Progress
unfolding enter fresh on_timeout on_close on_received
step p (request_begins now id method url name port tls) = record p {
  request = some (fresh now id method url name port tls);
}
step p (request_written now) = enter awaiting_response now p
step p (resolve_begins now) = with_request (λ r. enter resolving now) p
step p (resolve_ends t0 now) =
    with_request
      (λ r q. record q { request = some (record r { dns_ms = some (elapsed_ms t0 now) }) }) p
step p (connect_begins now fd) =
    with_request (λ r q. record (enter connecting now q) { request = some (record r { fd = fd }) })
      p
step p (connect_ends t0 now) =
    with_request
      (λ r q. record q { request = some (record r { connect_ms = some (elapsed_ms t0 now) }) }) p
step p (tls_begins now) = with_request (λ r. enter tls_handshake now) p
step p (tls_ends t0 now) =
    with_request
      (λ r q. record q { request = some (record r { tls_ms = some (elapsed_ms t0 now) }) }) p
step p (timed_out at kernel) = with_request (on_timeout at kernel) p
step p (closes now id) = with_request (on_close id now) p
step p (sent now count) =
    with_request (λ r. enter sending now) (record p { egress = p.egress + count })
step p (received now count) =
    with_request (on_received now count) (record p { ingress = p.ingress + count })
step p (stores_bodies now) = enter storing_bodies now p

unfoldable pub run : Progress → List Event → Progress
run p [] = p
run p (e ∷ es) = run (step p e) es
