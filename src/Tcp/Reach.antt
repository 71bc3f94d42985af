-- ===== src/Tcp/Reach.antt =====
-- src/services/tcp_state.py, `reach`: the witness side of a verdict on the path. Name resolution
-- and each dial are the system's: what they do is an argument, a dial for each attempt.
pub mod Paths
use tracedown_probe_agent.Base.{
  ℕ, zero, suc, ◌+◌, Bool, true, false, Option, none, some, List, [], ◌∷◌, ◌++◌, Text,
  if◌then◌else◌,
}
use tracedown_probe_agent.Result.{Result, ok, err}
use tracedown_probe_agent.Tcp.{TcpInfo, lossy}

-- A call on the socket: it returns after some milliseconds, or raises EgressBlocked, or any other
-- OSError (an SSLError is one), with the text that is reported.
pub data Step : Type 0 where
  done : ℕ → Step
  blocked failed : Text → Step

-- What the socket of one attempt does, and the reading behind it.
pub record Dial : Type 0 where
  pub connect : Step
  pub handshake : Step
  pub info : Option TcpInfo

-- `socket.getaddrinfo`: an address after some milliseconds, EgressBlocked, OSError, or the
-- UnicodeError that the name's encoding raises.
pub data Resolution : Type 0 where
  address : Text → ℕ → Resolution
  barred_name unresolved : Text → Resolution
  unencodable : Resolution

pub data ReachError : Type 0 where
  unicode_error : ReachError

pub data ReachPath : Type 0 where
  clean lossy_path unreachable refused : ReachPath

pub record Attempt : Type 0 where
  pub connect_ms : Option ℕ
  pub tls_ms : Option ℕ
  pub error : Option Text
  pub tcp : Option TcpInfo

pub record Report : Type 0 where
  pub path : ReachPath
  pub error : Option Text
  pub address : Option Text
  pub dns_ms : Option ℕ
  pub attempts : List Attempt

-- How one pass of the loop's `try` ends.
pub data Tried : Type 0 where
  reached dropped : Attempt → Tried
  barred : Text → Tried

pub after_handshake : ℕ → Step → Option TcpInfo → Tried
after_handshake ms (done t) tcp =
    reached (record { connect_ms = some ms; tls_ms = some t; error = none; tcp = tcp })
after_handshake ms (blocked e) tcp = barred e
after_handshake ms (failed e) tcp =
    dropped (record { connect_ms = some ms; tls_ms = none; error = some e; tcp = tcp })

pub after_connect : Bool → Step → Dial → Tried
unfolding after_handshake
after_connect use_tls (done ms) dial =
    if use_tls
    then after_handshake ms dial.handshake dial.info
    else reached (record { connect_ms = some ms; tls_ms = none; error = none; tcp = dial.info })
after_connect use_tls (blocked e) dial = barred e
after_connect use_tls (failed e) dial =
    dropped (record { connect_ms = none; tls_ms = none; error = some e; tcp = dial.info })

pub try_dial : Bool → Dial → Tried
unfolding after_connect
try_dial use_tls dial = after_connect use_tls dial.connect dial

-- `tcp is not None and lossy(tcp)`
pub seen_lossy : Option TcpInfo → Bool
seen_lossy none = false
seen_lossy (some tcp) = elim (lossy tcp) [ none ↦ false | some b ↦ b ]

abbrev pub Outcome : Type 0
Outcome = ReachPath × Option Text × List Attempt

-- The rest of a pass: return, break, or go on with the path and the results so far.
pub finish_try : Tried → (ReachPath → List Attempt → Outcome) → ReachPath → List Attempt → Outcome
finish_try (barred e) go_on path results = (refused, some e, results)
finish_try (dropped a) go_on path results = (unreachable, none, results ++ a ∷ [])
finish_try (reached a) go_on path results =
    go_on (if seen_lossy a.tcp then lossy_path else path) (results ++ a ∷ [])

-- The loop over the attempts left, from attempt `i`.
pub attempts_from : ℕ → ℕ → Bool → (ℕ → Dial) → ReachPath → List Attempt → Outcome
attempts_from zero i use_tls dials path results = (path, none, results)
attempts_from (suc n) i use_tls dials path results =
    finish_try (try_dial use_tls (dials i)) (attempts_from n (suc i) use_tls dials) path results

abbrev pub default_attempts : ℕ
default_attempts = 3

pub report_of : Text → ℕ → Outcome → Report
report_of host dns (refused, e, results) = record {
  path = refused;
  error = e;
  address = none;
  dns_ms = none;
  attempts = results;
}
report_of host dns (path, e, results) = record {
  path = path;
  error = e;
  address = some host;
  dns_ms = some dns;
  attempts = results;
}

-- `reach`
pub reach : Resolution → Bool → ℕ → (ℕ → Dial) → Result ReachError Report
unfolding report_of
reach (address host dns) use_tls n dials =
    ok (report_of host dns (attempts_from n 0 use_tls dials clean []))
reach (barred_name e) use_tls n dials =
    ok (record { path = refused; error = some e; address = none; dns_ms = none; attempts = [] })
reach (unresolved e) use_tls n dials =
    ok (record { path = unreachable; error = some e; address = none; dns_ms = none; attempts = [] })
reach unencodable use_tls n dials = err unicode_error
