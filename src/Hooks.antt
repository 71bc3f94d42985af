-- ===== src/Hooks.antt =====
-- The wrappers that `install` of src/services/egress_guard.py, of src/services/run_progress.py and of
-- src/services/wire_metrics.py put around the entries of `socket` and `http.client`.
--
-- An entry is a function of a call and the thread it is made on. A call comes with what the system
-- would answer and the readings of the clock around it. Only the entries that more than one module
-- wraps, or that count bytes, are here.
pub mod Composed
pub mod Lookups
pub mod Started
pub mod Connects
pub mod Shapes
mod Tests
use tracedown_probe_agent.Base.{
  ℕ, Bool, true, false, ◌&&◌, ◌||◌, Option, none, some, List, [], ◌∷◌, ◌++◌, Text, if◌then◌else◌,
  any,
}
use tracedown_probe_agent.Int.{ℤ}
use tracedown_probe_agent.Tcp.Reading.{Kernel}
use tracedown_probe_agent.Progress.{
  Progress, Event, resolve_begins, resolve_ends, connect_begins, connect_ends, timed_out,
}
use tracedown_probe_agent.Egress.{host_is_blocked, ip_is_blocked}
use tracedown_probe_agent.Egress.Addresses.{Addr}
use tracedown_probe_agent.Egress.Guard.{Sockaddr, target_is_blocked, guarded_getaddrinfo}
use tracedown_probe_agent.Startup.{Services}
use tracedown_probe_agent.Wire.{
  Thread, Reader, plain, counting, Chunk, CallEnd, on_event, on_end, count_sent,
}

-- A thread: what `wire_metrics` and `run_progress` keep for it, the flag of `egress_guard`, and the
-- connections that the system was asked for.
pub record HookedThread : Type 0 where
  pub wire : Thread
  pub guarded : Bool
  pub dialled : List Sockaddr

-- How `connect` ends: it returns, TimeoutError with the clock and the kernel's answer, another
-- OSError, EgressBlocked.
pub data ConnectEnd : Type 0 where
  connected : ConnectEnd
  connect_timeout : ℕ → Kernel → ConnectEnd
  os_error egress_blocked : ConnectEnd

pub record ConnectCall : Type 0 where
  pub address : Sockaddr
  pub fd : ℤ
  pub began : ℕ
  pub ended : ℕ
  -- what the system would answer
  pub system_end : ConnectEnd

-- A lookup of a host, with the addresses that the resolver would answer, none where it raises.
pub record Lookup : Type 0 where
  pub host : Option Text
  pub lookup_began : ℕ
  pub lookup_ended : ℕ
  pub answer : Option (List Text)

abbrev pub Connect : Type 0
Connect = ConnectCall → HookedThread → ConnectEnd × HookedThread

-- `getaddrinfo`: none where it raises.
abbrev pub GetAddrInfo : Type 0
GetAddrInfo = Lookup → HookedThread → Option (List Text) × HookedThread

abbrev pub Send : Type 0
Send = ℕ → Chunk → CallEnd → HookedThread → HookedThread

-- `HTTPResponse.__init__`, which leaves a file object or none.
abbrev pub ResponseInit : Type 0
ResponseInit = Bool → HookedThread → HookedThread

abbrev pub dial : Sockaddr → HookedThread → HookedThread
dial a t = record t { dialled = t.dialled ++ a ∷ [] }

unfoldable pub mark : Event → HookedThread → HookedThread
unfolding on_event
mark e t = record t { wire = on_event e t.wire }

abbrev pub system_connect : Connect
system_connect c t = (c.system_end, dial c.address t)

abbrev pub system_getaddrinfo : GetAddrInfo
system_getaddrinfo l t = (l.answer, t)

abbrev pub system_send : Send
system_send now chunk ends t = t

-- A response's own file object.
abbrev pub system_response_init : ResponseInit
system_response_init has_file t = record t {
  wire = record t.wire { readers = t.wire.readers ++ plain ∷ [] };
}

-- `_current()` has a request under way.
abbrev request_of : Option Progress → Bool
request_of none = false
request_of (some p) = elim p.request [ none ↦ false | some r ↦ true ]

abbrev pub under_way : HookedThread → Bool
under_way t = request_of t.wire.progress

-- What the wrapper of `connect` in run_progress does behind the call.
unfoldable pub settle : ConnectCall → ConnectEnd × HookedThread → ConnectEnd × HookedThread
unfolding mark
settle c (connected, t) = (connected, mark (connect_ends c.began c.ended) t)
settle c (connect_timeout at kernel, t) = (connect_timeout at kernel, mark (timed_out at kernel) t)
settle c (os_error, t) = (os_error, t)
settle c (egress_blocked, t) = (egress_blocked, t)

-- `install.connect` of run_progress, over the entry that it found.
unfoldable pub traced_connect : Connect → Connect
unfolding settle mark
traced_connect orig c t =
    if under_way t then settle c (orig c (mark (connect_begins c.began c.fd) t)) else orig c t

abbrev pub resolved : Lookup → Option (List Text) × HookedThread → Option (List Text) × HookedThread
resolved l (found, t) = (found, mark (resolve_ends l.lookup_began l.lookup_ended) t)

-- `install.getaddrinfo` of run_progress.
unfoldable pub traced_getaddrinfo : GetAddrInfo → GetAddrInfo
unfolding mark
traced_getaddrinfo orig l t =
    if under_way t then resolved l (orig l (mark (resolve_begins l.lookup_began) t)) else orig l t

-- `patched_send` of wire_metrics.
unfoldable pub counted_send : Send → Send
unfolding count_sent on_end
counted_send orig now chunk ends t =
    let t1 = orig now chunk ends (record t { wire = count_sent now chunk t.wire }) in
    record t1 { wire = on_end ends t1.wire }

-- `self.fp = _CountingReader(self.fp)`, of the response that was opened last.
abbrev pub wrap_last : List Reader → List Reader
wrap_last [] = []
wrap_last (r ∷ []) = counting ∷ []
wrap_last (r ∷ r' ∷ rs) = r ∷ wrap_last (r' ∷ rs)

-- `patched_resp_init` of wire_metrics.
unfoldable pub counted_response_init : ResponseInit → ResponseInit
counted_response_init orig has_file t =
    let t1 = orig has_file t in
    if t1.wire.counter.active && has_file
    then record t1 { wire = record t1.wire { readers = wrap_last t1.wire.readers } }
    else t1

-- The entries of the process, and the `_installed` flags of the three modules. `_orig_connect` and
-- `_orig_getaddrinfo` of egress_guard are set once, so its wrappers have them as their own.
pub record Process : Type 0 where
  pub connect : Connect
  pub getaddrinfo : GetAddrInfo
  pub send : Send
  pub response_init : ResponseInit
  pub guard_installed : Bool
  pub progress_installed : Bool
  pub metrics_installed : Bool

abbrev pub fresh_process : Process
fresh_process = record {
  connect = system_connect;
  getaddrinfo = system_getaddrinfo;
  send = system_send;
  response_init = system_response_init;
  guard_installed = false;
  progress_installed = false;
  metrics_installed = false;
}

-- Whose `install` is called.
pub data Installer : Type 0 where
  egress_guard run_progress wire_metrics : Installer

-- `install` of run_progress.
unfoldable pub install_progress : Process → Process
unfolding traced_connect traced_getaddrinfo
install_progress p = if p.progress_installed then p else record p {
  connect = traced_connect p.connect;
  getaddrinfo = traced_getaddrinfo p.getaddrinfo;
  progress_installed = true;
}

-- `install` of wire_metrics.
unfoldable pub install_metrics : Process → Process
unfolding counted_send counted_response_init
install_metrics p = if p.metrics_installed then p else record p {
  send = counted_send p.send;
  response_init = counted_response_init p.response_init;
  metrics_installed = true;
}

module _ (ip_address : Text → Option Addr) where
  -- `_guarded_connect`
  unfoldable pub refusing_connect : Connect → Connect
  refusing_connect orig c t =
      if t.guarded && target_is_blocked ip_address c.address then (egress_blocked, t) else orig c t

  abbrev pub vetted :
      Option Text → Option (List Text) × HookedThread → Option (List Text) × HookedThread
  vetted host (none, t) = (none, t)
  vetted host (some results, t) = (guarded_getaddrinfo ip_address t.guarded host results, t)

  -- `_guarded_getaddrinfo`
  unfoldable pub refusing_getaddrinfo : GetAddrInfo → GetAddrInfo
  refusing_getaddrinfo orig l t = vetted l.host (orig l t)

  -- `install` of egress_guard.
  unfoldable pub install_guard : Process → Process
  unfolding refusing_connect refusing_getaddrinfo
  install_guard p = if p.guard_installed then p else record p {
    connect = refusing_connect p.connect;
    getaddrinfo = refusing_getaddrinfo p.getaddrinfo;
    guard_installed = true;
  }

  unfoldable pub install : Installer → Process → Process
  unfolding install_guard install_progress install_metrics
  install egress_guard = install_guard
  install run_progress = install_progress
  install wire_metrics = install_metrics

  unfoldable pub install_all : List Installer → Process → Process
  unfolding install
  install_all [] p = p
  install_all (i ∷ is) p = install_all is (install i p)

-- `init_egress_policy`: the installs that it makes.
unfoldable pub init_egress_policy : Bool → List Installer
init_egress_policy egress_enabled = if egress_enabled then egress_guard ∷ [] else []

-- The installs of `lifespan`.
unfoldable pub lifespan_installs : Services → List Installer
unfolding init_egress_policy
lifespan_installs services =
    wire_metrics ∷ run_progress ∷ init_egress_policy services.egress_enabled
