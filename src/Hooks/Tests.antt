-- ===== src/Hooks/Tests.antt =====
-- The order in which the agent starts its hooks, and the theorem on it.
use tracedown_probe_agent.Base.{
  ◌≡◌, refl, true, false, ◌&&◌, Option, none, some, List, [], ◌∷◌, ◌++◌, Text, codes, any,
  if◌then◌else◌,
}
use tracedown_probe_agent.Bytes.{text_eq}
use tracedown_probe_agent.Int.{pos, negsuc}
use tracedown_probe_agent.Tcp.{starting}
use tracedown_probe_agent.Progress.{Request}
use tracedown_probe_agent.Egress.{ip_is_blocked, before_zone}
use tracedown_probe_agent.Egress.Addresses.{Addr, v4, quad, address_is_blocked}
use tracedown_probe_agent.Egress.Guard.{inet, guarded_connect, target_is_blocked}
use tracedown_probe_agent.Wire.{bytes, passed, fresh_counter, patched_send, patched_resp_init}
use tracedown_probe_agent.Hooks.{
  HookedThread, system_response_init, ConnectCall, Lookup, connected, egress_blocked, install_all,
  lifespan_installs, install, install_guard, install_progress, install_metrics, fresh_process,
  Installer, egress_guard, run_progress, wire_metrics, under_way, refusing_connect,
}
use tracedown_probe_agent.Hooks.Shapes.{is_guard, is_progress, is_metrics, guard_first}
use tracedown_probe_agent.Hooks.Connects.{answered, refused}
use tracedown_probe_agent.Hooks.Started.{lifespan_installs_dialled}
use tracedown_probe_agent.Startup.{services}
use tracedown_probe_agent.Bootstrap.Samples.{settings}
use tracedown_probe_agent.Config.{AgentSettings, is_production}
use tracedown_probe_agent.Hooks.Composed.{install_all_composed}
use tracedown_probe_agent.Hooks.Lookups.{looked_up}

-- `lifespan`, with the guard enabled, and the guard once more.
abbrev order : List Installer
order = wire_metrics ∷ run_progress ∷ egress_guard ∷ egress_guard ∷ []

abbrev parser : Text → Option Addr
parser s = if text_eq s (codes "10.0.0.1") then some (v4 (quad 10 0 0 1)) else none

abbrev request_begun : Request
request_begun = record {
  conn_id = 1;
  method = codes "GET";
  url = codes "https://example.com/";
  name = codes "example.com";
  port = 443;
  tls = true;
  fd = negsuc 0;
  timed_out = false;
  started = 0;
  dns_ms = none;
  connect_ms = none;
  tls_ms = none;
  first_byte_ms = none;
  bytes_received = 0;
}

abbrev thread : HookedThread
thread = record {
  wire = record {
    counter = fresh_counter;
    progress = some (record {
      phase = starting;
      phase_since = 0;
      requests_completed = 0;
      request = some request_begun;
      ingress = 0;
      egress = 0;
      timeouts = [];
    });
    readers = [];
  };
  guarded = true;
  dialled = [];
}

abbrev internal_call : ConnectCall
internal_call = record {
  address = inet (codes "10.0.0.1");
  fd = pos 7;
  began = 10;
  ended = 20;
  system_end = connected;
}

abbrev lookup : Lookup
lookup = record {
  host = some (codes "example.com");
  lookup_began = 1;
  lookup_ended = 2;
  answer = some (codes "192.0.2.1" ∷ []);
}

abbrev production_settings : AgentSettings
production_settings = record settings { deployment_env = codes "production"; egress_guard = none }

-- The connection is refused, the system is not asked, and nothing is recorded.
refused_run :
    (install_all parser order fresh_process).connect internal_call thread ≡ (egress_blocked, thread)
unfolding install_all install install_guard install_progress install_metrics refusing_connect
    target_is_blocked ip_is_blocked before_zone address_is_blocked
refused_run = refl

install_all_composed_example :
    ((install_all parser order fresh_process).connect internal_call thread
      ≡ answered
          (any is_guard order && refused parser internal_call thread)
          (any is_progress order && under_way thread)
          (guard_first order)
          internal_call
          thread)
    × ((install_all parser order fresh_process).getaddrinfo lookup thread
        ≡ looked_up parser
            (any is_guard order)
            (any is_progress order && under_way thread)
            lookup
            thread)
    × ((install_all parser order fresh_process).send 5 (bytes (codes "GET /")) (passed 0) thread ≡ (
        if any is_metrics order
        then record thread { wire = patched_send 5 (bytes (codes "GET /")) (passed 0) thread.wire }
        else thread))
    × ((install_all parser order fresh_process).response_init true thread ≡ (
        if any is_metrics order
        then record thread { wire = patched_resp_init true thread.wire }
        else system_response_init true thread))
install_all_composed_example =
    install_all_composed parser order internal_call lookup 5 (bytes (codes "GET /")) (passed 0) true
      thread

lifespan_installs_dialled_example :
    ((install_all parser (lifespan_installs (services production_settings)) fresh_process).connect
      internal_call thread).1.dialled
    ≡ thread.dialled ++ guarded_connect parser thread.guarded internal_call.address
unfolding is_production
lifespan_installs_dialled_example =
    lifespan_installs_dialled parser production_settings internal_call thread refl refl
