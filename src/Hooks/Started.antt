-- ===== src/Hooks/Started.antt =====
-- What Egress.Guard takes for `connect` is what the entry of a started agent does.
use tracedown_probe_agent.Base.{
  ◌≡◌, refl, sym, ap, ◌∙◌, Bool, true, false, Option, none, [], ◌∷◌, ◌++◌, Text, if◌then◌else◌,
}
use mathlib.Core.List.{append-nil}
use tracedown_probe_agent.Config.{AgentSettings, is_production, egress_guard_enabled}
use tracedown_probe_agent.Progress.{connect_begins}
use tracedown_probe_agent.Egress.Addresses.{Addr}
use tracedown_probe_agent.Egress.Guard.{guarded_connect}
use tracedown_probe_agent.Startup.{services}
use tracedown_probe_agent.Wire.{bytes, passed}
use tracedown_probe_agent.Hooks.{
  HookedThread, ConnectEnd, connected, connect_timeout, os_error, egress_blocked, ConnectCall,
  fresh_process, install_all, lifespan_installs, init_egress_policy, wire_metrics, run_progress,
  egress_guard, mark, under_way,
}
use tracedown_probe_agent.Hooks.Connects.{answered, mark_end, refused}
use tracedown_probe_agent.Hooks.Composed.{install_all_composed}

mark_end_dialled :
    (c : ConnectCall) (e : ConnectEnd) (t : HookedThread) → (mark_end c e t).dialled ≡ t.dialled
unfolding mark
mark_end_dialled c connected t = refl
mark_end_dialled c (connect_timeout at kernel) t = refl
mark_end_dialled c os_error t = refl
mark_end_dialled c egress_blocked t = refl

-- The connections that the system is asked for.
answered_dialled :
    (blocked seen first : Bool) (c : ConnectCall) (t : HookedThread)
    → (answered blocked seen first c t).1.dialled
      ≡ t.dialled ++ (if blocked then [] else c.address ∷ [])
unfolding mark
answered_dialled true true true c t = sym (append-nil t.dialled)
answered_dialled true true false c t = sym (append-nil t.dialled)
answered_dialled true false first c t = sym (append-nil t.dialled)
answered_dialled false true first c t =
    ap (λ d. d ++ c.address ∷ [])
      (mark_end_dialled c c.system_end (mark (connect_begins c.began c.fd) t))
answered_dialled false false first c t = refl

started_enabled :
    (s : AgentSettings)
    → is_production s ≡ true
    → s.egress_guard ≡ none
    → lifespan_installs (services s) ≡ wire_metrics ∷ run_progress ∷ egress_guard ∷ []
unfolding lifespan_installs init_egress_policy services egress_guard_enabled
started_enabled s prod unset = rw (unset, prod) refl

-- In an agent that started in production, where the egress guard is not set, and on any thread: the
-- system is asked for exactly the connection that the guard's rule lets through for the thread's
-- flag, whether the run's record is kept beside it or not.
pub lifespan_installs_dialled :
    (ip_address : Text → Option Addr) (s : AgentSettings) (c : ConnectCall) (t : HookedThread)
    → is_production s ≡ true
    → s.egress_guard ≡ none
    → ((install_all ip_address (lifespan_installs (services s)) fresh_process).connect c
        t).1.dialled
      ≡ t.dialled ++ guarded_connect ip_address t.guarded c.address
unfolding guarded_connect
lifespan_installs_dialled ip_address s c t prod unset =
    ap (λ is. ((install_all ip_address is fresh_process).connect c t).1.dialled)
      (started_enabled s prod unset)
    ∙ ap (λ (r : ConnectEnd × HookedThread). r.1.dialled)
        (install_all_composed ip_address (wire_metrics ∷ run_progress ∷ egress_guard ∷ []) c
          (record { host = none; lookup_began = 0; lookup_ended = 0; answer = none }) 0 (bytes [])
          (passed 0) false t).0
    ∙ answered_dialled (refused ip_address c t) (under_way t) false c t
