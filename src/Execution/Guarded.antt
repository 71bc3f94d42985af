-- ===== src/Execution/Guarded.antt =====
-- What of the agent's traffic runs under the egress guard: the run of a probe in `_run_sync`, and
-- `_reach_sync`, both of src/services/executor.py, where `init_egress_policy` has enabled it.
use tracedown_probe_agent.Base.{
  ◌≡◌, refl, sym, ap, subst, Bool, true, false, Option, none, List, [], ◌∷◌, ◌++◌, Text, All,
  if◌then◌else◌,
}
use tracedown_probe_agent.Config.{AgentSettings, is_production, egress_guard_enabled}
use tracedown_probe_agent.Egress.Addresses.{Addr}
use tracedown_probe_agent.Egress.Guard.{
  Sockaddr, Program, finish, connect, guarded, plain, run_guarded, IsAllowed, run_guarded-IsAllowed,
  run_guarded_outside,
}
use tracedown_probe_agent.Startup.{Services, services}

-- One program behind another on a thread.
unfoldable pub followed : Program → Program → Program
followed finish rest = rest
followed (connect a p) rest = connect a (followed p rest)
followed (guarded body p) rest = guarded body (followed p rest)

-- `with egress_guard.active() if _egress_enabled else nullcontext(): …`, and what follows.
unfoldable pub under_policy : Services → Program → Program → Program
unfolding followed
under_policy services body rest =
    if services.egress_enabled then guarded body rest else followed body rest

-- The connections of `_run_sync`: those of the script's run, and those of the upload of its bodies.
unfoldable pub job_program : Services → Program → List Sockaddr → Program
unfolding under_policy
job_program services script uploads = under_policy services script (plain uploads)

-- `_reach_sync`, whose connections are those of `reach`.
unfoldable pub reach_sync : Services → Program → Program
unfolding under_policy
reach_sync services dials = under_policy services dials finish

module _ (ip_address : Text → Option Addr) where
  abbrev made : Program → List Sockaddr
  made p = (run_guarded ip_address false p).1

  enabled_lem :
      (s : AgentSettings)
      → is_production s ≡ true
      → s.egress_guard ≡ none
      → (services s).egress_enabled ≡ true
  unfolding services egress_guard_enabled
  enabled_lem s prod unset = rw (unset, prod) refl

  All-nil :
      (xs : List Sockaddr) → All (IsAllowed ip_address) xs → All (IsAllowed ip_address) (xs ++ [])
  All-nil [] h = tt
  All-nil (x ∷ xs) h = (h.0, All-nil xs h.1)

  reach_lem : (dials : Program) → All (IsAllowed ip_address) (made (guarded dials finish))
  reach_lem dials =
      subst (All (IsAllowed ip_address))
        (sym (ap (λ (r : Bool × List Sockaddr). r.1) (run_guarded_outside ip_address dials [])))
        (All-nil (run_guarded ip_address true dials).1 (run_guarded-IsAllowed ip_address dials).0)

  -- In production, where the egress guard is not set: whatever a script does with its sockets, and
  -- whatever is dialled for another agent, every connection that is made is to an address that is not
  -- blocked; and the uploads of the bodies are made, all of them, wherever they go.
  pub production-IsAllowed :
      (s : AgentSettings) (script dials : Program) (uploads : List Sockaddr)
      → is_production s ≡ true
      → s.egress_guard ≡ none
      → ((inside : List Sockaddr) × (made (job_program (services s) script uploads)
            ≡ inside ++ uploads)
          × All (IsAllowed ip_address) inside)
        × All (IsAllowed ip_address) (made (reach_sync (services s) dials))
  unfolding job_program reach_sync under_policy
  production-IsAllowed s script dials uploads prod unset = rw (enabled_lem s prod unset) (
    (
      (run_guarded ip_address true script).1,
      ap (λ (r : Bool × List Sockaddr). r.1) (run_guarded_outside ip_address script uploads),
      (run_guarded-IsAllowed ip_address script).0,
    ),
    reach_lem dials,
  )
