-- ===== src/Job/Tests.antt =====
-- Runs of the validator, and the theorems of Job/Budget at concrete values.
use tracedown_probe_agent.Base.{◌≡◌, refl, ◌↔◌, Bool, false, some, none, codes}
use tracedown_probe_agent.Int.{pos}
use tracedown_probe_agent.Result.{ok, err}
use tracedown_probe_agent.Job.{
  int, str, float, finite, infinity, IntError, sanitise_run_budget, as_int, int_of, caught,
  clamp_budget,
}
use tracedown_probe_agent.Job.Number.{parse_int, truncate}
use tracedown_probe_agent.Job.Budget.{sanitise_run_budget_clamps, sanitise_run_budget_raises_iff}

spaced : sanitise_run_budget (str (codes " +1_500 ")) ≡ ok (some 1500)
unfolding sanitise_run_budget as_int int_of caught clamp_budget parse_int
spaced = refl

not_a_number : sanitise_run_budget (str (codes "1__0")) ≡ ok none
unfolding sanitise_run_budget as_int int_of caught clamp_budget parse_int
not_a_number = refl

half_a_second : sanitise_run_budget (float (finite false 1001 1)) ≡ ok (some 1000)
unfolding sanitise_run_budget as_int int_of caught clamp_budget truncate
half_a_second = refl

sanitise_run_budget_clamps_example : sanitise_run_budget (int (pos 999999)) ≡ ok (some 300000)
unfolding int_of
sanitise_run_budget_clamps_example =
    sanitise_run_budget_clamps (int (pos 999999)) (pos 999999) (λ b e. cc e) refl

sanitise_run_budget_raises_iff_example :
    ((e : IntError) × (sanitise_run_budget (float (infinity false)) ≡ err e))
    ↔ ((s : Bool) × (float (infinity false) ≡ float (infinity s)))
sanitise_run_budget_raises_iff_example = sanitise_run_budget_raises_iff (float (infinity false))
