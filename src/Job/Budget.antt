-- ===== src/Job/Budget.antt =====
-- What the validator of `requestTimeoutMs` promises: a budget that the agent can act on, or none.
use tracedown_probe_agent.Base.{
  ℕ, zero, suc, ◌≤◌, min, max, ◌≡◌, refl, sym, ◌∙◌, ◌≢◌, ◌↔◌, ◌⊎◌, inl, inr, Bool, Option, none,
  some, arith,
}
use tracedown_probe_agent.Int.{ℤ, pos, negsuc}
use tracedown_probe_agent.Result.{Result, ok, err, ◌>>=◌, >>=-eq-ok}
use tracedown_probe_agent.Job.{
  Value, null, bool, int, float, str, infinity, finite, IntError, overflow_error, int_of, caught,
  as_int, clamp_budget, sanitise_run_budget, min_run_timeout_ms, max_run_timeout_ms,
}

-- The budget that a number stands for.
abbrev pub budget_of : ℤ → Option ℕ
budget_of (negsuc n) = none
budget_of (pos zero) = none
budget_of (pos (suc n)) = some (max min_run_timeout_ms (min (suc n) max_run_timeout_ms))

clamp_budget-eq : (n : ℤ) → clamp_budget (some n) ≡ budget_of n
unfolding clamp_budget
clamp_budget-eq (pos zero) = refl
clamp_budget-eq (pos (suc n)) = ground arith
clamp_budget-eq (negsuc n) = ground arith

clamp_budget_in_range :
    (o : Option ℤ) (ms : ℕ) → clamp_budget o ≡ some ms → (1000 ≤ ms) × (ms ≤ 300000)
unfolding clamp_budget
clamp_budget_in_range none ms h = cc
clamp_budget_in_range (some n) ms h = ground arith

-- Past the early returns the validator is this, whatever `int` did.
through : Result IntError ℤ → Result IntError (Option ℕ)
through r = do ms ← caught r; ok (clamp_budget ms)

through_in_range :
    (r : Result IntError ℤ) (ms : ℕ) → through r ≡ ok (some ms) → (1000 ≤ ms) × (ms ≤ 300000)
unfolding through
through_in_range r ms h =
    let (o, _, e) = >>=-eq-ok (caught r) (λ o. ok (clamp_budget o)) h in
    clamp_budget_in_range o ms (cc e)

sanitise-through :
    (v : Value) → (sanitise_run_budget v ≡ ok none) ⊎ (sanitise_run_budget v ≡ through (int_of v))
unfolding sanitise_run_budget as_int through
sanitise-through null = inl refl
sanitise-through (bool b) = inl refl
sanitise-through _ = inr refl

-- A budget that the validator returns is from 1,000 to 300,000 milliseconds, whatever was sent.
pub sanitise_run_budget_in_range :
    (v : Value) (ms : ℕ)
    → sanitise_run_budget v ≡ ok (some ms)
    → (min_run_timeout_ms ≤ ms) × (ms ≤ max_run_timeout_ms)
sanitise_run_budget_in_range v ms h = elim (sanitise-through v) [
  | inl e ↦ cc (e, h)
  | inr e ↦ through_in_range (int_of v) ms (sym e ∙ h)
]

-- What `int` makes of a value that is not a Boolean is clamped into the range: a number that is
-- zero or below means no budget, any other the nearest number of the range.
pub sanitise_run_budget_clamps :
    (v : Value) (n : ℤ)
    → ((b : Bool) → v ≢ bool b)
    → int_of v ≡ ok n
    → sanitise_run_budget v ≡ ok (budget_of n)
unfolding sanitise_run_budget as_int caught int_of
sanitise_run_budget_clamps (bool b) n h e = absurd (h b refl)
sanitise_run_budget_clamps null n h e = cc e
sanitise_run_budget_clamps _ n h e = ground (arith, clamp_budget-eq n)

-- The validator raises exactly at an infinite float, which `json` reads from `Infinity` or 1e999:
-- there `int` raises OverflowError, which `_as_int` does not catch. Every other value has a result.
pub sanitise_run_budget_raises_iff :
    (v : Value)
    → ((e : IntError) × (sanitise_run_budget v ≡ err e)) ↔ ((s : Bool) × (v ≡ float (infinity s)))
unfolding sanitise_run_budget as_int caught int_of
sanitise_run_budget_raises_iff (float (infinity s)) = (λ _. (s, refl), λ _. (overflow_error, refl))
sanitise_run_budget_raises_iff (float (finite s m k)) = (λ h. cc h.1, λ h. cc h.1)
sanitise_run_budget_raises_iff (str t) = (λ h. absurd (ground (arith, h.1)), λ h. cc h.1)
sanitise_run_budget_raises_iff _ = (λ h. cc h.1, λ h. cc h.1)

-- A budget that was returned is returned again, unchanged, when it is sent.
pub sanitise_run_budget_idempotent :
    (v : Value) (ms : ℕ)
    → sanitise_run_budget v ≡ ok (some ms)
    → sanitise_run_budget (int (pos ms)) ≡ ok (some ms)
unfolding sanitise_run_budget as_int caught int_of clamp_budget
sanitise_run_budget_idempotent v ms h = let r = sanitise_run_budget_in_range v ms h in ground arith
