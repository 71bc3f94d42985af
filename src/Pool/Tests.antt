-- ===== src/Pool/Tests.antt =====
-- A pool of one worker and two jobs, and the theorems on it.
use mathlib.Core.List
use tracedown_probe_agent.Base.{◌≤◌, ◌≡◌, refl, true, false, none, some, List, [], ◌∷◌, All, arith}
use tracedown_probe_agent.Json.{empty}
use tracedown_probe_agent.Pool.{
  returned, raised_timeout, Stage, queued, started, dropped, ended, timed_out, refused, Waiter,
  waiting, concluding, answered, Job, take, start, finish, deliver, expire, conclude, busy, submit,
  at, step, Reach, begin, next, Event,
}
use tracedown_probe_agent.Pool.Full.{run-ShutAt, ShutAt}
use tracedown_probe_agent.Pool.Settled.{IsSettled, Reach-IsSettled}
use tracedown_probe_agent.Pool.Promise.{Keeps, step-Keeps}
use tracedown_probe_agent.Pool.Answered.{run, Answerable, budget-Answerable}

abbrev job : Stage → Waiter → Job
job stage waiter = record { budget = some 1000; stage = stage; waiter = waiter }

-- Job 0 holds the only worker past its budget, and job 1 is refused behind it.
abbrev crowded : List Job
crowded = job started (answered timed_out) ∷ job dropped (answered refused) ∷ []

abbrev before : List Job
before = job started (answered timed_out) ∷ job dropped concluding ∷ []

refuses : step true 1 (at 1 conclude) before ≡ some crowded
unfolding step
refuses = refl

before-Reach : Reach true 1 before
unfolding step
before-Reach =
    next (at 1 expire)
      (next (at 0 conclude)
        (next (at 0 expire)
          (next (at 0 start)
            (next (at 0 take)
              (next (submit (some 1000)) (next (submit (some 1000)) begin refl) refl) refl)
            refl)
          refl)
        refl)
      refl

crowded-Reach : Reach true 1 crowded
crowded-Reach = next (at 1 conclude) before-Reach refuses

full : step true 1 (at 1 take) (job started waiting ∷ job queued waiting ∷ []) ≡ none
unfolding step
full = refl

-- Behind one run that outlives its budget, a second job is dropped and refused.
abbrev full_pool : List Job
full_pool = job started waiting ∷ job queued waiting ∷ []

abbrev expiries : List Event
expiries = at 0 expire ∷ at 0 conclude ∷ at 1 expire ∷ at 1 conclude ∷ []

run-expiries : run true 1 expiries full_pool ≡ some crowded
unfolding run step
run-expiries = refl

run-ShutAt_example : (1 ≤ busy crowded) × ShutAt crowded 1
unfolding busy
run-ShutAt_example =
    run-ShutAt true 1 expiries full_pool crowded 1 (some 1000) (omega arith) refl
      (refl, (refl, (refl, (refl, tt)))) run-expiries

Reach-IsSettled_example : All IsSettled crowded
Reach-IsSettled_example = Reach-IsSettled crowded-Reach

step-Keeps_example : Keeps before crowded
step-Keeps_example = step-Keeps 1 before crowded (at 1 conclude) before-Reach refuses

budget-Answerable_example : Answerable true 1 1 (job started waiting ∷ job queued waiting ∷ [])
budget-Answerable_example =
    budget-Answerable true 1 1 (job started waiting ∷ job queued waiting ∷ []) (job queued waiting)
      refl (λ e. cc e) refl

-- A run that raises TimeoutError itself within its budget is answered as one that outlived it.
own_timeout :
    run true 1
      (List.map (at 0) (take ∷ start ∷ finish raised_timeout ∷ deliver ∷ []))
      (job queued waiting ∷ [])
    ≡ some (job (ended raised_timeout) (answered timed_out) ∷ [])
unfolding run step
own_timeout = refl

-- A worker that takes a job and flags it too late runs a job that was refused.
refused_and_run :
    run false 1
      (List.map (at 0) (take ∷ expire ∷ conclude ∷ start ∷ finish (returned empty) ∷ []))
      (job queued waiting ∷ [])
    ≡ some (job (ended (returned empty)) (answered refused) ∷ [])
unfolding run step
refused_and_run = refl
