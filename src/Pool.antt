-- ===== src/Pool.antt =====
-- src/services/executor.py, `execute_probe`: jobs on the probe pool, each with the coroutine that
-- waits for it under its budget.
--
-- A job is run by a worker of the pool, which takes the jobs in their order, sets the job's
-- `started` flag, and runs it to its end: nothing stops it. The coroutine answers once. The end of
-- the budget can fall between any two of these steps, also between the end of a run and its
-- delivery. When it expires, `wait_for` cancels the future, which drops a job that no worker has.
pub mod Slots
pub mod Settled
pub mod Promise
pub mod Answered
pub mod Full
mod Tests
use mathlib.Core.Option.{map}
use tracedown_probe_agent.Base.{
  ℕ, zero, suc, ◌+◌, ◌≡◌, Bool, true, false, not, ◌&&◌, Option, none, some, List, [], ◌∷◌, ◌++◌,
  ltb, if◌then◌else◌,
}
use tracedown_probe_agent.Json.{Members}

-- What `_run_sync` comes to.
pub data RunEnd : Type 0 where
  returned : Members → RunEnd
  raised_timeout raised_other : RunEnd

-- Where the job is: waiting for a worker, taken by one, flagged as started, at its end; or dropped
-- from the queue.
pub data Stage : Type 0 where
  queued taken started dropped : Stage
  ended : RunEnd → Stage

-- What `execute_probe` gives: the run's result, `_run_budget_timeout`, AgentAtCapacity, or the
-- exception of the run.
pub data Answer : Type 0 where
  result : Members → Answer
  timed_out refused failed : Answer

-- Where the coroutine is: at `wait_for`, at `started.wait(0.1)`, or behind its end.
pub data Waiter : Type 0 where
  waiting concluding : Waiter
  answered : Answer → Waiter

pub record Job : Type 0 where
  pub budget : Option ℕ
  pub stage : Stage
  pub waiter : Waiter

pub data Action : Type 0 where
  -- the worker's: it takes the job, sets the flag, ends the run
  take start : Action
  finish : RunEnd → Action
  -- the coroutine's: the future is delivered, the budget expires, the wait for the flag is over
  deliver expire conclude : Action

-- A run's end through `await`; with a budget, `except TimeoutError` takes the run's own too.
unfoldable pub answer_of : Option ℕ → RunEnd → Answer
answer_of budget (returned r) = result r
answer_of (some ms) raised_timeout = timed_out
answer_of none raised_timeout = failed
answer_of budget raised_other = failed

-- `started.is_set()`
abbrev pub is_set : Stage → Bool
is_set started = true
is_set (ended e) = true
is_set _ = false

abbrev pub is_queued : Stage → Bool
is_queued queued = true
is_queued _ = false

-- The cancelled future of a job that no worker has is never run.
abbrev pub cancel : Stage → Stage
cancel queued = dropped
cancel s = s

unfoldable pub deliver_end : Option ℕ → Stage → Waiter → Option Waiter
unfolding answer_of
deliver_end budget (ended e) waiting = some (answered (answer_of budget e))
deliver_end budget s w = none

-- `if started.wait(0.1)`; with `prompt` a worker that took the job has set its flag by then.
unfoldable pub concluded : Bool → Stage → Option Answer
concluded prompt taken = if prompt then none else some refused
concluded prompt s = some (if is_set s then timed_out else refused)

-- One action on a job; `free` says that a worker is free and no job is before it. None: the action
-- is not possible.
unfoldable pub act : Bool → Bool → Action → Job → Option Job
unfolding deliver_end concluded
act prompt free take j =
    if free && is_queued j.stage then some (record j { stage = taken }) else none
act prompt free start j = elim j.stage [ taken ↦ some (record j { stage = started }) | _ ↦ none ]
act prompt free (finish e) j = elim j.stage [
  | started ↦ some (record j { stage = ended e })
  | _ ↦ none
]
act prompt free deliver j =
    map (λ w. record j { waiter = w }) (deliver_end j.budget j.stage j.waiter)
act prompt free expire j = elim j.budget [
  | none ↦ none
  | some ms ↦ elim j.waiter [
    | waiting ↦ some (record j { stage = cancel j.stage; waiter = concluding })
    | _ ↦ none
  ]
]
act prompt free conclude j = elim j.waiter [
  | concluding ↦ map (λ a. record j { waiter = answered a }) (concluded prompt j.stage)
  | _ ↦ none
]

-- The action on the job at a place; the pool's queue is in the order of the jobs.
unfoldable pub act_at : Bool → Bool → Action → ℕ → List Job → Option (List Job)
unfolding act
act_at prompt free a i [] = none
act_at prompt free a zero (j ∷ js) = map (λ k. k ∷ js) (act prompt free a j)
act_at prompt free a (suc i) (j ∷ js) =
    map (λ ks. j ∷ ks) (act_at prompt (free && not (is_queued j.stage)) a i js)

-- A worker is with the job.
abbrev pub holds_slot : Job → ℕ
holds_slot j = elim j.stage [ taken ↦ 1 | started ↦ 1 | _ ↦ 0 ]

pub busy : List Job → ℕ
busy [] = 0
busy (j ∷ js) = holds_slot j + busy js

pub data Event : Type 0 where
  submit : Option ℕ → Event
  at : ℕ → Action → Event

abbrev pub submitted : Option ℕ → Job
submitted budget = record { budget = budget; stage = queued; waiter = waiting }

-- One step of the pool with `max_workers` threads: a `ThreadPoolExecutor` runs a job on a thread of
-- its own that has no other.
unfoldable pub step : Bool → ℕ → Event → List Job → Option (List Job)
unfolding act_at busy
step prompt max_workers (submit budget) jobs = some (jobs ++ submitted budget ∷ [])
step prompt max_workers (at i a) jobs = act_at prompt (ltb (busy jobs) max_workers) a i jobs

-- What the pool can come to, from no jobs.
pub data Reach (prompt : Bool) (max_workers : ℕ) : List Job → Type 0 where
  begin : Reach prompt max_workers []
  next :
      {jobs : List Job} (e : Event) {later : List Job}
      → Reach prompt max_workers jobs
      → step prompt max_workers e jobs ≡ some later
      → Reach prompt max_workers later
