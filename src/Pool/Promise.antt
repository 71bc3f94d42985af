-- ===== src/Pool/Promise.antt =====
-- What the scheduler is promised of one job, and that the pool keeps it: a job may begin, may end,
-- and is answered once; a refusal is final.
use tracedown_probe_agent.Base.{
  ℕ, zero, suc, ◌≡◌, ◌≢◌, ◌⊎◌, inl, inr, refl, Bool, true, false, Option, none, some, List, [], ◌∷◌,
  ◌++◌, All, not, ◌&&◌, subst, arith,
}
use tracedown_probe_agent.Pool.{
  RunEnd, returned, raised_timeout, raised_other, Stage, started, ended, Answer, result, timed_out,
  refused, failed, Waiter, answered, Job, Action, take, start, finish, deliver, expire, conclude,
  act, answer_of, is_queued, deliver_end, concluded, act_at, Event, submit, at, submitted, step,
  Reach,
}
use tracedown_probe_agent.Pool.Settled.{IsSettled, Reach-IsSettled}
use tracedown_probe_agent.Pool.Slots.{map-some}

-- How far the run is.
pub data Progress : Type 0 where
  unbegun begun : Progress
  over : RunEnd → Progress

-- A job as the scheduler sees it: how far its run is, and its answer.
pub record View : Type 0 where
  pub progress : Progress
  pub answer : Option Answer

abbrev progress_of : Stage → Progress
progress_of started = begun
progress_of (ended e) = over e
progress_of _ = unbegun

abbrev answer_in : Waiter → Option Answer
answer_in (answered a) = some a
answer_in _ = none

abbrev pub view : Job → View
view j = record { progress = progress_of j.stage; answer = answer_in j.waiter }

abbrev pub is_refused : Option Answer → Bool
is_refused (some refused) = true
is_refused _ = false

-- Which answer a budget and the run's progress allow.
abbrev pub Allowed : Option ℕ → Progress → Answer → Type 0
Allowed budget p (result r) = p ≡ over (returned r)
Allowed budget p timed_out = (budget ≢ none) × (p ≢ unbegun)
Allowed budget p refused = (budget ≢ none) × (p ≡ unbegun)
Allowed budget p failed = (p ≡ over raised_other) ⊎ (p ≡ over raised_timeout)

-- The steps of the promise. A run begins and ends behind its answer too, but not behind a refusal.
pub data Promise (budget : Option ℕ) (v w : View) : Type 0 where
  begins :
      v.progress ≡ unbegun
      → is_refused v.answer ≡ false
      → w ≡ record v { progress = begun }
      → Promise budget v w
  ends : (e : RunEnd) → v.progress ≡ begun → w ≡ record v { progress = over e } → Promise budget v w
  answers :
      (a : Answer)
      → v.answer ≡ none
      → Allowed budget v.progress a
      → w ≡ record v { answer = some a }
      → Promise budget v w

start-Promise :
    (free : Bool) (j k : Job)
    → act true free start j ≡ some k
    → IsSettled j
    → Promise j.budget (view j) (view k)
unfolding act
start-Promise free j k h s = begins (ground arith) (ground arith) (ground arith)

finish-Promise :
    (free : Bool) (e : RunEnd) (j k : Job)
    → act true free (finish e) j ≡ some k
    → Promise j.budget (view j) (view k)
unfolding act
finish-Promise free e j k h = ends e (ground arith) (ground arith)

-- The answer that an action leaves.
abbrev given : Waiter → Answer
given (answered a) = a
given _ = failed

deliver-Promise :
    (free : Bool) (j k : Job)
    → act true free deliver j ≡ some k
    → Promise j.budget (view j) (view k)
unfolding act deliver_end answer_of
deliver-Promise free j k h = answers (given k.waiter) (ground arith) (ground arith) (ground arith)

conclude-Promise :
    (free : Bool) (j k : Job)
    → act true free conclude j ≡ some k
    → IsSettled j
    → Promise j.budget (view j) (view k)
unfolding act concluded
conclude-Promise free j k h s =
    answers (given k.waiter) (ground arith) (ground arith) (ground arith)

-- An action on a job either does not show, or is a step of the promise,
-- where a worker that has taken a job flags it within the wait.
pub act-Promise :
    (free : Bool) (a : Action) (j k : Job)
    → IsSettled j
    → act true free a j ≡ some k
    → (view k ≡ view j) ⊎ Promise j.budget (view j) (view k)
act-Promise free take j k s h = inl (unfold act in ground arith)
act-Promise free expire j k s h = inl (unfold act in ground arith)
act-Promise free start j k s h = inr (start-Promise free j k h s)
act-Promise free (finish e) j k s h = inr (finish-Promise free e j k h)
act-Promise free deliver j k s h = inr (deliver-Promise free j k h)
act-Promise free conclude j k s h = inr (conclude-Promise free j k h s)

-- Each job of the first list against the one at its place in the second.
abbrev pub Keeps : List Job → List Job → Type 0
Keeps [] ks = Unit
Keeps (j ∷ js) [] = ⊥
Keeps (j ∷ js) (k ∷ ks) = ((view k ≡ view j) ⊎ Promise j.budget (view j) (view k)) × Keeps js ks

Keeps-refl : (js : List Job) → Keeps js js
Keeps-refl [] = tt
Keeps-refl (j ∷ js) = (inl refl, Keeps-refl js)

Keeps-append : (js ks : List Job) → Keeps js (js ++ ks)
Keeps-append [] ks = tt
Keeps-append (j ∷ js) ks = (inl refl, Keeps-append js ks)

act_at-Keeps :
    (free : Bool) (a : Action) (i : ℕ) (js ks : List Job)
    → act_at true free a i js ≡ some ks
    → All IsSettled js
    → Keeps js ks
unfolding act_at
act_at-Keeps free a zero [] ks h s = tt
act_at-Keeps free a (suc i) [] ks h s = tt
act_at-Keeps free a zero (j ∷ js) ks h s =
    let (k, e, same) = map-some (λ k. k ∷ js) (act true free a j) h in
    subst (Keeps (j ∷ js)) same (act-Promise free a j k s.0 e, Keeps-refl js)
act_at-Keeps free a (suc i) (j ∷ js) ks h s =
    let behind = free && not (is_queued j.stage) in
    let (ls, e, same) = map-some (λ ls. j ∷ ls) (act_at true behind a i js) h in
    subst (Keeps (j ∷ js)) same (inl refl, act_at-Keeps behind a i js ls e s.1)

-- The pool refines the promise to every job: from a state that it can come to, whatever happens
-- next either does not show of a job or is a step of its promise, where a worker that has taken a
-- job flags it within the wait.
pub step-Keeps :
    (max_workers : ℕ) (jobs later : List Job) (e : Event)
    → Reach true max_workers jobs
    → step true max_workers e jobs ≡ some later
    → Keeps jobs later
unfolding step
step-Keeps max_workers jobs later (submit budget) r h =
    let same : jobs ++ submitted budget ∷ [] ≡ later = cc h in
    subst (Keeps jobs) same (Keeps-append jobs _)
step-Keeps max_workers jobs later (at i a) r h = act_at-Keeps _ a i jobs later h (Reach-IsSettled r)
