-- ===== src/Pool/Settled.antt =====
-- What the stage of a job says of its answer, in every state that the pool can come to.
use tracedown_probe_agent.Base.{
  ℕ, zero, suc, ◌≡◌, ◌≢◌, ◌⊎◌, subst, Bool, true, not, ◌&&◌, Option, none, some, List, [], ◌∷◌,
  ◌++◌, All, arith,
}
use tracedown_probe_agent.Pool.{
  returned, raised_timeout, raised_other, Stage, queued, dropped, ended, result, timed_out, refused,
  failed, waiting, concluding, answered, Job, Action, take, start, finish, deliver, expire,
  conclude, act, act_at, answer_of, submit, at, submitted, step, Reach, begin, next, is_queued,
  is_set, deliver_end, concluded,
}
use tracedown_probe_agent.Pool.Slots.{map-some}

-- The budget is set, and the job was taken by a worker or dropped before.
abbrev IsExpired : Option ℕ → Stage → Type 0
IsExpired budget s = (budget ≢ none) × (s ≢ queued)

-- The answer agrees with what became of the run.
abbrev pub IsSettled : Job → Type 0
IsSettled j = elim j.waiter [
  | waiting ↦ j.stage ≢ dropped
  | concluding ↦ IsExpired j.budget j.stage
  | answered (result r) ↦ j.stage ≡ ended (returned r)
  | answered timed_out ↦ (j.budget ≢ none) × (is_set j.stage ≡ true)
  | answered refused ↦ (j.budget ≢ none) × (j.stage ≡ dropped)
  | answered failed ↦
      (j.stage ≡ ended raised_other) ⊎ ((j.stage ≡ ended raised_timeout) × (j.budget ≡ none))
]

act-IsSettled :
    (free : Bool) (a : Action) (j k : Job) → act true free a j ≡ some k → IsSettled j → IsSettled k
unfolding act deliver_end answer_of concluded
act-IsSettled free take j k h s = ground arith
act-IsSettled free start j k h s = ground arith
act-IsSettled free (finish e) j k h s = ground arith
act-IsSettled free deliver j k h s = ground arith
act-IsSettled free expire j k h s = ground arith
act-IsSettled free conclude j k h s = ground arith

act_at-IsSettled :
    (free : Bool) (a : Action) (i : ℕ) (js ks : List Job)
    → act_at true free a i js ≡ some ks
    → All IsSettled js
    → All IsSettled ks
unfolding act_at
act_at-IsSettled free a zero [] ks h s = cc h
act_at-IsSettled free a (suc i) [] ks h s = cc h
act_at-IsSettled free a zero (j ∷ js) ks h s =
    let (k, e, same) = map-some (λ k. k ∷ js) (act true free a j) h in
    subst (All IsSettled) same (act-IsSettled free a j k e s.0, s.1)
act_at-IsSettled free a (suc i) (j ∷ js) ks h s =
    let behind = free && not (is_queued j.stage) in
    let (ls, e, same) = map-some (λ ls. j ∷ ls) (act_at true behind a i js) h in
    subst (All IsSettled) same (s.0, act_at-IsSettled behind a i js ls e s.1)

submitted-IsSettled :
    (js : List Job) (budget : Option ℕ)
    → All IsSettled js
    → All IsSettled (js ++ submitted budget ∷ [])
submitted-IsSettled [] budget s = (λ e. cc e, tt)
submitted-IsSettled (j ∷ js) budget s = (s.0, submitted-IsSettled js budget s.1)

-- In every state that the pool can come to, where a worker that has taken a job flags it within the
-- wait: a job that was refused was dropped from the queue and has a budget; one answered by a
-- timeout has a budget and was begun; one answered by a result ended with that result; and one that
-- failed ended by an exception.
pub Reach-IsSettled :
    {max_workers : ℕ} {jobs : List Job} → Reach true max_workers jobs → All IsSettled jobs
unfolding step
Reach-IsSettled begin = tt
Reach-IsSettled {jobs} (next {jobs = before} (submit budget) r h) =
    let same : before ++ submitted budget ∷ [] ≡ jobs = cc h in
    subst (All IsSettled) same (submitted-IsSettled before budget (Reach-IsSettled r))
Reach-IsSettled {max_workers} (next {jobs = before} (at i a) {later} r h) =
    act_at-IsSettled _ a i before later h (Reach-IsSettled r)
