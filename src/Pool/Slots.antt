-- ===== src/Pool/Slots.antt =====
-- The pool never has more jobs in the hands of workers than it has workers.
use mathlib.Core.Option.{map}
use tracedown_probe_agent.Base.{
  ℕ, zero, suc, ◌+◌, ◌≤◌, ◌≡◌, ◌⊎◌, refl, subst, Bool, true, not, ◌&&◌, Option, none, some, List,
  [], ◌∷◌, ◌++◌, ltb, arith,
}
use tracedown_probe_agent.Pool.{
  Job, Action, take, start, finish, deliver, expire, conclude, act, act_at, holds_slot, busy,
  submit, at, submitted, step, Reach, begin, next, is_queued,
}

-- An action takes a slot only where one is free.
act-holds_slot :
    (prompt free : Bool) (a : Action) (j k : Job)
    → act prompt free a j ≡ some k
    → (holds_slot k ≤ holds_slot j) ⊎ ((holds_slot k ≤ 1) × (free ≡ true))
unfolding act
act-holds_slot prompt free take j k h = ground arith
act-holds_slot prompt free start j k h = ground arith
act-holds_slot prompt free (finish e) j k h = ground arith
act-holds_slot prompt free deliver j k h = ground arith
act-holds_slot prompt free expire j k h = ground arith
act-holds_slot prompt free conclude j k h = ground arith

-- What `map` gives comes from a value.
pub map-some {ℓ κ} :
    {A : Type ℓ} {B : Type κ} (f : A → B) (o : Option A) {b : B}
    → map f o ≡ some b
    → (a : A) × (o ≡ some a) × (f a ≡ b)
map-some f none h = cc h
map-some f (some a) h = (a, refl, cc h)

act_at-busy :
    (prompt free : Bool) (a : Action) (i : ℕ) (js ks : List Job)
    → act_at prompt free a i js ≡ some ks
    → (busy ks ≤ busy js) ⊎ ((busy ks ≤ busy js + 1) × (free ≡ true))
unfolding act_at busy
act_at-busy prompt free a zero [] ks h = cc h
act_at-busy prompt free a (suc i) [] ks h = cc h
act_at-busy prompt free a zero (j ∷ js) ks h =
    let (k, e, same) = map-some (λ k. k ∷ js) (act prompt free a j) h in
    let slots = act-holds_slot prompt free a j k e in
    subst (λ l. (busy l ≤ busy (j ∷ js)) ⊎ ((busy l ≤ busy (j ∷ js) + 1) × (free ≡ true))) same
      (ground arith)
act_at-busy prompt free a (suc i) (j ∷ js) ks h =
    let behind = free && not (is_queued j.stage) in
    let (ls, e, same) = map-some (λ ls. j ∷ ls) (act_at prompt behind a i js) h in
    let slots = act_at-busy prompt behind a i js ls e in
    subst (λ l. (busy l ≤ busy (j ∷ js)) ⊎ ((busy l ≤ busy (j ∷ js) + 1) × (free ≡ true))) same
      (ground arith)

pub busy-append : (js : List Job) (budget : Option ℕ) → busy (js ++ submitted budget ∷ []) ≡ busy js
unfolding busy
busy-append [] budget = refl
busy-append (j ∷ js) budget = omega (arith, busy-append js budget)

-- In every state that the pool can come to, at most `max_workers` jobs are in the hands of workers,
-- runs that outlived their budgets included.
pub busy-le-max_workers :
    {prompt : Bool} {max_workers : ℕ} {jobs : List Job}
    → Reach prompt max_workers jobs
    → busy jobs ≤ max_workers
unfolding step busy
busy-le-max_workers begin = omega arith
busy-le-max_workers {max_workers} {jobs} (next {jobs = before} (submit budget) r h) =
    let same : before ++ submitted budget ∷ [] ≡ jobs = cc h in
    subst (λ l. busy l ≤ max_workers) same
      (omega (arith, busy-append before budget, busy-le-max_workers r))
busy-le-max_workers {prompt} {max_workers} (next {jobs = before} (at i a) {later} r h) =
    let below = busy-le-max_workers r in
    let slots = act_at-busy prompt (ltb (busy before) max_workers) a i before later h in
    ground arith
