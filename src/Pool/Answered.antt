-- ===== src/Pool/Answered.antt =====
-- A job with a budget can always be answered, whatever the pool does or does not do.
use mathlib.Core.Option.{map}
use mathlib.Core.List
use tracedown_probe_agent.Base.{
  ℕ, zero, suc, ◌≡◌, ◌≢◌, refl, sym, ap, subst, Bool, true, false, Option, none, some, List, [],
  ◌∷◌, get_elem?, set, all, ltb, arith, if◌then◌else◌, Bool-cases, inl, inr,
}
use tracedown_probe_agent.Pool.{
  Answer, Stage, taken, started, Waiter, waiting, concluding, answered, Job, Action, start, expire,
  conclude, act, act_at, busy, Event, at, step, is_set, cancel, concluded,
}

-- The events one after the other.
unfoldable pub run : Bool → ℕ → List Event → List Job → Option (List Job)
run prompt max_workers [] jobs = some jobs
run prompt max_workers (e ∷ es) jobs = elim (step prompt max_workers e jobs) [
  | none ↦ none
  | some later ↦ run prompt max_workers es later
]

abbrev pub is_answered : Option Job → Bool
is_answered (some j) = elim j.waiter [ answered a ↦ true | _ ↦ false ]
is_answered none = false

abbrev is_waiting : Waiter → Bool
is_waiting waiting = true
is_waiting _ = false

abbrev is_taken : Stage → Bool
is_taken taken = true
is_taken _ = false

act_at_lem :
    (prompt free : Bool) (a : Action) (i : ℕ) (jobs : List Job) (j k : Job)
    → get_elem? jobs i ≡ some j
    → ((f : Bool) → act prompt f a j ≡ some k)
    → act_at prompt free a i jobs ≡ some (set jobs i k)
unfolding act_at
act_at_lem prompt free a zero [] j k h acts = cc h
act_at_lem prompt free a (suc i) [] j k h acts = cc h
act_at_lem prompt free a zero (x ∷ jobs) j k h acts =
    let same : x ≡ j = cc h in
    ap (map (λ y. y ∷ jobs)) (subst (λ y. act prompt free a y ≡ some k) (sym same) (acts free))
act_at_lem prompt free a (suc i) (x ∷ jobs) j k h acts =
    ap (map (λ ys. x ∷ ys)) (act_at_lem prompt _ a i jobs j k h acts)

get_elem?-set :
    (i : ℕ) (jobs : List Job) (j k : Job)
    → get_elem? jobs i ≡ some j
    → get_elem? (set jobs i k) i ≡ some k
get_elem?-set zero [] j k h = cc h
get_elem?-set (suc i) [] j k h = cc h
get_elem?-set zero (x ∷ jobs) j k h = refl
get_elem?-set (suc i) (x ∷ jobs) j k h = get_elem?-set i jobs j k h

-- The actions by which a coroutine comes to its end when its budget does.
abbrev pub is_settling : Action → Bool
is_settling expire = true
is_settling start = true
is_settling conclude = true
is_settling _ = false

-- Some such actions on the job at the place, and on no other, answer it.
abbrev pub Answerable : Bool → ℕ → ℕ → List Job → Type 0
Answerable prompt max_workers i jobs =
    (actions : List Action) × (later : List Job) × (all is_settling actions ≡ true)
    × (run prompt max_workers (List.map (at i) actions) jobs ≡ some later)
    × (is_answered (get_elem? later i) ≡ true)

module _ (prompt : Bool) (max_workers i : ℕ) where
  after_act :
      (jobs : List Job) (j k : Job) (a : Action)
      → get_elem? jobs i ≡ some j
      → ((f : Bool) → act prompt f a j ≡ some k)
      → is_settling a ≡ true
      → Answerable prompt max_workers i (set jobs i k)
      → Answerable prompt max_workers i jobs
  unfolding run step
  after_act jobs j k a h acts ends (actions, later, only, runs, done) =
      let now = act_at_lem prompt (ltb (busy jobs) max_workers) a i jobs j k h acts in
      (a ∷ actions, later, ground arith, ground arith, done)

  abbrev concludes : Job → Job
  concludes j = record j {
    waiter = answered (if is_set j.stage then Answer.timed_out else Answer.refused);
  }

  act-conclude :
      (j : Job)
      → j.waiter ≡ concluding
      → is_taken j.stage ≡ false
      → (f : Bool) → act prompt f conclude j ≡ some (concludes j)
  unfolding act concluded
  act-conclude j w t f = ground arith

  concluding-Answerable :
      (jobs : List Job) (j : Job)
      → get_elem? jobs i ≡ some j
      → j.waiter ≡ concluding
      → is_taken j.stage ≡ false
      → Answerable prompt max_workers i jobs
  unfolding run
  concluding-Answerable jobs j h w t =
      after_act jobs j (concludes j) conclude h (act-conclude j w t) refl (
        [],
        set jobs i (concludes j),
        refl,
        refl,
        ap is_answered (get_elem?-set i jobs j (concludes j) h),
      )

  abbrev starts : Job → Job
  starts j = record j { stage = started }

  act-start :
      (j : Job) → is_taken j.stage ≡ true → (f : Bool) → act prompt f start j ≡ some (starts j)
  unfolding act
  act-start j t f = ground arith

  flagged-Answerable :
      (jobs : List Job) (j : Job)
      → get_elem? jobs i ≡ some j
      → j.waiter ≡ concluding
      → Answerable prompt max_workers i jobs
  flagged-Answerable jobs j h w = elim (Bool-cases (is_taken j.stage)) [
    | inr t ↦ concluding-Answerable jobs j h w t
    | inl t ↦ after_act jobs j (starts j) start h (act-start j t) refl (
        concluding-Answerable (set jobs i (starts j)) (starts j)
          (get_elem?-set i jobs j (starts j) h) w refl)
  ]

  abbrev expires : Job → Job
  expires j = record j { stage = cancel j.stage; waiter = concluding }

  act-expire :
      (j : Job)
      → j.budget ≢ none
      → is_waiting j.waiter ≡ true
      → (f : Bool) → act prompt f expire j ≡ some (expires j)
  unfolding act
  act-expire j b w f = ground arith

  -- In every state of the pool, whether it is full or its workers never come to an end, a job with a
  -- budget that has no answer is answered by actions on it alone: its budget expires, its worker, if
  -- one has taken it, sets its flag, and the wait for the flag is over.
  pub budget-Answerable :
      (jobs : List Job) (j : Job)
      → get_elem? jobs i ≡ some j
      → j.budget ≢ none
      → is_answered (some j) ≡ false
      → Answerable prompt max_workers i jobs
  budget-Answerable jobs j h b u = elim (Bool-cases (is_waiting j.waiter)) [
    | inr w ↦ flagged-Answerable jobs j h (ground arith)
    | inl w ↦ after_act jobs j (expires j) expire h (act-expire j b w) refl (
        flagged-Answerable (set jobs i (expires j)) (expires j)
          (get_elem?-set i jobs j (expires j) h) refl)
  ]
