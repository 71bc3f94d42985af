-- ===== src/Pool/Full.antt =====
-- What becomes of the jobs behind a full pool, while no run of it ends.
use mathlib.Core.Option.{some-injective}
use tracedown_probe_agent.Base.{
  ℕ, zero, suc, ◌≤◌, ◌≡◌, refl, sym, subst, Bool, true, false, not, ◌&&◌, Option, none, some, List,
  [], ◌∷◌, ◌++◌, ltb, arith, All, get_elem?,
}
use tracedown_probe_agent.Pool.{
  Job, Stage, queued, dropped, Waiter, waiting, concluding, answered, refused, Action, take, start,
  finish, deliver, expire, conclude, act, act_at, holds_slot, busy, Event, submit, at, submitted,
  step, is_queued, deliver_end, concluded,
}
use tracedown_probe_agent.Pool.Slots.{map-some, busy-append}
use tracedown_probe_agent.Pool.Answered.{run}

-- The event ends no run.
abbrev pub is_no_end : Event → Bool
is_no_end (at i (finish e)) = false
is_no_end _ = true

abbrev is_no_finish : Action → Bool
is_no_finish (finish e) = false
is_no_finish _ = true

-- Never in the hands of a worker; where the job is answered, it is refused.
abbrev pub is_shut : Stage → Waiter → Bool
is_shut queued waiting = true
is_shut dropped concluding = true
is_shut dropped (answered refused) = true
is_shut _ _ = false

abbrev pub IsShut : Job → Type 0
IsShut j = is_shut j.stage j.waiter ≡ true

-- Only the end of its run frees a job's slot: the end of its budget does not.
act-slot :
    (prompt free : Bool) (a : Action) (j k : Job)
    → is_no_finish a ≡ true
    → act prompt free a j ≡ some k
    → holds_slot j ≤ holds_slot k
unfolding act
act-slot prompt free take j k e h = ground arith
act-slot prompt free start j k e h = ground arith
act-slot prompt free (finish r) j k e h = cc e
act-slot prompt free deliver j k e h = ground arith
act-slot prompt free expire j k e h = ground arith
act-slot prompt free conclude j k e h = ground arith

act_at-slots :
    (prompt free : Bool) (a : Action) (i : ℕ) (js ks : List Job)
    → is_no_finish a ≡ true
    → act_at prompt free a i js ≡ some ks
    → busy js ≤ busy ks
unfolding act_at busy
act_at-slots prompt free a zero [] ks e h = cc h
act_at-slots prompt free a (suc i) [] ks e h = cc h
act_at-slots prompt free a zero (j ∷ js) ks e h =
    let (k, acts, same) = map-some (λ k. k ∷ js) (act prompt free a j) h in
    let slot = act-slot prompt free a j k e acts in
    subst (λ l. busy (j ∷ js) ≤ busy l) same (ground arith)
act_at-slots prompt free a (suc i) (j ∷ js) ks e h =
    let behind = free && not (is_queued j.stage) in
    let (ls, acts, same) = map-some (λ ls. j ∷ ls) (act_at prompt behind a i js) h in
    let slots = act_at-slots prompt behind a i js ls e acts in
    subst (λ l. busy (j ∷ js) ≤ busy l) same (ground arith)

step-slots :
    (prompt : Bool) (max_workers : ℕ) (e : Event) (js ks : List Job)
    → is_no_end e ≡ true
    → step prompt max_workers e js ≡ some ks
    → busy js ≤ busy ks
unfolding step
step-slots prompt max_workers (submit budget) js ks e h =
    let same : js ++ submitted budget ∷ [] ≡ ks = cc h in
    subst (λ l. busy js ≤ busy l) same (omega (arith, busy-append js budget))
step-slots prompt max_workers (at i (finish r)) js ks e h = cc e
step-slots prompt max_workers (at i take) js ks e h = act_at-slots prompt _ take i js ks refl h
step-slots prompt max_workers (at i start) js ks e h = act_at-slots prompt _ start i js ks refl h
step-slots prompt max_workers (at i deliver) js ks e h =
    act_at-slots prompt _ deliver i js ks refl h
step-slots prompt max_workers (at i expire) js ks e h = act_at-slots prompt _ expire i js ks refl h
step-slots prompt max_workers (at i conclude) js ks e h =
    act_at-slots prompt _ conclude i js ks refl h

-- Without a free worker an action leaves a shut job shut.
queued-IsShut :
    (prompt : Bool) (a : Action) (budget : Option ℕ) (k : Job)
    → act prompt false a (record { budget = budget; stage = queued; waiter = waiting }) ≡ some k
    → IsShut k
unfolding act deliver_end
queued-IsShut prompt take budget k h = cc h
queued-IsShut prompt start budget k h = cc h
queued-IsShut prompt (finish r) budget k h = cc h
queued-IsShut prompt deliver budget k h = cc h
queued-IsShut prompt expire none k h = cc h
queued-IsShut prompt expire (some ms) k h = subst IsShut (some-injective _ _ h) refl
queued-IsShut prompt conclude budget k h = cc h

concluding-IsShut :
    (prompt : Bool) (a : Action) (budget : Option ℕ) (k : Job)
    → act prompt false a (record { budget = budget; stage = dropped; waiter = concluding }) ≡ some k
    → IsShut k
unfolding act deliver_end concluded
concluding-IsShut prompt take budget k h = cc h
concluding-IsShut prompt start budget k h = cc h
concluding-IsShut prompt (finish r) budget k h = cc h
concluding-IsShut prompt deliver budget k h = cc h
concluding-IsShut prompt expire none k h = cc h
concluding-IsShut prompt expire (some ms) k h = cc h
concluding-IsShut prompt conclude budget k h = subst IsShut (some-injective _ _ h) refl

refused-IsShut :
    (prompt : Bool) (a : Action) (budget : Option ℕ) (k : Job)
    → act prompt false a (record { budget = budget; stage = dropped; waiter = answered refused })
      ≡ some k
    → IsShut k
unfolding act deliver_end concluded
refused-IsShut prompt take budget k h = cc h
refused-IsShut prompt start budget k h = cc h
refused-IsShut prompt (finish r) budget k h = cc h
refused-IsShut prompt deliver budget k h = cc h
refused-IsShut prompt expire none k h = cc h
refused-IsShut prompt expire (some ms) k h = cc h
refused-IsShut prompt conclude budget k h = cc h

act-IsShut :
    (prompt : Bool) (a : Action) (budget : Option ℕ) (stage : Stage) (waiter : Waiter) (k : Job)
    → is_shut stage waiter ≡ true
    → act prompt false a (record { budget = budget; stage = stage; waiter = waiter }) ≡ some k
    → IsShut k
act-IsShut prompt a budget queued waiting k s h = queued-IsShut prompt a budget k h
act-IsShut prompt a budget dropped concluding k s h = concluding-IsShut prompt a budget k h
act-IsShut prompt a budget dropped (answered refused) k s h = refused-IsShut prompt a budget k h
act-IsShut prompt a budget _ _ k s h = cc s

-- The job at a place is there, and shut.
abbrev pub ShutAt : List Job → ℕ → Type 0
ShutAt jobs i = (j : Job) × (get_elem? jobs i ≡ some j) × IsShut j

act_at-ShutAt :
    (prompt : Bool) (a : Action) (at_place i : ℕ) (js ks : List Job)
    → ShutAt js i
    → act_at prompt false a at_place js ≡ some ks
    → ShutAt ks i
unfolding act_at
act_at-ShutAt prompt a zero i [] ks s h = cc h
act_at-ShutAt prompt a (suc n) i [] ks s h = cc h
act_at-ShutAt prompt a zero zero (x ∷ js) ks (j, found, shut) h =
    let (k, acts, same) = map-some (λ k. k ∷ js) (act prompt false a x) h in
    let shut_x = subst IsShut (sym (some-injective _ _ found)) shut in
    subst (λ l. ShutAt l zero) same
      (k, refl, act-IsShut prompt a x.budget x.stage x.waiter k shut_x acts)
act_at-ShutAt prompt a zero (suc i) (x ∷ js) ks s h =
    let (k, acts, same) = map-some (λ k. k ∷ js) (act prompt false a x) h in
    subst (λ l. ShutAt l (suc i)) same s
act_at-ShutAt prompt a (suc n) zero (x ∷ js) ks s h =
    let (ls, acts, same) = map-some (λ ls. x ∷ ls) (act_at prompt false a n js) h in
    subst (λ l. ShutAt l zero) same s
act_at-ShutAt prompt a (suc n) (suc i) (x ∷ js) ks s h =
    let (ls, acts, same) = map-some (λ ls. x ∷ ls) (act_at prompt false a n js) h in
    subst (λ l. ShutAt l (suc i)) same (act_at-ShutAt prompt a n i js ls s acts)

ShutAt-append : (js ks : List Job) (i : ℕ) → ShutAt js i → ShutAt (js ++ ks) i
ShutAt-append [] ks i (j, found, shut) = cc found
ShutAt-append (x ∷ js) ks zero s = s
ShutAt-append (x ∷ js) ks (suc i) s = ShutAt-append js ks i s

step-ShutAt :
    (prompt : Bool) (max_workers : ℕ) (e : Event) (i : ℕ) (js ks : List Job)
    → max_workers ≤ busy js
    → ShutAt js i
    → step prompt max_workers e js ≡ some ks
    → ShutAt ks i
unfolding step
step-ShutAt prompt max_workers (submit budget) i js ks full s h =
    subst (λ l. ShutAt l i) (some-injective _ _ h) (ShutAt-append js (submitted budget ∷ []) i s)
step-ShutAt prompt max_workers (at n a) i js ks full s h =
    let none_free : ltb (busy js) max_workers ≡ false = ground arith in
    act_at-ShutAt prompt a n i js ks s (subst (λ b. act_at prompt b a n js ≡ some ks) none_free h)

-- A run of a first event and others goes through the state behind the first.
run-first :
    (prompt : Bool) (max_workers : ℕ) (e : Event) (es : List Event) (js later : List Job)
    → run prompt max_workers (e ∷ es) js ≡ some later
    → (ks : List Job) × (step prompt max_workers e js ≡ some ks)
      × (run prompt max_workers es ks ≡ some later)
unfolding run
run-first prompt max_workers e es js later h = by (step prompt max_workers e js) refl h
  where
    by :
        (o : Option (List Job))
        → step prompt max_workers e js ≡ o
        → elim o as (λ x. Option (List Job)) [
          | none ↦ none
          | some ks ↦ run prompt max_workers es ks
        ]
          ≡ some later
        → (ks : List Job) × (step prompt max_workers e js ≡ some ks)
          × (run prompt max_workers es ks ≡ some later)
    by none goes stuck = cc stuck
    by (some ks) goes ends = (ks, goes, ends)

-- The same from any state in which the job is shut.
run_from :
    (prompt : Bool) (max_workers : ℕ) (later : List Job) (i : ℕ) (es : List Event) (js : List Job)
    → max_workers ≤ busy js
    → ShutAt js i
    → All (λ e. is_no_end e ≡ true) es
    → run prompt max_workers es js ≡ some later
    → (max_workers ≤ busy later) × ShutAt later i
unfolding run
run_from prompt max_workers later i [] js full s going h =
    subst (λ l. (max_workers ≤ busy l) × ShutAt l i) (some-injective _ _ h) (full, s)
run_from prompt max_workers later i (e ∷ es) js full s (no_end, going) h =
    let (ks, goes, ends) = run-first prompt max_workers e es js later h in
    let slots = step-slots prompt max_workers e js ks no_end goes in
    run_from prompt max_workers later i es ks (omega (arith, slots, full))
      (step-ShutAt prompt max_workers e i js ks full s goes) going ends

-- From a pool whose workers all have a job in hand, over any steps in which no run ends, whatever
-- budgets expire and whatever is submitted: the workers keep their jobs, also those whose budget has
-- expired; and a job that waited in the queue is never taken. It waits still, or is dropped, and the
-- only answer that it gets is the refusal.
pub run-ShutAt :
    (prompt : Bool) (max_workers : ℕ) (es : List Event) (jobs later : List Job) (i : ℕ)
    (budget : Option ℕ)
    → max_workers ≤ busy jobs
    → get_elem? jobs i ≡ some (submitted budget)
    → All (λ e. is_no_end e ≡ true) es
    → run prompt max_workers es jobs ≡ some later
    → (max_workers ≤ busy later) × ShutAt later i
run-ShutAt prompt max_workers es jobs later i budget full waits going h =
    run_from prompt max_workers later i es jobs full (submitted budget, waits, refl) going h
