-- ===== src/Attribution/Verdicts.antt =====
-- How the run's verdict follows from its calls'.
use mathlib.Core.Option.{some-injective}
use tracedown_probe_agent.Base.{
  sym, ◌∙◌, subst, ℕ, ◌≡◌, ◌≢◌, ◌↔◌, refl, Bool, true, false, Option, none, some, List, [], ◌∷◌,
  map, Text, any, select, arith, if◌then◌else◌,
}
use tracedown_probe_agent.Tcp.{Verdict, endpoint, network, agent, unknown}
use tracedown_probe_agent.Progress.{Timeout}
use tracedown_probe_agent.Attribution.{
  Call, Judged, Attribution, same_verdict, run_verdict, network_target, first_target, target_for,
  conclude, attribute_timed_out, attribute_call_timeouts, judge, is_timeout,
}

abbrev pub has : Verdict → List Judged → Bool
has v judged = any (λ j. same_verdict v j.verdict) judged

-- The precedence, written as a chain of tests.
abbrev pub expected : List Judged → Verdict
expected judged =
    if has endpoint judged
    then endpoint
    else if has unknown judged
    then unknown
    else if has network judged
    then network
    else agent

run_verdict_lem : (j : Judged) (js : List Judged) → run_verdict (j ∷ js) ≡ some (expected (j ∷ js))
unfolding run_verdict
run_verdict_lem j js = ground arith

abbrev concluded : List Judged → Attribution
concluded js = record { verdict = expected js; calls = js; target = target_for (expected js) js }

conclude_lem : (j : Judged) (js : List Judged) → conclude (j ∷ js) ≡ some (concluded (j ∷ js))
unfolding conclude
conclude_lem j js = rw (run_verdict_lem j js, conclude)

select_none : (calls : List Call) → (select is_timeout calls ≡ []) ↔ (any is_timeout calls ≡ false)
select_none [] = (λ h. refl, λ h. refl)
select_none (c ∷ cs) =
    let (there, back) = select_none cs in (λ h. ground (arith, there), λ h. ground (arith, back))

module _ (fromisoformat : Text → Option ℕ) where
  abbrev judged : List Call → List Timeout → List Judged
  judged calls timeouts = map (judge fromisoformat timeouts) (select is_timeout calls)

  timed_out_lem :
      (timeouts : List Timeout) (calls : List Call)
      → calls ≢ []
      → attribute_timed_out fromisoformat timeouts calls
        ≡ some (concluded (map (judge fromisoformat timeouts) calls))
  unfolding attribute_timed_out
  timed_out_lem timeouts [] ne = absurd (ne refl)
  timed_out_lem timeouts (c ∷ cs) ne =
      conclude_lem (judge fromisoformat timeouts c) (map (judge fromisoformat timeouts) cs)

  timed_out_none :
      (timeouts : List Timeout) (calls : List Call)
      → attribute_timed_out fromisoformat timeouts calls ≡ none
      → calls ≡ []
  timed_out_none timeouts [] h = refl
  timed_out_none timeouts (c ∷ cs) h = absurd (cc (h, timed_out_lem timeouts (c ∷ cs) (λ e. cc e)))

  -- There is an attribution exactly when some call timed out.
  pub attribute_none_iff :
      (calls : List Call) (timeouts : List Timeout)
      → (attribute_call_timeouts fromisoformat calls timeouts ≡ none)
        ↔ (any is_timeout calls ≡ false)
  unfolding attribute_call_timeouts attribute_timed_out
  attribute_none_iff calls timeouts =
      let (there, back) = select_none calls in
      (λ h. there (timed_out_none timeouts (select is_timeout calls) h), λ h. rw (back h))

  timed_out_some :
      (timeouts : List Timeout) (calls : List Call) {a : Attribution}
      → attribute_timed_out fromisoformat timeouts calls ≡ some a
      → (calls ≢ []) × (a ≡ concluded (map (judge fromisoformat timeouts) calls))
  unfolding attribute_timed_out
  timed_out_some timeouts [] h = cc h
  timed_out_some timeouts (c ∷ cs) h =
      (λ e. cc e, some-injective _ _ (sym h ∙ timed_out_lem timeouts (c ∷ cs) (λ e. cc e)))

  attribute_lem :
      (calls : List Call) (timeouts : List Timeout) {a : Attribution}
      → attribute_call_timeouts fromisoformat calls timeouts ≡ some a
      → (select is_timeout calls ≢ []) × (a ≡ concluded (judged calls timeouts))
  unfolding attribute_call_timeouts
  attribute_lem calls timeouts h = timed_out_some timeouts (select is_timeout calls) h

-- The first verdict of the order that some call has.
pub record Precedence (v : Verdict) (js : List Judged) : Type 0 where
  pub endpoint_iff : (v ≡ endpoint) ↔ (has endpoint js ≡ true)
  pub unknown_iff : (v ≡ unknown) ↔ ((has endpoint js ≡ false) × (has unknown js ≡ true))
  pub network_iff :
      (v ≡ network)
      ↔ ((has endpoint js ≡ false) × (has unknown js ≡ false) × (has network js ≡ true))
  pub agent_iff : (v ≡ agent) ↔ (
      (has endpoint js ≡ false)
      × (has unknown js ≡ false)
      × (has network js ≡ false)
      × (has agent js ≡ true))

-- A call that has none of the other verdicts has this one.
is_agent :
    (v : Verdict)
    → same_verdict endpoint v ≡ false
    → same_verdict unknown v ≡ false
    → same_verdict network v ≡ false
    → same_verdict agent v ≡ true
is_agent agent e u n = refl
is_agent endpoint e u n = cc e
is_agent unknown e u n = cc u
is_agent network e u n = cc n

agent_lem :
    (j : Judged) (js : List Judged)
    → has endpoint (j ∷ js) ≡ false
    → has unknown (j ∷ js) ≡ false
    → has network (j ∷ js) ≡ false
    → has agent (j ∷ js) ≡ true
agent_lem j js e u n = ground (arith, is_agent j.verdict)

expected-Precedence : (j : Judged) (js : List Judged) → Precedence (expected (j ∷ js)) (j ∷ js)
expected-Precedence j js = record {
  endpoint_iff = (λ h. ground arith, λ h. ground arith);
  unknown_iff = (λ h. ground arith, λ h. ground arith);
  network_iff = (λ h. ground arith, λ h. ground arith);
  agent_iff = (λ h. ground (arith, agent_lem j js), λ h. ground arith);
}

target_for_iff :
    (v : Verdict) (js : List Judged)
    → (v ≡ network → first_target js ≢ none)
    → (target_for v js ≡ none) ↔ (v ≢ network)
unfolding target_for
target_for_iff network js h = (λ e _. h refl e, λ ne. absurd (ne refl))
target_for_iff _ js h = (λ _ e. cc e, λ _. refl)

module _ (fromisoformat : Text → Option ℕ) where
  judge_network :
      (timeouts : List Timeout) (c : Call)
      → same_verdict network (judge fromisoformat timeouts c).verdict ≡ true
      → network_target (judge fromisoformat timeouts c) ≢ none
  unfolding judge
  judge_network timeouts c h e = ground arith

  first_target_some :
      (timeouts : List Timeout) (cs : List Call)
      → has network (map (judge fromisoformat timeouts) cs) ≡ true
      → first_target (map (judge fromisoformat timeouts) cs) ≢ none
  unfolding first_target
  first_target_some timeouts [] h e = cc h
  first_target_some timeouts (c ∷ cs) h e =
      ground (arith, judge_network timeouts c, first_target_some timeouts cs)

  abbrev IsLaw : (js : List Judged) → Attribution → Type 0
  IsLaw js a =
      Precedence a.verdict a.calls × (a.calls ≡ js) × ((a.target ≡ none) ↔ (a.verdict ≢ network))

  concluded_lem :
      (timeouts : List Timeout) (cs : List Call)
      → cs ≢ []
      → IsLaw
          (map (judge fromisoformat timeouts) cs)
          (concluded (map (judge fromisoformat timeouts) cs))
  concluded_lem timeouts [] ne = absurd (ne refl)
  concluded_lem timeouts (c ∷ cs) ne =
      let js = map (judge fromisoformat timeouts) (c ∷ cs) in
      let order =
        expected-Precedence (judge fromisoformat timeouts c)
          (map (judge fromisoformat timeouts) cs) in
      (
        order,
        refl,
        target_for_iff (expected js) js
            (λ e. first_target_some timeouts (c ∷ cs) (order.network_iff.0 e).2),
      )

  -- Where a run has an attribution, its verdict is the first of endpoint, unknown, network and agent
  -- that one of its timed-out calls has, so that there is such a call; those calls are judged in their order, and there is a target to reach
  -- exactly when the verdict is network.
  pub attribute_call_timeouts_lem :
      (calls : List Call) (timeouts : List Timeout) (a : Attribution)
      → attribute_call_timeouts fromisoformat calls timeouts ≡ some a
      → Precedence a.verdict a.calls
        × (a.calls ≡ map (judge fromisoformat timeouts) (select is_timeout calls))
        × ((a.target ≡ none) ↔ (a.verdict ≢ network))
  attribute_call_timeouts_lem calls timeouts a h =
      let (some_timed_out, same) = attribute_lem fromisoformat calls timeouts h in
      subst (IsLaw (map (judge fromisoformat timeouts) (select is_timeout calls))) (sym same)
        (concluded_lem timeouts (select is_timeout calls) some_timed_out)
