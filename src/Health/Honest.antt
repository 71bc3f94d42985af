-- ===== src/Health/Honest.antt =====
-- When a challenge is answered with success.
use tracedown_probe_agent.Base.{
  ℕ, ◌-◌, ◌≡◌, ◌≢◌, ◌↔◌, refl, sym, ap, subst, Bool, true, not, Option, none, some, [], ◌∷◌, Text,
  codes, arith, if◌then◌else◌,
}
use tracedown_probe_agent.Result.{Result, ok, err, ok_injective}
use tracedown_probe_agent.Json.{Json, str, object, Members, find, is_text}
use tracedown_probe_agent.Health.{
  is_true, HealthError, raised, error_of_first, token_found, token_of, run_health_sync,
  ChallengeResponse, can_open_sealed, answer, challenge,
}

-- The run succeeded and left a token that is a text and not empty.
abbrev pub Left : Result HealthError Members → Text → Type 0
Left (err e) t = ⊥
Left (ok result) t =
    (vars : Members) × (is_text (codes "success") (find (codes "outcome") result) ≡ true)
    × (find (codes "runVars") result ≡ some (object vars))
    × (find (codes "token") vars ≡ some (str t))
    × (t ≢ [])

text_is_true : (t : Text) → (is_true (str t) ≡ true) ↔ (t ≢ [])
text_is_true [] = (λ h. cc h, λ h. absurd (h refl))
text_is_true (c ∷ s) = (λ h. λ k. cc k, λ h. refl)

token_found-text :
    (o : Option Json) (t : Text) → (token_found o ≡ ok (str t)) ↔ ((o ≡ some (str t)) × (t ≢ []))
token_found-text none t = (λ h. cc h, λ (e, ne). cc e)
token_found-text (some x) t =
    let (there, back) = text_is_true t in
    let same : (token_found (some x) ≡ ok (str t)) → (is_true x ≡ true) × (x ≡ str t) =
      λ h. (ground arith, ground arith) in
    (
      λ h. let (holds, e) = same h in (ap some e, there (subst (λ y. is_true y ≡ true) e holds)),
      λ (e, ne). subst (λ y. token_found y ≡ ok (str t)) (sym e) (rw (back ne) refl),
    )

object_injective :
    {m n : Members} → ◌≡◌ {A = Option Json} (some (object m)) (some (object n)) → m ≡ n
object_injective h = cc h

token_of-text :
    (vars : Option Json) (t : Text)
    → (token_of vars ≡ ok (str t)) ↔ (
        (m : Members) × (vars ≡ some (object m))
        × (find (codes "token") m ≡ some (str t))
        × (t ≢ []))
token_of-text none t = (λ h. cc h, λ (m, h, e, ne). cc h)
token_of-text (some (object m)) t =
    let (there, back) = token_found-text (find (codes "token") m) t in
    (
      λ h. let (e, ne) = there h in (m, refl, e, ne),
      λ (n, same, e, ne). back (rw (object_injective same) e, ne),
    )
token_of-text (some _) t = (λ h. cc h, λ (m, h, e, ne). cc h)

result_lem :
    (outcome : Option Json) (error : HealthError) (left : Result HealthError Json) (x : Json)
    → (elim outcome [
      | none ↦ err raised
      | some o ↦ if not (is_text (codes "success") (some o)) then err error else left
    ]
        ≡ ok x)
      ↔ ((is_text (codes "success") outcome ≡ true) × (left ≡ ok x))
result_lem none error left x = (λ h. cc h, λ (h, e). cc h)
result_lem (some o) error left x =
    (λ h. (ground arith, ground arith), λ (h, e). ground (arith, h, e))

run_health_sync-Left :
    (run : Result HealthError Members) (t : Text) → (run_health_sync run ≡ ok (str t)) ↔ Left run t
unfolding run_health_sync
run_health_sync-Left (err e) t = (λ h. cc h, λ h. elim h [ ])
run_health_sync-Left (ok result) t =
    let (there, back) =
      result_lem (find (codes "outcome") result) (error_of_first (find (codes "calls") result))
        (token_of (find (codes "runVars") result)) (str t) in
    let (left, right) = token_of-text (find (codes "runVars") result) t in
    (
      λ h.
          let (won, e) = there h in
          let (vars, holds, found, ne) = left e in (vars, won, holds, found, ne),
      λ (vars, won, holds, found, ne). back (won, right (vars, holds, found, ne)),
    )

text_injective : {s t : Text} → str s ≡ str t → ◌≡◌ {A = Option Text} (some s) (some t)
text_injective h = cc h

-- An answer with a token, and with success, exactly for a text.
answer_lem :
    (id : Text) (elapsed : ℕ) (encryption : Bool) (r : Result HealthError Json)
    → (((answer id elapsed encryption r).success ≡ true)
        ↔ ((answer id elapsed encryption r).error ≡ none))
      × ((t : Text) → ((answer id elapsed encryption r).token ≡ some t) ↔ (r ≡ ok (str t)))
      × (((answer id elapsed encryption r).success ≡ true)
          ↔ ((answer id elapsed encryption r).token ≢ none))
unfolding answer
answer_lem id elapsed encryption (err e) =
    ((λ h. cc h, λ h. cc h), λ t. (λ h. cc h, λ h. cc h), (λ h. cc h, λ h. absurd (h refl)))
answer_lem id elapsed encryption (ok (str s)) = (
  (λ h. refl, λ h. refl),
  λ t. (λ h. cc h, λ h. text_injective (ok_injective h)),
  (λ h. λ k. cc k, λ h. refl),
)
answer_lem id elapsed encryption (ok _) =
    ((λ h. cc h, λ h. cc h), λ t. (λ h. cc h, λ h. cc h), (λ h. cc h, λ h. absurd (h refl)))

-- Success with that token, and otherwise an error and no token.
abbrev pub IsHonest : Result HealthError Members → ChallengeResponse → Type 0
IsHonest run r =
    ((r.success ≡ true) ↔ (r.error ≡ none))
    × ((t : Text) → (r.token ≡ some t) ↔ Left run t)
    × ((r.success ≡ true) ↔ (r.token ≢ none))

-- Whatever the run of the challenge comes to, the endpoint answers: with success and a token exactly
-- if the run succeeded and left that token, a text that is not empty; else with an error, no token.
pub challenge-IsHonest {ℓ} :
    {Key : Type ℓ} (key : Option Key) (id : Text) (start now : ℕ) (run : Result HealthError Members)
    → IsHonest run (challenge key id start now run)
unfolding challenge
challenge-IsHonest key id start now run =
    let (success, token, both) =
      answer_lem id (now - start) (can_open_sealed key) (run_health_sync run) in
    (
      success,
      λ t.
          let (there, back) = token t in
          let (left, right) = run_health_sync-Left run t in
          (λ h. left (there h), λ h. back (right h)),
      both,
    )
