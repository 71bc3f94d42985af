-- ===== src/Expired/Announced.antt =====
-- That a run given up always gets its result, and what the texts in it may hold.
use mathlib.Core.List.{reverse, reverse-cons}
use tracedown_probe_agent.Base.{
  ℕ, zero, suc, ◌+◌, ◌/◌, ◌<◌, ◌≡◌, refl, Bool, true, false, not, ◌&&◌, ◌||◌, Option, none, some,
  List, [], ◌∷◌, ◌++◌, Text, codes, get_elem?, length, ◌==◌, arith, if◌then◌else◌, any, Bool-cases,
  Option-cases, inl, inr,
}
use tracedown_probe_agent.Bytes.{contains, starts_with}
use tracedown_probe_agent.Redact.{replace, replace_from}
use tracedown_probe_agent.Bootstrap.{str_of, digits_from}
use tracedown_probe_agent.Progress.{Progress}
use tracedown_probe_agent.Progress.Snapshots.{Stall}
use tracedown_probe_agent.Expired.{
  onto_part, split_slashes, host_of, describe, escape, service_prefix, event_text, timeout_result,
  TimeoutResult, run_budget_timeout,
}

onto_part-length :
    (c : ℕ) (parts : List Text) → 0 < length parts → length (onto_part c parts) ≡ length parts
onto_part-length c [] h = ground arith
onto_part-length c (s ∷ parts) h = refl

split_slashes-length : (s : Text) → 0 < length (split_slashes s)
unfolding split_slashes
split_slashes-length [] = omega arith
split_slashes-length (c ∷ s) =
    ground
      (arith, split_slashes-length s, onto_part-length c (split_slashes s) (split_slashes-length s))

split_slashes-cons :
    (c : ℕ) (s : Text)
    → length (split_slashes (c ∷ s)) ≡ (if c == 47 then 1 else 0) + length (split_slashes s)
unfolding split_slashes
split_slashes-cons c s =
    ground (arith, onto_part-length c (split_slashes s) (split_slashes-length s))

-- A text with two slashes in a row has at least three parts.
contains-split_slashes : (s : Text) → contains (codes "//") s ≡ true → 2 < length (split_slashes s)
contains-split_slashes [] h = cc h
contains-split_slashes (c ∷ []) h = ground arith
contains-split_slashes (c ∷ d ∷ s) h = ground (
  arith,
  contains-split_slashes (d ∷ s),
  split_slashes-cons c (d ∷ s),
  split_slashes-cons d s,
  split_slashes-length s,
)

get_elem?_below :
    {A : Type 0} (i : ℕ) (xs : List A) → i < length xs → (x : A) × (get_elem? xs i ≡ some x)
get_elem?_below i [] h = absurd (omega arith)
get_elem?_below zero (x ∷ xs) h = (x, refl)
get_elem?_below (suc i) (x ∷ xs) h = get_elem?_below i xs (omega arith)

host_of_total : (url : Text) → (host : Text) × (host_of url ≡ some host)
unfolding host_of
host_of_total url = elim (Bool-cases (contains (codes "//") url)) [
  | inl e ↦ rw e (get_elem?_below 2 (split_slashes url) (contains-split_slashes url e))
  | inr e ↦ rw e (url, refl)
]

pub describe_total : (s : Stall) → (clause : Text) × (describe s ≡ some clause)
unfolding describe
describe_total s = elim (Option-cases s.request) [
  | inl e ↦ rw e (_, refl)
  | inr (r, e) ↦ let (host, f) = host_of_total r.url in rw (e, f) (_, refl)
]

-- Whether `${` stands in a text somewhere with no backslash before it; the first argument says
-- whether a backslash stands before the text.
abbrev pub opens_template : Bool → Text → Bool
opens_template escaped [] = false
opens_template escaped (c ∷ s) =
    (not escaped && starts_with (codes "${") (c ∷ s)) || opens_template (c == 92) s

-- A text that opens nothing behind any other: it does not begin with a brace either.
abbrev IsClosed : Text → Type 0
IsClosed s =
    ((escaped : Bool) → opens_template escaped s ≡ false) × (starts_with (codes "{") s ≡ false)

abbrev out_of : ℕ → Text → Text → Text
out_of skip s ys = replace_from skip (codes "${") (92 ∷ codes "${") s ++ ys

head_lem :
    (s ys : Text)
    → starts_with (codes "{") ys ≡ false
    → starts_with (codes "{") (out_of 0 s ys) ≡ true
    → starts_with (codes "{") s ≡ true
unfolding replace_from
head_lem [] ys closed h = cc (closed, h)
head_lem (c ∷ s) ys closed h = ground arith

escaped_lem :
    (skip : ℕ) (escaped : Bool) (s ys : Text)
    → IsClosed ys
    → opens_template escaped (out_of skip s ys) ≡ false
unfolding replace_from
escaped_lem zero escaped [] ys closed = closed.0 escaped
escaped_lem (suc skip) escaped [] ys closed = closed.0 escaped
escaped_lem (suc skip) escaped (c ∷ s) ys closed = escaped_lem skip escaped s ys closed
escaped_lem zero escaped (c ∷ s) ys closed = ground (
  arith,
  escaped_lem 1 false s ys closed,
  escaped_lem 0 (c == 92) s ys closed,
  head_lem s ys closed.1,
)

abbrev has_dollar : Text → Bool
has_dollar s = any (λ c. c == 36) s

has_dollar-append : (s t : Text) → has_dollar (s ++ t) ≡ (has_dollar s || has_dollar t)
has_dollar-append [] t = refl
has_dollar-append (c ∷ s) t = ground (arith, has_dollar-append s t)

has_dollar-reverse : (s : Text) → has_dollar s ≡ false → has_dollar (reverse s) ≡ false
has_dollar-reverse [] h = refl
has_dollar-reverse (c ∷ s) h =
    rw (reverse-cons c s)
      (ground (arith, has_dollar-append (reverse s) (c ∷ []), has_dollar-reverse s))

digits_from-plain : (fuel n : ℕ) → has_dollar (digits_from fuel n) ≡ false
unfolding digits_from
digits_from-plain zero n = refl
digits_from-plain (suc fuel) n = ground (arith, digits_from-plain fuel (n / 10))

str_of-plain : (n : ℕ) → has_dollar (str_of n) ≡ false
unfolding str_of
str_of-plain n = has_dollar-reverse (digits_from (suc n) n) (digits_from-plain (suc n) n)

-- A text with no dollar opens nothing in front of a text that opens nothing.
opens_template-append :
    (escaped : Bool) (s t : Text)
    → has_dollar s ≡ false
    → ((e : Bool) → opens_template e t ≡ false)
    → opens_template escaped (s ++ t) ≡ false
opens_template-append escaped [] t plain closed = closed escaped
opens_template-append escaped (c ∷ s) t plain closed =
    ground (arith, opens_template-append (c == 92) s t, closed)

abbrev bracketed : Option Text → Text
bracketed clause = elim clause [ none ↦ [] | some s ↦ codes " (" ++ (escape s ++ codes ")") ]

clause_lem :
    (clause : Option Text) (escaped : Bool) → opens_template escaped (bracketed clause) ≡ false
unfolding escape replace
clause_lem none escaped = refl
clause_lem (some s) escaped =
    opens_template-append escaped (codes " (") (out_of 0 s (codes ")")) refl
      (λ e. escaped_lem 0 e s (codes ")") ((λ x. ground arith), refl))

abbrev limit_text : ℕ → Option Text → Text
limit_text budget clause = str_of budget ++ (codes "ms" ++ bracketed clause)

-- The text of the event behind the service's own name.
abbrev event_rest : ℕ → Option Text → Text
event_rest budget clause =
    codes " timed out: the run did not complete within " ++ limit_text budget clause

event_rest-closed :
    (budget : ℕ) (clause : Option Text) (escaped : Bool)
    → opens_template escaped (event_rest budget clause) ≡ false
event_rest-closed budget clause escaped =
    opens_template-append escaped (codes " timed out: the run did not complete within ")
      (limit_text budget clause) refl
      (λ e.
        opens_template-append e (str_of budget) (codes "ms" ++ bracketed clause)
          (str_of-plain budget)
          (λ f. opens_template-append f (codes "ms") (bracketed clause) refl (clause_lem clause)))

-- A result whose event is the service's own name and a text behind it that opens no template.
abbrev pub IsAnnounced : Option TimeoutResult → Type 0
IsAnnounced none = ⊥
IsAnnounced (some r) =
    (rest : Text) × (r.notification.value ≡ service_prefix ++ rest)
    × (opens_template false rest ≡ false)

-- A run that outlived its budget always gets its result, whatever the url of the request under way
-- and whatever else its snapshot holds; and in the text of its event no `${` stands without a
-- backslash before it, but for those of the service's own name in front.
pub run_budget_timeout-IsAnnounced :
    (budget : ℕ) (started_at ended_at : Text) (elapsed : ℕ) (stall : Option Stall) (p : Progress)
    → IsAnnounced (run_budget_timeout budget started_at ended_at elapsed stall p)
unfolding run_budget_timeout timeout_result event_text
run_budget_timeout-IsAnnounced budget started_at ended_at elapsed none p =
    (event_rest budget none, refl, event_rest-closed budget none false)
run_budget_timeout-IsAnnounced budget started_at ended_at elapsed (some s) p =
    let (clause, e) = describe_total s in
    rw e (event_rest budget (some clause), refl, event_rest-closed budget (some clause) false)
