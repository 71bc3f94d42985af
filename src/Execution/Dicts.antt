-- ===== src/Execution/Dicts.antt =====
-- Dictionaries, and sections of them.
use tracedown_probe_agent.Base.{
  ◌≡◌, refl, ap, subst, ◌∙◌, Bool, true, false, Option, none, some, Text, arith, Option-cases, inl,
  inr,
}
use tracedown_probe_agent.Bytes.{text_eq, text_eq_sound, text_eq_refl}
use tracedown_probe_agent.Json.{Json, object, Members, empty, member, find}
use tracedown_probe_agent.Execution.{defaulted, set_item, set_default, change_section, in_section}

pub find-set_item : (key : Text) (v : Json) (d : Members) → find key (set_item key v d) ≡ some v
unfolding find set_item
find-set_item key v empty = rw (text_eq_refl key) refl
find-set_item key v (member k w rest) = ground (arith, find-set_item key v rest)

find_other :
    (key other : Text) (v : Json) (d : Members)
    → text_eq key other ≡ false
    → find other (set_item key v d) ≡ find other d
unfolding find set_item
find_other key other v empty ne = rw ne refl
find_other key other v (member k w rest) ne =
    ground (arith, find_other key other v rest ne, text_eq_sound k key, ne)

-- The section under a key, empty where there is none.
abbrev pub as_section : Option Json → Members
as_section (some (object m)) = m
as_section _ = empty

abbrev pub section : Text → Members → Members
section key d = as_section (find key d)

-- A section can be had under the key.
abbrev pub is_dict : Option Json → Bool
is_dict none = true
is_dict (some (object m)) = true
is_dict _ = false

abbrev pub has_section : Text → Members → Bool
has_section key d = is_dict (find key d)

-- A change that leaves a section, and every other key as it was.
abbrev pub IsChanged : Text → Members → Members → Option Members → Type 0
IsChanged key m d r =
    (c : Members) × (r ≡ some c)
    × (section key c ≡ m)
    × ((other : Text) → text_eq key other ≡ false → find other c ≡ find other d)

set_item-IsChanged :
    (key : Text) (n d : Members) → IsChanged key n d (some (set_item key (object n) d))
set_item-IsChanged key n d = (
  set_item key (object n) d,
  refl,
  ap as_section (find-set_item key (object n) d),
  λ other ne. find_other key other (object n) d ne,
)

pub set_default_missing :
    (key : Text) (v : Json) (d : Members)
    → find key d ≡ none
    → set_default key v d ≡ set_item key v d
unfolding set_default
set_default_missing key v d e = ap (defaulted key v d) e

pub set_default_present :
    (key : Text) (v w : Json) (d : Members) → find key d ≡ some w → set_default key v d ≡ d
unfolding set_default
set_default_present key v w d e = ap (defaulted key v d) e

pub set_default-IsChanged :
    (key : Text) (d : Members)
    → IsChanged key (section key d) d (some (set_default key (object empty) d))
set_default-IsChanged key d = elim (Option-cases (find key d)) [
  | inl e ↦ rw (set_default_missing key (object empty) d e, e) (set_item-IsChanged key empty d)
  | inr (v, e) ↦ rw (set_default_present key (object empty) v d e) (d, refl, refl, λ other ne. refl)
]

change_section-IsChanged :
    (key : Text) (change : Members → Option Members) (d d' n m : Members)
    → change m ≡ some n
    → ((other : Text) → text_eq key other ≡ false → find other d' ≡ find other d)
    → IsChanged key n d (change_section key change d' (some (object m)))
change_section-IsChanged key change d d' n m made same =
    let (c, e, changed, others) = set_item-IsChanged key n d' in
    rw made (c, e, changed, λ other ne. others other ne ∙ same other ne)

-- A section that is there or can be had is changed, whatever the change.
pub in_section-IsChanged :
    (key : Text) (change : Members → Option Members) (d n : Members)
    → has_section key d ≡ true
    → change (section key d) ≡ some n
    → IsChanged key n d (in_section key change d)
unfolding in_section
in_section-IsChanged key change d n h made = elim (Option-cases (find key d)) [
  | inl e ↦
      rw (set_default_missing key (object empty) d e, find-set_item key (object empty) d)
        (change_section-IsChanged key change d (set_item key (object empty) d) n empty
          (subst (λ o. change (as_section o) ≡ some n) e made)
          (λ other. find_other key other (object empty) d))
  | inr (object m, e) ↦
      rw (set_default_present key (object empty) (object m) d e, e)
        (change_section-IsChanged key change d d n m
          (subst (λ o. change (as_section o) ≡ some n) e made) (λ other ne. refl))
  | inr (v, e) ↦ absurd (ground (arith, e, h))
]
