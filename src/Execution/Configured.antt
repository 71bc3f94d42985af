-- ===== src/Execution/Configured.antt =====
-- The settings that an executor runs a job with.
use tracedown_probe_agent.Base.{
  ◌≡◌, refl, sym, ap, ◌∙◌, subst, Bool, true, false, Option, none, some, [], ◌∷◌, Text, codes,
  if◌then◌else◌, Option-cases, inl, inr,
}
use tracedown_probe_agent.Config.{is_truthy}
use tracedown_probe_agent.Json.{Json, str, object, Members, empty, member, find}
use tracedown_probe_agent.Execution.{
  set_item, set_default, in_section, emits_recovery, timeout_message, recovery_message,
  set_user_agent, set_bodies, set_timeout_message, set_recovery_message, and_set, set_messages,
  configure,
}
use tracedown_probe_agent.Execution.Dicts.{
  find-set_item, set_default_missing, set_default_present, is_dict, section, as_section,
  has_section, set_default-IsChanged, in_section-IsChanged,
}

-- The operator's own value, or the one put in.
abbrev pub kept : Json → Option Json → Json
kept v none = v
kept v (some w) = w

find-kept :
    (key : Text) (v : Json) (m : Members)
    → find key (set_default key v m) ≡ some (kept v (find key m))
find-kept key v m = elim (Option-cases (find key m)) [
  | inl e ↦ rw (set_default_missing key v m e, e) (find-set_item key v m)
  | inr (w, e) ↦ rw (set_default_present key v w m e, e) refl
]

-- Every section that is set can be had.
abbrev pub HasSections : Members → Type 0
HasSections d =
    (has_section (codes "executor") d ≡ true)
    × (has_section (codes "result") d ≡ true)
    × (has_section (codes "extensions") d ≡ true)
    × (has_section (codes "laceNotifications") (section (codes "extensions") d) ≡ true)
    × (has_section (codes "laceEmitRecovery") (section (codes "extensions") d) ≡ true)

abbrev recovery_text : Members → Option Json
recovery_text extensions =
    find (codes "recovery_message") (section (codes "laceEmitRecovery") extensions)

abbrev timeout_text : Members → Option Json
timeout_text extensions =
    find (codes "timeout_message") (section (codes "laceNotifications") extensions)

abbrev HasRecovery : Bool → Members → Members → Type 0
HasRecovery recovery e x =
    recovery_text x
    ≡ (if recovery then some (kept (str recovery_message) (recovery_text e)) else recovery_text e)

-- The texts of the events are the operator's, or else the agent's.
abbrev IsMessaged : Bool → Members → Members → Type 0
IsMessaged recovery e x =
    (timeout_text x ≡ some (kept (str timeout_message) (timeout_text e))) × HasRecovery recovery e x

-- The recovery's text is set, and the section of the notifications is as it was.
set_recovery_message_lem :
    (recovery : Bool) (e : Members)
    → has_section (codes "laceEmitRecovery") e ≡ true
    → (x : Members) × (set_recovery_message recovery e ≡ some x)
      × (find (codes "laceNotifications") x ≡ find (codes "laceNotifications") e)
      × HasRecovery recovery e x
unfolding set_recovery_message
set_recovery_message_lem false e h = (e, refl, refl, refl)
set_recovery_message_lem true e h =
    let lace : Members = section (codes "laceEmitRecovery") e in
    let (x, made, changed, others) =
      in_section-IsChanged (codes "laceEmitRecovery")
        (λ m. some (set_default (codes "recovery_message") (str recovery_message) m)) e
        (set_default (codes "recovery_message") (str recovery_message) lace) h refl in
    (
      x,
      made,
      others (codes "laceNotifications") refl,
      ap (find (codes "recovery_message")) changed
          ∙ find-kept (codes "recovery_message") (str recovery_message) lace,
    )

set_messages_lem :
    (recovery : Bool) (e : Members)
    → has_section (codes "laceNotifications") e ≡ true
    → has_section (codes "laceEmitRecovery") e ≡ true
    → (x : Members) × (set_messages recovery e ≡ some x) × IsMessaged recovery e x
unfolding set_messages set_timeout_message
set_messages_lem recovery e h k =
    let note : Members = section (codes "laceNotifications") e in
    let (y, made, changed, others) =
      in_section-IsChanged (codes "laceNotifications")
        (λ m. some (set_default (codes "timeout_message") (str timeout_message) m)) e
        (set_default (codes "timeout_message") (str timeout_message) note) h refl in
    let lace = others (codes "laceEmitRecovery") refl in
    let (x, made', same, ran) =
      set_recovery_message_lem recovery y (subst (λ o. is_dict o ≡ true) (sym lace) k) in
    (
      x,
      ap (λ r. and_set r (set_recovery_message recovery)) made ∙ made',
      (
        ap (λ o. find (codes "timeout_message") (as_section o)) same
            ∙ ap (find (codes "timeout_message")) changed
            ∙ find-kept (codes "timeout_message") (str timeout_message) note,
        subst
            (λ o. recovery_text x ≡ (
              if recovery
              then some
                  (kept (str recovery_message) (find (codes "recovery_message") (as_section o)))
              else find (codes "recovery_message") (as_section o)))
            lace ran,
      ),
    )

abbrev agent_text : Members → Option Json
agent_text d = find (codes "user_agent") (section (codes "executor") d)

abbrev bodies_of : Members → Option Json
bodies_of d = find (codes "bodies") (section (codes "result") d)

set_user_agent_lem :
    (agent : Text) (d : Members)
    → has_section (codes "executor") d ≡ true
    → (c : Members) × (set_user_agent agent d ≡ some c)
      × (agent_text c ≡ (if is_truthy agent then some (str agent) else agent_text d))
      × (find (codes "result") c ≡ find (codes "result") d)
      × (find (codes "extensions") c ≡ find (codes "extensions") d)
unfolding set_user_agent
set_user_agent_lem [] d h = (d, refl, refl, refl, refl)
set_user_agent_lem (a ∷ agent) d h =
    let exec : Members = section (codes "executor") d in
    let (c, made, changed, others) =
      in_section-IsChanged (codes "executor")
        (λ m. some (set_item (codes "user_agent") (str (a ∷ agent)) m)) d
        (set_item (codes "user_agent") (str (a ∷ agent)) exec) h refl in
    (
      c,
      made,
      ap (find (codes "user_agent")) changed
          ∙ find-set_item (codes "user_agent") (str (a ∷ agent)) exec,
      others (codes "result") refl,
      others (codes "extensions") refl,
    )

abbrev directory : Text → Json
directory dir = object (member (codes "dir") (str dir) empty)

set_bodies_lem :
    (allowed : Bool) (dir : Text) (d : Members)
    → has_section (codes "result") d ≡ true
    → (c : Members) × (set_bodies allowed dir d ≡ some c)
      × (bodies_of c ≡ (if allowed then some (directory dir) else bodies_of d))
      × (find (codes "executor") c ≡ find (codes "executor") d)
      × (find (codes "extensions") c ≡ find (codes "extensions") d)
unfolding set_bodies
set_bodies_lem false dir d h =
    let (c, made, changed, others) = set_default-IsChanged (codes "result") d in
    (
      c,
      made,
      ap (find (codes "bodies")) changed,
      others (codes "executor") refl,
      others (codes "extensions") refl,
    )
set_bodies_lem true dir d h =
    let results : Members = section (codes "result") d in
    let (c, made, changed, others) =
      in_section-IsChanged (codes "result")
        (λ m. some (set_item (codes "bodies") (directory dir) m)) d
        (set_item (codes "bodies") (directory dir) results) h refl in
    (
      c,
      made,
      ap (find (codes "bodies")) changed ∙ find-set_item (codes "bodies") (directory dir) results,
      others (codes "executor") refl,
      others (codes "extensions") refl,
    )

-- The settings that the job and the agent ask for, over the configuration `d`.
abbrev pub IsConfigured : Text → Bool → Text → Members → Members → Members → Type 0
IsConfigured agent allowed dir variables d c =
    (agent_text c ≡ (if is_truthy agent then some (str agent) else agent_text d))
    × (bodies_of c ≡ (if allowed then some (directory dir) else bodies_of d))
    × (timeout_text (section (codes "extensions") c)
        ≡ some (kept (str timeout_message) (timeout_text (section (codes "extensions") d))))
    × (recovery_text (section (codes "extensions") c) ≡ (
        if emits_recovery variables
        then some (kept (str recovery_message) (recovery_text (section (codes "extensions") d)))
        else recovery_text (section (codes "extensions") d)))

-- Over every configuration whose sections are dictionaries, where they are there: the executor gets
-- the agent's User-Agent if it has one, the directory for bodies if the job allows to save them, and
-- the agent's texts of events where the operator has none.
pub configure-IsConfigured :
    (agent : Text) (allowed : Bool) (dir : Text) (variables d : Members)
    → HasSections d
    → (c : Members) × (configure agent allowed dir variables d ≡ some c)
      × IsConfigured agent allowed dir variables d c
unfolding configure
configure-IsConfigured agent allowed dir variables d
      (executor, results, extensions, notify, recover) =
    let (c1, made1, said, same_result, same_ext) = set_user_agent_lem agent d executor in
    let (c2, made2, saved, same_exec, same_ext') =
      set_bodies_lem allowed dir c1 (subst (λ o. is_dict o ≡ true) (sym same_result) results) in
    let same = same_ext' ∙ same_ext in
    let recovery = emits_recovery variables in
    let (x, made3, (timeout, recovered)) =
      set_messages_lem recovery (section (codes "extensions") d) notify recover in
    let (c, made4, changed, others) =
      in_section-IsChanged (codes "extensions") (set_messages recovery) c2 x
        (subst (λ o. is_dict o ≡ true) (sym same) extensions)
        (subst (λ o. set_messages recovery (as_section o) ≡ some x) (sym same) made3) in
    let finish = in_section (codes "extensions") (set_messages recovery) in
    (
      c,
      ap (λ r. and_set (and_set r (set_bodies allowed dir)) finish) made1
          ∙ ap (λ r. and_set r finish) made2
          ∙ made4,
      (
        ap (λ o. find (codes "user_agent") (as_section o))
              (others (codes "executor") refl ∙ same_exec)
            ∙ said,
        ap (λ o. find (codes "bodies") (as_section o)) (others (codes "result") refl)
            ∙ saved
            ∙ ap
                (λ o.
                  if allowed then some (directory dir) else find (codes "bodies") (as_section o))
                same_result,
        ap timeout_text changed ∙ timeout,
        ap recovery_text changed ∙ recovered,
      ),
    )
