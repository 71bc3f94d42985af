-- ===== src/Execution.antt =====
-- `_run_sync` of src/services/executor.py up to the run: the extensions that a job's variables
-- choose, and the settings that the executor of the job is given.
--
-- The executor's own configuration, from the operator's lace.config, is the argument that the
-- settings are put into.
pub mod Dicts
pub mod Configured
pub mod Synchronous
pub mod Guarded
pub mod Reported
mod Tests
use tracedown_probe_agent.Base.{
  Bool, true, false, not, Option, none, some, List, [], ◌∷◌, ◌++◌, Text, codes, if◌then◌else◌,
}
use tracedown_probe_agent.Bytes.{text_eq}
use tracedown_probe_agent.Config.{is_truthy}
use tracedown_probe_agent.Json.{Json, str, object, Members, empty, member, find, is_text}
use tracedown_probe_agent.Expired.{service_prefix}

-- `active_extensions`
unfoldable pub tracks_baseline : Members → Bool
tracks_baseline variables = is_text (codes "true") (find (codes "trackBaseline") variables)

unfoldable pub emits_recovery : Members → Bool
emits_recovery variables = not (is_text (codes "false") (find (codes "notifyRecovery") variables))

unfoldable pub active_extensions : Members → List Text
unfolding tracks_baseline emits_recovery
active_extensions variables =
    codes "laceNotifications"
      ∷ (if tracks_baseline variables then codes "laceBaseline" ∷ [] else [])
    ++ (if emits_recovery variables then codes "laceEmitRecovery" ∷ [] else [])

-- `d[key] = value`
unfoldable pub set_item : Text → Json → Members → Members
set_item key v empty = member key v empty
set_item key v (member k w rest) =
    let others = set_item key v rest in if text_eq k key then member k v rest else member k w others

-- `d.setdefault(key, value)`
abbrev pub defaulted : Text → Json → Members → Option Json → Members
defaulted key v d none = set_item key v d
defaulted key v d (some w) = d

unfoldable pub set_default : Text → Json → Members → Members
unfolding set_item
set_default key v d = defaulted key v d (find key d)

abbrev pub put_section : Text → Members → Option Members → Option Members
put_section key d none = none
put_section key d (some m) = some (set_item key (object m) d)

abbrev pub change_section :
    Text → (Members → Option Members) → Members → Option Json → Option Members
change_section key change d (some (object m)) = put_section key d (change m)
change_section key change d _ = none

-- What is done to `d.setdefault(key, {})`; none where that is no dictionary, and the call raises.
unfoldable pub in_section : Text → (Members → Option Members) → Members → Option Members
unfolding set_default
in_section key change d =
    let d' = set_default key (object empty) d in change_section key change d' (find key d')

abbrev pub timeout_message : Text
timeout_message = service_prefix ++ codes " call to ${url} timed out"

abbrev pub recovery_message : Text
recovery_message = service_prefix ++ codes " recovered"

unfoldable pub set_user_agent : Text → Members → Option Members
unfolding in_section
set_user_agent agent config =
    if is_truthy agent
    then in_section (codes "executor") (λ m. some (set_item (codes "user_agent") (str agent) m))
        config
    else some config

-- `executor._config["result"]`, with the directory for bodies where the job allows to save them.
unfoldable pub set_bodies : Bool → Text → Members → Option Members
unfolding in_section
set_bodies allowed dir config =
    if allowed
    then in_section (codes "result")
        (λ m. some (set_item (codes "bodies") (object (member (codes "dir") (str dir) empty)) m))
        config
    else some (set_default (codes "result") (object empty) config)

unfoldable pub set_timeout_message : Members → Option Members
unfolding in_section
set_timeout_message =
    in_section (codes "laceNotifications")
      λ m. some (set_default (codes "timeout_message") (str timeout_message) m)

unfoldable pub set_recovery_message : Bool → Members → Option Members
unfolding in_section
set_recovery_message recovery extensions =
    if recovery
    then in_section (codes "laceEmitRecovery")
        (λ m. some (set_default (codes "recovery_message") (str recovery_message) m)) extensions
    else some extensions

-- One setting behind another, which may have raised.
abbrev pub and_set : Option Members → (Members → Option Members) → Option Members
and_set none set = none
and_set (some c) set = set c

unfoldable pub set_messages : Bool → Members → Option Members
unfolding set_timeout_message set_recovery_message
set_messages recovery extensions =
    and_set (set_timeout_message extensions) (set_recovery_message recovery)

-- The executor's configuration as `_run_sync` leaves it; none where a section of it is no dictionary.
unfoldable pub configure : Text → Bool → Text → Members → Members → Option Members
unfolding set_user_agent set_bodies set_messages emits_recovery
configure agent allowed dir variables config =
    and_set (and_set (set_user_agent agent config) (set_bodies allowed dir))
      (in_section (codes "extensions") (set_messages (emits_recovery variables)))
