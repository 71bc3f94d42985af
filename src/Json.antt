-- ===== src/Json.antt =====
-- JSON values as Python's `json` decodes them, and the dictionaries that the agent reads.
use tracedown_probe_agent.Base.{
  ◌^◌, Bool, true, false, not, ◌&&◌, Option, none, some, ◌∷◌, Text, ◌==◌, if◌then◌else◌,
}
use tracedown_probe_agent.Int.{ℤ, pos}
use tracedown_probe_agent.Job.{Float, finite}
use tracedown_probe_agent.Bytes.{text_eq}

mutual
  pub data Json : Type 0 where
    null : Json
    bool : Bool → Json
    int : ℤ → Json
    float : Float → Json
    str : Text → Json
    array : Items → Json
    object : Members → Json

  pub data Items : Type 0 where
    nil : Items
    cons : Json → Items → Items

  pub data Members : Type 0 where
    empty : Members
    member : Text → Json → Members → Members

-- `d.get(key)`, none where the key is missing.
unfoldable pub find : Text → Members → Option Json
find key empty = none
find key (member k v rest) = if text_eq k key then some v else find key rest

-- `key in d`
abbrev pub has_key : Text → Members → Bool
has_key key d = elim (find key d) [ none ↦ false | some v ↦ true ]

-- `d` without the key, as `d.pop(key, None)` leaves it.
unfoldable pub without : Text → Members → Members
without key empty = empty
without key (member k v rest) =
    let others = without key rest in if text_eq k key then others else member k v others

-- `value == 1` for Python's numbers: `true` and `1.0` are equal to 1.
abbrev pub is_one : Json → Bool
is_one (bool b) = b
is_one (int (pos n)) = n == 1
is_one (float (finite sign mantissa places)) = not sign && mantissa == 2 ^ places
is_one _ = false

-- `value == text`
abbrev pub is_text : Text → Option Json → Bool
is_text t (some (str s)) = text_eq s t
is_text t _ = false

-- A value that Python takes for true, of those that the agent tests so.
abbrev pub nonempty_text : Option Json → Option Text
nonempty_text (some (str (c ∷ s))) = some (c ∷ s)
nonempty_text _ = none
