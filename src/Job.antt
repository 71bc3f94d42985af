-- ===== src/Job.antt =====
-- src/models/job.py: the run budget of an inbound job, and its sanitising validator.
--
-- A JSON value reaches the validator as Python's `json` decodes it: `Infinity` and a number too
-- large for a double are floats like any other. A finite float is a sign, a mantissa and a
-- number of binary places. Texts are ASCII: the non-ASCII digits and spaces that `int` accepts
-- too are not modelled.
pub mod Number
pub mod Budget
mod Tests
use tracedown_probe_agent.Base.{ℕ, Bool, Option, none, some, Text, if◌then◌else◌}
use tracedown_probe_agent.Int.{ℤ, pos, pos_part, ltb_ℤ, leb_ℤ}
use tracedown_probe_agent.Result.{Result, ok, err, ◌>>=◌}
use Number.{parse_int, truncate}

pub data Float : Type 0 where
  finite : Bool → ℕ → ℕ → Float
  infinity : Bool → Float
  nan : Float

pub data Value : Type 0 where
  null : Value
  bool : Bool → Value
  int : ℤ → Value
  float : Float → Value
  str : Text → Value
  array object : Value

-- What `int(value)` raises.
pub data IntError : Type 0 where
  type_error value_error overflow_error : IntError

-- `int(value)`
pub int_of : Value → Result IntError ℤ
int_of null = err type_error
int_of (bool b) = ok (pos (if b then 1 else 0))
int_of (int n) = ok n
int_of (float (finite sign m places)) = ok (truncate sign m places)
int_of (float (infinity sign)) = err overflow_error
int_of (float nan) = err value_error
int_of (str s) = elim (parse_int s) [ none ↦ err value_error | some n ↦ ok n ]
int_of array = err type_error
int_of object = err type_error

-- The `except` of `_as_int`: an error that it does not name goes on to the caller.
caught : Result IntError ℤ → Result IntError (Option ℤ)
caught (ok n) = ok (some n)
caught (err type_error) = ok none
caught (err value_error) = ok none
caught (err overflow_error) = err overflow_error

pub as_int : Value → Result IntError (Option ℤ)
unfolding caught int_of
as_int v = caught (int_of v)

abbrev pub min_run_timeout_ms : ℕ
min_run_timeout_ms = 1000

abbrev pub max_run_timeout_ms : ℕ
max_run_timeout_ms = 300000

pub clamp_budget : Option ℤ → Option ℕ
clamp_budget none = none
clamp_budget (some ms) =
    if leb_ℤ ms (pos 0)
    then none
    else if ltb_ℤ ms (pos min_run_timeout_ms)
    then some min_run_timeout_ms
    else if ltb_ℤ (pos max_run_timeout_ms) ms
    then some max_run_timeout_ms
    else some (pos_part ms)

-- `_sanitise_run_budget`
unfoldable pub sanitise_run_budget : Value → Result IntError (Option ℕ)
unfolding as_int clamp_budget
sanitise_run_budget null = ok none
sanitise_run_budget (bool b) = ok none
sanitise_run_budget v = do ms ← as_int v; ok (clamp_budget ms)
