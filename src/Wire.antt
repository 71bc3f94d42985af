-- ===== src/Wire.antt =====
-- src/services/wire_metrics.py, and of src/services/executor.py how `_run_sync` puts a run inside
-- `measure` and `track`: the bytes that one thread puts on and takes off the wire.
--
-- A wrapper hands on what the wrapped call returns or raises, so an operation here is the call with
-- its end, and its effect is the one on the thread: its counter, the record that it tracks, and the
-- readers of the responses it has opened. The other hooks of src/services/run_progress.py fall
-- between these operations as events. `measure` and `track` take the block as a function.
pub mod Counted
pub mod Restored
mod Tests
use mathlib.Core.Option.{map}
use tracedown_probe_agent.Base.{
  ℕ, zero, suc, ◌+◌, Bool, true, false, not, ◌&&◌, Option, none, some, List, [], ◌∷◌, ◌++◌, length,
  ◌==◌, if◌then◌else◌, get_elem?,
}
use tracedown_probe_agent.Progress.{Event, Progress, sent, received, timed_out, step}
use tracedown_probe_agent.Tcp.Reading.{Kernel}

-- `_Counter`
pub record Counter : Type 0 where
  pub active : Bool
  pub ingress : ℕ
  pub egress : ℕ

-- A response's file object: as it is, or in `_CountingReader`.
pub data Reader : Type 0 where
  plain counting : Reader

-- The thread's locals (`_local` of both modules) and its open responses.
pub record Thread : Type 0 where
  pub counter : Counter
  pub progress : Option Progress
  pub readers : List Reader

-- What `send` is given: bytes, or a file or an iterable.
pub data Chunk : Type 0 where
  bytes : List ℕ → Chunk
  other : Chunk

-- The end of a wrapped call: it passes (`read` and `readline` with data of a length, `readinto` with
-- a number), TimeoutError with the clock and the kernel's answer, another exception.
pub data CallEnd : Type 0 where
  passed : ℕ → CallEnd
  timeout : ℕ → Kernel → CallEnd
  raised : CallEnd

pub data Op : Type 0 where
  -- `HTTPConnection.send`, at a reading of the clock
  sends : ℕ → Chunk → CallEnd → Op
  -- `HTTPResponse.__init__`, which leaves a file object or none
  opens : Bool → Op
  -- `read`, `readline` or `readinto` of a response's reader
  reads : ℕ → ℕ → CallEnd → Op
  -- a hook of run_progress
  marks : Event → Op

-- A hook of run_progress, on the record that `_current()` gives.
unfoldable pub on_event : Event → Thread → Thread
on_event e th = record th { progress = map (λ p. step p e) th.progress }

-- `except TimeoutError: run_progress.on_timeout()`
unfoldable pub on_end : CallEnd → Thread → Thread
unfolding on_event
on_end (timeout at kernel) th = on_event (timed_out at kernel) th
on_end _ th = th

-- `patched_send`, up to the call: what it counts.
unfoldable pub count_sent : ℕ → Chunk → Thread → Thread
unfolding on_event
count_sent now (bytes chunk) th =
    if th.counter.active
    then on_event (sent now (length chunk))
        (record th { counter = record th.counter { egress = th.counter.egress + length chunk } })
    else th
count_sent now other th = th

unfoldable pub patched_send : ℕ → Chunk → CallEnd → Thread → Thread
unfolding count_sent on_end
patched_send now chunk ends th = on_end ends (count_sent now chunk th)

unfoldable pub patched_resp_init : Bool → Thread → Thread
patched_resp_init has_file th = record th {
  readers = th.readers ++ (if th.counter.active && has_file then counting else plain) ∷ [];
}

-- What a counting reader tallies behind the call.
unfoldable pub count_received : ℕ → ℕ → Thread → Thread
unfolding on_event
count_received now zero th = th
count_received now (suc n) th =
    let th' = on_event (received now (suc n)) th in
    if th'.counter.active
    then record th' { counter = record th'.counter { ingress = th'.counter.ingress + suc n } }
    else th'

-- `read`, `readline` and `readinto` of `_CountingReader`
unfoldable pub counting_read : ℕ → CallEnd → Thread → Thread
unfolding count_received on_end
counting_read now (passed n) th = count_received now n th
counting_read now ends th = on_end ends th

-- A read of the response's reader, whichever it is.
unfoldable pub read_of : Option Reader → ℕ → CallEnd → Thread → Thread
unfolding counting_read
read_of (some counting) now ends th = counting_read now ends th
read_of _ now ends th = th

unfoldable pub perform : Op → Thread → Thread
unfolding patched_send patched_resp_init read_of on_event
perform (sends now chunk ends) th = patched_send now chunk ends th
perform (opens has_file) th = patched_resp_init has_file th
perform (reads i now ends) th = read_of (get_elem? th.readers i) now ends th
perform (marks e) th = on_event e th

unfoldable pub perform_all : List Op → Thread → Thread
unfolding perform
perform_all [] th = th
perform_all (o ∷ os) th = perform_all os (perform o th)

-- `_Result`
pub record Totals : Type 0 where
  pub ingress : ℕ
  pub egress : ℕ

-- What `measure` sets a thread's counter to.
abbrev pub fresh_counter : Counter
fresh_counter = record { active = true; ingress = 0; egress = 0 }

-- `measure` around a block.
unfoldable pub measure {ℓ} : {A : Type ℓ} → (Thread → A × Thread) → Thread → (A × Totals) × Thread
measure body th =
    let (a, th') = body (record th { counter = fresh_counter }) in
    (
      (a, record { ingress = th'.counter.ingress; egress = th'.counter.egress }),
      record th' { counter = th.counter },
    )

-- `track` around a block, with the record as the block leaves it.
unfoldable pub track : Progress → (Thread → Thread) → Thread → Option Progress × Thread
track p body th =
    let th' = body (record th { progress = some p }) in
    (th'.progress, record th' { progress = th.progress })

-- The run of `_run_sync`: inside both, with what it leaves in its record and the totals of its
-- result.
unfoldable pub traced_run : Progress → List Op → Thread → (Option Progress × Totals) × Thread
unfolding measure track perform_all
traced_run p os th = measure (track p (perform_all os)) th
