-- ===== src/Wire/Counted.antt =====
-- The totals of `measure` against the record that `track` keeps: two counts of one run.
use mathlib.Core.Option.{map}
use tracedown_probe_agent.Base.{
  ℕ, suc, zero, ◌+◌, ◌≡◌, refl, ◌∙◌, sym, All, true, Option, none, some, List, [], ◌∷◌, length,
  get_elem?, arith,
}
use tracedown_probe_agent.Progress.{Event, Progress, sent, received, timed_out, step}
use tracedown_probe_agent.Progress.Accounting.{bytes_in, bytes_out, step-ingress, step-egress}
use tracedown_probe_agent.Wire.{
  Counter, Reader, plain, counting, Thread, Op, sends, opens, reads, marks, CallEnd, passed,
  timeout, raised, Chunk, bytes, other, on_event, on_end, count_sent, patched_send,
  patched_resp_init, count_received, counting_read, read_of, perform, perform_all, fresh_counter,
  measure, track, Totals, traced_run,
}

-- The hooks of run_progress count no bytes themselves.
abbrev pub CountsNothing : Op → Type 0
CountsNothing (marks e) = (bytes_in e ≡ 0) × (bytes_out e ≡ 0)
CountsNothing _ = Unit

-- A record that began at `p₀` has grown by what the counter holds.
abbrev pub IsLevel : Progress → Counter → Option Progress → Type 0
IsLevel p₀ c none = ⊥
IsLevel p₀ c (some p) =
    (c.active ≡ true) × (p.ingress ≡ p₀.ingress + c.ingress) × (p.egress ≡ p₀.egress + c.egress)

-- A record that began at `p₀` has grown by the totals.
abbrev pub IsTotal : Progress → Totals → Option Progress → Type 0
IsTotal p₀ t none = ⊥
IsTotal p₀ t (some p) = (p.ingress ≡ p₀.ingress + t.ingress) × (p.egress ≡ p₀.egress + t.egress)

abbrev Level : Progress → Thread → Type 0
Level p₀ th = IsLevel p₀ th.counter th.progress

on_event-Level :
    (p₀ : Progress) (e : Event) (c c' : Counter) (o : Option Progress)
    → c'.active ≡ c.active
    → c'.ingress ≡ c.ingress + bytes_in e
    → c'.egress ≡ c.egress + bytes_out e
    → IsLevel p₀ c o
    → IsLevel p₀ c' (map (λ p. step p e) o)
on_event-Level p₀ e c c' none same more_in more_out level = elim level [ ]
on_event-Level p₀ e c c' (some p) same more_in more_out (on, i, o) =
    (same ∙ on, omega (arith, step-ingress p e), omega (arith, step-egress p e))

on_end-Level :
    (p₀ : Progress) (ends : CallEnd) (th : Thread) → Level p₀ th → Level p₀ (on_end ends th)
unfolding on_end on_event
on_end-Level p₀ (timeout at kernel) th level =
    on_event-Level p₀ (timed_out at kernel) th.counter th.counter th.progress refl (omega arith)
      (omega arith) level
on_end-Level p₀ (passed n) th level = level
on_end-Level p₀ raised th level = level

Level-active :
    (p₀ : Progress) (c : Counter) (o : Option Progress) → IsLevel p₀ c o → c.active ≡ true
Level-active p₀ c none level = elim level [ ]
Level-active p₀ c (some p) level = level.0

IsLevel-IsTotal :
    (p₀ : Progress) (c : Counter) (o : Option Progress)
    → IsLevel p₀ c o
    → IsTotal p₀ (record { ingress = c.ingress; egress = c.egress }) o
IsLevel-IsTotal p₀ c none level = level
IsLevel-IsTotal p₀ c (some p) level = (level.1, level.2)

count_sent-Level :
    (p₀ : Progress) (now : ℕ) (chunk : Chunk) (th : Thread)
    → Level p₀ th
    → Level p₀ (count_sent now chunk th)
unfolding count_sent on_event
count_sent-Level p₀ now (bytes xs) th level = rw (Level-active p₀ th.counter th.progress level) (
    on_event-Level p₀ (sent now (length xs)) th.counter
      (record {
        active = true;
        ingress = th.counter.ingress;
        egress = th.counter.egress + length xs;
      })
      th.progress (sym (Level-active p₀ th.counter th.progress level)) (omega arith) refl level)
count_sent-Level p₀ now other th level = level

count_received-Level :
    (p₀ : Progress) (now n : ℕ) (th : Thread) → Level p₀ th → Level p₀ (count_received now n th)
unfolding count_received on_event
count_received-Level p₀ now zero th level = level
count_received-Level p₀ now (suc n) th level = rw (Level-active p₀ th.counter th.progress level) (
    on_event-Level p₀ (received now (suc n)) th.counter
      (record { active = true; ingress = th.counter.ingress + suc n; egress = th.counter.egress })
      th.progress (sym (Level-active p₀ th.counter th.progress level)) refl (omega arith) level)

read_of-Level :
    (p₀ : Progress) (reader : Option Reader) (now : ℕ) (ends : CallEnd) (th : Thread)
    → Level p₀ th
    → Level p₀ (read_of reader now ends th)
unfolding read_of counting_read
read_of-Level p₀ none now ends th level = level
read_of-Level p₀ (some plain) now ends th level = level
read_of-Level p₀ (some counting) now (passed n) th level = count_received-Level p₀ now n th level
read_of-Level p₀ (some counting) now (timeout at kernel) th level =
    on_end-Level p₀ (timeout at kernel) th level
read_of-Level p₀ (some counting) now raised th level = level

perform-Level :
    (p₀ : Progress) (o : Op) (th : Thread) → CountsNothing o → Level p₀ th → Level p₀ (perform o th)
unfolding perform patched_send patched_resp_init on_event
perform-Level p₀ (sends now chunk ends) th quiet level =
    on_end-Level p₀ ends (count_sent now chunk th) (count_sent-Level p₀ now chunk th level)
perform-Level p₀ (opens has_file) th quiet level = level
perform-Level p₀ (reads i now ends) th quiet level =
    read_of-Level p₀ (get_elem? th.readers i) now ends th level
perform-Level p₀ (marks e) th quiet level =
    on_event-Level p₀ e th.counter th.counter th.progress refl (omega (arith, quiet.0))
      (omega (arith, quiet.1)) level

perform_all-Level :
    (p₀ : Progress) (os : List Op) (th : Thread)
    → All CountsNothing os
    → Level p₀ th
    → Level p₀ (perform_all os th)
unfolding perform_all
perform_all-Level p₀ [] th quiet level = level
perform_all-Level p₀ (o ∷ os) th quiet level =
    perform_all-Level p₀ os (perform o th) quiet.1 (perform-Level p₀ o th quiet.0 level)

-- Of a run inside both blocks, on any thread and whatever its calls come to: the record is still
-- the thread's at its end, and has grown by exactly the totals that the result reports; and the
-- thread's own counter and record are as they were, also those of an enclosing measurement.
-- The condition is that the hooks of run_progress count no bytes of their own.
pub traced_run-totals :
    (p₀ : Progress) (os : List Op) (th : Thread)
    → All CountsNothing os
    → let ((kept, totals), th') = traced_run p₀ os th in
      IsTotal p₀ totals kept × (th'.counter ≡ th.counter) × (th'.progress ≡ th.progress)
unfolding traced_run measure track
traced_run-totals p₀ os th quiet =
    let begun : Thread = record th { counter = fresh_counter; progress = some p₀ } in
    (
      IsLevel-IsTotal p₀ (perform_all os begun).counter (perform_all os begun).progress
          (perform_all-Level p₀ os begun quiet (refl, omega arith, omega arith)),
      refl,
      refl,
    )
