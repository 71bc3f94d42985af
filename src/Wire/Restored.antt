-- ===== src/Wire/Restored.antt =====
-- The thread's counter where no measurement is active.
use tracedown_probe_agent.Base.{
  ℕ, suc, zero, ◌≡◌, refl, ap, ◌∙◌, false, Option, none, some, List, [], ◌∷◌, get_elem?, arith,
}
use tracedown_probe_agent.Wire.{
  Reader, plain, counting, Thread, Op, sends, opens, reads, marks, CallEnd, passed, timeout, raised,
  Chunk, bytes, other, on_event, on_end, count_sent, patched_send, patched_resp_init,
  count_received, counting_read, read_of, perform, perform_all,
}

on_end-counter : (ends : CallEnd) (th : Thread) → (on_end ends th).counter ≡ th.counter
unfolding on_end on_event
on_end-counter (timeout at kernel) th = refl
on_end-counter (passed n) th = refl
on_end-counter raised th = refl

count_sent-counter :
    (now : ℕ) (chunk : Chunk) (th : Thread)
    → th.counter.active ≡ false
    → (count_sent now chunk th).counter ≡ th.counter
unfolding count_sent on_event
count_sent-counter now (bytes xs) th off = ground arith
count_sent-counter now other th off = refl

count_received-counter :
    (now n : ℕ) (th : Thread)
    → th.counter.active ≡ false
    → (count_received now n th).counter ≡ th.counter
unfolding count_received on_event
count_received-counter now zero th off = refl
count_received-counter now (suc n) th off = ground arith

read_of-counter :
    (reader : Option Reader) (now : ℕ) (ends : CallEnd) (th : Thread)
    → th.counter.active ≡ false
    → (read_of reader now ends th).counter ≡ th.counter
unfolding read_of counting_read
read_of-counter none now ends th off = refl
read_of-counter (some plain) now ends th off = refl
read_of-counter (some counting) now (passed n) th off = count_received-counter now n th off
read_of-counter (some counting) now (timeout at kernel) th off =
    on_end-counter (timeout at kernel) th
read_of-counter (some counting) now raised th off = on_end-counter raised th

-- No operation changes a counter that is not active.
perform-counter :
    (o : Op) (th : Thread) → th.counter.active ≡ false → (perform o th).counter ≡ th.counter
unfolding perform patched_send patched_resp_init on_event
perform-counter (sends now chunk ends) th off =
    on_end-counter ends (count_sent now chunk th) ∙ count_sent-counter now chunk th off
perform-counter (opens has_file) th off = refl
perform-counter (reads i now ends) th off = read_of-counter (get_elem? th.readers i) now ends th off
perform-counter (marks e) th off = refl

-- What a thread does outside every measurement is counted nowhere.
pub perform_all-counter :
    (os : List Op) (th : Thread)
    → th.counter.active ≡ false
    → (perform_all os th).counter ≡ th.counter
unfolding perform_all
perform_all-counter [] th off = refl
perform_all-counter (o ∷ os) th off =
    let kept = perform-counter o th off in
    perform_all-counter os (perform o th) (ap (λ c. c.active) kept ∙ off) ∙ kept
