-- ===== src/Tcp/Reading/Kernels.antt =====
-- What kernels of different ages give: a shorter struct leaves fields out, a longer one changes
-- none of the readings.
use tracedown_probe_agent.Base.{
  ℕ, zero, suc, ◌+◌, ◌≤◌, ◌<◌, ◌≡◌, refl, ◌≢◌, ◌↔◌, true, none, some, List, [], ◌∷◌, ◌++◌, length,
  length-append, arith,
}
use tracedown_probe_agent.Int.{pos}
use tracedown_probe_agent.Tcp.{Phase, endpoint, verdict}
use tracedown_probe_agent.Tcp.Verdicts.{verdict_endpoint_iff}
use tracedown_probe_agent.Tcp.Layout.{Slot, slot_end, code_size, offsets, slot_of, calcsize_from}
use tracedown_probe_agent.Tcp.Reading.{number_at, read_slot, read_field, decode, Kernel, read}

number_at_none : (raw : List ℕ) → number_at 0 0 raw ≡ 0
unfolding number_at
number_at_none [] = refl
number_at_none (b ∷ raw) = refl

number_at-append :
    (start size : ℕ) (raw more : List ℕ)
    → start + size ≤ length raw
    → number_at start size (raw ++ more) ≡ number_at start size raw
unfolding number_at
number_at-append zero zero [] more h = number_at_none more
number_at-append zero (suc size) [] more h = absurd (omega arith)
number_at-append (suc start) size [] more h = absurd (omega arith)
number_at-append (suc start) size (b ∷ raw) more h =
    number_at-append start size raw more (omega arith)
number_at-append zero zero (b ∷ raw) more h = refl
number_at-append zero (suc size) (b ∷ raw) more h =
    ground (arith, number_at-append zero size raw more (omega arith))

-- A field is left out exactly when the kernel's struct ends before the field does.
pub read_slot-none_iff :
    (raw : List ℕ) (s : Slot) → (read_slot raw s ≡ none) ↔ (length raw < slot_end s)
unfolding read_slot
read_slot-none_iff raw s = (λ h. ground arith, λ h. ground arith)

-- A field that was read reads the same from a longer struct with the same beginning.
pub read_slot-append :
    (raw more : List ℕ) (s : Slot) (n : ℕ)
    → read_slot raw s ≡ some n
    → read_slot (raw ++ more) s ≡ some n
unfolding read_slot
read_slot-append raw more s n h =
    ground (arith, length-append {0} raw more, number_at-append s.start (code_size s.code) raw more)

ooo_left_out : (raw : List ℕ) → length raw < 228 → (decode raw).rcv_ooopack ≡ none
unfolding decode read_slot offsets calcsize_from slot_of read_field
ooo_left_out raw h = ground arith

-- With a kernel whose struct ends before its count of out-of-order segments, at byte 228, no stall
-- is put down to the endpoint.
pub verdict_old_kernel :
    (phase : Phase) (kernel : Kernel) (fd : ℕ) (raw : List ℕ)
    → kernel fd ≡ some raw
    → length raw < 228
    → (verdict phase (read true kernel (pos fd))).0 ≢ endpoint
unfolding read
verdict_old_kernel phase kernel fd raw k h e =
    let (_, (_, _, (ooo, seen, _), _)) =
      (verdict_endpoint_iff phase (some (decode raw))).0 (rw k at e) in
    cc (seen, ooo_left_out raw h)
