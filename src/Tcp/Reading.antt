-- ===== src/Tcp/Reading.antt =====
-- src/services/tcp_state.py, `read`: the kernel's bytes become a `TcpInfo`. The descriptor's
-- duplicate and `getsockopt` are the system's: their result is an argument, none for an OSError.
-- Numbers are little-endian, as on the machines that the agent's images are built for.
pub mod Kernels
use tracedown_probe_agent.Base.{
  ℕ, zero, suc, ◌+◌, ◌*◌, ◌/◌, ◌≤◌, ◌<◌, ◌≡◌, refl, Bool, true, false, ◌&&◌, String, Option, none,
  some, List, [], ◌∷◌, ◌++◌, length, leb, if◌then◌else◌, Option-cases, ◌==◌, Bool-cases, inl, inr,
}
use tracedown_probe_agent.Int.{ℤ, pos, negsuc}
use tracedown_probe_agent.Tcp.{
  State, established, syn_sent, fin_wait1, close, close_wait, numbered, TcpInfo,
}
use tracedown_probe_agent.Tcp.Layout.{Slot, slot_end, code_size, offsets, slot_of}

-- `int.from_bytes(raw[start:start + size], "little")`
pub number_at : ℕ → ℕ → List ℕ → ℕ
number_at start size [] = 0
number_at (suc start) size (b ∷ raw) = number_at start size raw
number_at zero zero (b ∷ raw) = 0
number_at zero (suc size) (b ∷ raw) = b + 256 * number_at 0 size raw

-- `struct.unpack_from("@" + code, raw, start)[0] if len(raw) >= end else None`
unfoldable pub read_slot : List ℕ → Slot → Option ℕ
unfolding number_at
read_slot raw s =
    if leb (slot_end s) (length raw) then some (number_at s.start (code_size s.code) raw) else none

pub read_field : List ℕ → String → Option ℕ
read_field raw name = elim (slot_of name offsets) [ none ↦ none | some s ↦ read_slot raw s ]

-- `info[name] //= 1000`
pub milliseconds : Option ℕ → Option ℕ
milliseconds none = none
milliseconds (some n) = some (n / 1000)

pub named_state : ℕ → State
named_state n =
    if n == 1
    then established
    else if n == 2
    then syn_sent
    else if n == 4
    then fin_wait1
    else if n == 7
    then close
    else if n == 8
    then close_wait
    else numbered n

pub state_of : Option ℕ → Option State
unfolding named_state
state_of none = none
state_of (some n) = some (named_state n)

-- The part of `read` behind `getsockopt`.
pub decode : List ℕ → TcpInfo
unfolding read_field milliseconds state_of
decode raw = record {
  state = state_of (read_field raw "state");
  retransmits = read_field raw "retransmits";
  backoff = read_field raw "backoff";
  unacked = read_field raw "unacked";
  lost = read_field raw "lost";
  total_retrans = read_field raw "total_retrans";
  rtt = milliseconds (read_field raw "rtt");
  min_rtt = milliseconds (read_field raw "min_rtt");
  last_data_recv = read_field raw "last_data_recv";
  last_ack_recv = read_field raw "last_ack_recv";
  bytes_received = read_field raw "bytes_received";
  data_segs_in = read_field raw "data_segs_in";
  rcv_ooopack = read_field raw "rcv_ooopack";
  dsack_dups = read_field raw "dsack_dups";
}

-- What `getsockopt` gives for a descriptor, none where a call raises OSError.
abbrev pub Kernel : Type 0
Kernel = ℕ → Option (List ℕ)

-- `read`: none without `TCP_INFO` and for a negative descriptor.
unfoldable pub read : Bool → Kernel → ℤ → Option TcpInfo
unfolding decode
read has_tcp_info kernel (negsuc n) = none
read has_tcp_info kernel (pos fd) =
    if has_tcp_info then elim (kernel fd) [ none ↦ none | some raw ↦ some (decode raw) ] else none
