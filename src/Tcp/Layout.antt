-- ===== src/Tcp/Layout.antt =====
-- src/services/tcp_state.py: `_FIELDS`, `_offsets` and `_SIZE`, with the part of `struct.calcsize`
-- that they use (native alignment; the codes B, I and Q of 1, 4 and 8 bytes).
pub mod Aligned
use tracedown_probe_agent.Base.{
  ℕ, ◌+◌, ◌-◌, ◌*◌, ◌/◌, max, String, Option, none, some, List, [], ◌∷◌, ◌++◌, if◌then◌else◌,
}
use text.Mathlib.Text.{◌==◌ as str_eq}

pub data Code : Type 0 where
  byte word quad : Code

-- `struct.calcsize(code)`
abbrev pub code_size : Code → ℕ
code_size byte = 1
code_size word = 4
code_size quad = 8

-- The next multiple of `k` from `n` on.
abbrev pub align : ℕ → ℕ → ℕ
align n k = (n + (k - 1)) / k * k

-- `struct.calcsize("@" + fmt)`, from a size that is already laid out.
unfoldable pub calcsize_from : ℕ → List Code → ℕ
calcsize_from n [] = n
calcsize_from n (c ∷ fmt) = calcsize_from (align n (code_size c) + code_size c) fmt

unfoldable pub calcsize : List Code → ℕ
unfolding calcsize_from
calcsize fmt = calcsize_from 0 fmt

-- A field of the struct with its offset.
pub record Slot : Type 0 where
  pub name : String
  pub start : ℕ
  pub code : Code

abbrev pub slot_end : Slot → ℕ
slot_end s = s.start + code_size s.code

-- The loop of `_offsets`, from the format so far.
unfoldable pub offsets_from : List Code → List (String × Code) → List Slot
offsets_from fmt [] = []
offsets_from fmt ((name, code) ∷ fields) =
    record { name = name; start = calcsize (fmt ++ code ∷ []) - code_size code; code = code }
    ∷ offsets_from (fmt ++ code ∷ []) fields

abbrev coded : Code → List String → List (String × Code)
coded c [] = []
coded c (name ∷ names) = (name, c) ∷ coded c names

-- `_FIELDS`
abbrev pub fields : List (String × Code)
fields =
    coded byte (
      "state" ∷ "ca_state" ∷ "retransmits" ∷ "probes" ∷ "backoff" ∷ "options" ∷ "wscale" ∷ "flags"
      ∷ [])
    ++ (coded word (
          "rto" ∷ "ato" ∷ "snd_mss" ∷ "rcv_mss" ∷ "unacked" ∷ "sacked" ∷ "lost" ∷ "retrans"
          ∷ "fackets" ∷ "last_data_sent" ∷ "last_ack_sent" ∷ "last_data_recv" ∷ "last_ack_recv"
          ∷ "pmtu" ∷ "rcv_ssthresh" ∷ "rtt" ∷ "rttvar" ∷ "snd_ssthresh" ∷ "snd_cwnd" ∷ "advmss"
          ∷ "reordering" ∷ "rcv_rtt" ∷ "rcv_space" ∷ "total_retrans" ∷ [])
        ++ (coded quad ("pacing_rate" ∷ "max_pacing_rate" ∷ "bytes_acked" ∷ "bytes_received" ∷ [])
            ++ (coded word (
                  "segs_out" ∷ "segs_in" ∷ "notsent_bytes" ∷ "min_rtt" ∷ "data_segs_in"
                  ∷ "data_segs_out" ∷ [])
                ++ (coded quad
                      ("delivery_rate" ∷ "busy_time" ∷ "rwnd_limited" ∷ "sndbuf_limited" ∷ [])
                    ++ (coded word ("delivered" ∷ "delivered_ce" ∷ [])
                        ++ (coded quad ("bytes_sent" ∷ "bytes_retrans" ∷ [])
                            ++ coded word ("dsack_dups" ∷ "reord_seen" ∷ "rcv_ooopack" ∷ [])))))))

-- `_offsets()`
unfoldable pub offsets : List Slot
unfolding offsets_from calcsize
offsets = offsets_from [] fields

-- `max(start + calcsize(code) for …)`
unfoldable pub size_of : List Slot → ℕ
size_of [] = 0
size_of (s ∷ slots) = max (slot_end s) (size_of slots)

-- `_OFFSETS[name]`
unfoldable pub slot_of : String → List Slot → Option Slot
slot_of name [] = none
slot_of name (s ∷ slots) = if str_eq s.name name then some s else slot_of name slots
