-- ===== src/Tcp.antt =====
-- src/services/tcp_state.py: the kernel's record of a connection and what is read from it.
--
-- `_STATES` names five states; any other is kept as its number. The share `segs * 0.01` is
-- compared in floats there and as 100 * ooo here: for the kernel's 32-bit counts the two agree.
pub mod Layout
pub mod Verdicts
pub mod Reading
pub mod Reach
mod Tests
use tracedown_probe_agent.Base.{
  ℕ, zero, ◌*◌, Bool, true, false, ◌||◌, ◌&&◌, Option, none, some, leb, ltb, if◌then◌else◌, ◌==◌,
}

-- Where a run can be, as src/services/run_progress.py names it.
pub data Phase : Type 0 where
  starting between_requests resolving connecting tls_handshake sending awaiting_response : Phase
  receiving storing_bodies : Phase

pub data State : Type 0 where
  established syn_sent fin_wait1 close close_wait : State
  numbered : ℕ → State

-- What is kept of `struct tcp_info`; a field that the kernel did not fill is none.
pub record TcpInfo : Type 0 where
  pub state : Option State
  pub retransmits : Option ℕ
  pub backoff : Option ℕ
  pub unacked : Option ℕ
  pub lost : Option ℕ
  pub total_retrans : Option ℕ
  pub rtt : Option ℕ
  pub min_rtt : Option ℕ
  pub last_data_recv : Option ℕ
  pub last_ack_recv : Option ℕ
  pub bytes_received : Option ℕ
  pub data_segs_in : Option ℕ
  pub rcv_ooopack : Option ℕ
  pub dsack_dups : Option ℕ

-- `x or 0`
abbrev pub or_zero : Option ℕ → ℕ
or_zero none = 0
or_zero (some n) = n

abbrev ooo_min : ℕ
ooo_min = 2

-- `_OOO_SHARE` is one in this many.
abbrev ooo_share_inverse : ℕ
ooo_share_inverse = 100

pub out_of_order : Option ℕ → ℕ → Option Bool
out_of_order none segs = none
out_of_order (some ooo) segs = some (leb ooo_min ooo && leb segs (ooo * ooo_share_inverse))

-- `lossy`; none where it cannot tell.
unfoldable pub lossy : TcpInfo → Option Bool
unfolding out_of_order
lossy tcp =
    if ltb 0 (or_zero tcp.total_retrans) || ltb 0 (or_zero tcp.retransmits)
    then some true
    else out_of_order tcp.rcv_ooopack (or_zero tcp.data_segs_in)

abbrev pub in_wire_phases : Phase → Bool
in_wire_phases connecting = true
in_wire_phases tls_handshake = true
in_wire_phases sending = true
in_wire_phases awaiting_response = true
in_wire_phases receiving = true
in_wire_phases _ = false

abbrev pub in_agent_phases : Phase → Bool
in_agent_phases between_requests = true
in_agent_phases storing_bodies = true
in_agent_phases _ = false

abbrev pub is_resolving : Phase → Bool
is_resolving resolving = true
is_resolving _ = false

abbrev pub is_connecting : Phase → Bool
is_connecting connecting = true
is_connecting _ = false

abbrev pub is_syn_sent : Option State → Bool
is_syn_sent (some syn_sent) = true
is_syn_sent _ = false

pub data Verdict : Type 0 where
  endpoint network agent unknown : Verdict

-- The text beside a verdict, a constructor for each `return`, and the one of an unobserved timeout
-- (src/services/executor.py).
pub data Reason : Type 0 where
  own_work not_resolved no_state never_accepted losing_packets loss_not_reported : Reason
  not_yet_acknowledged all_acknowledged not_observed : Reason

-- From `loss = lossy(tcp)` on.
pub judge_loss : Option Bool → ℕ → Verdict × Reason
judge_loss (some true) unacked = (network, losing_packets)
judge_loss none unacked = (unknown, loss_not_reported)
judge_loss (some false) unacked =
    if ltb 0 unacked then (unknown, not_yet_acknowledged) else (endpoint, all_acknowledged)

pub judge_connection : Phase → TcpInfo → Verdict × Reason
unfolding judge_loss
judge_connection phase tcp =
    if is_connecting phase || is_syn_sent tcp.state
    then (network, never_accepted)
    else judge_loss (lossy tcp) (or_zero tcp.unacked)

pub judge_state : Phase → Option TcpInfo → Verdict × Reason
unfolding judge_connection
judge_state phase none = (unknown, no_state)
judge_state phase (some tcp) =
    if in_wire_phases phase then judge_connection phase tcp else (unknown, no_state)

-- `verdict`
unfoldable pub verdict : Phase → Option TcpInfo → Verdict × Reason
unfolding judge_state
verdict phase tcp =
    if in_agent_phases phase
    then (agent, own_work)
    else if is_resolving phase
    then (network, not_resolved)
    else judge_state phase tcp
