-- ===== src/Tcp/Verdicts.antt =====
-- When a stall is put down to the endpoint, to the path and to the agent.
use tracedown_probe_agent.Base.{
  ℕ, ◌<◌, ◌≤◌, ◌*◌, ◌≡◌, refl, sym, ap, ◌∙◌, inl, inr, ◌≢◌, ◌↔◌, ◌⊎◌, Bool-cases, ltb, ◌||◌, Bool,
  true, false, Option, none, some, arith,
}
use tracedown_probe_agent.Tcp.{
  Phase, starting, between_requests, resolving, connecting, tls_handshake, sending,
  awaiting_response, receiving, storing_bodies, State, syn_sent, TcpInfo, or_zero, lossy,
  out_of_order, judge_loss, judge_connection, judge_state, in_wire_phases, is_syn_sent,
  is_connecting, verdict, Verdict, Reason, endpoint, network, agent,
}

-- The phases in which a connection is there and the peer's TCP answers.
abbrev pub IsConnected : Phase → Type 0
IsConnected tls_handshake = Unit
IsConnected sending = Unit
IsConnected awaiting_response = Unit
IsConnected receiving = Unit
IsConnected _ = ⊥

-- Nothing was sent twice.
abbrev pub SentOnce : TcpInfo → Type 0
SentOnce tcp = (or_zero tcp.total_retrans ≡ 0) × (or_zero tcp.retransmits ≡ 0)

-- Segments came out of order: two at least, and one in a hundred of those received.
abbrev pub OutOfOrder : TcpInfo → ℕ → Type 0
OutOfOrder tcp ooo = (2 ≤ ooo) × (or_zero tcp.data_segs_in ≤ ooo * 100)

-- The count of out-of-order segments is reported, and small.
abbrev pub InOrder : TcpInfo → Type 0
InOrder tcp = (ooo : ℕ) × (tcp.rcv_ooopack ≡ some ooo) × ¬ OutOfOrder tcp ooo

ooo_false :
    (o : Option ℕ) (segs : ℕ)
    → (out_of_order o segs ≡ some false)
      ↔ ((ooo : ℕ) × (o ≡ some ooo) × ¬ ((2 ≤ ooo) × (segs ≤ ooo * 100)))
unfolding out_of_order
ooo_false none segs = (λ h. cc h, λ h. cc h.1)
ooo_false (some ooo) segs = (λ h. (ooo, refl, λ k. ground arith), λ (n, e, k). ground arith)

ooo_true :
    (o : Option ℕ) (segs : ℕ)
    → (out_of_order o segs ≡ some true)
      ↔ ((ooo : ℕ) × (o ≡ some ooo) × ((2 ≤ ooo) × (segs ≤ ooo * 100)))
unfolding out_of_order
ooo_true none segs = (λ h. cc h, λ h. cc h.1)
ooo_true (some ooo) segs =
    (λ h. (ooo, refl, (ground arith, ground arith)), λ (n, e, k). ground arith)

sent_once :
    (tcp : TcpInfo)
    → SentOnce tcp
    → lossy tcp ≡ out_of_order tcp.rcv_ooopack (or_zero tcp.data_segs_in)
unfolding lossy
sent_once tcp (h, k) = rw (h, k)

-- The path lost nothing exactly when nothing was sent twice and what arrived was in order.
lossy-false_iff : (tcp : TcpInfo) → (lossy tcp ≡ some false) ↔ (SentOnce tcp × InOrder tcp)
lossy-false_iff tcp = (
  λ h.
      let once : SentOnce tcp = unfold lossy in (ground arith, ground arith) in
      (once, (ooo_false _ _).0 (sym (sent_once tcp once) ∙ h)),
  λ (once, order). sent_once tcp once ∙ (ooo_false _ _).1 order,
)

-- Some segment was sent twice, or the count of out-of-order segments is not small.
abbrev pub LostSome : TcpInfo → Type 0
LostSome tcp =
    (0 < or_zero tcp.total_retrans)
    ⊎ (0 < or_zero tcp.retransmits)
    ⊎ ((ooo : ℕ) × (tcp.rcv_ooopack ≡ some ooo) × OutOfOrder tcp ooo)

resent_cases : (a b : ℕ) {P : Type 0} → (ltb 0 a || ltb 0 b) ≡ true → (0 < a) ⊎ (0 < b) ⊎ P
resent_cases a b h = elim (Bool-cases (ltb 0 a)) [
  | inl e ↦ inl (ground arith)
  | inr e ↦ inr (inl (ground arith))
]

not_resent :
    (tcp : TcpInfo)
    → SentOnce tcp
    → LostSome tcp
    → (ooo : ℕ) × (tcp.rcv_ooopack ≡ some ooo) × OutOfOrder tcp ooo
not_resent tcp once (inl h) = absurd (omega arith)
not_resent tcp once (inr (inl h)) = absurd (omega arith)
not_resent tcp once (inr (inr h)) = h

lossy-true_iff : (tcp : TcpInfo) → (lossy tcp ≡ some true) ↔ LostSome tcp
lossy-true_iff tcp =
    elim (Bool-cases (ltb 0 (or_zero tcp.total_retrans) || ltb 0 (or_zero tcp.retransmits))) [
      | inl e ↦ (λ _. resent_cases _ _ e, λ _. unfold lossy in rw e)
      | inr e ↦
          let once : SentOnce tcp = (ground arith, ground arith) in
          (
            λ h. inr (inr ((ooo_true _ _).0 (sym (sent_once tcp once) ∙ h))),
            λ l. sent_once tcp once ∙ (ooo_true _ _).1 (not_resent tcp once l),
          )
    ]

judge_loss_endpoint :
    (loss : Option Bool) (unacked : ℕ)
    → ((judge_loss loss unacked).0 ≡ endpoint) ↔ ((loss ≡ some false) × (unacked ≡ 0))
unfolding judge_loss
judge_loss_endpoint none u = (λ h. cc h, λ h. cc h.0)
judge_loss_endpoint (some true) u = (λ h. cc h, λ h. cc h.0)
judge_loss_endpoint (some false) u = (λ h. (refl, ground arith), λ h. ground arith)

judge_loss_network :
    (loss : Option Bool) (unacked : ℕ)
    → ((judge_loss loss unacked).0 ≡ network) ↔ (loss ≡ some true)
unfolding judge_loss
judge_loss_network none u = (λ h. cc h, λ h. cc h)
judge_loss_network (some true) u = (λ h. refl, λ h. refl)
judge_loss_network (some false) u = (λ h. ground arith, λ h. ground arith)

is_syn_sent_iff : (s : Option State) → (is_syn_sent s ≡ true) ↔ (s ≡ some syn_sent)
is_syn_sent_iff (some syn_sent) = (λ _. refl, λ _. refl)
is_syn_sent_iff none = (λ h. cc h, λ h. cc h)
is_syn_sent_iff (some _) = (λ h. cc h, λ h. cc h)

-- What the endpoint's verdict says of the connection.
abbrev SilentPeer : TcpInfo → Type 0
SilentPeer tcp =
    (tcp.state ≢ some syn_sent) × SentOnce tcp × InOrder tcp × (or_zero tcp.unacked ≡ 0)

connection_endpoint :
    (phase : Phase) (tcp : TcpInfo)
    → is_connecting phase ≡ false
    → ((judge_connection phase tcp).0 ≡ endpoint) ↔ SilentPeer tcp
unfolding judge_connection
connection_endpoint phase tcp up = elim (Bool-cases (is_syn_sent tcp.state)) [
  | inl e ↦ rw (up, e) (λ h. cc h, λ h. absurd (h.0 ((is_syn_sent_iff tcp.state).0 e)))
  | inr e ↦
      rw (up, e)
        (
          λ h.
              let (kept, acked) = (judge_loss_endpoint (lossy tcp) (or_zero tcp.unacked)).0 h in
              let (once, order) = (lossy-false_iff tcp).0 kept in
              (λ syn. cc ((is_syn_sent_iff tcp.state).1 syn, e), once, order, acked),
          λ (_, once, order, acked).
              (judge_loss_endpoint (lossy tcp) (or_zero tcp.unacked)).1
                ((lossy-false_iff tcp).1 (once, order), acked),
        )
]

-- A reading in a phase where a connection is up says `endpoint` for these reasons and no other.
abbrev pub IsSilentPeer : Phase → Option TcpInfo → Type 0
IsSilentPeer phase none = ⊥
IsSilentPeer phase (some tcp) = IsConnected phase × SilentPeer tcp

connected_endpoint :
    (phase : Phase) (tcp : TcpInfo)
    → is_connecting phase ≡ false
    → ((judge_connection phase tcp).0 ≡ endpoint) ↔ (Unit {0} × SilentPeer tcp)
connected_endpoint phase tcp up =
    let (there, back) = connection_endpoint phase tcp up in (λ h. (tt, there h), λ h. back h.1)

-- The connection was never accepted, or it lost packets.
abbrev pub PathFault : Phase → TcpInfo → Type 0
PathFault phase tcp = (is_connecting phase ≡ true) ⊎ (tcp.state ≡ some syn_sent) ⊎ LostSome tcp

abbrev pub IsPathFault : Phase → Option TcpInfo → Type 0
IsPathFault phase none = phase ≡ resolving
IsPathFault phase (some tcp) =
    (phase ≡ resolving) ⊎ ((in_wire_phases phase ≡ true) × PathFault phase tcp)

lost_only :
    (phase : Phase) (tcp : TcpInfo)
    → is_connecting phase ≡ false
    → is_syn_sent tcp.state ≡ false
    → PathFault phase tcp
    → LostSome tcp
lost_only phase tcp up e (inl h) = absurd (cc (up, h))
lost_only phase tcp up e (inr (inl h)) = absurd (cc (e, (is_syn_sent_iff tcp.state).1 h))
lost_only phase tcp up e (inr (inr h)) = h

connection_lost :
    (phase : Phase) (tcp : TcpInfo)
    → is_connecting phase ≡ false
    → is_syn_sent tcp.state ≡ false
    → judge_connection phase tcp ≡ judge_loss (lossy tcp) (or_zero tcp.unacked)
unfolding judge_connection
connection_lost phase tcp up e = rw (up, e)

connection_refused :
    (phase : Phase) (tcp : TcpInfo)
    → (is_connecting phase || is_syn_sent tcp.state) ≡ true
    → (judge_connection phase tcp).0 ≡ network
unfolding judge_connection
connection_refused phase tcp e = rw e

connection_network :
    (phase : Phase) (tcp : TcpInfo)
    → ((judge_connection phase tcp).0 ≡ network) ↔ PathFault phase tcp
connection_network phase tcp = elim (Bool-cases (is_connecting phase)) [
  | inl e ↦ (λ _. inl e, λ _. connection_refused phase tcp (rw e))
  | inr up ↦ elim (Bool-cases (is_syn_sent tcp.state)) [
    | inl e ↦ (
      λ _. inr (inl ((is_syn_sent_iff tcp.state).0 e)),
      λ _. connection_refused phase tcp (rw (up, e)),
    )
    | inr e ↦
        let same = ap (λ (v : Verdict × Reason). v.0) (connection_lost phase tcp up e) in
        let (there, back) = judge_loss_network (lossy tcp) (or_zero tcp.unacked) in
        (
          λ h. inr (inr ((lossy-true_iff tcp).0 (there (sym same ∙ h)))),
          λ h. same ∙ back ((lossy-true_iff tcp).1 (lost_only phase tcp up e h)),
        )
  ]
]

wire_network :
    (phase : Phase) (tcp : TcpInfo)
    → in_wire_phases phase ≡ true
    → phase ≢ resolving
    → ((judge_connection phase tcp).0 ≡ network)
      ↔ ((phase ≡ resolving) ⊎ ((in_wire_phases phase ≡ true) × PathFault phase tcp))
wire_network phase tcp wire ne = (
  λ h. inr (wire, (connection_network phase tcp).0 h),
  λ h. (connection_network phase tcp).1 (fault_of h),
)
  where
    fault_of :
        (phase ≡ resolving) ⊎ ((in_wire_phases phase ≡ true) × PathFault phase tcp)
        → PathFault phase tcp
    fault_of (inl e) = absurd (ne e)
    fault_of (inr e) = e.1

-- A stall is the endpoint's exactly when the peer has everything and the path lost nothing: in a
-- connected phase, with a reading past the first SYN, nothing sent twice, the out-of-order count
-- reported and below two or below one in a hundred, and nothing unacknowledged.
pub verdict_endpoint_iff :
    (phase : Phase) (tcp : Option TcpInfo)
    → ((verdict phase tcp).0 ≡ endpoint) ↔ IsSilentPeer phase tcp
unfolding verdict judge_state
verdict_endpoint_iff starting none = (λ h. cc h, λ h. elim h [ ])
verdict_endpoint_iff _ none = (λ h. cc h, λ h. elim h [ ])
verdict_endpoint_iff tls_handshake (some tcp) = connected_endpoint tls_handshake tcp refl
verdict_endpoint_iff sending (some tcp) = connected_endpoint sending tcp refl
verdict_endpoint_iff awaiting_response (some tcp) = connected_endpoint awaiting_response tcp refl
verdict_endpoint_iff receiving (some tcp) = connected_endpoint receiving tcp refl
verdict_endpoint_iff connecting (some tcp) =
    (λ h. unfold judge_connection in cc h, λ h. elim h.0 [ ])
verdict_endpoint_iff _ (some tcp) = (λ h. cc h, λ h. elim h.0 [ ])

-- A stall is put down to the path exactly when the name did not resolve, or when there is a reading
-- in a phase of the wire and the connection was not accepted (the phase is connecting, or the first
-- SYN is unanswered) or lost packets.
pub verdict_network_iff :
    (phase : Phase) (tcp : Option TcpInfo)
    → ((verdict phase tcp).0 ≡ network) ↔ IsPathFault phase tcp
unfolding verdict judge_state
verdict_network_iff resolving none = (λ h. refl, λ h. refl)
verdict_network_iff _ none = (λ h. cc h, λ h. cc h)
verdict_network_iff resolving (some tcp) = (λ h. inl refl, λ h. refl)
verdict_network_iff connecting (some tcp) = wire_network connecting tcp refl (λ e. cc e)
verdict_network_iff tls_handshake (some tcp) = wire_network tls_handshake tcp refl (λ e. cc e)
verdict_network_iff sending (some tcp) = wire_network sending tcp refl (λ e. cc e)
verdict_network_iff awaiting_response (some tcp) =
    wire_network awaiting_response tcp refl (λ e. cc e)
verdict_network_iff receiving (some tcp) = wire_network receiving tcp refl (λ e. cc e)
verdict_network_iff _ (some tcp) = (λ h. cc h, elim [ inl e ↦ cc e | inr e ↦ cc e.0 ])

-- A stall is the agent's own exactly between requests and while bodies are stored.
pub verdict_agent_iff :
    (phase : Phase) (tcp : Option TcpInfo)
    → ((verdict phase tcp).0 ≡ agent) ↔ ((phase ≡ between_requests) ⊎ (phase ≡ storing_bodies))
unfolding verdict judge_state judge_connection judge_loss
verdict_agent_iff between_requests tcp = (λ h. inl refl, λ h. refl)
verdict_agent_iff storing_bodies tcp = (λ h. inr refl, λ h. refl)
verdict_agent_iff resolving tcp = (λ h. cc h, elim [ inl e ↦ cc e | inr e ↦ cc e ])
verdict_agent_iff phase none = (λ h. cc h, elim [ inl e ↦ cc e | inr e ↦ cc e ])
verdict_agent_iff phase (some tcp) =
    (λ h. absurd (ground arith), elim [ inl e ↦ cc e | inr e ↦ cc e ])
