-- ===== src/Tcp/Tests.antt =====
-- Readings, layouts, verdicts and dials at concrete values.
use tracedown_probe_agent.Base.{
  ℕ, zero, suc, ◌<◌, ◌≡◌, ◌↔◌, refl, true, none, some, List, [], ◌∷◌, ◌⊎◌, codes, length,
}
use tracedown_probe_agent.Tcp.{
  awaiting_response, between_requests, storing_bodies, established, TcpInfo, endpoint, network,
  agent, verdict,
}
use tracedown_probe_agent.Tcp.Verdicts.{
  IsSilentPeer, IsPathFault, verdict_endpoint_iff, verdict_network_iff, verdict_agent_iff,
}
use tracedown_probe_agent.Tcp.Layout.{
  Slot, word, quad, fields, offsets, offsets_from, size_of, slot_of, calcsize_from,
}
use tracedown_probe_agent.Tcp.Layout.Aligned.{IsLaidOut, EndsWithin, offsets_fit}
use tracedown_probe_agent.Tcp.Reading.{read_slot}
use tracedown_probe_agent.Tcp.Reading.Kernels.{read_slot-none_iff}
use tracedown_probe_agent.Tcp.Reach.{Dial, done, failed, address, clean, reach, default_attempts}
use tracedown_probe_agent.Tcp.Reach.Paths.{Each, IsCleanDial, path_of, reach_clean_iff}

offset_of_ooo :
    slot_of "rcv_ooopack" offsets ≡ some (record { name = "rcv_ooopack"; start = 224; code = word })
unfolding offsets calcsize_from slot_of
offset_of_ooo = refl

offset_of_rate :
    slot_of "pacing_rate" offsets ≡ some (record { name = "pacing_rate"; start = 104; code = quad })
unfolding offsets calcsize_from slot_of
offset_of_rate = refl

size_is : size_of offsets ≡ 228
unfolding offsets calcsize_from size_of
size_is = refl

offsets_fit_example :
    IsLaidOut 0 (offsets_from [] fields)
    × EndsWithin (size_of (offsets_from [] fields)) (offsets_from [] fields)
offsets_fit_example = offsets_fit fields

-- A healthy connection on which nothing comes.
abbrev quiet : TcpInfo
quiet = record {
  state = some established;
  retransmits = some 0;
  backoff = some 0;
  unacked = some 0;
  lost = some 0;
  total_retrans = some 0;
  rtt = some 20;
  min_rtt = some 18;
  last_data_recv = some 4000;
  last_ack_recv = some 3900;
  bytes_received = some 0;
  data_segs_in = some 300;
  rcv_ooopack = some 2;
  dsack_dups = some 0;
}

verdict_endpoint_iff_example :
    ((verdict awaiting_response (some quiet)).0 ≡ endpoint)
    ↔ IsSilentPeer awaiting_response (some quiet)
verdict_endpoint_iff_example = verdict_endpoint_iff awaiting_response (some quiet)

verdict_network_iff_example :
    ((verdict awaiting_response (some quiet)).0 ≡ network)
    ↔ IsPathFault awaiting_response (some quiet)
verdict_network_iff_example = verdict_network_iff awaiting_response (some quiet)

verdict_agent_iff_example :
    ((verdict between_requests none).0 ≡ agent)
    ↔ ((between_requests ≡ between_requests) ⊎ (between_requests ≡ storing_bodies))
verdict_agent_iff_example = verdict_agent_iff between_requests none

abbrev second_word : Slot
second_word = record { name = "ato"; start = 4; code = word }

abbrev eight_bytes : List ℕ
eight_bytes = 1 ∷ 0 ∷ 0 ∷ 0 ∷ 2 ∷ 1 ∷ 0 ∷ 0 ∷ []

read_slot-none_iff_example : (read_slot eight_bytes second_word ≡ none) ↔ (length eight_bytes < 8)
read_slot-none_iff_example = read_slot-none_iff eight_bytes second_word

-- The third attempt times out.
abbrev dials : ℕ → Dial
dials (suc (suc zero)) = record {
  connect = failed (codes "timed out");
  handshake = done 0;
  info = none;
}
dials n = record { connect = done 12; handshake = done 30; info = some quiet }

reach_clean_iff_example :
    (path_of (reach (address (codes "192.0.2.1") 3) true default_attempts dials) ≡ some clean)
    ↔ Each default_attempts 0 (λ j. IsCleanDial true (dials j))
reach_clean_iff_example = reach_clean_iff (codes "192.0.2.1") 3 true default_attempts dials
