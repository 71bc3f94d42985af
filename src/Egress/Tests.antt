-- ===== src/Egress/Tests.antt =====
-- Hosts and addresses, and a guarded program.
use tracedown_probe_agent.Base.{
  ◌+◌, ◌*◌, ◌^◌, ◌≡◌, refl, true, false, Option, none, some, [], ◌∷◌, Text, codes, arith,
  if◌then◌else◌,
}
use tracedown_probe_agent.Bytes.{text_eq}
use tracedown_probe_agent.Spaces.{strip_left, is_blank}
use tracedown_probe_agent.Egress.{
  host_is_blocked, normalised_reverse, strip_dots, is_below, before_zone, ip_is_blocked,
}
use tracedown_probe_agent.Egress.Addresses.{Addr, v4, v6, quad, top, address_is_blocked}
use tracedown_probe_agent.Egress.V4.{address_is_blocked_v4}
use tracedown_probe_agent.Egress.V6.{address_is_blocked_v6, address_is_blocked_mapped}
use tracedown_probe_agent.Egress.Guard.{inet, other, Program, finish, connect, run_guarded}

blocked_hosts :
    (host_is_blocked (codes "  Db.Railway.INTERNAL. ") ≡ true)
    × (host_is_blocked (codes "localhost") ≡ true)
    × (host_is_blocked (codes "localhost.example.com") ≡ false)
    × (host_is_blocked (codes "notlocalhost") ≡ false)
unfolding host_is_blocked normalised_reverse strip_left is_blank strip_dots is_below
blocked_hosts = (refl, refl, refl, refl)

address_is_blocked_v4_example : address_is_blocked (v4 (quad 100 64 0 1)) ≡ true
address_is_blocked_v4_example =
    address_is_blocked_v4 100 64 0 1 (omega arith) (omega arith) (omega arith) (omega arith)

address_is_blocked_v6_example : address_is_blocked (v6 (top 0xfe80 + 1)) ≡ true
address_is_blocked_v6_example = address_is_blocked_v6 (top 0xfe80 + 1) (omega arith) (omega arith)

address_is_blocked_mapped_example :
    address_is_blocked (v6 (0xffff * 2 ^ 32 + quad 127 0 0 1))
    ≡ address_is_blocked (v4 (quad 127 0 0 1))
address_is_blocked_mapped_example = address_is_blocked_mapped (quad 127 0 0 1) (omega arith)

-- Two texts that the parser knows.
abbrev parser : Text → Option Addr
parser s =
    if text_eq s (codes "10.0.0.1")
    then some (v4 (quad 10 0 0 1))
    else if text_eq s (codes "192.0.2.1")
    then some (v4 (quad 192 0 2 1))
    else none

abbrev probe : Program
probe =
    connect (inet (codes "10.0.0.1")) (connect (inet (codes "192.0.2.1")) (connect other finish))

probe_run : run_guarded parser true probe ≡ (true, inet (codes "192.0.2.1") ∷ [])
unfolding run_guarded ip_is_blocked before_zone address_is_blocked
probe_run = refl
