-- ===== src/Egress/Addresses.antt =====
-- The addresses of Python's `ipaddress`, as numbers of 32 and 128 bits, with the properties and
-- the networks that `_ip_is_blocked` asks for.
use tracedown_probe_agent.Base.{ℕ, ◌+◌, ◌-◌, ◌*◌, ◌/◌, ◌%◌, ◌^◌, Bool, ◌||◌, ◌==◌, if◌then◌else◌}

pub data Addr : Type 0 where
  v4 v6 : ℕ → Addr

-- `addr in net`: the first `prefix` bits agree.
abbrev pub in_v4 : ℕ → ℕ → ℕ → Bool
in_v4 base prefix n = n / 2 ^ (32 - prefix) == base / 2 ^ (32 - prefix)

abbrev pub in_v6 : ℕ → ℕ → ℕ → Bool
in_v6 base prefix n = n / 2 ^ (128 - prefix) == base / 2 ^ (128 - prefix)

abbrev pub quad : ℕ → ℕ → ℕ → ℕ → ℕ
quad a b c d = ((a * 256 + b) * 256 + c) * 256 + d

-- An address whose first 16 bits are `h`, the others 0.
abbrev pub top : ℕ → ℕ
top h = h * 2 ^ 112

-- `IPv4Address.is_loopback`, `is_link_local`, `is_multicast`, `is_unspecified`, `is_reserved`.
unfoldable pub flagged_v4 : ℕ → Bool
flagged_v4 n =
    in_v4 (quad 127 0 0 0) 8 n
    || (in_v4 (quad 169 254 0 0) 16 n
        || (in_v4 (quad 224 0 0 0) 4 n || (n == 0 || in_v4 (quad 240 0 0 0) 4 n)))

-- `IPv6Address.is_reserved`
abbrev pub reserved_v6 : ℕ → Bool
reserved_v6 n =
    in_v6 0 8 n
    || (in_v6 (top 0x100) 8 n
        || (in_v6 (top 0x200) 7 n
            || (in_v6 (top 0x400) 6 n
                || (in_v6 (top 0x800) 5 n
                    || (in_v6 (top 0x1000) 4 n
                        || (in_v6 (top 0x4000) 3 n
                            || (in_v6 (top 0x6000) 3 n
                                || (in_v6 (top 0x8000) 3 n
                                    || (in_v6 (top 0xa000) 3 n
                                        || (in_v6 (top 0xc000) 3 n
                                            || (in_v6 (top 0xe000) 4 n
                                                || (in_v6 (top 0xf000) 5 n
                                                    || (in_v6 (top 0xf800) 6 n
                                                        || in_v6 (top 0xfe00) 9 n)))))))))))))

-- The same five properties of `IPv6Address`.
unfoldable pub flagged_v6 : ℕ → Bool
flagged_v6 n =
    n == 1 || (in_v6 (top 0xfe80) 10 n || (in_v6 (top 0xff00) 8 n || (n == 0 || reserved_v6 n)))

-- `_BLOCKED_NETWORKS`, those of version 4 and those of version 6.
unfoldable pub blocked_networks_v4 : ℕ → Bool
blocked_networks_v4 n =
    in_v4 0 8 n
    || (in_v4 (quad 10 0 0 0) 8 n
        || (in_v4 (quad 100 64 0 0) 10 n
            || (in_v4 (quad 127 0 0 0) 8 n
                || (in_v4 (quad 169 254 0 0) 16 n
                    || (in_v4 (quad 172 16 0 0) 12 n
                        || (in_v4 (quad 192 0 0 0) 24 n
                            || (in_v4 (quad 192 168 0 0) 16 n || in_v4 (quad 198 18 0 0) 15 n)))))))

unfoldable pub blocked_networks_v6 : ℕ → Bool
blocked_networks_v6 n =
    in_v6 1 128 n || (in_v6 0 128 n || (in_v6 (top 0xfc00) 7 n || in_v6 (top 0xfe80) 10 n))

unfoldable pub v4_is_blocked : ℕ → Bool
unfolding flagged_v4 blocked_networks_v4
v4_is_blocked n = flagged_v4 n || blocked_networks_v4 n

unfoldable pub v6_is_blocked : ℕ → Bool
unfolding flagged_v6 blocked_networks_v6
v6_is_blocked n = flagged_v6 n || blocked_networks_v6 n

-- From the parsed address on: an IPv4-mapped address, ::ffff:0:0/96, is judged as its IPv4 one.
unfoldable pub address_is_blocked : Addr → Bool
unfolding v4_is_blocked v6_is_blocked
address_is_blocked (v4 n) = v4_is_blocked n
address_is_blocked (v6 n) =
    if n / 2 ^ 32 == 0xffff then v4_is_blocked (n % 2 ^ 32) else v6_is_blocked n
