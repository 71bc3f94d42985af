-- ===== src/Egress/V4.antt =====
-- The blocked IPv4 addresses, by their octets.
use tracedown_probe_agent.Base.{
  ℕ, ◌+◌, ◌*◌, ◌/◌, ◌<◌, ◌≡◌, Bool, true, ◌||◌, ◌&&◌, arith, ◌==◌, leb,
}
use tracedown_probe_agent.Egress.Addresses.{
  v4, quad, flagged_v4, blocked_networks_v4, address_is_blocked,
}

-- 0/8, 10/8, 100.64/10, 127/8, 169.254/16, 172.16/12, 192.0.0/24, 192.168/16, 198.18/15, and all
-- from 224 on.
abbrev pub is_internal : ℕ → ℕ → ℕ → Bool
is_internal a b c =
    a == 0
    || (a == 10
        || ((a == 100 && (leb 64 b && leb b 127))
            || (a == 127
                || ((a == 169 && b == 254)
                    || ((a == 172 && (leb 16 b && leb b 31))
                        || ((a == 192 && (b == 0 && c == 0))
                            || ((a == 192 && b == 168)
                                || ((a == 198 && (leb 18 b && leb b 19)) || leb 224 a))))))))

merge :
    (n0 n1 n2 l t n5 n6 n7 n8 u z : Bool)
    → (z ≡ true → n0 ≡ true)
    → ((l || (t || (u || z))) || (n0 || (n1 || (n2 || (l || (t || (n5 || (n6 || (n7 || n8)))))))))
      ≡ (n0 || (n1 || (n2 || (l || (t || (n5 || (n6 || (n7 || (n8 || u)))))))))
merge n0 n1 n2 l t n5 n6 n7 n8 u z h = ground arith

module _ (a b c d : ℕ) (ha : a < 256) (hb : b < 256) (hc : c < 256) (hd : d < 256) where
  bits_4 : quad a b c d / 268435456 ≡ a / 16
  bits_4 = omega arith

  bits_8 : quad a b c d / 16777216 ≡ a
  bits_8 = omega arith

  bits_10 : quad a b c d / 4194304 ≡ a * 4 + b / 64
  bits_10 = omega arith

  bits_12 : quad a b c d / 1048576 ≡ a * 16 + b / 16
  bits_12 = omega arith

  bits_15 : quad a b c d / 131072 ≡ a * 128 + b / 2
  bits_15 = omega arith

  bits_16 : quad a b c d / 65536 ≡ a * 256 + b
  bits_16 = omega arith

  bits_24 : quad a b c d / 256 ≡ (a * 256 + b) * 256 + c
  bits_24 = omega arith

  flagged :
      flagged_v4 (quad a b c d)
      ≡ (a == 127 || ((a == 169 && b == 254) || (leb 224 a || quad a b c d == 0)))
  unfolding flagged_v4
  flagged = rw (bits_4, bits_8, bits_16) (ground arith)

  zero_first : (quad a b c d == 0) ≡ true → (a == 0) ≡ true
  zero_first h = ground arith

  carrier : (a * 4 + b / 64 == 401) ≡ (a == 100 && (leb 64 b && leb b 127))
  carrier = ground arith

  link_local : (a * 256 + b == 43518) ≡ (a == 169 && b == 254)
  link_local = ground arith

  private_12 : (a * 16 + b / 16 == 2753) ≡ (a == 172 && (leb 16 b && leb b 31))
  private_12 = ground arith

  protocol : ((a * 256 + b) * 256 + c == 12582912) ≡ (a == 192 && (b == 0 && c == 0))
  protocol = ground arith

  private_16 : (a * 256 + b == 49320) ≡ (a == 192 && b == 168)
  private_16 = ground arith

  benchmark : (a * 128 + b / 2 == 25353) ≡ (a == 198 && (leb 18 b && leb b 19))
  benchmark = ground arith

  networks : blocked_networks_v4 (quad a b c d) ≡ (
      a == 0
      || (a == 10
          || ((a == 100 && (leb 64 b && leb b 127))
              || (a == 127
                  || ((a == 169 && b == 254)
                      || ((a == 172 && (leb 16 b && leb b 31))
                          || ((a == 192 && (b == 0 && c == 0))
                              || ((a == 192 && b == 168)
                                  || (a == 198 && (leb 18 b && leb b 19))))))))))
  unfolding blocked_networks_v4
  networks =
      rw (bits_8, bits_10, bits_16, bits_12, bits_24, bits_15)
        (rw (carrier, link_local, private_12, protocol, private_16, benchmark))

  -- An IPv4 address is refused exactly if its octets say that it is internal.
  pub address_is_blocked_v4 : address_is_blocked (v4 (quad a b c d)) ≡ is_internal a b c
  unfolding address_is_blocked
  address_is_blocked_v4 =
      rw (flagged, networks)
        (merge (a == 0) (a == 10) (a == 100 && (leb 64 b && leb b 127)) (a == 127)
          (a == 169 && b == 254) (a == 172 && (leb 16 b && leb b 31))
          (a == 192 && (b == 0 && c == 0)) (a == 192 && b == 168)
          (a == 198 && (leb 18 b && leb b 19)) (leb 224 a) (quad a b c d == 0) zero_first)
