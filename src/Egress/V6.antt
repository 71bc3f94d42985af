-- ===== src/Egress/V6.antt =====
-- The IPv6 addresses that are let through.
use tracedown_probe_agent.Base.{
  ℕ, zero, suc, ◌+◌, ◌*◌, ◌/◌, ◌%◌, ◌^◌, ◌<◌, ◌≡◌, ◌≢◌, refl, Bool, true, false, not, ◌||◌, ◌&&◌,
  arith, ◌==◌, ==_iff, ◌∙◌,
}
use tracedown_probe_agent.Egress.Addresses.{v4, v6, v6_is_blocked, address_is_blocked}

-- What the tests say of an address by its first ten bits; the two single addresses, 0 and 1, have
-- none of those set, and are reserved.
by_first_bits : ℕ → Bool
by_first_bits h =
    h == 1018
    || (h / 4 == 255
        || ((h / 4 == 0
              || (h / 4 == 1
                  || (h / 8 == 1
                      || (h / 16 == 1
                          || (h / 32 == 1
                              || (h / 64 == 1
                                  || (h / 128 == 2
                                      || (h / 128 == 3
                                          || (h / 128 == 4
                                              || (h / 128 == 5
                                                  || (h / 128 == 6
                                                      || (h / 64 == 14
                                                          || (h / 32 == 30
                                                            || (h / 16 == 62
                                                            || h / 2 == 508))))))))))))))
            || h / 8 == 126))

-- The global unicast block 2000::/3, and fec0::/10.
abbrev pub is_let_through : ℕ → Bool
is_let_through h = h / 128 == 1 || h == 1019

-- The test holds of the first numbers, as many as the second argument says.
holds_up_to : (ℕ → Bool) → ℕ → Bool
holds_up_to test zero = true
holds_up_to test (suc top) = holds_up_to test top && test top

holds_up_to_lem :
    (test : ℕ → Bool) (top : ℕ) → holds_up_to test top ≡ true → (h : ℕ) → h < top → test h ≡ true
unfolding holds_up_to
holds_up_to_lem test (suc top) e h below = ground (arith, holds_up_to_lem test top _ h)
holds_up_to_lem test zero e h below = absurd (omega (arith, below))

abbrev same : Bool → Bool → Bool
same true b = b
same false b = not b

same_iff : (a b : Bool) → same a b ≡ true → a ≡ b
same_iff true true h = refl
same_iff false false h = refl
same_iff true false h = cc h
same_iff false true h = cc h

table : holds_up_to (λ h. same (by_first_bits h) (not (is_let_through h))) 1024 ≡ true
unfolding holds_up_to by_first_bits
table = refl

by_first_bits_lem : (h : ℕ) → h < 1024 → by_first_bits h ≡ not (is_let_through h)
by_first_bits_lem h lt = same_iff _ _ (holds_up_to_lem _ 1024 table h lt)

merge :
    (o l m z r rest o' z' u : Bool)
    → (o ≡ true → r ≡ true)
    → (z ≡ true → r ≡ true)
    → (o' ≡ true → r ≡ true)
    → (z' ≡ true → r ≡ true)
    → ((o || (l || (m || (z || (r || rest))))) || (o' || (z' || (u || l))))
      ≡ (l || (m || ((r || rest) || u)))
merge o l m z r rest o' z' u h k h' k' = ground arith

ne_false : (a b : ℕ) → a ≢ b → (a == b) ≡ false
ne_false a b h = ground arith

module _ (n : ℕ) (fits : n < 2 ^ 128) where
  abbrev first : ℕ
  first = n / 332306998946228968225951765070086144

  bits_3 : n / 42535295865117307932921825928971026432 ≡ first / 128
  bits_3 = omega arith

  bits_4 : n / 21267647932558653966460912964485513216 ≡ first / 64
  bits_4 = omega arith

  bits_5 : n / 10633823966279326983230456482242756608 ≡ first / 32
  bits_5 = omega arith

  bits_6 : n / 5316911983139663491615228241121378304 ≡ first / 16
  bits_6 = omega arith

  bits_7 : n / 2658455991569831745807614120560689152 ≡ first / 8
  bits_7 = omega arith

  bits_8 : n / 1329227995784915872903807060280344576 ≡ first / 4
  bits_8 = omega arith

  bits_9 : n / 664613997892457936451903530140172288 ≡ first / 2
  bits_9 = omega arith

  one_reserved : (n == 1) ≡ true → (first / 4 == 0) ≡ true
  one_reserved h = let e = (==_iff n 1).0 h in ground arith

  zero_reserved : (n == 0) ≡ true → (first / 4 == 0) ≡ true
  zero_reserved h = let e = (==_iff n 0).0 h in ground arith

  one_reserved' : (n / 1 == 1) ≡ true → (first / 4 == 0) ≡ true
  one_reserved' h = let e = (==_iff (n / 1) 1).0 h in one_reserved ((==_iff n 1).1 (omega arith))

  zero_reserved' : (n / 1 == 0) ≡ true → (first / 4 == 0) ≡ true
  zero_reserved' h = let e = (==_iff (n / 1) 0).0 h in zero_reserved ((==_iff n 0).1 (omega arith))

  v6_by_first_bits : v6_is_blocked n ≡ by_first_bits first
  unfolding v6_is_blocked by_first_bits
  v6_by_first_bits =
      rw (bits_3, bits_4, bits_5, bits_6, bits_7, bits_8, bits_9)
        (merge (n == 1) (first == 1018) (first / 4 == 255) (n == 0) (first / 4 == 0)
          (first / 4 == 1
            || (first / 8 == 1
                || (first / 16 == 1
                    || (first / 32 == 1
                        || (first / 64 == 1
                            || (first / 128 == 2
                                || (first / 128 == 3
                                    || (first / 128 == 4
                                        || (first / 128 == 5
                                            || (first / 128 == 6
                                                || (first / 64 == 14
                                                    || (first / 32 == 30
                                                        || (first / 16 == 62
                                                            || first / 2 == 508)))))))))))))
          (n / 1 == 1) (n / 1 == 0) (first / 8 == 126) one_reserved zero_reserved one_reserved'
          zero_reserved')

  -- An IPv6 address that is not IPv4-mapped is let through exactly if it lies in 2000::/3 or in
  -- fec0::/10, the deprecated site-local block.
  pub address_is_blocked_v6 :
      n / 2 ^ 32 ≢ 0xffff → address_is_blocked (v6 n) ≡ not (is_let_through (n / 2 ^ 118))
  unfolding address_is_blocked
  address_is_blocked_v6 unmapped =
      rw (ne_false (n / 2 ^ 32) 0xffff unmapped)
        (v6_by_first_bits ∙ by_first_bits_lem first (omega arith))

-- An IPv4-mapped address is judged as the IPv4 address inside it.
pub address_is_blocked_mapped :
    (m : ℕ) → m < 2 ^ 32 → address_is_blocked (v6 (0xffff * 2 ^ 32 + m)) ≡ address_is_blocked (v4 m)
unfolding address_is_blocked
address_is_blocked_mapped m lt =
    let high : (0xffff * 2 ^ 32 + m) / 2 ^ 32 ≡ 0xffff = omega arith in
    let low : (0xffff * 2 ^ 32 + m) % 2 ^ 32 ≡ m = omega arith in rw (high, low)
