-- ===== src/Egress/Guard.antt =====
-- The socket layer under the guard: `active`, `_guarded_getaddrinfo` and `_guarded_connect`.
--
-- A program is what one thread does with its sockets. After a refusal it may go on, as the
-- executor does, which records it as the call's error; a block that an exception leaves is a
-- shorter block. What the resolver answers stands in the program.
use tracedown_probe_agent.Base.{
  ◌≡◌, ◌↔◌, refl, Bool, true, false, ◌&&◌, ◌||◌, Option, none, some, List, [], ◌∷◌, ◌++◌, Text, any,
  arith, if◌then◌else◌, All, Bool-cases, inl, inr,
}
use tracedown_probe_agent.Egress.{host_is_blocked, ip_is_blocked}
use tracedown_probe_agent.Egress.Addresses.{Addr}

-- The address of `connect`: a tuple that begins with an IP, or anything else.
pub data Sockaddr : Type 0 where
  inet : Text → Sockaddr
  other : Sockaddr

pub data Program : Type 0 where
  finish : Program
  connect : Sockaddr → Program → Program
  -- `with active(): …`, and what follows
  guarded : Program → Program → Program

-- The agent's own traffic: connections outside any guard.
abbrev pub plain : List Sockaddr → Program
plain [] = finish
plain (a ∷ own) = connect a (plain own)

module _ (ip_address : Text → Option Addr) where
  -- `ip is None or _ip_is_blocked(str(ip))`
  unfoldable pub target_is_blocked : Sockaddr → Bool
  target_is_blocked (inet ip) = ip_is_blocked ip_address ip
  target_is_blocked other = true

  -- `_guarded_connect`: the connections that get through to the system.
  unfoldable pub guarded_connect : Bool → Sockaddr → List Sockaddr
  guarded_connect active a = if active && target_is_blocked a then [] else a ∷ []

  -- A thread with its flag: the flag behind the program, and the connections that were made.
  unfoldable pub run_guarded : Bool → Program → Bool × List Sockaddr
  unfolding guarded_connect target_is_blocked
  run_guarded active finish = (active, [])
  run_guarded active (connect a rest) =
      let (flag, made) = run_guarded active rest in (flag, guarded_connect active a ++ made)
  run_guarded active (guarded body rest) =
      let (_, inside) = run_guarded true body in
      let (flag, made) = run_guarded active rest in (flag, inside ++ made)

  host_blocks : Option Text → Bool
  host_blocks none = false
  host_blocks (some host) = host_is_blocked host

  -- `_guarded_getaddrinfo`, of what the resolver answered; none where it raises EgressBlocked.
  pub guarded_getaddrinfo : Bool → Option Text → List Text → Option (List Text)
  unfolding host_blocks
  guarded_getaddrinfo active host results =
      if active && (host_blocks host || any (ip_is_blocked ip_address) results)
      then none
      else some results

  -- The connection is to an address that the policy lets through.
  abbrev pub IsAllowed : Sockaddr → Type 0
  IsAllowed (inet ip) = ip_is_blocked ip_address ip ≡ false
  IsAllowed other = ⊥

  All-append :
      (xs ys : List Sockaddr) → All IsAllowed xs → All IsAllowed ys → All IsAllowed (xs ++ ys)
  All-append [] ys h k = k
  All-append (x ∷ xs) ys h k = (h.0, All-append xs ys h.1 k)

  guarded_connect-IsAllowed : (a : Sockaddr) → All IsAllowed (guarded_connect true a)
  unfolding guarded_connect target_is_blocked
  guarded_connect-IsAllowed other = tt
  guarded_connect-IsAllowed (inet ip) = elim (Bool-cases (ip_is_blocked ip_address ip)) [
    | inl e ↦ rw e tt
    | inr e ↦ rw e (e, tt)
  ]

  -- Whatever a program does inside the guard, nested guards included, every connection that is made
  -- is to an address that is not blocked, and the flag behind it is as before.
  pub run_guarded-IsAllowed :
      (p : Program) → All IsAllowed (run_guarded true p).1 × ((run_guarded true p).0 ≡ true)
  unfolding run_guarded
  run_guarded-IsAllowed finish = (tt, refl)
  run_guarded-IsAllowed (connect a rest) =
      let (allowed, flag) = run_guarded-IsAllowed rest in
      (All-append _ _ (guarded_connect-IsAllowed a) allowed, flag)
  run_guarded-IsAllowed (guarded body rest) =
      let (inside, _) = run_guarded-IsAllowed body in
      let (allowed, flag) = run_guarded-IsAllowed rest in (All-append _ _ inside allowed, flag)

  run_guarded-plain : (own : List Sockaddr) → run_guarded false (plain own) ≡ (false, own)
  unfolding run_guarded guarded_connect
  run_guarded-plain [] = refl
  run_guarded-plain (a ∷ own) = rw (run_guarded-plain own)

  -- Behind a guarded block the agent's own connections are all made, whatever their addresses.
  pub run_guarded_outside :
      (body : Program) (own : List Sockaddr)
      → run_guarded false (guarded body (plain own)) ≡ (false, (run_guarded true body).1 ++ own)
  unfolding run_guarded
  run_guarded_outside body own = rw (run_guarded-plain own)

  any-false : (p : Text → Bool) (xs : List Text) → (any p xs ≡ false) ↔ All (λ x. p x ≡ false) xs
  any-false p [] = (λ h. tt, λ h. refl)
  any-false p (x ∷ xs) =
      let (there, back) = any-false p xs in
      (λ h. (ground arith, there (ground arith)), λ h. ground (arith, h.0, back h.1))

  -- Under the guard a resolution is handed on, whole, exactly if the host is not an internal name
  -- and no returned address is blocked.
  pub guarded_getaddrinfo_iff :
      (host : Text) (results out : List Text)
      → (guarded_getaddrinfo true (some host) results ≡ some out) ↔ (
          (out ≡ results)
          × (host_is_blocked host ≡ false)
          × All (λ ip. ip_is_blocked ip_address ip ≡ false) results)
  unfolding guarded_getaddrinfo host_blocks
  guarded_getaddrinfo_iff host results out =
      let (there, back) = any-false (ip_is_blocked ip_address) results in
      (
        λ h. (ground arith, ground arith, there (ground arith)),
        λ (e, open', allowed). ground (arith, e, open', back allowed),
      )
