-- ===== src/Tcp/Reach/Paths.antt =====
-- What a reported path says of the attempts.
use tracedown_probe_agent.Base.{
  ℕ, zero, suc, ◌≡◌, refl, ◌≢◌, ◌↔◌, Bool, true, false, Option, none, some, List, [], ◌∷◌, ◌++◌,
  Text, arith, ap, Bool-cases, inl, inr, if◌then◌else◌,
}
use tracedown_probe_agent.Result.{Result, ok, err}
use tracedown_probe_agent.Tcp.{TcpInfo, lossy}
use tracedown_probe_agent.Tcp.Reach.{
  Step, done, blocked, failed, Dial, address, ReachPath, clean, lossy_path, Attempt, Report, Tried,
  reached, dropped, barred, try_dial, seen_lossy, attempts_from, reach, Outcome, finish_try,
  report_of, ReachError,
}

-- A property of the attempts from `i` on.
abbrev pub Each : ℕ → ℕ → (ℕ → Type 0) → Type 0
Each zero i P = Unit
Each (suc n) i P = P i × Each n (suc i) P

abbrev pub IsDone : Step → Type 0
IsDone (done ms) = Unit
IsDone _ = ⊥

-- The attempt connected, shook hands where that is asked, and no reading showed a lost packet.
abbrev pub IsCleanDial : Bool → Dial → Type 0
IsCleanDial use_tls d =
    IsDone d.connect
    × (use_tls ≡ true → IsDone d.handshake)
    × ((tcp : TcpInfo) → d.info ≡ some tcp → lossy tcp ≢ some true)

-- What an attempt does to a path that is clean so far.
abbrev is_clean_try : Tried → Bool
is_clean_try (reached a) = elim (seen_lossy a.tcp) [ true ↦ false | false ↦ true ]
is_clean_try _ = false

not_seen_lossy :
    (o : Option TcpInfo)
    → (seen_lossy o ≡ false) ↔ ((tcp : TcpInfo) → o ≡ some tcp → lossy tcp ≢ some true)
unfolding seen_lossy
not_seen_lossy none = (λ h tcp e. cc e, λ h. refl)
not_seen_lossy (some tcp) = (λ h t e l. ground arith, λ h. ground (arith, h tcp refl))

quiet_iff :
    (o : Option TcpInfo) (a : Attempt)
    → a.tcp ≡ o
    → (is_clean_try (reached a) ≡ true) ↔ ((tcp : TcpInfo) → o ≡ some tcp → lossy tcp ≢ some true)
quiet_iff o a e =
    let (there, back) = not_seen_lossy o in
    (λ h. there (rw (← e) (ground arith)), λ h. ground (arith, back h, ap seen_lossy e))

is_clean_parts :
    (use_tls : Bool) (c h : Step) (o : Option TcpInfo)
    → let d : Dial = record { connect = c; handshake = h; info = o } in
      (is_clean_try (try_dial use_tls d) ≡ true) ↔ IsCleanDial use_tls d
unfolding try_dial
is_clean_parts use_tls (blocked e) h o = (λ k. cc k, λ k. elim k.0 [ ])
is_clean_parts use_tls (failed e) h o = (λ k. cc k, λ k. elim k.0 [ ])
is_clean_parts false (done ms) h o =
    let a : Attempt = record { connect_ms = some ms; tls_ms = none; error = none; tcp = o } in
    (λ k. (tt, λ e. cc e, (quiet_iff o a refl).0 k), λ k. (quiet_iff o a refl).1 k.2)
is_clean_parts true (done ms) (blocked e) o = (λ k. cc k, λ k. elim (k.1 refl) [ ])
is_clean_parts true (done ms) (failed e) o = (λ k. cc k, λ k. elim (k.1 refl) [ ])
is_clean_parts true (done ms) (done t) o =
    let a : Attempt = record { connect_ms = some ms; tls_ms = some t; error = none; tcp = o } in
    (λ k. (tt, λ e. tt, (quiet_iff o a refl).0 k), λ k. (quiet_iff o a refl).1 k.2)

is_clean_try_iff :
    (use_tls : Bool) (d : Dial) → (is_clean_try (try_dial use_tls d) ≡ true) ↔ IsCleanDial use_tls d
is_clean_try_iff use_tls d = is_clean_parts use_tls d.connect d.handshake d.info

finish_try_spoilt :
    (t : Tried) (go_on : ReachPath → List Attempt → Outcome) (path : ReachPath)
    (results : List Attempt)
    → path ≢ clean
    → ((p : ReachPath) (r : List Attempt) → p ≢ clean → (go_on p r).0 ≢ clean)
    → (finish_try t go_on path results).0 ≢ clean
unfolding finish_try
finish_try_spoilt (barred e) go_on path results h ih k = cc k
finish_try_spoilt (dropped a) go_on path results h ih k = cc k
finish_try_spoilt (reached a) go_on path results h ih k =
    ih (if seen_lossy a.tcp then lossy_path else path) (results ++ a ∷ [])
      (elim (Bool-cases (seen_lossy a.tcp)) [ inl e ↦ rw e (λ q. cc q) | inr e ↦ rw e h ]) k

finish_try_clean :
    (t : Tried) (go_on : ReachPath → List Attempt → Outcome) (results : List Attempt) {P : Type 0}
    → ((p : ReachPath) (r : List Attempt) → p ≢ clean → (go_on p r).0 ≢ clean)
    → ((r : List Attempt) → ((go_on clean r).0 ≡ clean) ↔ P)
    → ((finish_try t go_on clean results).0 ≡ clean) ↔ ((is_clean_try t ≡ true) × P)
unfolding finish_try
finish_try_clean (barred e) go_on results spoilt ih = (λ k. cc k, λ k. cc k.0)
finish_try_clean (dropped a) go_on results spoilt ih = (λ k. cc k, λ k. cc k.0)
finish_try_clean (reached a) go_on results spoilt ih = elim (Bool-cases (seen_lossy a.tcp)) [
  | inl e ↦
      rw (e, finish_try)
        (λ k. absurd (spoilt lossy_path _ (λ q. cc q) k), λ k. absurd (ground (arith, k.0)))
  | inr e ↦ rw (e, finish_try) (λ k. (ground arith, (ih _).0 k), λ k. (ih _).1 k.1)
]

module _ (use_tls : Bool) (dials : ℕ → Dial) where
  -- A path that is no longer clean stays so.
  attempts_from_spoilt :
      (n i : ℕ) (path : ReachPath) (results : List Attempt)
      → path ≢ clean
      → (attempts_from n i use_tls dials path results).0 ≢ clean
  unfolding attempts_from
  attempts_from_spoilt zero i path results h = h
  attempts_from_spoilt (suc n) i path results h =
      finish_try_spoilt (try_dial use_tls (dials i)) (attempts_from n (suc i) use_tls dials) path
        results h (attempts_from_spoilt n (suc i))

  attempts_from_clean :
      (n i : ℕ) (results : List Attempt)
      → ((attempts_from n i use_tls dials clean results).0 ≡ clean)
        ↔ Each n i (λ j. IsCleanDial use_tls (dials j))
  unfolding attempts_from
  attempts_from_clean zero i results = (λ _. tt, λ _. refl)
  attempts_from_clean (suc n) i results =
      let (there, back) =
        finish_try_clean (try_dial use_tls (dials i)) (attempts_from n (suc i) use_tls dials)
          results (attempts_from_spoilt n (suc i)) (attempts_from_clean n (suc i)) in
      let (fst, fst⁻¹) = is_clean_try_iff use_tls (dials i) in
      (λ k. let (a, b) = there k in (fst a, b), λ k. back (fst⁻¹ k.0, k.1))

abbrev pub path_of : Result ReachError Report → Option ReachPath
path_of (ok r) = some r.path
path_of (err e) = none

path-report_of : (host : Text) (dns : ℕ) (o : Outcome) → some (report_of host dns o).path ≡ some o.0
unfolding report_of
path-report_of host dns (clean, e, r) = refl
path-report_of host dns (_, e, r) = refl

path-reach :
    (host : Text) (dns : ℕ) (use_tls : Bool) (n : ℕ) (dials : ℕ → Dial)
    → path_of (reach (address host dns) use_tls n dials)
      ≡ some (attempts_from n 0 use_tls dials clean []).0
unfolding reach
path-reach host dns use_tls n dials =
    path-report_of host dns (attempts_from n 0 use_tls dials clean [])

-- An address is reported clean exactly when every one of the attempts connected, shook hands where
-- TLS is asked for, and had no reading that shows a lost packet. An attempt with no reading, or
-- whose reading cannot tell, counts as clean.
pub reach_clean_iff :
    (host : Text) (dns : ℕ) (use_tls : Bool) (n : ℕ) (dials : ℕ → Dial)
    → (path_of (reach (address host dns) use_tls n dials) ≡ some clean)
      ↔ Each n 0 (λ j. IsCleanDial use_tls (dials j))
reach_clean_iff host dns use_tls n dials =
    let (there, back) = attempts_from_clean use_tls dials n 0 [] in
    let same = path-reach host dns use_tls n dials in
    (λ k. there (cc (same, k)), λ k. cc (same, back k))
