-- ===== src/Renewal/Listening.antt =====
-- `renew_if_needed`: the pair that the live listener serves, and when the files are touched.
use tracedown_probe_agent.Writes.{Disk}
use tracedown_probe_agent.Base.{
  ℕ, ◌+◌, ◌*◌, ◌≤◌, ◌≡◌, ◌≢◌, refl, true, false, Option, none, some, Text, if◌then◌else◌, inl,
  arith,
}
use tracedown_probe_agent.Config.{AgentSettings, is_truthy}
use tracedown_probe_agent.Renewal.{Listener, Outside, RenewError, resolve_slug}
use tracedown_probe_agent.Renewal.Install.{
  renew_files, is_early, renew, renew_named, renew_due, renew_present, renew_if_needed, reload,
  reload_after,
}
use tracedown_probe_agent.Renewal.Continuity.{Continues, renew_files-Continues}

module _ (o : Outside) where
  -- The listener, where there is one, serves a certificate that loads with its key.
  abbrev pub ServesPair : Option Listener → Type 0
  ServesPair none = Unit
  ServesPair (some l) = o.loads_chain l.served_cert l.served_key ≡ true

  reload-ServesPair :
      (d : Disk) (l : Listener) → ServesPair (some l) → ServesPair (some (reload o d l))
  unfolding reload
  reload-ServesPair d l h = ground arith

  reload_after-ServesPair :
      (d : Disk) (e : Option RenewError) (l : Option Listener)
      → ServesPair l
      → ServesPair (reload_after o (record { disk = d; error = e }) l)
  reload_after-ServesPair d e none h = tt
  reload_after-ServesPair d none (some l) h = reload-ServesPair d l h
  reload_after-ServesPair d (some e) (some l) h = h

  anchored_after :
      (s : AgentSettings) (slug : Text) (l : Option Listener) (d : Disk)
      → Continues o d (renew o s slug l d).0.disk
  unfolding renew
  anchored_after s slug l d = renew_files-Continues o s slug d

  renew-ServesPair :
      (s : AgentSettings) (slug : Text) (l : Option Listener) (d : Disk)
      → ServesPair l
      → ServesPair (renew o s slug l d).1
  unfolding renew
  renew-ServesPair s slug l d h =
      let r = renew_files o s slug d in reload_after-ServesPair r.disk r.error l h

  module _ (Q : Disk × Option Listener → Type 0) (s : AgentSettings) (l : Option Listener)
      (d : Disk) (kept : Q (d, l))
      (renewed : (slug : Text) → Q ((renew o s slug l d).0.disk, (renew o s slug l d).1)) where
    named-cases : (slug : Option Text) → Q (renew_named o s l d slug)
    unfolding renew_named
    named-cases none = kept
    named-cases (some slug) = renewed slug

    due-cases : (expiry : Option ℕ) → Q (renew_due o s l d expiry)
    unfolding renew_due
    due-cases none = kept
    due-cases (some expiry) =
        elim (is_early o s expiry)
          as (λ b. Q (if b then (d, l) else renew_named o s l d (resolve_slug o s d))) [
            | true ↦ kept
            | false ↦ named-cases (resolve_slug o s d)
          ]

    present-cases : (cert key : Option Text) → Q (renew_present o s l d cert key)
    unfolding renew_present
    present-cases none key = kept
    present-cases (some cert) none = kept
    present-cases (some cert) (some key) = due-cases (o.not_after cert)

    pub needed-cases : Q (renew_if_needed o s l d)
    unfolding renew_if_needed
    needed-cases =
        elim (is_truthy s.scheduler_url)
          as (λ b. Q (if b then renew_present o s l d d.cert d.key else (d, l))) [
            | true ↦ present-cases d.cert d.key
            | false ↦ kept
          ]

  -- After a cycle, renewed or not, the live listener still serves a certificate that loads with its
  -- key.
  pub renew_if_needed-ServesPair :
      (s : AgentSettings) (l : Option Listener) (d : Disk)
      → ServesPair l
      → ServesPair (renew_if_needed o s l d).1
  renew_if_needed-ServesPair s l d h =
      needed-cases (λ r. ServesPair r.1) s l d h λ slug. renew-ServesPair s slug l d h

  -- After a cycle, renewed or not and whatever was answered, the trust anchor on disk is the one
  -- before, or a bundle that holds a CA pinned before, where one was pinned.
  pub renew_if_needed-Continues :
      (s : AgentSettings) (l : Option Listener) (d : Disk)
      → Continues o d (renew_if_needed o s l d).0
  renew_if_needed-Continues s l d =
      needed-cases (λ r. Continues o d r.0) s l d (inl refl) λ slug. anchored_after s slug l d

  due_lem :
      (s : AgentSettings) (l : Option Listener) (d : Disk) (expiry : Option ℕ)
      → (renew_due o s l d expiry).0 ≢ d
      → (n : ℕ) × (expiry ≡ some n) × (n ≤ o.now + s.renew_before_days * 86400000000)
  unfolding renew_due is_early
  due_lem s l d none h = absurd (h refl)
  due_lem s l d (some n) h = (n, refl, ground arith)

  present_lem :
      (s : AgentSettings) (l : Option Listener) (d : Disk) (cert key : Option Text)
      → (renew_present o s l d cert key).0 ≢ d
      → (c : Text) × (n : ℕ) × (cert ≡ some c)
        × (o.not_after c ≡ some n)
        × (n ≤ o.now + s.renew_before_days * 86400000000)
  unfolding renew_present
  present_lem s l d none key h = absurd (h refl)
  present_lem s l d (some c) none h = absurd (h refl)
  present_lem s l d (some c) (some k) h =
      let (n, e, due) = due_lem s l d (o.not_after c) h in (c, n, refl, e, due)

  -- The files change only where the certificate on disk is within the days of its expiry.
  pub renew_if_needed-due :
      (s : AgentSettings) (l : Option Listener) (d : Disk)
      → (renew_if_needed o s l d).0 ≢ d
      → (c : Text) × (n : ℕ) × (d.cert ≡ some c)
        × (o.not_after c ≡ some n)
        × (n ≤ o.now + s.renew_before_days * 86400000000)
  unfolding renew_if_needed
  renew_if_needed-due s l d h = present_lem s l d d.cert d.key (ground arith)
