-- ===== src/Renewal/Install.antt =====
-- `_renew` and `renew_if_needed`: what a renewal does to the files and to the live listener.
use tracedown_probe_agent.Writes.{
  FileName, key_file, cert_file, ca_file, pins_file, Disk, Outcome, done, raise, and_then, put,
}
use tracedown_probe_agent.Base.{
  ℕ, ◌+◌, ◌*◌, Bool, true, false, Option, none, some, List, [], ◌∷◌, Text, ltb, if◌then◌else◌,
}
use tracedown_probe_agent.Result.{Result, ok, err}
use tracedown_probe_agent.Config.{AgentSettings, is_truthy}
use tracedown_probe_agent.CaPins.{read_pins, write_pins, ca_fingerprints, bundle_preserves_pins}
use tracedown_probe_agent.Renewal.{
  Answer, CaRoot, absent, a_string, not_a_string, bad_ca_root, RenewError, no_key,
  drops_trust_anchor, no_certificate, write_failed, Listener, Outside, Payload, post_renewal,
  resolve_slug,
}

-- The bundle that is a string; the empty one is none.
abbrev pub text_of : CaRoot → Option Text
text_of (a_string t) = elim (is_truthy t) [ true ↦ some t | false ↦ none ]
text_of _ = none

-- The bundle of an answer.
abbrev pub ca_root_of : Answer → Option Text
ca_root_of a = text_of a.ca_root_pem

module _ (o : Outside) where
  -- `_atomic_write`: the file is as it was where the write is refused.
  unfoldable pub atomic_write : FileName → Text → Disk → Outcome RenewError
  atomic_write f t d = if o.takes f t then done (put f (some t) d) else raise write_failed d

  -- `_atomic_write(cert_path, data["certificatePem"].encode("utf-8"))`
  unfoldable pub write_certificate : Answer → Disk → Outcome RenewError
  unfolding atomic_write
  write_certificate a d = elim a.certificate_pem [
    | none ↦ raise no_certificate d
    | some t ↦ atomic_write cert_file t d
  ]

  -- `pins_path.write_text(…)`, which is not atomic.
  unfoldable pub write_pins_file : Text → Disk → Outcome RenewError
  write_pins_file t d =
      if o.takes pins_file t
      then done (put pins_file (some t) d)
      else raise write_failed (put pins_file (o.leaves t) d)

  -- The new pins, where the bundle has any.
  unfoldable pub advance_pins : Text → Disk → Outcome RenewError
  unfolding write_pins_file
  advance_pins bundle d = elim (ca_fingerprints o.certificates bundle) [
    | [] ↦ done d
    | p ∷ ps ↦ write_pins_file (write_pins (p ∷ ps)) d
  ]

  -- `if ca_root: …`
  unfoldable pub write_ca : Option Text → Disk → Outcome RenewError
  unfolding atomic_write advance_pins
  write_ca none d = done d
  write_ca (some bundle) d = and_then (atomic_write ca_file bundle d) (advance_pins bundle)

  -- The same by the field: what is no string is true and has no `encode`.
  unfoldable pub write_root : CaRoot → Disk → Outcome RenewError
  unfolding write_ca
  write_root not_a_string d = raise bad_ca_root d
  write_root root d = write_ca (text_of root) d

  unfoldable pub install : Answer → Disk → Outcome RenewError
  unfolding atomic_write write_certificate write_root
  install a d =
      and_then (atomic_write key_file o.new_key d)
        λ d1. and_then (write_certificate a d1) (write_root a.ca_root_pem)

  -- `not ca_root or bundle_preserves_pins(ca_root, pinned)`; what is no string has no fingerprints.
  unfoldable pub preserves : CaRoot → List Text → Bool
  preserves absent pins = true
  preserves (a_string t) pins =
      if is_truthy t then bundle_preserves_pins o.certificates t pins else true
  preserves not_a_string [] = true
  preserves not_a_string (p ∷ ps) = false

  -- The check of the trust anchor, before anything is written.
  unfoldable pub keeps_anchor : Answer → Disk → Bool
  unfolding preserves
  keeps_anchor a d = preserves a.ca_root_pem (read_pins d.pins)

  unfoldable pub accept : Answer → Disk → Outcome RenewError
  unfolding keeps_anchor install
  accept a d = if keeps_anchor a d then install a d else raise drops_trust_anchor d

  abbrev pub payload : Text → Text → Payload
  payload slug signature = record { slug = slug; csr = o.new_csr; signature = signature }

  unfoldable pub receive : Result RenewError Answer → Disk → Outcome RenewError
  unfolding accept
  receive (err e) d = raise e d
  receive (ok a) d = accept a d

  unfoldable pub send : AgentSettings → Text → Disk → Option Text → Outcome RenewError
  unfolding post_renewal receive
  send s slug d none = raise no_key d
  send s slug d (some signature) = receive ((post_renewal o s d (payload slug signature)).1) d

  unfoldable pub sign_and_send : AgentSettings → Text → Disk → Option Text → Outcome RenewError
  unfolding send
  sign_and_send s slug d none = raise no_key d
  sign_and_send s slug d (some key) = send s slug d (o.sign key o.new_csr)

  -- `_renew` up to the files: the current key signs the new request.
  unfoldable pub renew_files : AgentSettings → Text → Disk → Outcome RenewError
  unfolding sign_and_send
  renew_files s slug d = sign_and_send s slug d d.key

  -- The reload of the live listener; a failure leaves what it had.
  unfoldable pub reload : Disk → Listener → Listener
  reload d l = elim (o.loads_chain d.cert d.key) [
    | false ↦ l
    | true ↦
        let chained = record l { served_cert = d.cert; served_key = d.key } in
        elim (o.loads_bundle d.ca) [
          | false ↦ chained
          | true ↦ record chained { bundles = d.ca ∷ l.bundles }
        ]
  ]

  abbrev pub reload_after : Outcome RenewError → Option Listener → Option Listener
  reload_after r none = none
  reload_after r (some l) = elim r.error [ none ↦ some (reload r.disk l) | some e ↦ some l ]

  -- `_renew`
  unfoldable pub renew :
      AgentSettings → Text → Option Listener → Disk → Outcome RenewError × Option Listener
  unfolding renew_files reload
  renew s slug l d = let r = renew_files s slug d in (r, reload_after r l)

  -- `days_left > settings.renew_before_days`, in exact arithmetic.
  unfoldable pub is_early : AgentSettings → ℕ → Bool
  is_early s expiry = ltb (o.now + s.renew_before_days * 86400000000) expiry

  -- The rest of `renew_if_needed` by the slug, by the expiry and by the files that are there.
  unfoldable pub renew_named :
      AgentSettings → Option Listener → Disk → Option Text → Disk × Option Listener
  unfolding renew
  renew_named s l d none = (d, l)
  renew_named s l d (some slug) = let (r, l1) = renew s slug l d in (r.disk, l1)

  unfoldable pub renew_due :
      AgentSettings → Option Listener → Disk → Option ℕ → Disk × Option Listener
  unfolding is_early resolve_slug renew_named
  renew_due s l d none = (d, l)
  renew_due s l d (some expiry) =
      if is_early s expiry then (d, l) else renew_named s l d (resolve_slug o s d)

  unfoldable pub renew_present :
      AgentSettings → Option Listener → Disk → Option Text → Option Text → Disk × Option Listener
  unfolding renew_due
  renew_present s l d none key = (d, l)
  renew_present s l d (some cert) none = (d, l)
  renew_present s l d (some cert) (some key) = renew_due s l d (o.not_after cert)

  -- `renew_if_needed`, which raises nothing: what `_renew` raises ends it.
  unfoldable pub renew_if_needed : AgentSettings → Option Listener → Disk → Disk × Option Listener
  unfolding renew_present
  renew_if_needed s l d =
      if is_truthy s.scheduler_url then renew_present s l d d.cert d.key else (d, l)
