-- ===== src/Renewal/Installed.antt =====
-- `_renew`: the pair on disk after a renewal that raised nothing.
use tracedown_probe_agent.Writes.{
  key_file, ca_file, Disk, done, raise, and_then, put, and_then-keeps, and_then-ok,
}
use tracedown_probe_agent.Base.{
  ◌≡◌, true, false, Option, none, some, Text, arith, Option-cases, inl, inr, ◌∙◌, if◌then◌else◌,
}
use tracedown_probe_agent.Config.{AgentSettings}
use tracedown_probe_agent.Renewal.{
  CaRoot, absent, a_string, not_a_string, Answer, write_failed, drops_trust_anchor, Outside,
}
use tracedown_probe_agent.Renewal.Install.{
  text_of, write_root, atomic_write, write_certificate, write_pins_file, advance_pins, write_ca,
  install, keeps_anchor, accept, renew_files,
}
use tracedown_probe_agent.Renewal.Continuity.{IsAnswered, renew_files-cases}

module _ (o : Outside) where
  -- The new key and the answer's certificate are on disk.
  abbrev pub IsInstalled : Answer → Disk → Type 0
  IsInstalled a d =
      (d.key ≡ some o.new_key) × (t : Text) × (a.certificate_pem ≡ some t) × (d.cert ≡ some t)

  key-installed :
      (d : Disk)
      → (atomic_write o key_file o.new_key d).error ≡ none
      → (atomic_write o key_file o.new_key d).disk.key ≡ some o.new_key
  unfolding atomic_write
  key-installed d h = ground arith

  certificate_by :
      (a : Answer) (d : Disk)
      → d.key ≡ some o.new_key
      → (write_certificate o a d).error ≡ none
      → IsInstalled a (write_certificate o a d).disk
  unfolding write_certificate atomic_write
  certificate_by a d k h = elim (Option-cases a.certificate_pem) [
    | inl e ↦ absurd (ground arith)
    | inr (t, e) ↦ (ground arith, t, e, ground arith)
  ]

  ca_write-IsInstalled :
      (a : Answer) (t : Text) (d : Disk)
      → IsInstalled a d
      → IsInstalled a (atomic_write o ca_file t d).disk
  unfolding atomic_write
  ca_write-IsInstalled a t d h =
      elim (o.takes ca_file t)
        as (λ b.
          IsInstalled a (if b then done (put ca_file (some t) d) else raise write_failed d).disk) [
            | true ↦ h
            | false ↦ h
          ]

  advance_pins-IsInstalled :
      (a : Answer) (t : Text) (d : Disk) → IsInstalled a d → IsInstalled a (advance_pins o t d).disk
  unfolding advance_pins write_pins_file
  advance_pins-IsInstalled a t d (k, u, pem, c) =
      let key_kept : (advance_pins o t d).disk.key ≡ d.key = ground arith in
      let cert_kept : (advance_pins o t d).disk.cert ≡ d.cert = ground arith in
      (key_kept ∙ k, u, pem, cert_kept ∙ c)

  write_ca-IsInstalled :
      (a : Answer) (b : Option Text) (d : Disk)
      → IsInstalled a d
      → IsInstalled a (write_ca o b d).disk
  unfolding write_ca
  write_ca-IsInstalled a none d h = h
  write_ca-IsInstalled a (some t) d h =
      and_then-keeps (IsInstalled a) (atomic_write o ca_file t d) (advance_pins o t)
        (ca_write-IsInstalled a t d h) (advance_pins-IsInstalled a t)

  write_root-IsInstalled :
      (a : Answer) (r : CaRoot) (d : Disk) → IsInstalled a d → IsInstalled a (write_root o r d).disk
  unfolding write_root
  write_root-IsInstalled a not_a_string d h = h
  write_root-IsInstalled a absent d h = write_ca-IsInstalled a none d h
  write_root-IsInstalled a (a_string t) d h = write_ca-IsInstalled a (text_of (a_string t)) d h

  install-IsInstalled :
      (a : Answer) (d : Disk) → (install o a d).error ≡ none → IsInstalled a (install o a d).disk
  unfolding install
  install-IsInstalled a d h =
      and_then-ok (λ d1. d1.key ≡ some o.new_key) (IsInstalled a)
        (atomic_write o key_file o.new_key d)
        (λ d1. and_then (write_certificate o a d1) (write_root o a.ca_root_pem)) (key-installed d)
        (λ d1 k e.
          and_then-ok (IsInstalled a) (IsInstalled a) (write_certificate o a d1)
            (write_root o a.ca_root_pem) (certificate_by a d1 k)
            (λ d2 i _. write_root-IsInstalled a a.ca_root_pem d2 i) e)
        h

  accept-IsInstalled :
      (a : Answer) (d : Disk) → (accept o a d).error ≡ none → IsInstalled a (accept o a d).disk
  unfolding accept
  accept-IsInstalled a d =
      elim (keeps_anchor o a d)
        as (λ b.
          (if b then install o a d else raise drops_trust_anchor d).error ≡ none
          → IsInstalled a (if b then install o a d else raise drops_trust_anchor d).disk) [
            | true ↦ install-IsInstalled a d
            | false ↦ λ h. ground arith
          ]

  -- A renewal that raised nothing leaves the new key on disk, and the certificate of an answer that
  -- the gateway gave.
  pub renew_files-IsInstalled :
      (s : AgentSettings) (slug : Text) (d : Disk)
      → (renew_files o s slug d).error ≡ none
      → (a : Answer) × IsAnswered o a × IsInstalled a (renew_files o s slug d).disk
  renew_files-IsInstalled s slug d =
      renew_files-cases o
        (λ r. r.error ≡ none → (a : Answer) × IsAnswered o a × IsInstalled a r.disk) d
        (λ e h. ground arith) (λ a given h. (a, given, accept-IsInstalled a d h)) s slug
