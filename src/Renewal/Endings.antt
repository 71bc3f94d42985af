-- ===== src/Renewal/Endings.antt =====
-- `_renew` and `renew_if_needed`: how a renewal ends, and when one is due.
use tracedown_probe_agent.Writes.{
  FileName, key_file, ca_file, Disk, Outcome, raise, and_then, and_then-error,
}
use tracedown_probe_agent.Base.{
  ◌≡◌, ◌≢◌, ◌⊎◌, inl, inr, refl, if◌then◌else◌, true, false, Option, none, some, Text, arith,
}
use tracedown_probe_agent.Config.{AgentSettings}
use tracedown_probe_agent.Renewal.{
  Answer, CaRoot, absent, a_string, not_a_string, bad_ca_root, RenewError, drops_trust_anchor,
  no_certificate, write_failed, Outside,
}
use tracedown_probe_agent.Renewal.Install.{
  text_of, write_root, atomic_write, write_certificate, write_pins_file, advance_pins, write_ca,
  install, keeps_anchor, accept, renew_files,
}
use tracedown_probe_agent.Renewal.Continuity.{renew_files-cases}

-- The end of a run whose writes had begun.
abbrev pub IsLate : Option RenewError → Type 0
IsLate e =
    (e ≡ none) ⊎ ((e ≡ some no_certificate) ⊎ ((e ≡ some write_failed) ⊎ (e ≡ some bad_ca_root)))

module _ (o : Outside) where
  atomic_write-IsLate : (f : FileName) (t : Text) (d : Disk) → IsLate (atomic_write o f t d).error
  unfolding atomic_write
  atomic_write-IsLate f t d = ground arith

  advance_pins-IsLate : (t : Text) (d : Disk) → IsLate (advance_pins o t d).error
  unfolding advance_pins write_pins_file
  advance_pins-IsLate t d = ground arith

  write_certificate-IsLate : (a : Answer) (d : Disk) → IsLate (write_certificate o a d).error
  unfolding write_certificate atomic_write
  write_certificate-IsLate a d = ground arith

  write_ca-IsLate : (t : Option Text) (d : Disk) → IsLate (write_ca o t d).error
  unfolding write_ca
  write_ca-IsLate none d = inl refl
  write_ca-IsLate (some t) d =
      and_then-error IsLate (atomic_write o ca_file t d) (advance_pins o t)
        (atomic_write-IsLate ca_file t d) (advance_pins-IsLate t)

  write_root-IsLate : (r : CaRoot) (d : Disk) → IsLate (write_root o r d).error
  unfolding write_root
  write_root-IsLate not_a_string d = inr (inr (inr refl))
  write_root-IsLate absent d = write_ca-IsLate none d
  write_root-IsLate (a_string t) d = write_ca-IsLate (text_of (a_string t)) d

  install-IsLate : (a : Answer) (d : Disk) → IsLate (install o a d).error
  unfolding install
  install-IsLate a d =
      and_then-error IsLate (atomic_write o key_file o.new_key d)
        (λ d1. and_then (write_certificate o a d1) (write_root o a.ca_root_pem))
        (atomic_write-IsLate key_file o.new_key d)
        λ d1.
          and_then-error IsLate (write_certificate o a d1) (write_root o a.ca_root_pem)
            (write_certificate-IsLate a d1) (write_root-IsLate a.ca_root_pem)

  abbrev pub Ends : Disk → Outcome RenewError → Type 0
  Ends d r = (r.disk ≡ d) ⊎ IsLate r.error

  accept-Ends : (a : Answer) (d : Disk) → Ends d (accept o a d)
  unfolding accept
  accept-Ends a d =
      elim (keeps_anchor o a d)
        as (λ b. Ends d (if b then install o a d else raise drops_trust_anchor d)) [
          | true ↦ inr (install-IsLate a d)
          | false ↦ inl refl
        ]

  renew_files-Ends : (s : AgentSettings) (slug : Text) (d : Disk) → Ends d (renew_files o s slug d)
  renew_files-Ends s slug d =
      renew_files-cases o (Ends d) d (λ e. inl refl) (λ a given. accept-Ends a d) s slug

  -- A renewal that was refused, by the gateway or for its trust anchor, wrote nothing: only an
  -- answer without a certificate, one whose bundle is no string, and a refused write end one after it
  -- began to write.
  pub renew_files-refused :
      (s : AgentSettings) (slug : Text) (d : Disk) (e : RenewError)
      → (renew_files o s slug d).error ≡ some e
      → e ≢ no_certificate
      → e ≢ write_failed
      → e ≢ bad_ca_root
      → (renew_files o s slug d).disk ≡ d
  renew_files-refused s slug d e h nc nw nr = elim (renew_files-Ends s slug d) [
    | inl same ↦ same
    | inr late ↦ ground arith
  ]
