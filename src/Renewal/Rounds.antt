-- ===== src/Renewal/Rounds.antt =====
-- `renewal_loop` of src/mtls/renewal.py: one renewal after another, and what becomes of the trust
-- anchor over all of them.
--
-- The loop does not end; a finite number of its rounds is a list of what is outside in each, and the
-- certificates' library is the same in all.
mod Tests
use tracedown_probe_agent.Writes.{
  FileName, key_file, cert_file, ca_file, pins_file, Disk, Outcome, done, raise, and_then, put,
  and_then-keeps,
}
use tracedown_probe_agent.Base.{
  ℕ, ◌*◌, max, ◌≡◌, ◌≢◌, ◌⊎◌, inl, inr, refl, sym, ap, ◌∙◌, subst, if◌then◌else◌, true, false,
  Option, none, some, List, [], ◌∷◌, Text, Bool, any, All, arith, Bool-cases,
}
use tracedown_probe_agent.Int.{ℤ, pos, negsuc}
use tracedown_probe_agent.Bytes.{text_eq, text_eq_sound, text_eq_refl}
use tracedown_probe_agent.Result.{Result, ok, err}
use tracedown_probe_agent.Config.{AgentSettings}
use tracedown_probe_agent.CaPins.{
  Certificates, read_pins, write_pins, ca_fingerprints, bundle_preserves_pins, shares_pin,
}
use tracedown_probe_agent.CaPins.Stored.{IsWord, in_set, read_pins-write_pins}
use tracedown_probe_agent.Renewal.{
  CaRoot, absent, a_string, not_a_string, Answer, Payload, RenewError, no_certificate, Transport,
  Post, answered, connect_error, failed, Listener, drops_trust_anchor, write_failed, Outside,
  post_renewal, outcome, post_front, after_mutual,
}
use tracedown_probe_agent.Renewal.Install.{
  text_of, write_root, preserves, ca_root_of, atomic_write, write_certificate, write_pins_file,
  advance_pins, write_ca, install, keeps_anchor, accept, payload, receive, send, sign_and_send,
  renew_files, renew, renew_if_needed,
}
use tracedown_probe_agent.Renewal.Listening.{needed-cases}

-- `max(1, settings.renew_check_hours) * 3600`, in seconds.
abbrev pub interval : ℤ → ℕ
interval (pos hours) = max 1 hours * 3600
interval (negsuc hours) = 3600

-- Rounds of `renewal_loop`.
unfoldable pub renewal_rounds :
    AgentSettings → List Outside → Option Listener → Disk → Disk × Option Listener
renewal_rounds s [] l d = (d, l)
renewal_rounds s (o ∷ os) l d = let (d1, l1) = renew_if_needed o s l d in renewal_rounds s os l1 d1

module _ (o : Outside) (Q : Option Text → Option Text → Type 0) where
  -- The bundle may be written, and then its pins.
  abbrev pub MayFollow : Text → Type 0
  MayFollow t =
      ((ca pins : Option Text) → Q ca pins → Q (some t) pins)
      × ((ca pins : Option Text) (f : Text) (fs : List Text)
          → ca_fingerprints o.certificates t ≡ f ∷ fs
          → Q ca pins
          → Q ca (some (write_pins (f ∷ fs))))

  abbrev Held : Disk → Type 0
  Held d = Q d.ca d.pins

  key-Held : (t : Text) (d : Disk) → Held d → Held (atomic_write o key_file t d).disk
  unfolding atomic_write
  key-Held t d h =
      elim (o.takes key_file t)
        as (λ b. Held (if b then done (put key_file (some t) d) else raise write_failed d).disk) [
          | true ↦ h
          | false ↦ h
        ]

  certificate-Held : (a : Answer) (d : Disk) → Held d → Held (write_certificate o a d).disk
  unfolding write_certificate atomic_write
  certificate-Held a d h =
      elim a.certificate_pem
        as (λ c.
          Held
            (elim c as (λ x. Outcome RenewError) [
              | none ↦ raise no_certificate d
              | some t ↦ atomic_write o cert_file t d
            ]).disk) [
              | none ↦ h
              | some t ↦
                  elim (o.takes cert_file t)
                    as (λ b.
                      Held
                        (if b
                          then done (put cert_file (some t) d)
                          else raise write_failed d).disk) [ true ↦ h | false ↦ h ]
            ]

  module _ (takes : (t : Text) → o.takes pins_file t ≡ true) where
    pins-Held : (t : Text) → MayFollow t → (d : Disk) → Held d → Held (advance_pins o t d).disk
    unfolding advance_pins write_pins_file
    pins-Held t may d h = by (ca_fingerprints o.certificates t) refl
      where
        by :
            (fs : List Text)
            → ca_fingerprints o.certificates t ≡ fs
            → Held
                (elim fs as (λ x. Outcome RenewError) [
                  | [] ↦ done d
                  | p ∷ ps ↦ write_pins_file o (write_pins (p ∷ ps)) d
                ]).disk
        by [] e = h
        by (f ∷ fs) e = rw (takes (write_pins (f ∷ fs))) (may.1 d.ca d.pins f fs e h)

    ca-Held :
        (bundle : Option Text)
        → ((t : Text) → bundle ≡ some t → MayFollow t)
        → (d : Disk) → Held d
        → Held (write_ca o bundle d).disk
    unfolding write_ca atomic_write
    ca-Held none may d h = h
    ca-Held (some t) may d h =
        and_then-keeps Held (atomic_write o ca_file t d) (advance_pins o t)
          (elim (o.takes ca_file t)
            as (λ b.
              Held (if b then done (put ca_file (some t) d) else raise write_failed d).disk) [
                | true ↦ (may t refl).0 d.ca d.pins h
                | false ↦ h
              ])
          (pins-Held t (may t refl))

    root-Held :
        (r : CaRoot)
        → ((t : Text) → text_of r ≡ some t → MayFollow t)
        → (d : Disk) → Held d
        → Held (write_root o r d).disk
    unfolding write_root
    root-Held not_a_string may d h = h
    root-Held absent may d h = ca-Held none may d h
    root-Held (a_string t) may d h = ca-Held (text_of (a_string t)) may d h

    pub install-Held :
        (a : Answer)
        → ((t : Text) → ca_root_of a ≡ some t → MayFollow t)
        → (d : Disk) → Held d
        → Held (install o a d).disk
    unfolding install
    install-Held a may d h =
        and_then-keeps Held (atomic_write o key_file o.new_key d)
          (λ d1. and_then (write_certificate o a d1) (write_root o a.ca_root_pem))
          (key-Held o.new_key d h)
          λ d1 h1.
            and_then-keeps Held (write_certificate o a d1) (write_root o a.ca_root_pem)
              (certificate-Held a d1 h1) (root-Held a.ca_root_pem may)
