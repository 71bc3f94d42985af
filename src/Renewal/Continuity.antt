-- ===== src/Renewal/Continuity.antt =====
-- `_renew`: what is on disk after it, whichever step it ended at.
use mathlib.Core.Option.{some-injective}
use tracedown_probe_agent.Writes.{
  key_file, ca_file, Disk, Outcome, done, raise, and_then, put, and_then-keeps,
}
use tracedown_probe_agent.Base.{
  ◌≡◌, ◌⊎◌, inl, inr, refl, sym, ap, ◌∙◌, List, [], ◌∷◌, if◌then◌else◌, subst, true, false, Option,
  none, some, Text, arith,
}
use tracedown_probe_agent.Result.{Result, ok, err, ok_injective}
use tracedown_probe_agent.Trust.{Verify, TrustError, gateway_trust_context}
use tracedown_probe_agent.Renewal.Causes.{is_certificate_rejection}
use tracedown_probe_agent.Config.{AgentSettings}
use tracedown_probe_agent.CaPins.{read_pins, bundle_preserves_pins}
use tracedown_probe_agent.Renewal.{
  CaRoot, absent, a_string, not_a_string, Answer, RenewError, no_key, drops_trust_anchor,
  write_failed, no_trust, no_context, post_failed, Outside, Payload, Transport, clear, mutual_tls,
  front, Post, answered, connect_error, failed, outcome, post_front, after_mutual, over_https,
  post_renewal,
}
use tracedown_probe_agent.Renewal.Install.{
  text_of, write_root, preserves, ca_root_of, atomic_write, write_certificate, write_pins_file,
  advance_pins, write_ca, install, keeps_anchor, accept, payload, receive, send, sign_and_send,
  renew_files,
}

-- The trust anchor is the one before, or the bundle.
abbrev IsAnchor : Option Text → Option Text → Disk → Type 0
IsAnchor before bundle d = (d.ca ≡ before) ⊎ ((t : Text) × (bundle ≡ some t) × (d.ca ≡ some t))

module _ (o : Outside) where
  advance_pins-ca : (t : Text) (d : Disk) → (advance_pins o t d).disk.ca ≡ d.ca
  unfolding advance_pins write_pins_file
  advance_pins-ca t d = ground arith

  ca_written :
      (before : Option Text) (t : Text) (d : Disk)
      → IsAnchor before (some t) d
      → IsAnchor before (some t) (atomic_write o ca_file t d).disk
  unfolding atomic_write
  ca_written before t d h =
      elim (o.takes ca_file t)
        as (λ b.
          IsAnchor before (some t)
            (if b then done (put ca_file (some t) d) else raise write_failed d).disk) [
              | true ↦ inr (t, refl, refl)
              | false ↦ h
            ]

  key_written : (t : Text) (d : Disk) → (atomic_write o key_file t d).disk.ca ≡ d.ca
  unfolding atomic_write
  key_written t d = ground arith

  certificate_written : (a : Answer) (d : Disk) → (write_certificate o a d).disk.ca ≡ d.ca
  unfolding atomic_write write_certificate
  certificate_written a d = ground arith

  write_ca-IsAnchor :
      (before bundle : Option Text) (d : Disk)
      → IsAnchor before bundle d
      → IsAnchor before bundle (write_ca o bundle d).disk
  unfolding write_ca atomic_write
  write_ca-IsAnchor before none d h = h
  write_ca-IsAnchor before (some t) d h =
      and_then-keeps (IsAnchor before (some t)) (atomic_write o ca_file t d) (advance_pins o t)
        (ca_written before t d h)
        λ d1 k.
          subst (λ ca. (ca ≡ before) ⊎ ((u : Text) × (some t ≡ some u) × (ca ≡ some u)))
            (sym (advance_pins-ca t d1)) k

  write_root-IsAnchor :
      (before : Option Text) (r : CaRoot) (d : Disk)
      → (d.ca ≡ before) ⊎ ((t : Text) × (text_of r ≡ some t) × (d.ca ≡ some t))
      → IsAnchor before (text_of r) (write_root o r d).disk
  unfolding write_root
  write_root-IsAnchor before not_a_string d h = h
  write_root-IsAnchor before absent d h = write_ca-IsAnchor before none d h
  write_root-IsAnchor before (a_string t) d h = write_ca-IsAnchor before (text_of (a_string t)) d h

  at_certificate :
      (Q : Option Text → Type 0) (a : Answer) (d : Disk)
      → Q d.ca
      → Q (write_certificate o a d).disk.ca
  at_certificate Q a d h = subst Q (sym (certificate_written a d)) h

  install-IsAnchor : (a : Answer) (d : Disk) → IsAnchor d.ca (ca_root_of a) (install o a d).disk
  unfolding install
  install-IsAnchor a d =
      and_then-keeps (IsAnchor d.ca (ca_root_of a)) (atomic_write o key_file o.new_key d)
        (λ d1. and_then (write_certificate o a d1) (write_root o a.ca_root_pem))
        (inl (key_written o.new_key d))
        λ d1 h.
          and_then-keeps (IsAnchor d.ca (ca_root_of a)) (write_certificate o a d1)
            (write_root o a.ca_root_pem)
            (at_certificate
              (λ ca. (ca ≡ d.ca) ⊎ ((t : Text) × (ca_root_of a ≡ some t) × (ca ≡ some t))) a d1 h)
            (write_root-IsAnchor d.ca a.ca_root_pem)

  -- The anchor is as before, or a bundle that `bundle_preserves_pins` takes.
  abbrev pub Continues : Disk → Disk → Type 0
  Continues before after =
      (after.ca ≡ before.ca)
      ⊎ ((bundle : Text) × (after.ca ≡ some bundle)
          × (bundle_preserves_pins o.certificates bundle (read_pins before.pins) ≡ true))

  preserves_text :
      (r : CaRoot) (pins : List Text) (t : Text)
      → text_of r ≡ some t
      → preserves o r pins ≡ true
      → bundle_preserves_pins o.certificates t pins ≡ true
  unfolding preserves
  preserves_text absent pins t e h = cc e
  preserves_text not_a_string pins t e h = cc e
  preserves_text (a_string []) pins t e h = cc e
  preserves_text (a_string (c ∷ s)) pins t e h =
      subst (λ u. bundle_preserves_pins o.certificates u pins ≡ true) (some-injective _ _ e) h

  pub kept_bundle :
      (a : Answer) (d : Disk) (t : Text)
      → ca_root_of a ≡ some t
      → keeps_anchor o a d ≡ true
      → bundle_preserves_pins o.certificates t (read_pins d.pins) ≡ true
  unfolding keeps_anchor
  kept_bundle a d t e h = preserves_text a.ca_root_pem (read_pins d.pins) t e h

  anchored :
      (a : Answer) (d : Disk)
      → keeps_anchor o a d ≡ true
      → IsAnchor d.ca (ca_root_of a) (install o a d).disk
      → Continues d (install o a d).disk
  anchored a d kept (inl same) = inl same
  anchored a d kept (inr (t, e, w)) = inr (t, w, kept_bundle a d t e kept)

  accept-Continues : (a : Answer) (d : Disk) → Continues d (accept o a d).disk
  unfolding accept
  accept-Continues a d =
      elim (keeps_anchor o a d)
          as (λ b.
            keeps_anchor o a d ≡ b
            → Continues d (if b then install o a d else raise drops_trust_anchor d).disk) [
              | true ↦ λ kept. anchored a d kept (install-IsAnchor a d)
              | false ↦ λ dropped. inl refl
            ]
        refl

  -- The gateway gives the answer to some request.
  abbrev pub IsAnswered : Answer → Type 0
  IsAnswered a = (t : Transport) × (p : Payload) × (o.post t p ≡ answered a)

  outcome-IsAnswered :
      (t : Transport) (p : Payload) (r : Post) (a : Answer)
      → o.post t p ≡ r
      → outcome o r ≡ ok a
      → IsAnswered a
  outcome-IsAnswered t p (answered b) a e h = (t, p, e ∙ ap answered (ok_injective h))
  outcome-IsAnswered t p (connect_error x) a e h = cc h
  outcome-IsAnswered t p failed a e h = cc h

  front-IsAnswered :
      (s : AgentSettings) (p : Payload) (a : Answer) → (post_front o s p).1 ≡ ok a → IsAnswered a
  unfolding post_front
  front-IsAnswered s p a h = by (gateway_trust_context o.trust s) refl h
    where
      by :
          (r : Result TrustError Verify)
          → gateway_trust_context o.trust s ≡ r
          → (elim r as (λ x. List Transport × Result RenewError Answer) [
            | err e ↦ (mutual_tls ∷ [], err (no_trust e))
            | ok v ↦ (mutual_tls ∷ front v ∷ [], outcome o (o.post (front v) p))
          ]).1
            ≡ ok a
          → IsAnswered a
      by (err e) same k = cc k
      by (ok v) same k = outcome-IsAnswered (front v) p (o.post (front v) p) a refl k

  mutual-IsAnswered :
      (s : AgentSettings) (p : Payload) (r : Post) (a : Answer)
      → o.post mutual_tls p ≡ r
      → (after_mutual o s p r).1 ≡ ok a
      → IsAnswered a
  unfolding after_mutual
  mutual-IsAnswered s p (answered b) a e h = (mutual_tls, p, e ∙ ap answered (ok_injective h))
  mutual-IsAnswered s p failed a e h = cc h
  mutual-IsAnswered s p (connect_error x) a e h =
      elim (is_certificate_rejection x)
          as (λ b.
            (elim b as (λ y. List Transport × Result RenewError Answer) [
              | true ↦ post_front o s p
              | false ↦ (mutual_tls ∷ [], err post_failed)
            ]).1
              ≡ ok a
            → IsAnswered a) [ true ↦ front-IsAnswered s p a | false ↦ λ k. cc k ]
        h

  post_renewal-IsAnswered :
      (s : AgentSettings) (d : Disk) (p : Payload) (a : Answer)
      → (post_renewal o s d p).1 ≡ ok a
      → IsAnswered a
  unfolding post_renewal
  post_renewal-IsAnswered s d p a h =
      elim (over_https o s)
          as (λ b.
            (elim b as (λ y. List Transport × Result RenewError Answer) [
              | false ↦ (clear ∷ [], outcome o (o.post clear p))
              | true ↦ elim (o.client_context d) [
                | false ↦ ([], err no_context)
                | true ↦ after_mutual o s p (o.post mutual_tls p)
              ]
            ]).1
              ≡ ok a
            → IsAnswered a) [
              | false ↦ outcome-IsAnswered clear p (o.post clear p) a refl
              | true ↦
                  elim (o.client_context d)
                    as (λ b.
                      (elim b as (λ y. List Transport × Result RenewError Answer) [
                        | false ↦ ([], err no_context)
                        | true ↦ after_mutual o s p (o.post mutual_tls p)
                      ]).1
                        ≡ ok a
                      → IsAnswered a) [
                        | false ↦ λ k. cc k
                        | true ↦ mutual-IsAnswered s p (o.post mutual_tls p) a refl
                      ]
            ]
        h

  module _ (Q : Outcome RenewError → Type 0) (d : Disk) (raised : (e : RenewError) → Q (raise e d))
      (accepted : (a : Answer) → IsAnswered a → Q (accept o a d)) where
    receive-cases :
        (r : Result RenewError Answer)
        → ((a : Answer) → r ≡ ok a → IsAnswered a)
        → Q (receive o r d)
    unfolding receive
    receive-cases (err e) given = raised e
    receive-cases (ok a) given = accepted a (given a refl)

    send-cases : (s : AgentSettings) (slug : Text) (sig : Option Text) → Q (send o s slug d sig)
    unfolding send
    send-cases s slug none = raised no_key
    send-cases s slug (some t) =
        receive-cases (post_renewal o s d (payload o slug t)).1
          (post_renewal-IsAnswered s d (payload o slug t))

    signed-cases :
        (s : AgentSettings) (slug : Text) (key : Option Text) → Q (sign_and_send o s slug d key)
    unfolding sign_and_send
    signed-cases s slug none = raised no_key
    signed-cases s slug (some key) = send-cases s slug (o.sign key o.new_csr)

    -- What holds of the files as they were and of every accepted answer holds after a renewal.
    pub renew_files-cases : (s : AgentSettings) (slug : Text) → Q (renew_files o s slug d)
    unfolding renew_files
    renew_files-cases s slug = signed-cases s slug d.key

  -- Whatever the renewal's answer and wherever the renewal ended, the trust anchor on disk is the
  -- one before or a bundle that holds a CA pinned before (or that came where none was pinned).
  pub renew_files-Continues :
      (s : AgentSettings) (slug : Text) (d : Disk) → Continues d (renew_files o s slug d).disk
  renew_files-Continues s slug d =
      renew_files-cases (λ r. Continues d r.disk) d (λ e. inl refl)
        (λ a given. accept-Continues a d) s slug
