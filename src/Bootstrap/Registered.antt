-- ===== src/Bootstrap/Registered.antt =====
-- What a registration sends, and what it leaves on disk.
use tracedown_probe_agent.Base.{
  ◌≡◌, inl, inr, refl, sym, ◌∙◌, subst, true, false, ◌&&◌, Option, none, some, List, [], ◌∷◌, Text,
  map, All, arith, Option-cases,
}
use tracedown_probe_agent.Result.{Result, ok, err}
use tracedown_probe_agent.Config.{AgentSettings}
use tracedown_probe_agent.Trust.{Verify, TrustError, resolve_bootstrap_verify}
use tracedown_probe_agent.CaPins.{Certificates, ca_fingerprints, read_pins, bundle_preserves_pins}
use tracedown_probe_agent.CaPins.Stored.{IsWord}
use tracedown_probe_agent.Writes.{key_file, cert_file, ca_file, Disk, and_then, and_then-ok}
use tracedown_probe_agent.Bootstrap.{
  SlugField, no_slug, named, odd_slug, Registration, RegisterError, no_certificate, Outside,
  write_text, write_required, write_pin_set, record_pins, record_slug, keep_bundle, keep_ca, keep,
  receive, send, request, register, exists, ensure_registered,
}

module _ (c : Certificates) (digest : (t : Text) → IsWord (c.sha256 t)) where
  map-IsWord : (certs : List Text) → All IsWord (map c.sha256 certs)
  map-IsWord [] = tt
  map-IsWord (t ∷ ts) = (digest t, map-IsWord ts)

  pub ca_fingerprints-IsWord : (bundle : Text) → All IsWord (ca_fingerprints c bundle)
  unfolding ca_fingerprints
  ca_fingerprints-IsWord bundle =
      elim (c.load_pem bundle)
        as (λ r.
          All IsWord (elim r as (λ _. List Text) [ none ↦ [] | some certs ↦ map c.sha256 certs ])) [
            | none ↦ tt
            | some certs ↦ map-IsWord certs
          ]

-- The new pair is on disk, with a bundle of which `Kept` holds beside the pins.
abbrev pub IsRegistered : Outside → (Text → Option Text → Type 0) → Disk → Type 0
IsRegistered o Kept d =
    (cert bundle : Text) × (d.key ≡ some o.new_key)
    × (d.cert ≡ some cert)
    × (d.ca ≡ some bundle)
    × Kept bundle d.pins

module _ (o : Outside) (Before : Option Text → Type 0) (Kept : Text → Option Text → Type 0) where
  -- The new key and a certificate are on disk, and the pins are as they were.
  abbrev HasPair : Disk → Type 0
  HasPair d = (cert : Text) × (d.key ≡ some o.new_key) × (d.cert ≡ some cert) × Before d.pins

  abbrev HasBundle : Text → Disk → Type 0
  HasBundle bundle d =
      (cert : Text) × (d.key ≡ some o.new_key) × (d.cert ≡ some cert) × (d.ca ≡ some bundle)

  write_text-cert :
      (a : Registration) (d : Disk)
      → d.key ≡ some o.new_key
      → Before d.pins
      → (write_required o cert_file no_certificate a.certificate_pem d).error ≡ none
      → HasPair (write_required o cert_file no_certificate a.certificate_pem d).disk
  unfolding write_required write_text
  write_text-cert a d k p h = elim (Option-cases a.certificate_pem) [
    | inl e ↦ absurd (ground arith)
    | inr (t, e) ↦
        let pins : (write_required o cert_file no_certificate a.certificate_pem d).disk.pins
            ≡ d.pins =
          ground arith in
        (t, ground arith, ground arith, subst Before (sym pins) p)
  ]

  write_text-ca :
      (bundle : Text) (d : Disk)
      → HasPair d
      → (write_text o ca_file bundle d).error ≡ none
      → HasBundle bundle (write_text o ca_file bundle d).disk
        × Before (write_text o ca_file bundle d).disk.pins
  unfolding write_text
  write_text-ca bundle d (cert, k, c, p) h =
      let pins : (write_text o ca_file bundle d).disk.pins ≡ d.pins = ground arith in
      ((cert, ground arith, ground arith, ground arith), subst Before (sym pins) p)

  record_slug-IsRegistered :
      (slug : SlugField) (d : Disk)
      → IsRegistered o Kept d
      → (record_slug o slug d).error ≡ none
      → IsRegistered o Kept (record_slug o slug d).disk
  unfolding record_slug write_text
  record_slug-IsRegistered no_slug d r h = r
  record_slug-IsRegistered odd_slug d r h = cc h
  record_slug-IsRegistered (named []) d r h = r
  record_slug-IsRegistered (named (c ∷ s)) d (cert, bundle, k, ce, ca, kept) h =
      let pins : (record_slug o (named (c ∷ s)) d).disk.pins ≡ d.pins = ground arith in
      (cert, bundle, ground arith, ground arith, ground arith, subst (Kept bundle) (sym pins) kept)

  module _
      (recorded : (bundle : Text) (d : Disk)
        → Before d.pins
        → (record_pins o bundle d).error ≡ none
        → Kept bundle (record_pins o bundle d).disk.pins) where
    pin_set_lem :
        (pins : List Text) (d : Disk)
        → ((write_pin_set o pins d).disk.key ≡ d.key)
          × ((write_pin_set o pins d).disk.cert ≡ d.cert)
          × ((write_pin_set o pins d).disk.ca ≡ d.ca)
    unfolding write_pin_set write_text
    pin_set_lem pins d = ground arith

    record_pins-IsRegistered :
        (bundle : Text) (d : Disk)
        → HasBundle bundle d × Before d.pins
        → (record_pins o bundle d).error ≡ none
        → IsRegistered o Kept (record_pins o bundle d).disk
    unfolding record_pins
    record_pins-IsRegistered bundle d ((cert, k, c, ca), p) e =
        let (key, certificate, anchor) = pin_set_lem (ca_fingerprints o.certificates bundle) d in
        (cert, bundle, key ∙ k, certificate ∙ c, anchor ∙ ca, recorded bundle d p e)

    ca_by :
        (a : Registration) (ca : Option Text) (d : Disk)
        → HasPair d
        → (keep_bundle o a.slug ca d).error ≡ none
        → IsRegistered o Kept (keep_bundle o a.slug ca d).disk
    unfolding keep_bundle
    ca_by a none d h e = ground arith
    ca_by a (some bundle) d h e =
        and_then-ok (λ d1. HasBundle bundle d1 × Before d1.pins) (IsRegistered o Kept)
          (write_text o ca_file bundle d)
          (λ d1. and_then (record_pins o bundle d1) (record_slug o a.slug))
          (write_text-ca bundle d h)
          (λ d1 i e1.
            and_then-ok (IsRegistered o Kept) (IsRegistered o Kept) (record_pins o bundle d1)
              (record_slug o a.slug) (record_pins-IsRegistered bundle d1 i)
              (record_slug-IsRegistered a.slug) e1)
          e

    keep-IsRegistered :
        (a : Registration) (d : Disk)
        → d.key ≡ some o.new_key
        → Before d.pins
        → (keep o a d).error ≡ none
        → IsRegistered o Kept (keep o a d).disk
    unfolding keep keep_ca
    keep-IsRegistered a d k p e =
        and_then-ok HasPair (IsRegistered o Kept)
          (write_required o cert_file no_certificate a.certificate_pem d) (keep_ca o a)
          (write_text-cert a d k p) (ca_by a a.ca_root_pem) e

    receive-IsRegistered :
        (r : Option Registration) (d : Disk)
        → d.key ≡ some o.new_key
        → Before d.pins
        → (receive o r d).error ≡ none
        → IsRegistered o Kept (receive o r d).disk
    unfolding receive
    receive-IsRegistered none d k p e = ground arith
    receive-IsRegistered (some a) d k p e = keep-IsRegistered a d k p e

    send-IsRegistered :
        (s : AgentSettings) (v : Result TrustError Verify) (d : Disk)
        → d.key ≡ some o.new_key
        → Before d.pins
        → (send o s v d).outcome.error ≡ none
        → IsRegistered o Kept (send o s v d).outcome.disk
    unfolding send
    send-IsRegistered s (err t) d k p e = ground arith
    send-IsRegistered s (ok v) d k p e = receive-IsRegistered (o.post v (request o s)) d k p e

    register-IsRegistered :
        (s : AgentSettings) (d : Disk) (e : Option RegisterError)
        → (e ≡ none → (d.key ≡ some o.new_key) × Before d.pins)
        → (register o s (record { disk = d; error = e })).outcome.error ≡ none
        → IsRegistered o Kept (register o s (record { disk = d; error = e })).outcome.disk
    unfolding register
    register-IsRegistered s d none h e =
        send-IsRegistered s (resolve_bootstrap_verify o.trust s) d (h refl).0 (h refl).1 e
    register-IsRegistered s d (some x) h e = ground arith

    key_written :
        (d : Disk)
        → Before d.pins
        → (write_text o key_file o.new_key d).error ≡ none
        → ((write_text o key_file o.new_key d).disk.key ≡ some o.new_key)
          × Before (write_text o key_file o.new_key d).disk.pins
    unfolding write_text
    key_written d p e =
        let pins : (write_text o key_file o.new_key d).disk.pins ≡ d.pins = ground arith in
        (ground arith, subst Before (sym pins) p)

    pub registered_lem :
        (s : AgentSettings) (d : Disk)
        → Before d.pins
        → (exists d.cert && exists d.key) ≡ false
        → (ensure_registered o s d).outcome.error ≡ none
        → IsRegistered o Kept (ensure_registered o s d).outcome.disk
    unfolding ensure_registered
    registered_lem s d p missing e =
        let written = write_text o key_file o.new_key d in
        let registered = register-IsRegistered s written.disk written.error (key_written d p) in
        rw missing (registered (rw missing at e))

module _ (o : Outside) where
  abbrev pub Preserved : Text → Option Text → Type 0
  Preserved bundle pins = bundle_preserves_pins o.certificates bundle (read_pins pins) ≡ true

  -- Whatever pins were there, the three files are there after a registration that raises nothing.
  pub ensure_registered-files :
      (s : AgentSettings) (d : Disk)
      → (exists d.cert && exists d.key) ≡ false
      → (ensure_registered o s d).outcome.error ≡ none
      → IsRegistered o (λ bundle pins. Unit {0}) (ensure_registered o s d).outcome.disk
  ensure_registered-files s d =
      registered_lem o (λ p. Unit {0}) (λ bundle pins. Unit {0}) (λ bundle d p e. tt) s d tt

  register-sent :
      (s : AgentSettings) (d : Disk) (e : Option RegisterError) (v : Verify)
      → (register o s (record { disk = d; error = e })).sent ≡ some v
      → resolve_bootstrap_verify o.trust s ≡ ok v
  unfolding register send
  register-sent s d none v h = ground arith
  register-sent s d (some x) v h = ground arith

  -- The token is sent only where no pair of key and certificate was there, and only on a connection
  -- of the trust that the settings resolve to.
  pub ensure_registered-sent :
      (s : AgentSettings) (d : Disk) (v : Verify)
      → (ensure_registered o s d).sent ≡ some v
      → (resolve_bootstrap_verify o.trust s ≡ ok v) × ((exists d.cert && exists d.key) ≡ false)
  unfolding ensure_registered
  ensure_registered-sent s d v h =
      let written = write_text o key_file o.new_key d in
      let resolved = register-sent s written.disk written.error v in (ground arith, ground arith)
