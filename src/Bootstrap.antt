-- ===== src/Bootstrap.antt =====
-- src/mtls/bootstrap.py: the address that the agent advertises, and its registration.
--
-- The network, the cryptography and the file system's refusals stand in one record. A refused write
-- of these, which are not atomic, leaves any content.
pub mod Registered
pub mod Samples
mod Tests
use mathlib.Core.List.{reverse}
use tracedown_probe_agent.Base.{
  ℕ, zero, suc, ◌+◌, ◌/◌, ◌%◌, Bool, true, false, ◌&&◌, Option, none, some, List, [], ◌∷◌, ◌++◌,
  Text, codes, ltb, ◌==◌, if◌then◌else◌,
}
use tracedown_probe_agent.Spaces.{strip}
use tracedown_probe_agent.Result.{Result, ok, err}
use tracedown_probe_agent.Config.{AgentSettings, is_truthy}
use tracedown_probe_agent.Trust
use tracedown_probe_agent.Trust.{Verify, TrustError, resolve_bootstrap_verify}
use tracedown_probe_agent.CaPins.{Certificates, ca_fingerprints, write_pins}
use tracedown_probe_agent.Writes.{
  FileName, key_file, cert_file, ca_file, pins_file, slug_file, Disk, put, Outcome, done, raise,
  and_then,
}

-- `str(n)`, on fuel; a number has no more digits than it counts.
unfoldable pub digits_from : ℕ → ℕ → Text
digits_from zero n = []
digits_from (suc fuel) n =
    let rest = digits_from fuel (n / 10) in if ltb n 10 then (48 + n) ∷ [] else (48 + n % 10) ∷ rest

unfoldable pub str_of : ℕ → Text
unfolding digits_from
str_of n = reverse (digits_from (suc n) n)

-- `settings.advertised_port or settings.port`
abbrev pub dialled_port : AgentSettings → ℕ
dialled_port s = elim s.advertised_port [ none ↦ s.port | some n ↦ if n == 0 then s.port else n ]

-- `advertised_agent_uri`, with `socket.getfqdn()`.
unfoldable pub advertised_agent_uri : Text → AgentSettings → Text
unfolding str_of
advertised_agent_uri fqdn s =
    let host = strip s.advertised_host in
    codes "https://"
    ++ ((if is_truthy host then host else fqdn) ++ (codes ":" ++ str_of (dialled_port s)))

-- `data.get("slug")`: missing or false for Python and no string; a string; any other value.
pub data SlugField : Type 0 where
  no_slug : SlugField
  named : Text → SlugField
  odd_slug : SlugField

-- The JSON object of the scheduler's answer. A certificate or a bundle that is missing, or that is no
-- string, raises before anything is written for it, and is none.
pub record Registration : Type 0 where
  pub certificate_pem : Option Text
  pub ca_root_pem : Option Text
  pub slug : SlugField

-- `bootstrapToken`, `csrPem` and `agentUri`.
pub record Request : Type 0 where
  pub token : Text
  pub csr : Text
  pub uri : Text

pub data RegisterError : Type 0 where
  no_trust : TrustError → RegisterError
  post_failed no_certificate no_ca_root bad_slug write_failed : RegisterError

pub record Outside : Type 0 where
  pub trust : Trust.Outside
  pub certificates : Certificates
  pub fqdn : Text
  -- the new key in PEM, and its request
  pub new_key : Text
  pub new_csr : Text
  -- the POST to the gateway: none where it fails or its status is an error
  pub post : Verify → Request → Option Registration
  -- whether the file system takes the write, and what a refused one leaves of the file
  pub takes : FileName → Text → Bool
  pub leaves : FileName → Text → Option Text

-- What a registration does: the token's way, if it was sent, and the files.
pub record Run : Type 0 where
  pub sent : Option Verify
  pub outcome : Outcome RegisterError

-- `path.exists()`
abbrev pub exists : Option Text → Bool
exists none = false
exists (some t) = true

module _ (o : Outside) where
  -- `path.write_text(…)`
  unfoldable pub write_text : FileName → Text → Disk → Outcome RegisterError
  write_text f t d =
      if o.takes f t then done (put f (some t) d) else raise write_failed (put f (o.leaves f t) d)

  -- A text under a key of the answer that has to be there.
  unfoldable pub write_required :
      FileName → RegisterError → Option Text → Disk → Outcome RegisterError
  unfolding write_text
  write_required f e none d = raise e d
  write_required f e (some t) d = write_text f t d

  -- `if pins: …`
  unfoldable pub write_pin_set : List Text → Disk → Outcome RegisterError
  unfolding write_text
  write_pin_set [] d = done d
  write_pin_set (p ∷ ps) d = write_text pins_file (write_pins (p ∷ ps)) d

  unfoldable pub record_pins : Text → Disk → Outcome RegisterError
  unfolding write_pin_set
  record_pins bundle d = write_pin_set (ca_fingerprints o.certificates bundle) d

  -- `if slug: …`
  unfoldable pub record_slug : SlugField → Disk → Outcome RegisterError
  unfolding write_text
  record_slug no_slug d = done d
  record_slug odd_slug d = raise bad_slug d
  record_slug (named []) d = done d
  record_slug (named (c ∷ s)) d = write_text slug_file (c ∷ s) d

  -- The bundle, its pins and the slug.
  unfoldable pub keep_bundle : SlugField → Option Text → Disk → Outcome RegisterError
  unfolding write_text record_pins record_slug
  keep_bundle slug none d = raise no_ca_root d
  keep_bundle slug (some bundle) d =
      and_then (write_text ca_file bundle d)
        λ d1. and_then (record_pins bundle d1) (record_slug slug)

  unfoldable pub keep_ca : Registration → Disk → Outcome RegisterError
  unfolding keep_bundle
  keep_ca a d = keep_bundle a.slug a.ca_root_pem d

  -- What is done with the answer.
  unfoldable pub keep : Registration → Disk → Outcome RegisterError
  unfolding write_required keep_ca
  keep a d = and_then (write_required cert_file no_certificate a.certificate_pem d) (keep_ca a)

  unfoldable pub receive : Option Registration → Disk → Outcome RegisterError
  unfolding keep
  receive none d = raise post_failed d
  receive (some a) d = keep a d

  abbrev pub request : AgentSettings → Request
  request s = record {
    token = s.bootstrap_token;
    csr = o.new_csr;
    uri = advertised_agent_uri o.fqdn s;
  }

  -- From `resolve_bootstrap_verify` on.
  unfoldable pub send : AgentSettings → Result TrustError Verify → Disk → Run
  unfolding receive
  send s (err e) d = record { sent = none; outcome = raise (no_trust e) d }
  send s (ok v) d = record { sent = some v; outcome = receive (o.post v (request s)) d }

  unfoldable pub register : AgentSettings → Outcome RegisterError → Run
  unfolding send
  register s written = elim written.error [
    | none ↦ send s (resolve_bootstrap_verify o.trust s) written.disk
    | some e ↦ record { sent = none; outcome = written }
  ]

  -- `ensure_registered`
  unfoldable pub ensure_registered : AgentSettings → Disk → Run
  unfolding register write_text
  ensure_registered s d =
      if exists d.cert && exists d.key
      then record { sent = none; outcome = done d }
      else register s (write_text key_file o.new_key d)
