-- ===== src/Renewal.antt =====
-- src/mtls/renewal.py: the renewal of the agent's certificate, with the files that it writes and
-- the listener that it reloads. The network, the clock, the cryptography, the agent's TLS context
-- and the file system's refusals stand in one record. The five files' paths are distinct.
pub mod Causes
pub mod Posting
pub mod Install
pub mod Continuity
pub mod Endings
pub mod Listening
pub mod Rounds
pub mod Anchored
pub mod Installed
mod Tests
use tracedown_probe_agent.Writes.{
  FileName, key_file, cert_file, ca_file, pins_file, slug_file, Disk, Outcome, done, raise,
  and_then, put, and_then-keeps, and_then-error, and_then-ok,
}
use tracedown_probe_agent.Base.{
  ℕ, ◌+◌, ◌*◌, Bool, true, false, Option, none, some, List, [], ◌∷◌, Text, codes, map, ltb,
  if◌then◌else◌,
}
use tracedown_probe_agent.Bytes.{starts_with}
use tracedown_probe_agent.Spaces.{strip}
use tracedown_probe_agent.Result.{Result, ok, err}
use tracedown_probe_agent.Egress.{lower}
use tracedown_probe_agent.Config.{AgentSettings, is_truthy}
use tracedown_probe_agent.Trust
use tracedown_probe_agent.Trust.{Verify, TrustError, gateway_trust_context}
use tracedown_probe_agent.CaPins.{
  Certificates, read_pins, write_pins, ca_fingerprints, bundle_preserves_pins,
}
use Causes.{Raised, is_certificate_rejection}

-- The `verify` argument of one POST.
pub data Transport : Type 0 where
  clear mutual_tls : Transport
  front : Verify → Transport

pub record Payload : Type 0 where
  pub slug : Text
  pub csr : Text
  pub signature : Text

-- `data.get("caRootPem")`: missing or a value that Python takes for false and is no string; a string;
-- any other value.
pub data CaRoot : Type 0 where
  absent : CaRoot
  a_string : Text → CaRoot
  not_a_string : CaRoot

-- The answer's JSON object. A certificate that is missing, or that is no string, raises at the same
-- place, and is none.
pub record Answer : Type 0 where
  pub certificate_pem : Option Text
  pub ca_root_pem : CaRoot

pub data Post : Type 0 where
  answered : Answer → Post
  -- `httpx.ConnectError`, with the exceptions behind it
  connect_error : Raised → Post
  -- every other failure: a timeout, a status that is an error, a body that is no JSON object
  failed : Post

pub data RenewError : Type 0 where
  no_key no_context post_failed drops_trust_anchor no_certificate bad_ca_root write_failed :
      RenewError
  no_trust : TrustError → RenewError

-- What the live listener serves, and the bundles it takes client certificates from.
pub record Listener : Type 0 where
  pub served_cert : Option Text
  pub served_key : Option Text
  pub bundles : List (Option Text)

pub record Outside : Type 0 where
  pub trust : Trust.Outside
  pub certificates : Certificates
  -- the new key in PEM, and its request
  pub new_key : Text
  pub new_csr : Text
  -- the signature of a request by a key, in base 64; none where the key cannot be loaded or used
  pub sign : Text → Text → Option Text
  -- `build_client_context` of the files
  pub client_context : Disk → Bool
  pub post : Transport → Payload → Post
  -- whether the file system takes the write, and what a refused one of the pins leaves of their file
  pub takes : FileName → Text → Bool
  pub leaves : Text → Option Text
  -- `load_cert_chain` of a certificate and a key, `load_verify_locations` of a bundle
  pub loads_chain : Option Text → Option Text → Bool
  pub loads_bundle : Option Text → Bool
  -- `notAfter` of a certificate and the clock, in microseconds
  pub not_after : Text → Option ℕ
  pub now : ℕ

module _ (o : Outside) where
  -- `_renewal_verify`: whether the gateway is reached over https.
  unfoldable pub over_https : AgentSettings → Bool
  over_https s = starts_with (codes "https") (map lower s.scheduler_url)

  -- One POST, and what it comes to where the failure is the failure.
  abbrev pub outcome : Post → Result RenewError Answer
  outcome (answered a) = ok a
  outcome (connect_error e) = err post_failed
  outcome failed = err post_failed

  -- The second attempt of `_post_renewal`, with the transports that were tried.
  unfoldable pub post_front : AgentSettings → Payload → List Transport × Result RenewError Answer
  post_front s p = elim (gateway_trust_context o.trust s) [
    | err e ↦ (mutual_tls ∷ [], err (no_trust e))
    | ok v ↦ (mutual_tls ∷ front v ∷ [], outcome (o.post (front v) p))
  ]

  unfoldable pub after_mutual :
      AgentSettings → Payload → Post → List Transport × Result RenewError Answer
  unfolding post_front
  after_mutual s p (answered a) = (mutual_tls ∷ [], ok a)
  after_mutual s p failed = (mutual_tls ∷ [], err post_failed)
  after_mutual s p (connect_error e) = elim (is_certificate_rejection e) [
    | true ↦ post_front s p
    | false ↦ (mutual_tls ∷ [], err post_failed)
  ]

  -- `_post_renewal`
  unfoldable pub post_renewal :
      AgentSettings → Disk → Payload → List Transport × Result RenewError Answer
  unfolding over_https after_mutual
  post_renewal s d p = elim (over_https s) [
    | false ↦ (clear ∷ [], outcome (o.post clear p))
    | true ↦ elim (o.client_context d) [
      | false ↦ ([], err no_context)
      | true ↦ after_mutual s p (o.post mutual_tls p)
    ]
  ]

  -- `_resolve_slug`; the empty text is none.
  unfoldable pub resolve_slug : AgentSettings → Disk → Option Text
  resolve_slug s d = elim (is_truthy s.slug) [
    | true ↦ some s.slug
    | false ↦ elim d.slug [
      | none ↦ none
      | some t ↦ if is_truthy (strip t) then some (strip t) else none
    ]
  ]
