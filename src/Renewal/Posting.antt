-- ===== src/Renewal/Posting.antt =====
-- `_post_renewal`: how the gateway is authenticated.
use tracedown_probe_agent.Writes.{Disk}
use tracedown_probe_agent.Base.{◌≡◌, ◌≢◌, Bool, true, false, any, all, arith, refl}
use tracedown_probe_agent.Config.{AgentSettings}
use tracedown_probe_agent.Trust.{Verify, unverified}
use tracedown_probe_agent.Trust.Resolved.{context_verified}
use tracedown_probe_agent.Renewal.{
  Transport, clear, mutual_tls, front, Payload, Post, answered, connect_error, failed, Outside,
  over_https, post_front, after_mutual, post_renewal,
}
use tracedown_probe_agent.Renewal.Causes.{Raised, is_certificate_rejection}

-- The peer is checked in that attempt.
abbrev pub is_verified : Transport → Bool
is_verified clear = false
is_verified mutual_tls = true
is_verified (front unverified) = false
is_verified (front v) = true

abbrev pub is_front : Transport → Bool
is_front clear = false
is_front mutual_tls = false
is_front (front v) = true

is_verified-front : (v : Verify) → v ≢ unverified → is_verified (front v) ≡ true
is_verified-front v h = ground arith

module _ (o : Outside) where
  post_front_verified :
      (s : AgentSettings) (p : Payload) → all is_verified (post_front o s p).0 ≡ true
  unfolding post_front
  post_front_verified s p = let cv = context_verified o.trust s in ground arith

  after_mutual_verified :
      (s : AgentSettings) (p : Payload) (r : Post) → all is_verified (after_mutual o s p r).0 ≡ true
  unfolding after_mutual
  after_mutual_verified s p (answered a) = refl
  after_mutual_verified s p failed = refl
  after_mutual_verified s p (connect_error e) = let pf = post_front_verified s p in ground arith

  -- Over https no attempt skips the check of the peer, whatever the gateway answers.
  pub post_renewal_verified :
      (s : AgentSettings) (d : Disk) (p : Payload)
      → over_https o s ≡ true
      → all is_verified (post_renewal o s d p).0 ≡ true
  unfolding post_renewal
  post_renewal_verified s d p h =
      let am = after_mutual_verified s p (o.post mutual_tls p) in ground arith

  rejected_lem :
      (s : AgentSettings) (p : Payload) (r : Post)
      → any is_front (after_mutual o s p r).0 ≡ true
      → (e : Raised) × (r ≡ connect_error e) × (is_certificate_rejection e ≡ true)
  unfolding after_mutual
  rejected_lem s p (answered a) h = ground arith
  rejected_lem s p failed h = ground arith
  rejected_lem s p (connect_error e) h = (e, refl, ground arith)

  -- The trust that was configured for the gateway's front is turned to only after the mutual TLS
  -- attempt failed on the peer's certificate.
  pub post_renewal_front :
      (s : AgentSettings) (d : Disk) (p : Payload)
      → any is_front (post_renewal o s d p).0 ≡ true
      → (e : Raised) × (o.post mutual_tls p ≡ connect_error e) × (is_certificate_rejection e ≡ true)
  unfolding post_renewal
  post_renewal_front s d p h = rejected_lem s p (o.post mutual_tls p) (ground arith)
