-- ===== src/Envelope/Sealed.antt =====
-- What is sealed to a key's certificate is opened by that key.
use tracedown_probe_agent.Base.{◌≡◌, refl, ap, ◌∙◌, true, some, Text, arith}
use tracedown_probe_agent.Result.{ok}
use tracedown_probe_agent.Json.{Json, Members, find}
use tracedown_probe_agent.Envelope.{
  Crypto, Nonces, rsa, is_envelope, sealed, seal_envelope, open_envelope, bytes_of, plaintext_of,
  decoded,
}

-- The documented behaviour of the libraries for one key pair, one sealing and one payload: decoding
-- undoes encoding, and decryption under the matching key undoes encryption.
pub record KeyPair (c : Crypto) (private cert : Text) (n : Nonces) (payload : Json) : Type 0 where
  pub key : Text
  pub issued : c.certificate_key cert ≡ some (rsa key)
  pub unwraps : c.decrypt private (c.encrypt key n.content_key n.padding) ≡ some n.content_key
  pub opens :
      c.gcm_decrypt n.content_key n.iv (c.gcm_encrypt n.content_key n.iv (c.dumps payload))
      ≡ some (c.dumps payload)
  pub prints : c.loads (c.dumps payload) ≡ some payload
  pub decodes : (t : Text) → c.b64decode (c.b64encode t) ≡ some t

module _ (c : Crypto) where
  plaintext_lem :
      (private ek iv ct content_key plaintext : Text)
      → c.decrypt private ek ≡ some content_key
      → c.gcm_decrypt content_key iv ct ≡ some plaintext
      → plaintext_of c private (some ek) (some iv) (some ct) ≡ some plaintext
  unfolding plaintext_of
  plaintext_lem private ek iv ct content_key plaintext h k = ground arith

  decoded_lem :
      (plaintext : Text) (payload : Json)
      → c.loads plaintext ≡ some payload
      → decoded c (some plaintext) ≡ ok payload
  unfolding decoded
  decoded_lem plaintext payload h = ground arith

  seal_lem :
      (payload : Json) (cert key : Text) (n : Nonces)
      → c.certificate_key cert ≡ some (rsa key)
      → seal_envelope c payload cert n ≡ ok (sealed c key n (c.dumps payload))
  unfolding seal_envelope
  seal_lem payload cert key n h = ground arith

module _ (c : Crypto) (private cert : Text) (n : Nonces) (payload : Json)
    (pair : KeyPair c private cert n payload) where
  open pair use {key, issued, unwraps, opens, prints, decodes}

  open_envelope-sealed : open_envelope c (sealed c key n (c.dumps payload)) private ≡ ok payload
  unfolding open_envelope sealed find bytes_of
  open_envelope-sealed = simp (decodes) (
      ap (decoded c) (plaintext_lem c private _ _ _ _ _ unwraps opens)
      ∙ decoded_lem c _ payload prints)

  -- What is sealed to a certificate is an envelope, and the private key of that certificate opens
  -- it to the payload.
  pub open_envelope-seal_envelope :
      (body : Members) × (seal_envelope c payload cert n ≡ ok body)
      × (is_envelope body ≡ true)
      × (open_envelope c body private ≡ ok payload)
  unfolding sealed is_envelope find
  open_envelope-seal_envelope = (
    sealed c key n (c.dumps payload),
    seal_lem c payload cert key n issued,
    refl,
    open_envelope-sealed,
  )
