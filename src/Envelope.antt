-- ===== src/Envelope.antt =====
-- src/mtls/envelope.py: payloads that are sealed to the peer's public key.
--
-- RSA, AES-GCM, base 64, the JSON printer and parser, and the certificate's parser are outside and
-- stand in one record. Bytes are texts of numbers below 256.
pub mod Sealed
use tracedown_probe_agent.Base.{
  ℕ, Bool, true, false, ◌&&◌, not, Option, none, some, List, [], ◌∷◌, Text, codes, if◌then◌else◌,
}
use tracedown_probe_agent.Int.{ℤ, pos}
use tracedown_probe_agent.Result.{Result, ok, err, ◌>>=◌}
use tracedown_probe_agent.Json.{
  Json, null, bool, int, float, str, array, object, Members, empty, member, find, has_key, is_one,
  is_text,
}

-- What `load_pem_x509_certificate` and `public_key` find.
pub data PublicKey : Type 0 where
  rsa : Text → PublicKey
  other_key : PublicKey

pub record Crypto : Type 0 where
  -- RSA-OAEP of a public key, a message and the padding's randomness; and of a private key
  pub encrypt : Text → Text → Text → Text
  pub decrypt : Text → Text → Option Text
  -- AES-GCM of a key, an initialisation vector and a text
  pub gcm_encrypt : Text → Text → Text → Text
  pub gcm_decrypt : Text → Text → Text → Option Text
  pub b64encode : Text → Text
  pub b64decode : Text → Option Text
  -- `json.dumps(…).encode()` and `json.loads`
  pub dumps : Json → Text
  pub loads : Text → Option Json
  -- none where the text is no certificate
  pub certificate_key : Text → Option PublicKey

-- The random choices of one sealing.
pub record Nonces : Type 0 where
  pub content_key : Text
  pub iv : Text
  pub padding : Text

-- `EnvelopeError`, the error of `json.loads`, and that of a certificate that is none.
pub data SealError : Type 0 where
  envelope_error json_error certificate_error : SealError

abbrev pub alg : Text
alg = codes "RSA-OAEP-256+A256GCM"

-- `is_envelope`
unfoldable pub is_envelope : Members → Bool
is_envelope body = has_key (codes "ek") body && has_key (codes "ct") body

abbrev pub is_version : Option Json → Bool
is_version none = false
is_version (some v) = is_one v

module _ (crypto : Crypto) where
  open crypto use {
    encrypt, decrypt, gcm_encrypt, gcm_decrypt, b64encode, b64decode, dumps, loads, certificate_key,
  }

  -- `base64.b64decode(body[key])`, none where that raises.
  unfoldable pub bytes_of : Option Json → Option Text
  bytes_of (some (str s)) = b64decode s
  bytes_of _ = none

  -- The body of the `try`: none stands for any exception.
  unfoldable pub plaintext_of : Text → Option Text → Option Text → Option Text → Option Text
  plaintext_of key (some ek) (some iv) (some ct) = elim (decrypt key ek) [
    | none ↦ none
    | some content_key ↦ gcm_decrypt content_key iv ct
  ]
  plaintext_of key _ _ _ = none

  unfoldable pub decoded : Option Text → Result SealError Json
  decoded none = err envelope_error
  decoded (some t) = elim (loads t) [ none ↦ err json_error | some j ↦ ok j ]

  -- `open_envelope`
  unfoldable pub open_envelope : Members → Text → Result SealError Json
  unfolding plaintext_of decoded bytes_of
  open_envelope body key =
      if not (is_version (find (codes "v") body))
      then err envelope_error
      else if not (is_text alg (find (codes "alg") body))
      then err envelope_error
      else decoded (
          plaintext_of key (bytes_of (find (codes "ek") body)) (bytes_of (find (codes "iv") body))
            (bytes_of (find (codes "ct") body)))

  -- The dictionary that `seal_envelope` returns.
  unfoldable pub sealed : Text → Nonces → Text → Members
  sealed key n plaintext = member (codes "v") (int (pos 1)) (
      member (codes "alg") (str alg) (
        member (codes "ek") (str (b64encode (encrypt key n.content_key n.padding))) (
          member (codes "iv") (str (b64encode n.iv)) (
            member (codes "ct") (str (b64encode (gcm_encrypt n.content_key n.iv plaintext)))
              empty))))

  -- `seal_envelope`
  unfoldable pub seal_envelope : Json → Text → Nonces → Result SealError Members
  unfolding sealed
  seal_envelope payload cert n = elim (certificate_key cert) [
    | none ↦ err certificate_error
    | some other_key ↦ err envelope_error
    | some (rsa key) ↦ ok (sealed key n (dumps payload))
  ]
