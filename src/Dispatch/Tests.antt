-- ===== src/Dispatch/Tests.antt =====
-- Dispatches to a small agent, and the theorems on them.
use tracedown_probe_agent.Base.{◌≡◌, refl, none, some, [], Text, codes, if◌then◌else◌}
use tracedown_probe_agent.Bytes.{text_eq}
use tracedown_probe_agent.Result.{ok}
use tracedown_probe_agent.Json.{
  str, array, nil, cons, object, Members, empty, member, find, has_key, without,
}
use tracedown_probe_agent.Envelope.{
  Crypto, Nonces, rsa, is_envelope, sealed, seal_envelope, open_envelope, bytes_of, plaintext_of,
  decoded,
}
use tracedown_probe_agent.Envelope.Sealed.{KeyPair}
use tracedown_probe_agent.Dispatch.{
  Executed, result, at_capacity, content, unavailable, bad_request, payload_encryption_unavailable,
  reply_cert_of, seal_reply, sealed_answer, answer_opened, answer_sealed, plain_answer, run_probe,
  looks_sealed, answer_odd, server_error,
}
use tracedown_probe_agent.Dispatch.Replies.{Answers, run_probe_sealed}
use tracedown_probe_agent.Dispatch.Exchange.{run_probe_exchange}

abbrev job : Members
job =
    member (codes "script") (str (codes "get")) (member (codes "replyCert") (str (codes "S")) empty)

abbrev success : Members
success = member (codes "outcome") (str (codes "success")) empty

-- Keys are letters, a certificate is its key, and nothing is hidden.
abbrev crypto : Crypto
crypto = record {
  encrypt = λ key m pad. m;
  decrypt = λ key m. some m;
  gcm_encrypt = λ key iv t. t;
  gcm_decrypt = λ key iv t. some t;
  b64encode = λ t. t;
  b64decode = λ t. some t;
  dumps = λ j. elim j [
    | object m ↦ (if has_key (codes "replyCert") m then codes "j" else codes "r")
    | _ ↦ []
  ];
  loads = λ t. if text_eq t (codes "j") then some (object job) else some (object success);
  certificate_key = λ cert. some (rsa cert);
}

abbrev nonces : Nonces
nonces = record { content_key = codes "k"; iv = codes "i"; padding = [] }

abbrev execute : Members → Executed
execute m = result success

abbrev body : Members
body = sealed crypto (codes "A") nonces (codes "j")

agent_pair : KeyPair crypto (codes "a") (codes "A") nonces (object job)
unfolding find
agent_pair = record {
  key = codes "A";
  issued = refl;
  unwraps = refl;
  opens = refl;
  prints = refl;
  decodes = λ t. refl;
}

scheduler_pair : KeyPair crypto (codes "s") (codes "S") nonces (object success)
unfolding find
scheduler_pair = record {
  key = codes "S";
  issued = refl;
  unwraps = refl;
  opens = refl;
  prints = refl;
  decodes = λ t. refl;
}

run_probe_exchange_example :
    (out : Members) × (run_probe crypto execute nonces (some (codes "a")) (object body)
      ≡ content out)
    × (open_envelope crypto out (codes "s") ≡ ok (object success))
unfolding seal_envelope find reply_cert_of without
run_probe_exchange_example =
    run_probe_exchange crypto execute nonces (codes "a") (codes "A") (codes "s") (codes "S") nonces
      job success body agent_pair scheduler_pair refl refl refl

exchange_run :
    run_probe crypto execute nonces (some (codes "a")) (object body)
    ≡ content (sealed crypto (codes "S") nonces (codes "r"))
unfolding run_probe answer_sealed answer_opened sealed_answer seal_reply open_envelope seal_envelope
    sealed find reply_cert_of without is_envelope bytes_of plaintext_of decoded
exchange_run = refl

run_probe_sealed_example :
    (private : Text) × (some (codes "a") ≡ some private)
    × Answers crypto execute nonces
        (open_envelope crypto body private)
        (sealed crypto (codes "S") nonces (codes "r"))
unfolding sealed is_envelope find
run_probe_sealed_example =
    run_probe_sealed crypto execute nonces (some (codes "a")) body
      (sealed crypto (codes "S") nonces (codes "r")) refl exchange_run

refusals :
    (run_probe crypto execute nonces none (object body)
      ≡ bad_request payload_encryption_unavailable)
    × (run_probe crypto (λ m. at_capacity 5000) nonces none (object job) ≡ unavailable 5000)
    × (run_probe crypto execute nonces none (object success) ≡ content success)
unfolding run_probe answer_sealed plain_answer sealed is_envelope find
refusals = (refl, refl, refl)

-- Bodies that are no objects: refused where they look sealed and there is no key, and else errors.
odd_bodies :
    (run_probe crypto execute nonces none (str (codes "ek ct"))
      ≡ bad_request payload_encryption_unavailable)
    × (run_probe crypto execute nonces (some (codes "a")) (str (codes "ek ct")) ≡ server_error)
    × (run_probe crypto execute nonces none (array (cons (str (codes "ek")) nil)) ≡ server_error)
unfolding run_probe looks_sealed answer_odd
odd_bodies = (refl, refl, refl)
