-- ===== src/Dispatch/Replies.antt =====
-- What an answer of the endpoint says of the run behind it.
use tracedown_probe_agent.Base.{◌≡◌, refl, true, Option, none, some, Text, codes, arith}
use tracedown_probe_agent.Result.{Result, ok}
use tracedown_probe_agent.Json.{Json, object, Members, find, without}
use tracedown_probe_agent.Envelope.{
  Crypto, Nonces, SealError, is_envelope, open_envelope, seal_envelope,
}
use tracedown_probe_agent.Dispatch.{
  Executed, result, at_capacity, raised, content, ReplyCert, absent, unusable, pem, reply_cert_of,
  seal_reply, sealed_answer, answer_opened, answer_sealed, run_probe,
}

module _ (crypto : Crypto) (execute : Members → Executed) (nonces : Nonces) where
  -- A content that is the result of a run, sealed to a certificate.
  abbrev pub IsSealedResult : ReplyCert → Executed → Members → Type 0
  IsSealedResult cert ran body =
      (text : Text) × (r : Members) × (cert ≡ pem text)
      × (ran ≡ result r)
      × (seal_envelope crypto (object r) text nonces ≡ ok body)

  sealed_answer-content :
      (cert : ReplyCert) (ran : Executed) (body : Members)
      → sealed_answer crypto execute nonces cert ran ≡ content body
      → IsSealedResult cert ran body
  unfolding sealed_answer seal_reply
  sealed_answer-content (pem text) (result r) body h = (text, r, refl, refl, ground arith)
  sealed_answer-content absent (result r) body h = ground arith
  sealed_answer-content unusable (result r) body h = ground arith
  sealed_answer-content cert (at_capacity budget) body h = ground arith
  sealed_answer-content cert raised body h = ground arith

  abbrev pub Answers : Result SealError Json → Members → Type 0
  Answers opened out =
      (job : Members) × (opened ≡ ok (object job))
      × IsSealedResult (reply_cert_of (find (codes "replyCert") job))
          (execute (without (codes "replyCert") job)) out

  answer_opened-content :
      (opened : Result SealError Json) (out : Members)
      → answer_opened crypto execute nonces opened ≡ content out
      → Answers opened out
  unfolding answer_opened
  answer_opened-content (ok (object job)) out h = (job, refl, sealed_answer-content _ _ out h)
  answer_opened-content opened out h = ground arith

  -- A dispatch that came sealed is never answered with a plain result: whatever it is answered with
  -- at status 200 is the result of the run of the opened job, sealed to the certificate inside.
  pub run_probe_sealed :
      (key : Option Text) (body out : Members)
      → is_envelope body ≡ true
      → run_probe crypto execute nonces key (object body) ≡ content out
      → (private : Text) × (key ≡ some private) × Answers (open_envelope crypto body private) out
  unfolding run_probe answer_sealed
  run_probe_sealed none body out e h = ground arith
  run_probe_sealed (some private) body out e h =
      (private, refl, answer_opened-content (open_envelope crypto body private) out (ground arith))
