-- ===== src/Dispatch/Exchange.antt =====
-- A whole sealed exchange: the scheduler seals, the agent runs and seals, the scheduler opens.
use tracedown_probe_agent.Base.{◌≡◌, sym, ap, ◌∙◌, subst, true, some, Text, codes, arith}
use tracedown_probe_agent.Result.{ok, ok_injective}
use tracedown_probe_agent.Json.{object, Members, find, without}
use tracedown_probe_agent.Envelope.{Crypto, Nonces, is_envelope, seal_envelope, open_envelope}
use tracedown_probe_agent.Envelope.Sealed.{KeyPair, open_envelope-seal_envelope}
use tracedown_probe_agent.Dispatch.{
  Executed, result, content, ReplyCert, pem, reply_cert_of, seal_reply, sealed_answer,
  answer_opened, answer_sealed, run_probe,
}

module _ (c : Crypto) (execute : Members → Executed) (n : Nonces) where
  seal_reply_lem :
      (cert : Text) (r out : Members)
      → seal_envelope c (object r) cert n ≡ ok out
      → seal_reply c execute n (pem cert) r ≡ content out
  unfolding seal_reply
  seal_reply_lem cert r out h = ground arith

  answer_lem :
      (job r : Members) (cert : ReplyCert)
      → reply_cert_of (find (codes "replyCert") job) ≡ cert
      → execute (without (codes "replyCert") job) ≡ result r
      → answer_opened c execute n (ok (object job)) ≡ seal_reply c execute n cert r
  unfolding answer_opened sealed_answer
  answer_lem job r cert e h = ground arith

  sealed_lem :
      (body : Members) (private : Text)
      → is_envelope body ≡ true
      → run_probe c execute n (some private) (object body)
        ≡ answer_opened c execute n (open_envelope c body private)
  unfolding run_probe answer_sealed
  sealed_lem body private h = ground arith

  module _ (agent agent_cert scheduler scheduler_cert : Text) (sent : Nonces) (job r body : Members)
      (agent_pair : KeyPair c agent agent_cert sent (object job))
      (scheduler_pair : KeyPair c scheduler scheduler_cert n (object r)) where
    -- If the scheduler seals a job with its own certificate inside to the agent's certificate, and the
    -- run of that job has a result, the agent answers at status 200 with a body that the scheduler's
    -- key opens to that result.
    pub run_probe_exchange :
        seal_envelope c (object job) agent_cert sent ≡ ok body
        → reply_cert_of (find (codes "replyCert") job) ≡ pem scheduler_cert
        → execute (without (codes "replyCert") job) ≡ result r
        → (out : Members) × (run_probe c execute n (some agent) (object body) ≡ content out)
          × (open_envelope c out scheduler ≡ ok (object r))
    run_probe_exchange sealing cert ran =
        let (b, made, is_env, opened) =
          open_envelope-seal_envelope c agent agent_cert sent (object job) agent_pair in
        let (out, reply, _, back) =
          open_envelope-seal_envelope c scheduler scheduler_cert n (object r) scheduler_pair in
        let same : b ≡ body = ok_injective (sym made ∙ sealing) in
        (
          out,
          sealed_lem body agent (subst (λ m. is_envelope m ≡ true) same is_env)
              ∙ ap (answer_opened c execute n)
                  (subst (λ m. open_envelope c m agent ≡ ok (object job)) same opened)
              ∙ answer_lem job r (pem scheduler_cert) cert ran
              ∙ seal_reply_lem scheduler_cert r out reply,
          back,
        )
