-- ===== src/Dispatch.antt =====
-- src/routes/probe.py: the endpoint that takes a job, plain or sealed, and answers in kind.
--
-- The run of a job is a parameter, from the keyword arguments of `JobPayload` on; pydantic's
-- refusal of them is one of the exceptions that leave the endpoint.
pub mod Replies
pub mod Exchange
mod Tests
use tracedown_probe_agent.Base.{
  ℕ, Bool, true, false, ◌||◌, ◌&&◌, Option, none, some, [], ◌∷◌, Text, codes, ◌==◌, if◌then◌else◌,
}
use tracedown_probe_agent.Bytes.{contains}
use tracedown_probe_agent.Int.{pos}
use tracedown_probe_agent.Job.{finite}
use tracedown_probe_agent.Result.{Result, ok, err}
use tracedown_probe_agent.Json.{
  Json, null, bool, int, float, str, array, object, Items, nil, cons, Members, empty, find, without,
  is_text,
}
use tracedown_probe_agent.Envelope.{
  Crypto, Nonces, SealError, envelope_error, json_error, certificate_error, is_envelope,
  open_envelope, seal_envelope,
}

-- What `execute_probe(JobPayload(**body))` comes to: `AgentAtCapacity` with its budget, or any
-- other exception.
pub data Executed : Type 0 where
  result : Members → Executed
  at_capacity : ℕ → Executed
  raised : Executed

pub data Refusal : Type 0 where
  payload_encryption_unavailable payload_undecryptable missing_reply_certificate : Refusal

pub data Response : Type 0 where
  -- 200 with the dictionary, 503, 400, and 500 for an exception that leaves the endpoint
  content : Members → Response
  unavailable : ℕ → Response
  bad_request : Refusal → Response
  server_error : Response

-- `reply_cert`, as `if not reply_cert` and `recipient_cert_pem.encode()` take it.
pub data ReplyCert : Type 0 where
  absent unusable : ReplyCert
  pem : Text → ReplyCert

unfoldable pub reply_cert_of : Option Json → ReplyCert
reply_cert_of none = absent
reply_cert_of (some null) = absent
reply_cert_of (some (bool b)) = if b then unusable else absent
reply_cert_of (some (int (pos n))) = if n == 0 then absent else unusable
reply_cert_of (some (float (finite sign m places))) = if m == 0 then absent else unusable
reply_cert_of (some (str [])) = absent
reply_cert_of (some (str (c ∷ s))) = pem (c ∷ s)
reply_cert_of (some (array nil)) = absent
reply_cert_of (some (object empty)) = absent
reply_cert_of _ = unusable

-- The answer to a plain dispatch.
unfoldable pub plain_answer : Executed → Response
plain_answer (result r) = content r
plain_answer (at_capacity budget) = unavailable budget
plain_answer raised = server_error

-- `is_envelope` of a body that is no object: a list that has both texts, or a text that holds both;
-- none where `in` raises.
abbrev has_item : Text → Items → Bool
has_item t nil = false
has_item t (cons j js) = is_text t (some j) || has_item t js

unfoldable pub looks_sealed : Json → Bool
looks_sealed (array items) = has_item (codes "ek") items && has_item (codes "ct") items
looks_sealed (str s) = contains (codes "ek") s && contains (codes "ct") s
looks_sealed j = false

-- Such a body has no `get`, and is no dictionary of arguments.
unfoldable pub answer_odd : Option Text → Bool → Response
answer_odd none true = bad_request payload_encryption_unavailable
answer_odd key sealed = server_error

module _ (crypto : Crypto) (execute : Members → Executed) (nonces : Nonces) where
  unfoldable pub seal_reply : ReplyCert → Members → Response
  seal_reply absent r = bad_request missing_reply_certificate
  seal_reply unusable r = server_error
  seal_reply (pem cert) r = elim (seal_envelope crypto (object r) cert nonces) [
    | ok body ↦ content body
    | err e ↦ server_error
  ]

  -- The answer to a sealed dispatch that has run.
  unfoldable pub sealed_answer : ReplyCert → Executed → Response
  unfolding seal_reply
  sealed_answer cert (result r) = seal_reply cert r
  sealed_answer cert (at_capacity budget) = unavailable budget
  sealed_answer cert raised = server_error

  -- From `opened` on.
  unfoldable pub answer_opened : Result SealError Json → Response
  unfolding sealed_answer
  answer_opened (err envelope_error) = bad_request payload_undecryptable
  answer_opened (err e) = server_error
  answer_opened (ok (object job)) =
      sealed_answer (reply_cert_of (find (codes "replyCert") job))
        (execute (without (codes "replyCert") job))
  answer_opened (ok j) = server_error

  unfoldable pub answer_sealed : Option Text → Members → Response
  unfolding answer_opened
  answer_sealed none body = bad_request payload_encryption_unavailable
  answer_sealed (some key) body = answer_opened (open_envelope crypto body key)

  -- `run_probe`, with `app.state.agent_private_key`; the body is what `request.json()` gives.
  unfoldable pub run_probe : Option Text → Json → Response
  unfolding answer_sealed plain_answer looks_sealed answer_odd
  run_probe key (object body) =
      if is_envelope body then answer_sealed key body else plain_answer (execute body)
  run_probe key j = answer_odd key (looks_sealed j)
