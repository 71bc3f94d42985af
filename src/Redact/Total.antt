-- ===== src/Redact/Total.antt =====
-- Masking returns for all secrets that have a UTF-8 form, and leaves a clean body alone.
use tracedown_probe_agent.Base.{ℕ, ◌≡◌, refl, false, List, [], ◌∷◌, ◌++◌, Text, All, arith}
use tracedown_probe_agent.Bytes.{contains}
use tracedown_probe_agent.Result.{ok}
use tracedown_probe_agent.Redact.{
  encode, encode_point, is_surrogate, mask_one, mask_all, longest_first, redact_body_bytes,
}
use tracedown_probe_agent.Redact.Sorted.{All-longest_first}

-- A text with no surrogate, such as every text that was read from valid JSON text.
abbrev pub IsScalar : Text → Type 0
IsScalar s = All (λ c. is_surrogate c ≡ false) s

encode_total : (s : Text) → IsScalar s → (n : List ℕ) × (encode s ≡ ok n)
unfolding encode
encode_total [] h = ([], refl)
encode_total (c ∷ s) h = let (n, e) = encode_total s h.1 in (encode_point c ++ n, ground arith)

mask_all_total :
    (ss : List Text) (body : List ℕ)
    → All IsScalar ss
    → (out : List ℕ) × (mask_all body ss ≡ ok out)
unfolding mask_all
mask_all_total [] body h = (body, refl)
mask_all_total (s ∷ ss) body h =
    let (n, e) = encode_total s h.0 in rw e (mask_all_total ss (mask_one body n) h.1)

-- Masking returns for every body and all secrets without a lone surrogate.
pub redact_body_bytes_total :
    (body : List ℕ) (secrets : List Text)
    → All IsScalar secrets
    → (out : List ℕ) × (redact_body_bytes body secrets ≡ ok out)
unfolding redact_body_bytes
redact_body_bytes_total body [] h = (body, refl)
redact_body_bytes_total body (s ∷ ss) h =
    mask_all_total (longest_first (s ∷ ss)) body (All-longest_first IsScalar (s ∷ ss) h)

-- The secret has a UTF-8 form, and this does not occur in the body.
abbrev pub IsAbsent : List ℕ → Text → Type 0
IsAbsent body s = (n : List ℕ) × (encode s ≡ ok n) × (contains n body ≡ false)

mask_one_unchanged : (body n : List ℕ) → contains n body ≡ false → mask_one body n ≡ body
unfolding mask_one
mask_one_unchanged body n h = ground arith

mask_all_unchanged :
    (ss : List Text) (body : List ℕ) → All (IsAbsent body) ss → mask_all body ss ≡ ok body
unfolding mask_all
mask_all_unchanged [] body h = refl
mask_all_unchanged (s ∷ ss) body h =
    let ((n, e, absent), rest) = h in
    rw (e, mask_one_unchanged body n absent) (mask_all_unchanged ss body rest)

-- A body in which no secret occurs comes back as it was.
pub redact_body_bytes_unchanged :
    (body : List ℕ) (secrets : List Text)
    → All (IsAbsent body) secrets
    → redact_body_bytes body secrets ≡ ok body
unfolding redact_body_bytes
redact_body_bytes_unchanged body [] h = refl
redact_body_bytes_unchanged body (s ∷ ss) h =
    mask_all_unchanged (longest_first (s ∷ ss)) body (All-longest_first (IsAbsent body) (s ∷ ss) h)
