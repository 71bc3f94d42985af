-- ===== src/Redact/Masked.antt =====
-- A masked body holds no secret.
use tracedown_probe_agent.Base.{
  ℕ, ◌<◌, ◌≡◌, refl, inl, inr, true, false, List, [], ◌∷◌, Text, In, here, there, All, arith,
  Bool-cases,
}
use tracedown_probe_agent.Bytes.{contains, disjoint}
use tracedown_probe_agent.Result.{ok, >>=-eq-ok}
use tracedown_probe_agent.Redact.{
  encode, encode_point, is_surrogate, mask, replace, mask_one, mask_all, redact_body_bytes,
}
use tracedown_probe_agent.Redact.Replace.{contains-replace_from, not_contains-replace_from}
use tracedown_probe_agent.Redact.Sorted.{In-longest_first}

-- The mask behind its first byte.
abbrev mask_rest : List ℕ
mask_rest =
    128 ∷ 162 ∷ 226 ∷ 128 ∷ 162 ∷ 226 ∷ 128 ∷ 162 ∷ 226 ∷ 128 ∷ 162 ∷ 226 ∷ 128 ∷ 162 ∷ 226 ∷ 128
    ∷ 162 ∷ []

module _ (c : ℕ) (s : List ℕ) (apart : disjoint (c ∷ s) mask ≡ true) where
  mask_one-clears : (body : List ℕ) → contains (c ∷ s) (mask_one body (c ∷ s)) ≡ false
  unfolding mask_one replace
  mask_one-clears body = elim (Bool-cases (contains (c ∷ s) body)) [
    | inl e ↦ rw e (not_contains-replace_from 0 s c 226 mask_rest body apart)
    | inr e ↦ rw e e
  ]

  mask_one-keeps :
      (body needle : List ℕ)
      → contains (c ∷ s) body ≡ false
      → contains (c ∷ s) (mask_one body needle) ≡ false
  unfolding mask_one replace
  mask_one-keeps body needle h =
      ground (arith, contains-replace_from 0 s needle c 226 mask_rest body apart)

  mask_all-keeps :
      (ss : List Text) (body out : List ℕ)
      → mask_all body ss ≡ ok out
      → contains (c ∷ s) body ≡ false
      → contains (c ∷ s) out ≡ false
  unfolding mask_all
  mask_all-keeps [] body out e h = cc
  mask_all-keeps (t ∷ ts) body out e h =
      let (needle, _, rest) = >>=-eq-ok (encode t) (λ n. mask_all (mask_one body n) ts) e in
      mask_all-keeps ts (mask_one body needle) out rest (mask_one-keeps body needle h)

  mask_all-clears :
      {t : Text} {ss : List Text} (body out : List ℕ)
      → In t ss
      → encode t ≡ ok (c ∷ s)
      → mask_all body ss ≡ ok out
      → contains (c ∷ s) out ≡ false
  unfolding mask_all
  mask_all-clears {t} body out (here {xs = ts}) enc e =
      mask_all-keeps ts (mask_one body (c ∷ s)) out (rw enc at e) (mask_one-clears body)
  mask_all-clears body out (there {y = u} {xs = us} m) enc e =
      let (needle, _, rest) = >>=-eq-ok (encode u) (λ n. mask_all (mask_one body n) us) e in
      mask_all-clears (mask_one body needle) out m enc rest

-- A masked body holds no secret of the list that is not empty, as its UTF-8 bytes, if those share
-- no byte with the mask.
pub redact_body_bytes_masks :
    (body out : List ℕ) (secrets : List Text) {c d : ℕ} {s n : List ℕ}
    → redact_body_bytes body secrets ≡ ok out
    → In (c ∷ s) secrets
    → encode (c ∷ s) ≡ ok (d ∷ n)
    → disjoint (d ∷ n) mask ≡ true
    → contains (d ∷ n) out ≡ false
unfolding redact_body_bytes
redact_body_bytes_masks body out [] e m enc apart = elim m [ ]
redact_body_bytes_masks body out (t ∷ ts) {c} {d} {s} {n} e m enc apart =
    mask_all-clears d n apart body out (In-longest_first m) enc e

encode_ascii : (s : Text) → All (λ c. c < 128) s → encode s ≡ ok s
unfolding encode encode_point is_surrogate
encode_ascii [] h = refl
encode_ascii (c ∷ s) h = ground (arith, encode_ascii s h.1)

disjoint_ascii : (s : Text) → All (λ c. c < 128) s → disjoint s mask ≡ true
disjoint_ascii [] h = refl
disjoint_ascii (c ∷ s) h = ground (arith, disjoint_ascii s h.1)
