-- ===== src/Redact/Tests.antt =====
-- Maskings of concrete bodies, and the theorems about masking at them.
use tracedown_probe_agent.Base.{
  ℕ, ◌≡◌, refl, false, List, [], ◌∷◌, ◌++◌, Text, codes, All, here, arith,
}
use tracedown_probe_agent.Bytes.{contains}
use tracedown_probe_agent.Result.{ok}
use tracedown_probe_agent.Redact.{
  encode, encode_point, is_surrogate, mask, mask_text, mask_one, mask_all, replace, replace_from,
  insert, longest_first, redact_body_bytes,
}
use tracedown_probe_agent.Redact.Masked.{redact_body_bytes_masks}
use tracedown_probe_agent.Redact.Total.{IsScalar}

-- The mask is the text of six bullets in UTF-8.
mask_is_bullets : encode mask_text ≡ ok mask
unfolding encode encode_point is_surrogate
mask_is_bullets = refl

abbrev secrets : List Text
secrets = codes "key" ∷ [] ∷ codes "monkey" ∷ []

abbrev body : List ℕ
body = codes "a monkey with a key"

abbrev masked : List ℕ
masked = codes "a " ++ (mask ++ (codes " with a " ++ mask))

-- The longer secret is masked first: no "mon" is left.
masked_run : redact_body_bytes body secrets ≡ ok masked
unfolding redact_body_bytes mask_all mask_one replace replace_from longest_first insert encode
    encode_point is_surrogate
masked_run = refl

redact_body_bytes_masks_example : contains (codes "key") masked ≡ false
unfolding encode encode_point is_surrogate
redact_body_bytes_masks_example =
    redact_body_bytes_masks body masked secrets masked_run here refl refl

secrets-IsScalar : All IsScalar secrets
unfolding is_surrogate
secrets-IsScalar = ground arith
