-- ===== src/Redact.antt =====
-- src/services/executor.py, `_redact_body_bytes`: the secrets of a run are masked out of a saved
-- response body. A secret is a text, a body a byte string, both lists of numbers.
pub mod Replace
pub mod Sorted
pub mod Masked
pub mod Total
mod Tests
use tracedown_probe_agent.Base.{
  ℕ, zero, suc, ◌+◌, ◌-◌, ◌*◌, ◌/◌, ◌%◌, Bool, true, false, ◌&&◌, Option, none, some, List, [], ◌∷◌,
  ◌++◌, Text, length, select, ltb, leb, if◌then◌else◌,
}
use tracedown_probe_agent.Bytes.{starts_with, contains}
use tracedown_probe_agent.Result.{Result, ok, err, ◌>>=◌}

-- `secret.encode("utf-8")` raises at a lone surrogate, which a JSON text may hold.
pub data EncodeError : Type 0 where
  unicode_encode_error : EncodeError

-- The bytes of a code point.
unfoldable pub encode_point : ℕ → List ℕ
encode_point c =
    if ltb c 128
    then c ∷ []
    else if ltb c 2048
    then (192 + c / 64) ∷ (128 + c % 64) ∷ []
    else if ltb c 65536
    then (224 + c / 4096) ∷ (128 + c / 64 % 64) ∷ (128 + c % 64) ∷ []
    else (240 + c / 262144) ∷ (128 + c / 4096 % 64) ∷ (128 + c / 64 % 64) ∷ (128 + c % 64) ∷ []

unfoldable pub is_surrogate : ℕ → Bool
is_surrogate c = leb 55296 c && leb c 57343

unfoldable pub encode : Text → Result EncodeError (List ℕ)
encode [] = ok []
encode (c ∷ s) = elim (is_surrogate c) [
  | true ↦ err unicode_encode_error
  | false ↦ do rest ← encode s; ok (encode_point c ++ rest)
]

-- Six bullets (U+2022).
abbrev pub mask_text : Text
mask_text = 8226 ∷ 8226 ∷ 8226 ∷ 8226 ∷ 8226 ∷ 8226 ∷ []

-- The bytes of the mask, `_MASK.encode("utf-8")`.
abbrev pub mask : List ℕ
mask =
    226 ∷ 128 ∷ 162 ∷ 226 ∷ 128 ∷ 162 ∷ 226 ∷ 128 ∷ 162 ∷ 226 ∷ 128 ∷ 162 ∷ 226 ∷ 128 ∷ 162 ∷ 226
    ∷ 128 ∷ 162 ∷ []

-- `data.replace(needle, mask)` from the left, without overlap; the first argument counts the
-- bytes of a match that are still to be skipped.
unfoldable pub replace_from : ℕ → List ℕ → List ℕ → List ℕ → List ℕ
replace_from skip needle new [] = []
replace_from (suc skip) needle new (b ∷ rest) = replace_from skip needle new rest
replace_from zero needle new (b ∷ rest) = elim (starts_with needle (b ∷ rest)) [
  | true ↦ new ++ replace_from (length needle - 1) needle new rest
  | false ↦ b ∷ replace_from 0 needle new rest
]

-- `bytes.replace` for a needle that is not empty.
unfoldable pub replace : List ℕ → List ℕ → List ℕ → List ℕ
unfolding replace_from
replace data' needle new = replace_from 0 needle new data'

-- `sorted(…, key=len, reverse=True)`: longest first, and texts of one length in their order.
unfoldable pub insert : Text → List Text → List Text
insert s [] = s ∷ []
insert s (t ∷ ts) = if ltb (length t) (length s) then s ∷ t ∷ ts else t ∷ insert s ts

-- Stable: the later of two equals is inserted behind the earlier.
unfoldable pub sort_from : List Text → List Text → List Text
sort_from sorted [] = sorted
sort_from sorted (s ∷ ss) = sort_from (insert s sorted) ss

abbrev pub is_nonempty : Text → Bool
is_nonempty [] = false
is_nonempty (c ∷ s) = true

unfoldable pub longest_first : List Text → List Text
unfolding sort_from insert
longest_first secrets = sort_from [] (select is_nonempty secrets)

-- The body of the loop.
unfoldable pub mask_one : List ℕ → List ℕ → List ℕ
mask_one data' needle =
    if is_nonempty needle && contains needle data' then replace data' needle mask else data'

unfoldable pub mask_all : List ℕ → List Text → Result EncodeError (List ℕ)
mask_all data' [] = ok data'
mask_all data' (s ∷ ss) = do needle ← encode s; mask_all (mask_one data' needle) ss

unfoldable pub redact_body_bytes : List ℕ → List Text → Result EncodeError (List ℕ)
redact_body_bytes data' [] = ok data'
redact_body_bytes data' (s ∷ ss) = mask_all data' (longest_first (s ∷ ss))
