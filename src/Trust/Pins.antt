-- ===== src/Trust/Pins.antt =====
-- `normalize_fingerprints`: the configured pins as lower-case digests.
use mathlib.Core.List.{reverse}
use tracedown_probe_agent.Base.{
  ℕ, ◌≡◌, ◌≢◌, Bool, true, false, ◌&&◌, ◌||◌, List, [], ◌∷◌, Text, codes, map, all, length, All,
  arith, ◌==◌, leb, if◌then◌else◌, Bool-cases, inl, inr, subst,
}
use tracedown_probe_agent.Bytes.{starts_with}
use tracedown_probe_agent.Result.{Result, ok, err, ◌>>=◌, >>=-eq-ok}
use tracedown_probe_agent.Job.Number.{is_digit}
use tracedown_probe_agent.Spaces.{is_blank}
use tracedown_probe_agent.Egress.{lower}

pub data PinError : Type 0 where
  not_a_fingerprint : Text → PinError
  no_fingerprint : PinError

-- The spaces at which `str.split` splits, and the comma that is replaced by one.
abbrev pub is_separator : ℕ → Bool
is_separator c = is_blank c || c == b','

abbrev add_chunk : Text → List Text → List Text
add_chunk [] chunks = chunks
add_chunk (c ∷ chunk) chunks = reverse (c ∷ chunk) ∷ chunks

-- `raw.replace(",", " ").split()`, with the chunk under way reversed.
unfoldable pub chunks_from : Text → Text → List Text
chunks_from chunk [] = add_chunk chunk []
chunks_from chunk (c ∷ s) = elim (is_separator c) [
  | true ↦ add_chunk chunk (chunks_from [] s)
  | false ↦ chunks_from (c ∷ chunk) s
]

abbrev drop_prefix : ℕ → Text → Text
drop_prefix ℕ.zero s = s
drop_prefix (ℕ.suc n) [] = []
drop_prefix (ℕ.suc n) (c ∷ s) = drop_prefix n s

-- `candidate.removeprefix("sha256:")`
unfoldable pub without_label : Text → Text
without_label s = if starts_with (codes "sha256:") s then drop_prefix 7 s else s

-- `candidate.replace(":", "")`
unfoldable pub without_colons : Text → Text
without_colons [] = []
without_colons (c ∷ s) =
    let rest = without_colons s in elim (c == b':') [ true ↦ rest | false ↦ c ∷ rest ]

unfoldable pub candidate_of : Text → Text
unfolding without_label without_colons
candidate_of chunk = without_colons (without_label (map lower chunk))

abbrev pub is_hex : ℕ → Bool
is_hex c = is_digit c || (leb b'a' c && leb c b'f')

abbrev pub is_digest : Text → Bool
is_digest s = length s == 64 && all is_hex s

-- The body of the loop, on a candidate, with the pins of the rest.
unfoldable pub add_pin : Text → Text → Result PinError (List Text) → Result PinError (List Text)
add_pin chunk [] rest = rest
add_pin chunk (c ∷ s) rest =
    if is_digest (c ∷ s)
    then (do pins ← rest; ok ((c ∷ s) ∷ pins))
    else err (not_a_fingerprint chunk)

unfoldable pub pins_from : List Text → Result PinError (List Text)
unfolding add_pin candidate_of
pins_from [] = ok []
pins_from (chunk ∷ chunks) = add_pin chunk (candidate_of chunk) (pins_from chunks)

-- `if not pins`
unfoldable pub nonempty : List Text → Result PinError (List Text)
nonempty [] = err no_fingerprint
nonempty (p ∷ ps) = ok (p ∷ ps)

-- `normalize_fingerprints`; the set of pins is a list here.
unfoldable pub normalize_fingerprints : Text → Result PinError (List Text)
unfolding pins_from chunks_from nonempty
normalize_fingerprints raw = do pins ← pins_from (chunks_from [] raw); nonempty pins

ok-injective : {ps qs : List Text} → ◌≡◌ {A = Result PinError (List Text)} (ok ps) (ok qs) → ps ≡ qs
ok-injective h = cc h

add_pin-digests :
    (chunk s : Text) (rest : Result PinError (List Text)) (ps : List Text)
    → ((qs : List Text) → rest ≡ ok qs → All (λ p. is_digest p ≡ true) qs)
    → add_pin chunk s rest ≡ ok ps
    → All (λ p. is_digest p ≡ true) ps
unfolding add_pin
add_pin-digests chunk [] rest ps ih h = ih ps h
add_pin-digests chunk (c ∷ s) rest ps ih h = elim (Bool-cases (is_digest (c ∷ s))) [
  | inl good ↦
      let bound : (rest >>= λ qs. ok ((c ∷ s) ∷ qs)) ≡ ok ps = ground arith in
      let (qs, e, same) = >>=-eq-ok rest (λ qs. ok ((c ∷ s) ∷ qs)) bound in
      subst (All (λ p. is_digest p ≡ true)) (ok-injective same) (good, ih qs e)
  | inr bad ↦ absurd (ground arith)
]

pins_from-digests :
    (chunks ps : List Text) → pins_from chunks ≡ ok ps → All (λ p. is_digest p ≡ true) ps
unfolding pins_from
pins_from-digests [] ps h = subst (All (λ p. is_digest p ≡ true)) (ok-injective h) tt
pins_from-digests (chunk ∷ chunks) ps h =
    add_pin-digests chunk (candidate_of chunk) (pins_from chunks) ps (pins_from-digests chunks) h

nonempty_lem :
    (qs ps : List Text)
    → All (λ p. is_digest p ≡ true) qs
    → nonempty qs ≡ ok ps
    → All (λ p. is_digest p ≡ true) ps × (ps ≢ [])
unfolding nonempty
nonempty_lem [] ps d h = cc h
nonempty_lem (q ∷ qs) ps d h =
    let same = ok-injective h in (subst (All (λ p. is_digest p ≡ true)) same d, λ e. cc (same, e))

-- Every pin that is accepted is a SHA-256 digest, 64 lower-case hexadecimal digits, and there is
-- one at least.
pub normalize_fingerprints-digests :
    (raw : Text) (ps : List Text)
    → normalize_fingerprints raw ≡ ok ps
    → All (λ p. is_digest p ≡ true) ps × (ps ≢ [])
unfolding normalize_fingerprints
normalize_fingerprints-digests raw ps h =
    let (qs, e, rest) = >>=-eq-ok (pins_from (chunks_from [] raw)) nonempty h in
    nonempty_lem qs ps (pins_from-digests (chunks_from [] raw) qs e) rest
