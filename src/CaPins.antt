-- ===== src/CaPins.antt =====
-- src/mtls/ca_pins.py: the pinned trust anchors. A file's content is a text, none where it does not
-- exist; a set of fingerprints is the list of its members.
pub mod Stored
use tracedown_probe_agent.Base.{
  ℕ, Bool, true, false, ◌&&◌, ◌||◌, Option, none, some, List, [], ◌∷◌, ◌++◌, Text, any, map, ◌==◌,
  leb, ltb, select, if◌then◌else◌,
}
use tracedown_probe_agent.Bytes.{text_eq}
use tracedown_probe_agent.Spaces.{strip}

-- What `cryptography` and `hashlib` do.
pub record Certificates : Type 0 where
  -- the certificates of a bundle in DER; none where it cannot be parsed
  pub load_pem : Text → Option (List Text)
  -- `hashlib.sha256(der).hexdigest()`
  pub sha256 : Text → Text

-- The characters at which `str.splitlines` splits.
abbrev pub is_line_break : ℕ → Bool
is_line_break c =
    (leb 10 c && leb c 13) || ((leb 28 c && leb c 30) || (c == 133 || (c == 8232 || c == 8233)))

abbrev onto_line : ℕ → List Text → List Text
onto_line c [] = (c ∷ []) ∷ []
onto_line c (line ∷ lines) = (c ∷ line) ∷ lines

-- `str.splitlines`, where a pair of breaks makes an empty line, as does a break at the end.
unfoldable pub split_lines : Text → List Text
split_lines [] = [] ∷ []
split_lines (c ∷ s) =
    let lines = split_lines s in
    elim (is_line_break c) [ true ↦ [] ∷ lines | false ↦ onto_line c lines ]

abbrev is_filled : Text → Bool
is_filled [] = false
is_filled (c ∷ s) = true

-- `read_pins`
unfoldable pub read_pins : Option Text → List Text
unfolding split_lines
read_pins none = []
read_pins (some content) = select is_filled (map strip (split_lines content))

-- `a < b` for texts
abbrev pub text_lt : Text → Text → Bool
text_lt s [] = false
text_lt [] (y ∷ ys) = true
text_lt (x ∷ xs) (y ∷ ys) = ltb x y || (x == y && text_lt xs ys)

-- `s` before `t ∷ ts`, by whether it is `t` and whether it is less; `rest` has it put into `ts`.
abbrev pub place : Bool → Bool → Text → Text → List Text → List Text → List Text
place true less s t ts rest = t ∷ ts
place false true s t ts rest = s ∷ t ∷ ts
place false false s t ts rest = t ∷ rest

unfoldable pub insert_pin : Text → List Text → List Text
insert_pin s [] = s ∷ []
insert_pin s (t ∷ ts) = place (text_eq s t) (text_lt s t) s t ts (insert_pin s ts)

-- `sorted(fingerprints)` of a set: each member once, in order.
unfoldable pub sorted_pins : List Text → List Text
unfolding insert_pin
sorted_pins [] = []
sorted_pins (s ∷ ss) = insert_pin s (sorted_pins ss)

-- `"".join(f"{fp}\n" for fp in …)`
unfoldable pub join_lines : List Text → Text
join_lines [] = []
join_lines (s ∷ ss) = s ++ (10 ∷ join_lines ss)

-- The content that `write_pins` writes.
unfoldable pub write_pins : List Text → Text
unfolding sorted_pins join_lines
write_pins fingerprints = join_lines (sorted_pins fingerprints)

module _ (certificates : Certificates) where
  open certificates use {load_pem, sha256}

  -- `ca_fingerprints`
  unfoldable pub ca_fingerprints : Text → List Text
  ca_fingerprints bundle = elim (load_pem bundle) [ none ↦ [] | some certs ↦ map sha256 certs ]

  -- `not fingerprints.isdisjoint(pinned)`
  abbrev pub shares_pin : List Text → List Text → Bool
  shares_pin fingerprints pinned = any (λ f. any (text_eq f) pinned) fingerprints

  -- `bundle_preserves_pins`
  unfoldable pub bundle_preserves_pins : Text → List Text → Bool
  unfolding ca_fingerprints
  bundle_preserves_pins bundle [] = true
  bundle_preserves_pins bundle (p ∷ ps) = shares_pin (ca_fingerprints bundle) (p ∷ ps)
