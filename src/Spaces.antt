-- ===== src/Spaces.antt =====
-- Python's `str.isspace` and `str.strip` on code points.
use mathlib.Core.List.{reverse}
use tracedown_probe_agent.Base.{ℕ, Bool, true, false, ◌||◌, ◌&&◌, [], ◌∷◌, Text, ◌==◌, leb}

abbrev between : ℕ → ℕ → ℕ → Bool
between low high c = leb low c && leb c high

-- The code points that Python takes for spaces.
unfoldable pub is_blank : ℕ → Bool
is_blank c =
    between 9 13 c
    || (between 28 32 c
        || (c == 133
            || (c == 160
                || (c == 5760
                    || (between 8192 8202 c
                        || (between 8232 8233 c || (c == 8239 || (c == 8287 || c == 12288))))))))

-- `str.lstrip`
unfoldable pub strip_left : Text → Text
strip_left [] = []
strip_left (c ∷ s) = elim (is_blank c) [ true ↦ strip_left s | false ↦ c ∷ s ]

-- `str.strip`
unfoldable pub strip : Text → Text
unfolding strip_left
strip s = reverse (strip_left (reverse (strip_left s)))
