-- ===== src/Job/Number.antt =====
-- Python's `int` on an ASCII text and on a finite float.
use mathlib.Core.List.{reverse}
use tracedown_probe_agent.Base.{
  ℕ, zero, suc, ◌+◌, ◌-◌, ◌*◌, ◌/◌, ◌^◌, Bool, true, false, ◌&&◌, ◌||◌, Option, none, some, [], ◌∷◌,
  Text, ◌==◌, leb, if◌then◌else◌,
}
use tracedown_probe_agent.Int.{ℤ, pos, negsuc}

abbrev pub is_digit : ℕ → Bool
is_digit c = leb 48 c && leb c 57

-- The C locale's spaces: tab, newline, vertical tab, form feed, carriage return, space.
abbrev pub is_space : ℕ → Bool
is_space c = (leb 9 c && leb c 13) || c == 32

unfoldable pub strip_left : Text → Text
strip_left [] = []
strip_left (c ∷ s) = elim (is_space c) [ true ↦ strip_left s | false ↦ c ∷ s ]

-- `sys.int_info.default_max_str_digits`
abbrev max_str_digits : ℕ
max_str_digits = 4300

-- Digits with single underscores between them; `after` says that the last character was a digit.
unfoldable pub scan_digits : ℕ → ℕ → Bool → Text → Option ℕ
scan_digits count acc after [] = if after && leb count max_str_digits then some acc else none
scan_digits count acc after (c ∷ s) = elim (is_digit c) [
  | true ↦ scan_digits (count + 1) (acc * 10 + (c - 48)) true s
  | false ↦ elim (c == b'_' && after) [ true ↦ scan_digits count acc false s | false ↦ none ]
]

abbrev pub signed : Bool → ℕ → ℤ
signed false n = pos n
signed true zero = pos 0
signed true (suc n) = negsuc n

unsigned : Text → Option ℤ
unfolding scan_digits
unsigned s = elim (scan_digits 0 0 false s) [ none ↦ none | some n ↦ some (signed false n) ]

negated : Text → Option ℤ
unfolding scan_digits
negated s = elim (scan_digits 0 0 false s) [ none ↦ none | some n ↦ some (signed true n) ]

after_spaces : Text → Option ℤ
unfolding unsigned negated
after_spaces [] = none
after_spaces (c ∷ s) =
    if c == b'-' then negated s else if c == b'+' then unsigned s else unsigned (c ∷ s)

unfoldable pub parse_int : Text → Option ℤ
unfolding after_spaces strip_left
parse_int s = after_spaces (strip_left (reverse (strip_left (reverse s))))

-- A finite float is m / 2 ^ places with a sign; `int` drops its fraction.
unfoldable pub truncate : Bool → ℕ → ℕ → ℤ
truncate sign m places = signed sign (m / 2 ^ places)
