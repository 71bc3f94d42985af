-- ===== src/Egress.antt =====
-- src/services/egress_guard.py: which hosts and addresses a probe may not reach.
--
-- `ipaddress.ip_address` is a parameter, none where it raises ValueError. Its results are the
-- library's two kinds of address, and the library's flags and networks are written out here.
pub mod Addresses
pub mod Guard
pub mod V4
pub mod V6
mod Tests
use mathlib.Core.List.{reverse}
use tracedown_probe_agent.Base.{
  ℕ, Bool, true, false, ◌||◌, Option, none, some, List, [], ◌∷◌, ◌++◌, Text, codes, map, any, ◌==◌,
  leb, ◌&&◌, ◌+◌, if◌then◌else◌,
}
use tracedown_probe_agent.Bytes.{text_eq, starts_with}
use tracedown_probe_agent.Spaces.{is_blank, strip_left}
use Addresses.{Addr, address_is_blocked}

-- `str.lower` on ASCII.
abbrev pub lower : ℕ → ℕ
lower c = if leb b'A' c && leb c b'Z' then c + 32 else c

-- `lstrip(".")`
pub strip_dots : Text → Text
strip_dots [] = []
strip_dots (c ∷ s) = elim (c == b'.') [ true ↦ strip_dots s | false ↦ c ∷ s ]

-- `host.strip().lower().rstrip(".")`, read from its end, since only ends are looked at.
pub normalised_reverse : Text → Text
unfolding strip_left strip_dots
normalised_reverse host = strip_dots (map lower (strip_left (reverse (strip_left host))))

-- `_BLOCKED_HOST_SUFFIXES`
abbrev pub blocked_host_suffixes : List Text
blocked_host_suffixes = codes "railway.internal" ∷ codes "localhost" ∷ []

-- `h == suffix or h.endswith("." + suffix)`, on the reversed host.
pub is_below : Text → Text → Bool
is_below h suffix = text_eq h (reverse suffix) || starts_with (reverse suffix ++ b'.' ∷ []) h

abbrev is_empty : Text → Bool
is_empty [] = true
is_empty (c ∷ s) = false

-- `_host_is_blocked`
pub host_is_blocked : Text → Bool
unfolding normalised_reverse is_below
host_is_blocked host =
    let h = normalised_reverse host in is_empty h || any (is_below h) blocked_host_suffixes

-- `ip.split("%", 1)[0]`
unfoldable pub before_zone : Text → Text
before_zone [] = []
before_zone (c ∷ s) = elim (c == b'%') [ true ↦ [] | false ↦ c ∷ before_zone s ]

module _ (ip_address : Text → Option Addr) where
  -- `_ip_is_blocked`
  unfoldable pub ip_is_blocked : Text → Bool
  unfolding before_zone
  ip_is_blocked ip = elim (ip_address (before_zone ip)) [
    | none ↦ true
    | some addr ↦ address_is_blocked addr
  ]
