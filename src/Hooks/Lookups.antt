-- ===== src/Hooks/Lookups.antt =====
-- `getaddrinfo` under the wrappers of the guard and of run_progress, in each order.
use tracedown_probe_agent.Base.{
  ◌≡◌, refl, ap, Bool, true, false, ◌&&◌, Option, none, some, List, Text, if◌then◌else◌,
}
use tracedown_probe_agent.Progress.{resolve_begins, resolve_ends}
use tracedown_probe_agent.Egress.Addresses.{Addr}
use tracedown_probe_agent.Egress.Guard.{guarded_getaddrinfo}
use tracedown_probe_agent.Hooks.{
  HookedThread, Lookup, GetAddrInfo, mark, system_getaddrinfo, under_way, resolved,
  traced_getaddrinfo, vetted, refusing_getaddrinfo,
}
use tracedown_probe_agent.Hooks.Shapes.{
  Shape, bare, traced, refusing, refusing_over_traced, traced_over_refusing, shape_of,
}

module _ (ip_address : Text → Option Addr) where
  abbrev pub getaddrinfo_of : Shape → GetAddrInfo
  getaddrinfo_of bare = system_getaddrinfo
  getaddrinfo_of traced = traced_getaddrinfo system_getaddrinfo
  getaddrinfo_of refusing = refusing_getaddrinfo ip_address system_getaddrinfo
  getaddrinfo_of refusing_over_traced =
      refusing_getaddrinfo ip_address (traced_getaddrinfo system_getaddrinfo)
  getaddrinfo_of traced_over_refusing =
      traced_getaddrinfo (refusing_getaddrinfo ip_address system_getaddrinfo)

  -- What a lookup answers, where the guard is installed or not.
  abbrev pub vet : Bool → Bool → Option Text → Option (List Text) → Option (List Text)
  vet false flag host answer = answer
  vet true flag host none = none
  vet true flag host (some results) = guarded_getaddrinfo ip_address flag host results

  abbrev pub looked_up : Bool → Bool → Lookup → HookedThread → Option (List Text) × HookedThread
  looked_up guard seen l t = (
    vet guard t.guarded l.host l.answer,
    if seen
        then mark (resolve_ends l.lookup_began l.lookup_ended)
            (mark (resolve_begins l.lookup_began) t)
        else t,
  )

  vetted_lem :
      (host : Option Text) (answer : Option (List Text)) (t : HookedThread)
      → ◌≡◌ {A = Option (List Text) × HookedThread}
          (vetted ip_address host (answer, t))
          (vet true t.guarded host answer, t)
  vetted_lem host none t = refl
  vetted_lem host (some results) t = refl

  traced_lookup :
      (seen : Bool) (l : Lookup) (t : HookedThread)
      → (if seen
          then resolved l (l.answer, mark (resolve_begins l.lookup_began) t)
          else (l.answer, t))
        ≡ looked_up false seen l t
  traced_lookup true l t = refl
  traced_lookup false l t = refl

  refusing_over_lookup :
      (seen : Bool) (l : Lookup) (t : HookedThread)
      → vetted ip_address l.host (
          if seen
          then resolved l (l.answer, mark (resolve_begins l.lookup_began) t)
          else (l.answer, t))
        ≡ looked_up true seen l t
  unfolding mark
  refusing_over_lookup true l t =
      vetted_lem l.host l.answer
        (mark (resolve_ends l.lookup_began l.lookup_ended) (mark (resolve_begins l.lookup_began) t))
  refusing_over_lookup false l t = vetted_lem l.host l.answer t

  traced_over_lookup :
      (seen : Bool) (l : Lookup) (t : HookedThread)
      → (if seen
          then resolved l
              (vetted ip_address l.host (l.answer, mark (resolve_begins l.lookup_began) t))
          else vetted ip_address l.host (l.answer, t))
        ≡ looked_up true seen l t
  unfolding mark
  traced_over_lookup true l t =
      ap (resolved l) (vetted_lem l.host l.answer (mark (resolve_begins l.lookup_began) t))
  traced_over_lookup false l t = vetted_lem l.host l.answer t

  pub getaddrinfo_of_lem :
      (hooks guard first : Bool) (l : Lookup) (t : HookedThread)
      → getaddrinfo_of (shape_of hooks guard first) l t ≡ looked_up guard (hooks && under_way t) l t
  unfolding refusing_getaddrinfo traced_getaddrinfo mark
  getaddrinfo_of_lem false false first l t = refl
  getaddrinfo_of_lem true false first l t = traced_lookup (under_way t) l t
  getaddrinfo_of_lem false true first l t = vetted_lem l.host l.answer t
  getaddrinfo_of_lem true true false l t = refusing_over_lookup (under_way t) l t
  getaddrinfo_of_lem true true true l t = traced_over_lookup (under_way t) l t
