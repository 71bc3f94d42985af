-- ===== src/Hooks/Connects.antt =====
-- `connect` under the wrappers of the guard and of run_progress, in each order.
use tracedown_probe_agent.Base.{◌≡◌, refl, Bool, true, false, ◌&&◌, Option, Text, if◌then◌else◌}
use tracedown_probe_agent.Progress.{connect_begins, connect_ends, timed_out}
use tracedown_probe_agent.Egress.Addresses.{Addr}
use tracedown_probe_agent.Egress.Guard.{Sockaddr, target_is_blocked}
use tracedown_probe_agent.Hooks.{
  HookedThread, ConnectEnd, connected, connect_timeout, os_error, egress_blocked, ConnectCall,
  Connect, dial, mark, system_connect, under_way, settle, traced_connect, refusing_connect,
}
use tracedown_probe_agent.Hooks.Shapes.{
  Shape, bare, traced, refusing, refusing_over_traced, traced_over_refusing, shape_of,
}

-- What the entries come to.
abbrev pub mark_end : ConnectCall → ConnectEnd → HookedThread → HookedThread
mark_end c connected t = mark (connect_ends c.began c.ended) t
mark_end c (connect_timeout at kernel) t = mark (timed_out at kernel) t
mark_end c _ t = t

abbrev pub marked : ConnectCall → HookedThread → HookedThread
marked c t = mark_end c c.system_end (mark (connect_begins c.began c.fd) t)

abbrev pub answered : Bool → Bool → Bool → ConnectCall → HookedThread → ConnectEnd × HookedThread
answered true seen first c t =
    (egress_blocked, if seen && first then mark (connect_begins c.began c.fd) t else t)
answered false seen first c t = (c.system_end, dial c.address (if seen then marked c t else t))

settle_lem :
    (c : ConnectCall) (e : ConnectEnd) (a : Sockaddr) (t : HookedThread)
    → settle c (e, dial a t) ≡ (e, dial a (mark_end c e t))
unfolding settle mark
settle_lem c connected a t = refl
settle_lem c (connect_timeout at kernel) a t = refl
settle_lem c os_error a t = refl
settle_lem c egress_blocked a t = refl

traced_lem :
    (seen first : Bool) (c : ConnectCall) (t : HookedThread)
    → (if seen
        then settle c (c.system_end, dial c.address (mark (connect_begins c.began c.fd) t))
        else (c.system_end, dial c.address t))
      ≡ answered false seen first c t
traced_lem true first c t =
    settle_lem c c.system_end c.address (mark (connect_begins c.began c.fd) t)
traced_lem false first c t = refl

and_false : (a : Bool) → (a && false) ≡ false
and_false true = refl
and_false false = refl

module _ (ip_address : Text → Option Addr) where
  abbrev pub connect_of : Shape → Connect
  connect_of bare = system_connect
  connect_of traced = traced_connect system_connect
  connect_of refusing = refusing_connect ip_address system_connect
  connect_of refusing_over_traced = refusing_connect ip_address (traced_connect system_connect)
  connect_of traced_over_refusing = traced_connect (refusing_connect ip_address system_connect)

  abbrev pub refused : ConnectCall → HookedThread → Bool
  refused c t = t.guarded && target_is_blocked ip_address c.address

  refusing_answered :
      (blocked seen first : Bool) (c : ConnectCall) (t : HookedThread)
      (inner : ConnectEnd × HookedThread)
      → inner ≡ answered false seen first c t
      → (seen && first) ≡ false
      → (if blocked then (egress_blocked, t) else inner) ≡ answered blocked seen first c t
  refusing_answered true seen first c t inner e inside = rw inside refl
  refusing_answered false seen first c t inner e inside = e

  traced_answered :
      (blocked seen : Bool) (c : ConnectCall) (t : HookedThread)
      → (if seen
          then settle c (
              if blocked
              then (egress_blocked, mark (connect_begins c.began c.fd) t)
              else (c.system_end, dial c.address (mark (connect_begins c.began c.fd) t)))
          else (if blocked then (egress_blocked, t) else (c.system_end, dial c.address t)))
        ≡ answered blocked seen true c t
  unfolding settle
  traced_answered true true c t = refl
  traced_answered true false c t = refl
  traced_answered false seen c t = traced_lem seen true c t

  pub connect_of_lem :
      (hooks guard first : Bool) (c : ConnectCall) (t : HookedThread)
      → connect_of (shape_of hooks guard first) c t
        ≡ answered (guard && refused c t) (hooks && under_way t) first c t
  unfolding refusing_connect traced_connect mark
  connect_of_lem false false first c t = refl
  connect_of_lem true false first c t = traced_lem (under_way t) first c t
  connect_of_lem false true first c t =
      refusing_answered (refused c t) false first c t (c.system_end, dial c.address t) refl refl
  connect_of_lem true true false c t =
      refusing_answered (refused c t) (under_way t) false c t (traced_connect system_connect c t)
        (traced_lem (under_way t) false c t) (and_false (under_way t))
  connect_of_lem true true true c t = traced_answered (refused c t) (under_way t) c t
