-- ===== src/Hooks/Composed.antt =====
-- The installed entries, after any calls of the three `install`s in any order.
use tracedown_probe_agent.Base.{
  ℕ, ◌≡◌, refl, ap, ◌∙◌, Bool, true, false, ◌&&◌, ◌||◌, Option, List, [], ◌∷◌, ◌++◌, Text, any,
  if◌then◌else◌,
}
use tracedown_probe_agent.Egress.Addresses.{Addr}
use tracedown_probe_agent.Wire.{
  Reader, plain, counting, patched_resp_init, Chunk, CallEnd, patched_send,
}
use tracedown_probe_agent.Hooks.{
  ResponseInit, system_response_init, wrap_last, counted_response_init, HookedThread, ConnectCall,
  Lookup, Send, system_send, under_way, counted_send, Process, fresh_process, Installer,
  egress_guard, run_progress, wire_metrics, install, install_guard, install_progress,
  install_metrics, install_all,
}
use tracedown_probe_agent.Hooks.Shapes.{
  is_guard, is_progress, is_metrics, guard_first, Shape, bare, traced, refusing,
  refusing_over_traced, traced_over_refusing, shape_of, next, after, after-bare,
}
use tracedown_probe_agent.Hooks.Lookups.{looked_up, getaddrinfo_of, getaddrinfo_of_lem}
use tracedown_probe_agent.Hooks.Connects.{answered, connect_of, connect_of_lem, refused}

or_swap : (a b c : Bool) → (a || (b || c)) ≡ ((b || a) || c)
or_swap true true c = refl
or_swap true false c = refl
or_swap false true c = refl
or_swap false false c = refl

or_false : (a : Bool) → (a || false) ≡ a
or_false true = refl
or_false false = refl

abbrev has_guard : Shape → Bool
has_guard bare = false
has_guard traced = false
has_guard _ = true

abbrev has_hooks : Shape → Bool
has_hooks bare = false
has_hooks refusing = false
has_hooks _ = true

module _ (ip_address : Text → Option Addr) where
  abbrev send_of : Bool → Send
  send_of counted = if counted then counted_send system_send else system_send

  abbrev response_init_of : Bool → ResponseInit
  response_init_of counted =
      if counted then counted_response_init system_response_init else system_response_init

  abbrev process_of : Shape → Bool → Process
  process_of s counted = record {
    connect = connect_of ip_address s;
    getaddrinfo = getaddrinfo_of ip_address s;
    send = send_of counted;
    response_init = response_init_of counted;
    guard_installed = has_guard s;
    progress_installed = has_hooks s;
    metrics_installed = counted;
  }

  install_lem :
      (i : Installer) (s : Shape) (counted : Bool)
      → install ip_address i (process_of s counted)
        ≡ process_of (next i s) (is_metrics i || counted)
  unfolding install install_guard install_progress install_metrics
  install_lem egress_guard bare counted = refl
  install_lem egress_guard traced counted = refl
  install_lem egress_guard refusing counted = refl
  install_lem egress_guard refusing_over_traced counted = refl
  install_lem egress_guard traced_over_refusing counted = refl
  install_lem run_progress bare counted = refl
  install_lem run_progress traced counted = refl
  install_lem run_progress refusing counted = refl
  install_lem run_progress refusing_over_traced counted = refl
  install_lem run_progress traced_over_refusing counted = refl
  install_lem wire_metrics s true = refl
  install_lem wire_metrics s false = refl

  install_all_lem :
      (is : List Installer) (s : Shape) (counted : Bool)
      → install_all ip_address is (process_of s counted)
        ≡ process_of (after is s) (any is_metrics is || counted)
  unfolding install_all
  install_all_lem [] s counted = refl
  install_all_lem (i ∷ is) s counted =
      ap (install_all ip_address is) (install_lem i s counted)
      ∙ install_all_lem is (next i s) (is_metrics i || counted)
      ∙ ap (process_of (after is (next i s))) (or_swap (any is_metrics is) (is_metrics i) counted)

  installed :
      (is : List Installer)
      → install_all ip_address is fresh_process
        ≡ process_of
            (shape_of (any is_progress is) (any is_guard is) (guard_first is))
            (any is_metrics is)
  installed is =
      install_all_lem is bare false
      ∙ ap (λ s. process_of s (any is_metrics is || false)) (after-bare is)
      ∙ ap (process_of (shape_of (any is_progress is) (any is_guard is) (guard_first is)))
          (or_false (any is_metrics is))

  send_of_lem :
      (counted : Bool) (now : ℕ) (chunk : Chunk) (ends : CallEnd) (t : HookedThread)
      → send_of counted now chunk ends t
        ≡ (if counted then record t { wire = patched_send now chunk ends t.wire } else t)
  unfolding counted_send patched_send
  send_of_lem true now chunk ends t = refl
  send_of_lem false now chunk ends t = refl

  wrap_last-append :
      (rs : List Reader) (r : Reader) → wrap_last (rs ++ r ∷ []) ≡ rs ++ counting ∷ []
  wrap_last-append [] r = refl
  wrap_last-append (q ∷ []) r = refl
  wrap_last-append (q ∷ q' ∷ rs) r = ap (λ l. q ∷ l) (wrap_last-append (q' ∷ rs) r)

  -- A response's reader, counting or not.
  wrapped_lem :
      (counts : Bool) (t : HookedThread)
      → (if counts
          then record t {
            wire = record t.wire { readers = wrap_last (t.wire.readers ++ plain ∷ []) };
          }
          else record t { wire = record t.wire { readers = t.wire.readers ++ plain ∷ [] } })
        ≡ record t {
          wire = record t.wire {
            readers = t.wire.readers ++ (if counts then counting else plain) ∷ [];
          };
        }
  wrapped_lem true t =
      ap (λ l. record t { wire = record t.wire { readers = l } })
        (wrap_last-append t.wire.readers plain)
  wrapped_lem false t = refl

  response_init_of_lem :
      (counted has_file : Bool) (t : HookedThread)
      → response_init_of counted has_file t ≡ (
          if counted
          then record t { wire = patched_resp_init has_file t.wire }
          else system_response_init has_file t)
  unfolding counted_response_init patched_resp_init
  response_init_of_lem true has_file t = wrapped_lem (t.wire.counter.active && has_file) t
  response_init_of_lem false has_file t = refl

  -- After any calls of the three installs, in any order and repeated at will: a connect under the
  -- guard's flag is refused exactly if the guard is installed and the target is blocked, and the
  -- system is then not asked; any other one is asked for once and ends as the system answers. Where
  -- the hooks are installed and a request is under way, a connect that the system was asked for and
  -- every lookup are recorded once, and of a refused connect the record keeps the beginning alone,
  -- where the guard was installed first, and nothing where the hooks were; else nothing is recorded.
  -- A lookup answers what the guard's rule makes of the resolver's answer, where the guard is
  -- installed, and else that answer. Where wire_metrics is installed, a send and the opening of a
  -- response do what one wrapper does, and else what the library does.
  pub install_all_composed :
      (is : List Installer) (c : ConnectCall) (l : Lookup) (now : ℕ) (chunk : Chunk)
      (ends : CallEnd) (has_file : Bool) (t : HookedThread)
      → ((install_all ip_address is fresh_process).connect c t
          ≡ answered
              (any is_guard is && refused ip_address c t)
              (any is_progress is && under_way t)
              (guard_first is)
              c
              t)
        × ((install_all ip_address is fresh_process).getaddrinfo l t
            ≡ looked_up ip_address (any is_guard is) (any is_progress is && under_way t) l t)
        × ((install_all ip_address is fresh_process).send now chunk ends t ≡ (
            if any is_metrics is
            then record t { wire = patched_send now chunk ends t.wire }
            else t))
        × ((install_all ip_address is fresh_process).response_init has_file t ≡ (
            if any is_metrics is
            then record t { wire = patched_resp_init has_file t.wire }
            else system_response_init has_file t))
  install_all_composed is c l now chunk ends has_file t =
      let hooks = any is_progress is in
      let guard = any is_guard is in
      let first = guard_first is in
      (
        ap (λ (p : Process). p.connect c t) (installed is)
            ∙ connect_of_lem ip_address hooks guard first c t,
        ap (λ (p : Process). p.getaddrinfo l t) (installed is)
            ∙ getaddrinfo_of_lem ip_address hooks guard first l t,
        ap (λ (p : Process). p.send now chunk ends t) (installed is)
            ∙ send_of_lem (any is_metrics is) now chunk ends t,
        ap (λ (p : Process). p.response_init has_file t) (installed is)
            ∙ response_init_of_lem (any is_metrics is) has_file t,
      )
