-- ===== src/Service/Lifecycle/Mutex.antt =====
-- service/lifecycle_impl.go: the mutex of a lifecycle, and the request to stop.
use libcontainerssh.Common.{ℕ, ◌≡◌, refl, ◌⊎◌, true, false, List, Option, none, map, arith}
use libcontainerssh.Service.Lifecycle.{
  stopped, starting, running, stopping, crashed, Lifecycle, returns, blocks, ServiceEnd,
  ServiceCall, begin_stopping, enter, on_stopping, should_stop, wait, signal_stop, run,
}

-- Wait on a lifecycle whose service has stopped, or was never started, answers nil, and on one whose
-- service has crashed it answers the error; in both cases it keeps the mutex, and after it no run of
-- the service gets to its start, and no wait, no question whether to stop and no request to stop
-- returns.
pub wait_locks :
    (l : Lifecycle)
    → l.locked ≡ false
    → (l.state ≡ stopped) ⊎ (l.state ≡ crashed)
    → let after = record l { locked = true } in
      (wait l ≡ returns (elim l.state [ crashed ↦ l.last_error | _ ↦ none ], after))
      × ((cs : List ServiceCall) (end : ServiceEnd) → run cs end after ≡ blocks)
      × (wait after ≡ blocks)
      × (should_stop after ≡ blocks)
      × ((context : Option ℕ) → signal_stop context after ≡ blocks)
unfolding wait should_stop signal_stop run
wait_locks l free ended = (ground arith, (λ cs end. refl), refl, refl, (λ context. refl))

-- A request to stop a service that is starting or running is seen by the service, and the context
-- that it brings is what the service and its stopping hooks are given.
pub signal_stop-begin_stopping :
    (l : Lifecycle) (context : Option ℕ)
    → (l.state ≡ starting) ⊎ (l.state ≡ running)
    → l.locked ≡ false
    → (l' : Lifecycle) × (signal_stop context l ≡ returns (true, l'))
      × (should_stop l' ≡ returns true)
      × ((l'' : Lifecycle) × (begin_stopping l' ≡ returns (context, l'')) × (l''.state ≡ stopping))
unfolding signal_stop should_stop begin_stopping
signal_stop-begin_stopping l context h free = (
  record l { shutdown_context = context; run_cancelled = true },
  ground arith,
  ground arith,
  (
    enter stopping (map (λ hook. on_stopping hook context) l.stopping_hooks)
        (record l { shutdown_context = context; run_cancelled = true }),
    ground arith,
    ground arith,
  ),
)
