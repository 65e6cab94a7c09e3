-- ===== src/Service/Examples.antt =====
-- Concrete runs for the theorems on services.
use libcontainerssh.Common.{ℕ, ◌≡◌, refl, inl, inr, true, false, List, [], ◌∷◌, Option, none, some}
use libcontainerssh.Service.Lifecycle.{
  Lifecycle, returns, blocks, ServiceEnd, panics, ServiceCall, calls_running, calls_stopping,
  is_stopped, starting, running, stopping, crashed, cancelled, new_lifecycle, run, wait,
  should_stop, signal_stop, begin_stopping,
}
use libcontainerssh.Service.Lifecycle.Announced.{announced, run_ends}
use libcontainerssh.Service.Lifecycle.Mutex.{wait_locks, signal_stop-begin_stopping}

-- A new lifecycle with one hook for state changes.
abbrev watched : Lifecycle
unfolding new_lifecycle
watched = record new_lifecycle { state_hooks = 7 ∷ [] }

run_ends_example :
    (l' : Lifecycle) × (run
        (calls_running ∷ is_stopped (some 3) ∷ calls_stopping ∷ [])
        (panics "x")
        watched
      ≡ returns (none, l'))
    × (l'.state ≡ crashed)
    × (l'.last_error ≡ some "service paniced (x)")
    × (l'.wait_context ≡ cancelled)
    × (l'.locked ≡ false)
    × (announced l'.calls ≡ starting ∷ running ∷ stopping ∷ crashed ∷ [])
unfolding watched
run_ends_example =
    run_ends (calls_running ∷ is_stopped (some 3) ∷ calls_stopping ∷ []) (panics "x") watched 7 refl
      refl

wait_locks_example :
    let after = record watched { locked = true } in
    (wait watched ≡ returns (none, after))
    × ((cs : List ServiceCall) (end : ServiceEnd) → run cs end after ≡ blocks)
    × (wait after ≡ blocks)
    × (should_stop after ≡ blocks)
    × ((context : Option ℕ) → signal_stop context after ≡ blocks)
unfolding watched
wait_locks_example = wait_locks watched refl (inl refl)

abbrev active : Lifecycle
active = record watched { state = running }

signal_stop-begin_stopping_example :
    (l' : Lifecycle) × (signal_stop (some 3) active ≡ returns (true, l'))
    × (should_stop l' ≡ returns true)
    × ((l'' : Lifecycle) × (begin_stopping l' ≡ returns (some 3, l'')) × (l''.state ≡ stopping))
unfolding watched
signal_stop-begin_stopping_example = signal_stop-begin_stopping active (some 3) (inr refl) refl
