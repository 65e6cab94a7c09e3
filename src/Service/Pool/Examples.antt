-- ===== src/Service/Pool/Examples.antt =====
-- service/pool_impl.go: runs of a pool, and the theorems at them.
use libcontainerssh.Common.{ℕ, ◌≤◌, ◌≡◌, refl, String, false, List, [], ◌∷◌, none, some, arith}
use libcontainerssh.Service.Lifecycle.{stopped, running}
use libcontainerssh.Service.Pool.{
  gathering, finished, PoolRun, PoolEvent, change, take_startup, take_stop, shut_down, run_pool,
  begin_run,
}
use libcontainerssh.Service.Pool.Ends.{is_stop, is_end, count_events, begin_run-ends}
use libcontainerssh.Service.Pool.Startup.{begin_run-waits}

abbrev named_service : ℕ → String
named_service s = "service"

abbrev two_services : PoolRun
two_services = record {
  pool = record {
    services = 1 ∷ 2 ∷ [];
    service_states = (1, stopped) ∷ (2, stopped) ∷ [];
    startup_complete = 0;
    stop_complete = 0;
    pool_stopping = false;
    stop_requests = [];
    last_error = none;
    log = [];
  };
  phase = finished;
  told = [];
}

-- Both services start, and when the pool is to shut down both stop.
abbrev whole_run : List PoolEvent
whole_run =
    change 1 running none
    ∷ take_startup
    ∷ change 2 running none
    ∷ take_startup
    ∷ shut_down
    ∷ change 1 stopped none
    ∷ change 2 stopped none
    ∷ take_stop
    ∷ take_stop
    ∷ []

begin_run-ends_example : (count_events is_stop whole_run ≡ 2) × (2 ≤ count_events is_end whole_run)
unfolding run_pool begin_run
begin_run-ends_example =
    begin_run-ends named_service whole_run two_services _ (omega arith) refl refl

-- Both services run before the pool looks, and it gets one signal only.
abbrev stuck : PoolRun
stuck =
    elim (run_pool named_service (change 1 running none ∷ change 2 running none ∷ take_startup ∷ [])
      (begin_run two_services)) [ some r ↦ r | none ↦ two_services ]

begin_run-waits_example : (stuck.told ≡ []) × ((left : ℕ) × (stuck.phase ≡ gathering left))
unfolding run_pool begin_run count_events
begin_run-waits_example =
    begin_run-waits named_service 1 2 (take_startup ∷ []) two_services _ (omega arith) (omega arith)
      refl refl
