-- ===== src/Service/Pool/Startup.antt =====
-- service/pool_impl.go: when the run of a pool does not get on.
use mathlib.Core.Option.{some_inj}
use libcontainerssh.Common.{
  ℕ, zero, suc, ◌+◌, ◌≤◌, ◌<◌, ◌≡◌, refl, ap, subst, ◌∙◌, String, List, [], ◌∷◌, false, Option,
  none, some, arith, length,
}
use libcontainerssh.Service.Lifecycle.{State, stopped, starting, running, stopping, crashed}
use libcontainerssh.Service.Pool.{
  Pool, note_pool, trigger_stop, signal_startup, signal_end, announce, on_service_state_change,
  Phase, gathering, serving, draining, finished, PoolRun, note_run, gather, PoolEvent, change,
  take_startup, take_stop, shut_down, on_startup, on_shut_down, pool_step, run_pool, begin_run,
}
use libcontainerssh.Service.Pool.Ends.{is_stop, is_start, count_events, receive-from, bind_run-from}

-- The run waits for services to start, for more than can still signal it.
abbrev Waits : ℕ → PoolRun → Type 0
Waits starts r = (left : ℕ) × (r.phase ≡ gathering left) × (r.pool.startup_complete + starts < left)

on_service_state_change-startup :
    (name : ℕ → String) (s : ℕ) (state : State) (err : Option String) (p : Pool)
    → (on_service_state_change name s state err p).startup_complete
      ≤ p.startup_complete + is_start (change s state err)
unfolding on_service_state_change announce note_pool signal_startup signal_end trigger_stop
on_service_state_change-startup name s stopped err p = ground arith
on_service_state_change-startup name s starting err p = ground arith
on_service_state_change-startup name s running err p = ground arith
on_service_state_change-startup name s stopping err p = ground arith
on_service_state_change-startup name s crashed err p = ground arith

gather-Waits :
    (left starts : ℕ) (r : PoolRun)
    → r.pool.startup_complete + starts < left
    → Waits starts (gather left r) × ((gather left r).told ≡ r.told)
unfolding gather
gather-Waits zero starts r h = absurd (omega (arith, h))
gather-Waits (suc left) starts r h = ((suc left, refl, h), refl)

on_startup-Waits :
    (phase : Phase) (left starts : ℕ) (r r' : PoolRun)
    → phase ≡ gathering left
    → suc r.pool.startup_complete + starts < left
    → on_startup phase r ≡ some r'
    → Waits starts r' × (r'.told ≡ r.told)
unfolding on_startup
on_startup-Waits (gathering (suc now)) left starts r r' at h e =
    let same : suc now ≡ left = ap (λ p. elim p [ gathering k ↦ k | _ ↦ 0 ]) at in
    subst (λ q. Waits starts q × (q.told ≡ r.told)) (some_inj.0 e)
      (gather-Waits now starts r (omega (arith, same, h)))
on_startup-Waits (gathering zero) left starts r r' at h e = cc
on_startup-Waits serving left starts r r' at h e = cc
on_startup-Waits (draining k) left starts r r' at h e = cc
on_startup-Waits finished left starts r r' at h e = cc

pool_step-Waits :
    (name : ℕ → String) (event : PoolEvent) (starts : ℕ) (r r' : PoolRun)
    → is_stop event ≡ 0
    → Waits (is_start event + starts) r
    → pool_step name event r ≡ some r'
    → Waits starts r' × (r'.told ≡ r.told)
unfolding pool_step on_shut_down
pool_step-Waits name (change s state err) starts r r' no_stop (left, at, h) e =
    let pool = on_service_state_change name s state err r.pool in
    subst (λ q. Waits starts q × (q.told ≡ r.told)) (some_inj.0 e)
      ((left, at, omega (arith, h, on_service_state_change-startup name s state err r.pool)), refl)
pool_step-Waits name take_startup starts r r' no_stop (left, at, h) e =
    let (signals, there, went) = receive-from r.pool.startup_complete _ r' e in
    on_startup-Waits r.phase left starts _ r' at (omega (arith, there, h)) went
pool_step-Waits name take_stop starts r r' no_stop w e = absurd (omega (arith, no_stop))
pool_step-Waits name shut_down starts r r' no_stop (left, at, h) e =
    let idle : on_shut_down r.phase r ≡ none = rw at refl in cc

-- A pool that waits for more services to start than there are signals in the channel and services
-- that have still to say that they run never tells its lifecycle that it runs, nor anything else,
-- whatever happens, if no service stops: it does not even see that it is to shut down.
pub run_pool-waits :
    (name : ℕ → String) (events : List PoolEvent) (r r' : PoolRun) (left : ℕ)
    → r.phase ≡ gathering left
    → r.pool.startup_complete + count_events is_start events < left
    → count_events is_stop events ≡ 0
    → run_pool name events r ≡ some r'
    → (r'.told ≡ r.told) × ((left' : ℕ) × (r'.phase ≡ gathering left'))
unfolding run_pool count_events
run_pool-waits name [] r r' left at h no_stop e =
    subst (λ q. (q.told ≡ r.told) × ((left' : ℕ) × (q.phase ≡ gathering left'))) (some_inj.0 e)
      (refl, (left, at))
run_pool-waits name (event ∷ events) r r' left at h no_stop e =
    let (next, stepped, rest) = bind_run-from (pool_step name event r) _ r' e in
    let ((left', at', h'), told) =
      pool_step-Waits name event (count_events is_start events) r next (omega (arith, no_stop))
        (left, at, omega (arith, h)) stepped in
    let (told', still) =
      run_pool-waits name events next r' left' at' h' (omega (arith, no_stop)) rest in
    (told' ∙ told, still)

-- The channel for the startups has room for one.
on_service_state_change-room :
    (name : ℕ → String) (s : ℕ) (err : Option String) (p : Pool)
    → p.startup_complete ≤ 1
    → (on_service_state_change name s running err p).startup_complete ≤ 1
unfolding on_service_state_change announce note_pool signal_startup
on_service_state_change-room name s err p h = ground arith

gather-gathering :
    (n : ℕ) (r : PoolRun)
    → 0 < n
    → ((gather n r).phase ≡ gathering n)
      × ((gather n r).told ≡ r.told)
      × ((gather n r).pool.startup_complete ≡ r.pool.startup_complete)
unfolding gather
gather-gathering zero r h = absurd (omega (arith, h))
gather-gathering (suc n) r h = (refl, refl, refl)

-- Two services of a pool come to run before the pool has taken a signal. If no more than the others
-- say after that that they run, and no service stops, then the pool never gets on: it does not tell
-- its lifecycle that it runs, and does not see that it is to shut down.
pub begin_run-waits :
    (name : ℕ → String) (a b : ℕ) (events : List PoolEvent) (r r' : PoolRun)
    → r.pool.startup_complete ≤ 1
    → count_events is_start events + 2 ≤ length r.pool.services
    → count_events is_stop events ≡ 0
    → run_pool name (change a running none ∷ change b running none ∷ events) (begin_run r) ≡ some r'
    → (r'.told ≡ r.told) × ((left : ℕ) × (r'.phase ≡ gathering left))
unfolding run_pool pool_step begin_run note_run note_pool
begin_run-waits name a b events r r' room starts no_stop e =
    let n = length r.pool.services in
    let noted = note_run "SERVICE_POOL_STARTING" "Services are starting..." r in
    let made = record noted {
      pool = record noted.pool { stop_complete = 0; pool_stopping = false };
    } in
    let (at, told, signals) = gather-gathering n made (omega (arith, starts)) in
    let first = on_service_state_change name a running none (begin_run r).pool in
    let both = on_service_state_change name b running none first in
    let one : both.startup_complete ≤ 1 = on_service_state_change-room name b none first (
      on_service_state_change-room name a none (begin_run r).pool (omega (arith, room, signals))) in
    let (same, still) =
      run_pool-waits name events (record (begin_run r) { pool = both }) r' n at
        (omega (arith, one, starts)) no_stop e in
    (same ∙ told, still)
