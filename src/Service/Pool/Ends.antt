-- ===== src/Service/Pool/Ends.antt =====
-- service/pool_impl.go: when the run of a pool ends.
use mathlib.Core.Option.{some_inj}
use libcontainerssh.Common.{
  ℕ, zero, suc, ◌+◌, ◌-◌, ◌≤◌, ◌<◌, ◌≡◌, refl, ap, subst, ◌∙◌, String, List, [], ◌∷◌, Option, none,
  some, arith, length,
}
use libcontainerssh.Service.Lifecycle.{State, stopped, starting, running, stopping, crashed}
use libcontainerssh.Service.Pool.{
  note_pool, trigger_stop, signal_startup, signal_end, announce, on_service_state_change, Phase,
  gathering, serving, draining, finished, PoolRun, note_run, tell, gather, drain, initiate_stop,
  PoolEvent, change, take_startup, take_stop, shut_down, on_startup, on_stop, on_shut_down, receive,
  pool_step, bind_run, run_pool, begin_run,
}

abbrev pub is_stop : PoolEvent → ℕ
is_stop take_stop = 1
is_stop _ = 0

-- A service says that it has stopped or crashed.
abbrev pub is_end : PoolEvent → ℕ
is_end (change s stopped err) = 1
is_end (change s crashed err) = 1
is_end _ = 0

-- A service says that it is running.
abbrev pub is_start : PoolEvent → ℕ
is_start (change s running err) = 1
is_start _ = 0

unfoldable pub count_events : (PoolEvent → ℕ) → List PoolEvent → ℕ
count_events kind [] = 0
count_events kind (event ∷ events) = kind event + count_events kind events

-- How many stops the run has still to take.
abbrev owed : ℕ → Phase → ℕ
owed n (draining left) = left
owed n finished = 0
owed n _ = n

gather-owed : (n left : ℕ) (r : PoolRun) → owed n (gather left r).phase ≡ n
unfolding gather note_run tell
gather-owed n zero r = refl
gather-owed n (suc left) r = refl

drain-owed : (n left : ℕ) (r : PoolRun) → owed n (drain left r).phase ≡ left
unfolding drain note_run
drain-owed n zero r = refl
drain-owed n (suc left) r = refl

-- The parts of a pool that the number of services and of stops depend on.
abbrev parts : PoolRun → List ℕ × ℕ
parts r = (r.pool.services, r.pool.stop_complete)

gather-parts : (left : ℕ) (r : PoolRun) → parts (gather left r) ≡ parts r
unfolding gather note_run tell note_pool
gather-parts zero r = refl
gather-parts (suc left) r = refl

drain-parts : (left : ℕ) (r : PoolRun) → parts (drain left r) ≡ parts r
unfolding drain note_run note_pool
drain-parts zero r = refl
drain-parts (suc left) r = refl

initiate_stop-parts : (r : PoolRun) → parts (initiate_stop r) ≡ parts r
unfolding initiate_stop note_run note_pool tell trigger_stop
initiate_stop-parts r = ground arith

-- What an event does to the numbers of services, of signals, and of the stops that are owed.
abbrev Counts : ℕ → PoolRun → ℕ → ℕ → PoolRun → Type 0
Counts n r ends stops r' =
    (r'.pool.services ≡ r.pool.services)
    × (r'.pool.stop_complete + stops ≤ r.pool.stop_complete + ends)
    × (stops + owed n r'.phase ≡ owed n r.phase)

on_service_state_change-Counts :
    (name : ℕ → String) (s : ℕ) (state : State) (err : Option String) (n : ℕ) (r : PoolRun)
    → Counts n r
        (is_end (change s state err))
        0
        (record r { pool = on_service_state_change name s state err r.pool })
unfolding on_service_state_change announce note_pool signal_startup signal_end trigger_stop
on_service_state_change-Counts name s stopped err n r = ground arith
on_service_state_change-Counts name s starting err n r = ground arith
on_service_state_change-Counts name s running err n r = ground arith
on_service_state_change-Counts name s stopping err n r = ground arith
on_service_state_change-Counts name s crashed err n r = ground arith

on_startup-Counts :
    (phase : Phase) (n : ℕ) (r r' : PoolRun)
    → on_startup phase r ≡ some r'
    → (parts r' ≡ parts r) × (owed n r'.phase ≡ owed n phase)
unfolding on_startup
on_startup-Counts (gathering (suc left)) n r r' e =
    subst (λ q. (parts q ≡ parts r) × (owed n q.phase ≡ n)) (some_inj.0 e)
      (gather-parts left r, gather-owed n left r)
on_startup-Counts (gathering zero) n r r' e = cc
on_startup-Counts serving n r r' e = cc
on_startup-Counts (draining left) n r r' e = cc
on_startup-Counts finished n r r' e = cc

on_stop-Counts :
    (phase : Phase) (n : ℕ) (r r' : PoolRun)
    → length r.pool.services ≡ n
    → 0 < n
    → on_stop phase r ≡ some r'
    → (parts r' ≡ parts r) × (1 + owed n r'.phase ≡ owed n phase)
unfolding on_stop note_run note_pool
on_stop-Counts (gathering left) n r r' size some_service e =
    let goes = initiate_stop r in
    subst (λ q. (parts q ≡ parts r) × (1 + owed n q.phase ≡ n)) (some_inj.0 e)
      (
        drain-parts (length r.pool.services - 1) goes ∙ initiate_stop-parts r,
        omega (arith, drain-owed n (length r.pool.services - 1) goes, size, some_service),
      )
on_stop-Counts serving n r r' size some_service e =
    let goes = note_run "SERVICE_POOL_STOPPING" "Services are now stopping..." r in
    subst (λ q. (parts q ≡ parts r) × (1 + owed n q.phase ≡ n)) (some_inj.0 e)
      (
        drain-parts (length r.pool.services - 1) goes,
        omega (arith, drain-owed n (length r.pool.services - 1) goes, size, some_service),
      )
on_stop-Counts (draining (suc left)) n r r' size some_service e =
    subst (λ q. (parts q ≡ parts r) × (1 + owed n q.phase ≡ suc left)) (some_inj.0 e)
      (drain-parts left r, omega (arith, drain-owed n left r))
on_stop-Counts (draining zero) n r r' size some_service e = cc
on_stop-Counts finished n r r' size some_service e = cc

on_shut_down-Counts :
    (phase : Phase) (n : ℕ) (r r' : PoolRun)
    → length r.pool.services ≡ n
    → on_shut_down phase r ≡ some r'
    → (parts r' ≡ parts r) × (owed n r'.phase ≡ owed n phase)
unfolding on_shut_down
on_shut_down-Counts serving n r r' size e =
    let goes = initiate_stop r in
    subst (λ q. (parts q ≡ parts r) × (owed n q.phase ≡ n)) (some_inj.0 e)
      (
        drain-parts (length r.pool.services) goes ∙ initiate_stop-parts r,
        drain-owed n (length r.pool.services) goes ∙ size,
      )
on_shut_down-Counts (gathering left) n r r' size e = cc
on_shut_down-Counts (draining left) n r r' size e = cc
on_shut_down-Counts finished n r r' size e = cc

-- What a signal is taken for.
pub receive-from :
    (signals : ℕ) (next : ℕ → Option PoolRun) (r' : PoolRun)
    → receive signals next ≡ some r'
    → (left : ℕ) × (signals ≡ suc left) × (next left ≡ some r')
receive-from zero next r' e = cc
receive-from (suc left) next r' e = (left, refl, e)

pool_step-Counts :
    (name : ℕ → String) (event : PoolEvent) (n : ℕ) (r r' : PoolRun)
    → length r.pool.services ≡ n
    → 0 < n
    → pool_step name event r ≡ some r'
    → Counts n r (is_end event) (is_stop event) r'
unfolding pool_step
pool_step-Counts name (change s state err) n r r' size some_service e =
    subst (Counts n r (is_end (change s state err)) 0) (some_inj.0 e)
      (on_service_state_change-Counts name s state err n r)
pool_step-Counts name take_startup n r r' size some_service e =
    let (left, there, went) = receive-from r.pool.startup_complete _ r' e in
    let (same, still) = on_startup-Counts r.phase n _ r' went in
    (ap (λ v. v.0) same, omega (arith, ap (λ v. v.1) same), omega (arith, still))
pool_step-Counts name take_stop n r r' size some_service e =
    let (left, there, went) = receive-from r.pool.stop_complete _ r' e in
    let (same, less) = on_stop-Counts r.phase n _ r' size some_service went in
    (ap (λ v. v.0) same, omega (arith, ap (λ v. v.1) same, there), less)
pool_step-Counts name shut_down n r r' size some_service e =
    let (same, still) = on_shut_down-Counts r.phase n r r' size e in
    (ap (λ v. v.0) same, omega (arith, ap (λ v. v.1) same), omega (arith, still))

pub bind_run-from :
    (first : Option PoolRun) (next : PoolRun → Option PoolRun) (r' : PoolRun)
    → bind_run first next ≡ some r'
    → (r : PoolRun) × (first ≡ some r) × (next r ≡ some r')
bind_run-from none next r' e = cc
bind_run-from (some r) next r' e = (r, refl, e)

run_pool-Counts :
    (name : ℕ → String) (events : List PoolEvent) (n : ℕ) (r r' : PoolRun)
    → length r.pool.services ≡ n
    → 0 < n
    → run_pool name events r ≡ some r'
    → Counts n r (count_events is_end events) (count_events is_stop events) r'
unfolding run_pool count_events
run_pool-Counts name [] n r r' size some_service e =
    subst (Counts n r 0 0) (some_inj.0 e) (refl, omega arith, omega arith)
run_pool-Counts name (event ∷ events) n r r' size some_service e =
    let (next, stepped, rest) = bind_run-from (pool_step name event r) _ r' e in
    let (same, signals, owes) = pool_step-Counts name event n r next size some_service stepped in
    let (later, more, ends) =
      run_pool-Counts name events n next r' (ap length same ∙ size) some_service rest in
    (later ∙ same, omega (arith, signals, more), omega (arith, owes, ends))

begin_run-parts :
    (n : ℕ) (r : PoolRun)
    → (parts (begin_run r) ≡ (r.pool.services, 0)) × (owed n (begin_run r).phase ≡ n)
unfolding begin_run note_run note_pool
begin_run-parts n r =
    (gather-parts (length r.pool.services) _, gather-owed n (length r.pool.services) _)

-- Whatever the order of the signals, the run of a pool with services returns only when it has taken
-- one stop for each of them, and then at least as many times a service has said that it has stopped
-- or crashed.
pub begin_run-ends :
    (name : ℕ → String) (events : List PoolEvent) (r r' : PoolRun)
    → 0 < length r.pool.services
    → run_pool name events (begin_run r) ≡ some r'
    → r'.phase ≡ finished
    → (count_events is_stop events ≡ length r.pool.services)
      × (length r.pool.services ≤ count_events is_end events)
begin_run-ends name events r r' some_service e over =
    let n = length r.pool.services in
    let (start, owes) = begin_run-parts n r in
    let (same, signals, ends) =
      run_pool-Counts name events n (begin_run r) r' (ap (λ v. length v.0) start) some_service e in
    (
      omega (arith, ends, owes, ap (owed n) over),
      omega (arith, ends, owes, ap (owed n) over, signals, ap (λ v. v.1) start),
    )
