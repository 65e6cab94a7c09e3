-- ===== src/Service/Pool.antt =====
-- service/pool_impl.go and service/pool_factory.go: services that start and stop together. The services
-- are told of by their lifecycles (`onServiceStateChange`), and the pool itself takes what they signal
-- from two channels (`RunWithLifecycle`).

pub mod Ends
pub mod Startup
mod Examples
use Prim.Native.String.{◌++◌ as str_append}
use libcontainerssh.Common.{
  ℕ, zero, suc, ◌+◌, ◌-◌, ◌==◌, if◌then◌else◌, String, Bool, true, false, List, [], ◌∷◌, ◌++◌,
  Option, none, some, length,
}
use libcontainerssh.Message.{Message, Level, info, error, Log, new_message, label, write_log}
use libcontainerssh.Service.Lifecycle.{State, stopped, starting, running, stopping, crashed}

-- The services are numbers. The channels are the number of the signals in them: `startup_complete`
-- has room for one, and `stop_complete` for one of each service. `stop_requests` are the services
-- that the pool has asked to stop.
pub record Pool : Type 0 where
  pub services : List ℕ
  pub service_states : List (ℕ × State)
  pub startup_complete : ℕ
  pub stop_complete : ℕ
  pub pool_stopping : Bool
  pub stop_requests : List ℕ
  pub last_error : Option String
  pub log : Log

abbrev pub same_state : State → State → Bool
same_state stopped stopped = true
same_state starting starting = true
same_state running running = true
same_state stopping stopping = true
same_state crashed crashed = true
same_state _ _ = false

-- Every service has an entry, which `Add` has made.
unfoldable pub state_of : ℕ → List (ℕ × State) → State
state_of s [] = stopped
state_of s ((t, state) ∷ states) = if t == s then state else state_of s states

unfoldable pub set_state : ℕ → State → List (ℕ × State) → List (ℕ × State)
set_state s state [] = (s, state) ∷ []
set_state s state ((t, old) ∷ states) =
    if t == s then (s, state) ∷ states else (t, old) ∷ set_state s state states

unfoldable pub note_pool : Level → Message → Pool → Pool
note_pool level m p = record p { log = write_log level m p.log }

-- Up to the wait for the services.
unfoldable pub trigger_stop : Pool → Pool
trigger_stop p =
    if p.pool_stopping
    then p
    else record p { pool_stopping = true; stop_requests = p.stop_requests ++ p.services }

-- A signal is lost where there is no room for it.
unfoldable pub signal_startup : Pool → Pool
signal_startup p = record p { startup_complete = 1 }

unfoldable pub signal_end : Pool → Pool
unfolding trigger_stop
signal_end p =
    let asked = trigger_stop p in record asked { stop_complete = asked.stop_complete + 1 }

module _ (name : ℕ → String) where
  unfoldable pub service_message : String → String → ℕ → Message
  unfolding new_message label
  service_message code text s =
      label "service" (name s) (new_message code (str_append (name s) text))

  -- What follows a new state; a crashed service has its error.
  unfoldable pub announce : ℕ → State → Option String → Pool → Pool
  unfolding note_pool service_message signal_startup trigger_stop signal_end
  announce s starting err p =
      note_pool info (service_message "SERVICE_STARTING" " is starting..." s) p
  announce s running err p =
      signal_startup (note_pool info (service_message "SERVICE_RUNNING" " is running." s) p)
  announce s stopping err p =
      trigger_stop (note_pool info (service_message "SERVICE_STOPPING" " is stopping..." s) p)
  announce s stopped err p =
      signal_end (note_pool info (service_message "SERVICE_STOPPED" " has stopped." s) p)
  announce s crashed err p =
      let noted = note_pool error (service_message "SERVICE_CRASHED" " has crashed." s) p in
      signal_end (record noted { last_error = err })

  unfoldable pub on_service_state_change : ℕ → State → Option String → Pool → Pool
  unfolding announce state_of set_state
  on_service_state_change s new_state err p =
      let changed = record p { service_states = set_state s new_state p.service_states } in
      if same_state (state_of s p.service_states) new_state
      then changed
      else announce s new_state err changed

-- Where `RunWithLifecycle` is: it waits for so many services to start, for a stop, or for so many
-- services to stop; or it has returned.
pub data Phase : Type 0 where
  gathering : ℕ → Phase
  serving : Phase
  draining : ℕ → Phase
  finished : Phase

-- The pool, where its run is, and the states that it has told its own lifecycle.
pub record PoolRun : Type 0 where
  pub pool : Pool
  pub phase : Phase
  pub told : List State

unfoldable pub note_run : String → String → PoolRun → PoolRun
unfolding note_pool new_message
note_run code text r = record r { pool = note_pool info (new_message code text) r.pool }

unfoldable pub tell : State → PoolRun → PoolRun
tell state r = record r { told = r.told ++ (state ∷ []) }

unfoldable pub gather : ℕ → PoolRun → PoolRun
unfolding note_run tell
gather zero r =
    tell running (
      note_run "SERVICE_POOL_RUNNING" "All services are now running."
        (record r { phase = serving }))
gather (suc left) r = record r { phase = gathering (suc left) }

unfoldable pub drain : ℕ → PoolRun → PoolRun
unfolding note_run
drain zero r =
    note_run "SERVICE_POOL_STOPPED" "All services have stopped." (record r { phase = finished })
drain (suc left) r = record r { phase = draining (suc left) }

unfoldable pub initiate_stop : PoolRun → PoolRun
unfolding note_run tell trigger_stop
initiate_stop r =
    let noted = tell stopping (note_run "SERVICE_POOL_STOPPING" "Services are now stopping..." r) in
    record noted { pool = trigger_stop noted.pool }

-- The signals that a select of the run may take, and the changes of a service.
pub data PoolEvent : Type 0 where
  change : ℕ → State → Option String → PoolEvent
  take_startup take_stop shut_down : PoolEvent

unfoldable pub on_startup : Phase → PoolRun → Option PoolRun
unfolding gather
on_startup (gathering (suc left)) r = some (gather left r)
on_startup _ r = none

unfoldable pub on_stop : Phase → PoolRun → Option PoolRun
unfolding drain initiate_stop note_run
on_stop (gathering left) r = some (drain (length r.pool.services - 1) (initiate_stop r))
on_stop serving r = some (
    drain (length r.pool.services - 1)
      (note_run "SERVICE_POOL_STOPPING" "Services are now stopping..." r))
on_stop (draining (suc left)) r = some (drain left r)
on_stop _ r = none

unfoldable pub on_shut_down : Phase → PoolRun → Option PoolRun
unfolding drain initiate_stop
on_shut_down serving r = some (drain (length r.pool.services) (initiate_stop r))
on_shut_down _ r = none

-- A signal is taken out of its channel, if there is one.
abbrev pub receive : ℕ → (ℕ → Option PoolRun) → Option PoolRun
receive zero next = none
receive (suc signals) next = next signals

-- What an event leads to; `none` says that it cannot happen.
unfoldable pub pool_step : (ℕ → String) → PoolEvent → PoolRun → Option PoolRun
unfolding on_service_state_change on_startup on_stop on_shut_down
pool_step name (change s state err) r =
    some (record r { pool = on_service_state_change name s state err r.pool })
pool_step name take_startup r =
    receive r.pool.startup_complete
      (λ left. on_startup r.phase (record r { pool = record r.pool { startup_complete = left } }))
pool_step name take_stop r =
    receive r.pool.stop_complete
      (λ left. on_stop r.phase (record r { pool = record r.pool { stop_complete = left } }))
pool_step name shut_down r = on_shut_down r.phase r

abbrev pub bind_run : Option PoolRun → (PoolRun → Option PoolRun) → Option PoolRun
bind_run none next = none
bind_run (some r) next = next r

unfoldable pub run_pool : (ℕ → String) → List PoolEvent → PoolRun → Option PoolRun
unfolding pool_step
run_pool name [] r = some r
run_pool name (event ∷ events) r = bind_run (pool_step name event r) (λ r'. run_pool name events r')

-- The start of `RunWithLifecycle`: a new channel for the stops, and the wait for the services.
unfoldable pub begin_run : PoolRun → PoolRun
unfolding note_run gather
begin_run r =
    let noted = note_run "SERVICE_POOL_STARTING" "Services are starting..." r in
    gather (length r.pool.services)
      (record noted { pool = record noted.pool { stop_complete = 0; pool_stopping = false } })
