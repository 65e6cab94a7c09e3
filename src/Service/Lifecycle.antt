-- ===== src/Service/Lifecycle.antt =====
-- service/lifecycle.go and service/lifecycle_impl.go: the life of one service.

pub mod Announced
pub mod Mutex
use Prim.Native.String.{◌++◌ as str_append}
use libcontainerssh.Common.{
  ℕ, if◌then◌else◌, String, Bool, true, false, List, [], ◌∷◌, ◌++◌, map, Option, none, some,
}

pub data State : Type 0 where
  stopped starting running stopping crashed : State

-- A hook by its place in the list that it was added to, with what it is told.
pub data HookCall : Type 0 where
  state_change : ℕ → State → HookCall
  on_starting on_running on_stopped : ℕ → HookCall
  on_stopping : ℕ → Option ℕ → HookCall
  on_crashed : ℕ → String → HookCall

-- The context of a wait: there is none, it is open, or it is cancelled.
pub data WaitContext : Type 0 where
  no_context open_context cancelled : WaitContext

-- `locked` says that the mutex is held by a call that has returned. A context is known by a number, the
-- background context by `none`. Hooks are the ids that were added, and `calls` the calls of hooks,
-- oldest first; those of one list are made at the same time, and all have returned before the next.
pub record Lifecycle : Type 0 where
  pub state : State
  pub locked : Bool
  pub run_cancelled : Bool
  pub shutdown_context : Option ℕ
  pub last_error : Option String
  pub wait_context : WaitContext
  pub state_hooks : List ℕ
  pub starting_hooks : List ℕ
  pub running_hooks : List ℕ
  pub stopping_hooks : List ℕ
  pub stopped_hooks : List ℕ
  pub crashed_hooks : List ℕ
  pub calls : List HookCall

-- A call returns, or waits for ever on the mutex or for the service.
pub data Outcome {ℓ} (A : Type ℓ) : Type ℓ where
  returns : A → Outcome A
  blocks : Outcome A

infixl 5 ◌>>=◌
abbrev pub ◌>>=◌ {ℓ κ} : {A : Type ℓ} {B : Type κ} → Outcome A → (A → Outcome B) → Outcome B
returns a >>= f = f a
blocks >>= f = blocks

-- `l.mutex.Lock()`.
abbrev pub with_lock {ℓ} : {A : Type ℓ} → Lifecycle → Outcome A → Outcome A
with_lock l rest = if l.locked then blocks else rest

unfoldable pub new_lifecycle : Lifecycle
new_lifecycle = record {
  state = stopped;
  locked = false;
  run_cancelled = false;
  shutdown_context = none;
  last_error = none;
  wait_context = no_context;
  state_hooks = [];
  starting_hooks = [];
  running_hooks = [];
  stopping_hooks = [];
  stopped_hooks = [];
  crashed_hooks = [];
  calls = [];
}

abbrev pub call_all : List HookCall → Lifecycle → Lifecycle
call_all hooks l = record l { calls = l.calls ++ hooks }

-- The lists of hooks, and `OnStateChange` and its siblings, which add to one of them.
pub data HookList : Type 0 where
  state_list starting_list running_list stopping_list stopped_list crashed_list : HookList

with_hook : HookList → ℕ → Lifecycle → Lifecycle
with_hook state_list hook l = record l { state_hooks = l.state_hooks ++ (hook ∷ []) }
with_hook starting_list hook l = record l { starting_hooks = l.starting_hooks ++ (hook ∷ []) }
with_hook running_list hook l = record l { running_hooks = l.running_hooks ++ (hook ∷ []) }
with_hook stopping_list hook l = record l { stopping_hooks = l.stopping_hooks ++ (hook ∷ []) }
with_hook stopped_list hook l = record l { stopped_hooks = l.stopped_hooks ++ (hook ∷ []) }
with_hook crashed_list hook l = record l { crashed_hooks = l.crashed_hooks ++ (hook ∷ []) }

unfoldable pub add_hook : HookList → ℕ → Lifecycle → Outcome Lifecycle
unfolding with_hook
add_hook list hook l = with_lock l (returns (with_hook list hook l))

-- `stateChange`, and then the hooks of the state.
abbrev pub enter : State → List HookCall → Lifecycle → Lifecycle
enter state hooks l =
    call_all hooks
      (call_all (map (λ hook. state_change hook state) l.state_hooks) (record l { state = state }))

unfoldable pub begin_starting : Lifecycle → Outcome Lifecycle
begin_starting l = with_lock l (returns (enter starting (map on_starting l.starting_hooks) l))

unfoldable pub begin_running : Lifecycle → Outcome Lifecycle
begin_running l = with_lock l (returns (enter running (map on_running l.running_hooks) l))

-- A shutdown context of nil becomes the background context, so `none` stands for both.
unfoldable pub begin_stopping : Lifecycle → Outcome (Option ℕ × Lifecycle)
begin_stopping l = with_lock l (
    returns (
      l.shutdown_context,
      enter stopping (map (λ hook. on_stopping hook l.shutdown_context) l.stopping_hooks) l,
    ))

unfoldable pub end_stopped : Lifecycle → Outcome Lifecycle
end_stopped l = with_lock l (returns (enter stopped (map on_stopped l.stopped_hooks) l))

unfoldable pub end_crashed : String → Lifecycle → Outcome Lifecycle
end_crashed err l = with_lock l (
    returns (
      enter crashed (map (λ hook. on_crashed hook err) l.crashed_hooks)
        (record l { last_error = some err })))

unfoldable pub should_stop : Lifecycle → Outcome Bool
should_stop l = with_lock l (returns l.run_cancelled)

-- Where the wait context is open the call waits until the service has ended. In the states CRASHED
-- and STOPPED the call returns with the mutex held.
unfoldable pub wait : Lifecycle → Outcome (Option String × Lifecycle)
wait l = with_lock l (elim l.state [
  | crashed ↦ returns (l.last_error, record l { locked = true })
  | stopped ↦ returns (none, record l { locked = true })
  | _ ↦ elim l.wait_context [ open_context ↦ blocks | _ ↦ returns (l.last_error, l) ]
])

abbrev is_ending : State → Bool
is_ending stopping = true
is_ending stopped = true
is_ending crashed = true
is_ending _ = false

-- The first part of `Stop`, up to the wait; the answer says whether it goes on to wait.
unfoldable pub signal_stop : Option ℕ → Lifecycle → Outcome (Bool × Lifecycle)
signal_stop context l = with_lock l (
    if is_ending l.state
    then returns (false, l)
    else returns (true, record l { shutdown_context = context; run_cancelled = true }))

-- How the service's own function ends.
pub data ServiceEnd : Type 0 where
  finishes : ServiceEnd
  fails : String → ServiceEnd
  panics : String → ServiceEnd

-- What a service does while it runs: it calls its hook triggers, and others may ask it to stop.
pub data ServiceCall : Type 0 where
  calls_running calls_stopping : ServiceCall
  is_stopped : Option ℕ → ServiceCall

abbrev pub service_call : ServiceCall → Lifecycle → Outcome Lifecycle
service_call calls_running l = begin_running l
service_call calls_stopping l = begin_stopping l >>= λ answer. returns answer.1
service_call (is_stopped context) l = signal_stop context l >>= λ answer. returns answer.1

unfoldable pub service_calls : List ServiceCall → Lifecycle → Outcome Lifecycle
unfolding begin_running begin_stopping signal_stop
service_calls [] l = returns l
service_calls (c ∷ cs) l = service_call c l >>= service_calls cs

-- `l.cancelWaitContext()`, with which the deferred function of `Run` ends, and the answer.
abbrev pub release : Option String → Lifecycle → Outcome (Option String × Lifecycle)
release answer l = returns (answer, record l { wait_context = cancelled })

-- The end of `Run`: a panic is caught, and then the answer is nil.
unfoldable pub finish : ServiceEnd → Lifecycle → Outcome (Option String × Lifecycle)
unfolding end_stopped end_crashed
finish finishes l = end_stopped l >>= release none
finish (fails err) l = end_crashed err l >>= release (some err)
finish (panics text) l =
    end_crashed (str_append "service paniced (" (str_append text ")")) l >>= release none

unfoldable pub run : List ServiceCall → ServiceEnd → Lifecycle → Outcome (Option String × Lifecycle)
unfolding begin_starting service_calls finish
run cs end l =
    begin_starting (record l { last_error = none; wait_context = open_context })
    >>= service_calls cs
    >>= finish end
