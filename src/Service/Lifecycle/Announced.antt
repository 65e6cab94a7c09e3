-- ===== src/Service/Lifecycle/Announced.antt =====
-- service/lifecycle_impl.go: how a run of a service ends, and which states it announces.
use Prim.Native.String.{◌++◌ as str_append}
use mathlib.Core.List.{append_assoc, append-nil}
use libcontainerssh.Common.{
  ℕ, ◌≡◌, refl, sym, ap, subst, ◌∙◌, String, false, List, [], ◌∷◌, ◌++◌, map, Option, none, some,
  arith,
}
use libcontainerssh.Service.Lifecycle.{
  State, stopped, starting, running, stopping, crashed, HookCall, state_change, Lifecycle, Outcome,
  returns, blocks, ◌>>=◌, ServiceEnd, finishes, fails, panics, ServiceCall, calls_running,
  calls_stopping, is_stopped, service_call, service_calls, begin_starting, begin_running,
  begin_stopping, signal_stop, release, finish, run, cancelled, open_context, end_crashed, enter,
  on_starting, on_running, on_stopping, on_stopped, on_crashed,
}

-- The states that the hooks for state changes are told, oldest first.
abbrev pub announced : List HookCall → List State
announced [] = []
announced (state_change hook s ∷ calls) = s ∷ announced calls
announced (_ ∷ calls) = announced calls

-- The states that a service's calls announce.
abbrev pub states_of : List ServiceCall → List State
states_of [] = []
states_of (calls_running ∷ cs) = running ∷ states_of cs
states_of (calls_stopping ∷ cs) = stopping ∷ states_of cs
states_of (is_stopped context ∷ cs) = states_of cs

abbrev pub end_state : ServiceEnd → State
end_state finishes = stopped
end_state _ = crashed

-- What `Run` answers, and the error that is kept.
abbrev pub answer_of : ServiceEnd → Option String
answer_of finishes = none
answer_of (fails err) = some err
answer_of (panics text) = none

abbrev pub error_of : ServiceEnd → Option String
error_of finishes = none
error_of (fails err) = some err
error_of (panics text) = some (str_append "service paniced (" (str_append text ")"))

announced-append : (xs ys : List HookCall) → announced (xs ++ ys) ≡ announced xs ++ announced ys
announced-append [] ys = refl
announced-append (state_change hook s ∷ xs) ys = ap (◌∷◌ s) (announced-append xs ys)
announced-append (_ ∷ xs) ys = announced-append xs ys

-- The hooks of a state are told no state.
announced-map :
    (f : ℕ → HookCall) (hooks : List ℕ)
    → ((hook : ℕ) → announced (f hook ∷ []) ≡ [])
    → announced (map f hooks) ≡ []
announced-map f [] quiet = refl
announced-map f (hook ∷ hooks) quiet =
    announced-append (f hook ∷ []) (map f hooks)
    ∙ ap (λ ss. ss ++ announced (map f hooks)) (quiet hook)
    ∙ announced-map f hooks quiet

announced-enter :
    (state : State) (hooks : List HookCall) (l : Lifecycle) (hook : ℕ)
    → announced hooks ≡ []
    → l.state_hooks ≡ hook ∷ []
    → announced (enter state hooks l).calls ≡ announced l.calls ++ (state ∷ [])
announced-enter state hooks l hook quiet one =
    rw (one, announced-append, quiet, append-nil)
      (announced-append l.calls (state_change hook state ∷ []))

-- A return to a lifecycle with one hook for state changes, a free mutex and no error, where the
-- announced states are those that are given.
abbrev Announces : ℕ → List State → Outcome Lifecycle → Type 0
Announces hook ss (returns l) =
    (l.locked ≡ false)
    × (l.state_hooks ≡ hook ∷ [])
    × (l.last_error ≡ none)
    × (announced l.calls ≡ ss)
Announces hook ss blocks = ⊥

module _ (hook : ℕ) (l : Lifecycle) (free : l.locked ≡ false) (one : l.state_hooks ≡ hook ∷ [])
    (fine : l.last_error ≡ none) where
  service_call-Announces :
      (c : ServiceCall)
      → Announces hook (announced l.calls ++ states_of (c ∷ [])) (service_call c l)
  unfolding begin_running begin_stopping signal_stop
  service_call-Announces calls_running = ground (
    arith,
    announced-map on_running l.running_hooks (λ h. refl),
    announced-enter running (map on_running l.running_hooks) l hook,
  )
  service_call-Announces calls_stopping = ground (
    arith,
    announced-map (λ h. on_stopping h l.shutdown_context) l.stopping_hooks (λ h. refl),
    announced-enter stopping (map (λ h. on_stopping h l.shutdown_context) l.stopping_hooks) l hook,
  )
  service_call-Announces (is_stopped context) = ground (arith, append-nil (announced l.calls))

Announces-bind :
    (hook : ℕ) (ss ts : List State) (o : Outcome Lifecycle) (f : Lifecycle → Outcome Lifecycle)
    → Announces hook ss o
    → ((l : Lifecycle) → Announces hook ss (returns l) → Announces hook ts (f l))
    → Announces hook ts (o >>= f)
Announces-bind hook ss ts (returns l) f h rest = rest l h
Announces-bind hook ss ts blocks f h rest = elim h [ ]

states_of-cons :
    (c : ServiceCall) (cs : List ServiceCall)
    → states_of (c ∷ []) ++ states_of cs ≡ states_of (c ∷ cs)
states_of-cons calls_running cs = refl
states_of-cons calls_stopping cs = refl
states_of-cons (is_stopped context) cs = refl

service_calls-Announces :
    (hook : ℕ) (cs : List ServiceCall) (ss : List State) (l : Lifecycle)
    → Announces hook ss (returns l)
    → Announces hook (ss ++ states_of cs) (service_calls cs l)
unfolding service_calls
service_calls-Announces hook [] ss l (free, one, fine, e) =
    (free, one, fine, e ∙ sym (append-nil ss))
service_calls-Announces hook (c ∷ cs) ss l (free, one, fine, e) =
    let first =
      subst (λ xs. Announces hook (xs ++ states_of (c ∷ [])) (service_call c l)) e
        (service_call-Announces hook l free one fine c) in
    Announces-bind hook (ss ++ states_of (c ∷ [])) (ss ++ states_of (c ∷ cs)) (service_call c l)
      (service_calls cs) first
      (λ l' h.
        subst (λ xs. Announces hook xs (service_calls cs l'))
          (append_assoc ss (states_of (c ∷ [])) (states_of cs)
            ∙ ap (λ xs. ss ++ xs) (states_of-cons c cs))
          (service_calls-Announces hook cs (ss ++ states_of (c ∷ [])) l' h))

begin_starting-Announces :
    (hook : ℕ) (l : Lifecycle)
    → l.locked ≡ false
    → l.state_hooks ≡ hook ∷ []
    → l.last_error ≡ none
    → Announces hook (announced l.calls ++ (starting ∷ [])) (begin_starting l)
unfolding begin_starting
begin_starting-Announces hook l free one fine = ground (
  arith,
  announced-map on_starting l.starting_hooks (λ h. refl),
  announced-enter starting (map on_starting l.starting_hooks) l hook,
)

-- A run that is over, as the result that is given.
abbrev Ends : ServiceEnd → List State → Outcome (Option String × Lifecycle) → Type 0
Ends end ss o =
    (l : Lifecycle) × (o ≡ returns (answer_of end, l))
    × (l.state ≡ end_state end)
    × (l.last_error ≡ error_of end)
    × (l.wait_context ≡ cancelled)
    × (l.locked ≡ false)
    × (announced l.calls ≡ ss)

crash-Ends :
    (hook : ℕ) (err : String) (answer : Option String) (ss : List State) (l : Lifecycle)
    → Announces hook ss (returns l)
    → (l'' : Lifecycle) × ((end_crashed err l >>= release answer) ≡ returns (answer, l''))
      × (l''.state ≡ crashed)
      × (l''.last_error ≡ some err)
      × (l''.wait_context ≡ cancelled)
      × (l''.locked ≡ false)
      × (announced l''.calls ≡ ss ++ (crashed ∷ []))
unfolding end_crashed
crash-Ends hook err answer ss l (free, one, fine, e) = (
  record (enter crashed (map (λ h. on_crashed h err) l.crashed_hooks)
      (record l { last_error = some err })) { wait_context = cancelled },
  ground arith,
  refl,
  refl,
  refl,
  free,
  announced-enter crashed (map (λ h. on_crashed h err) l.crashed_hooks)
        (record l { last_error = some err }) hook
        (announced-map (λ h. on_crashed h err) l.crashed_hooks (λ h. refl)) one
      ∙ ap (λ xs. xs ++ (crashed ∷ [])) e,
)

finish-Ends :
    (hook : ℕ) (end : ServiceEnd) (ss : List State) (l : Lifecycle)
    → Announces hook ss (returns l)
    → Ends end (ss ++ (end_state end ∷ [])) (finish end l)
unfolding finish
finish-Ends hook finishes ss l (free, one, fine, e) = (
  record (enter stopped (map on_stopped l.stopped_hooks) l) { wait_context = cancelled },
  ground arith,
  refl,
  fine,
  refl,
  free,
  announced-enter stopped (map on_stopped l.stopped_hooks) l hook
        (announced-map on_stopped l.stopped_hooks (λ h. refl)) one
      ∙ ap (λ xs. xs ++ (stopped ∷ [])) e,
)
finish-Ends hook (fails err) ss l h = crash-Ends hook err (some err) ss l h
finish-Ends hook (panics text) ss l h =
    crash-Ends hook (str_append "service paniced (" (str_append text ")")) none ss l h

Ends-bind :
    (hook : ℕ) (end : ServiceEnd) (ss ts : List State) (o : Outcome Lifecycle)
    → Announces hook ss o
    → ss ++ (end_state end ∷ []) ≡ ts
    → Ends end ts (o >>= finish end)
Ends-bind hook end ss ts (returns l) h e =
    subst (λ xs. Ends end xs (finish end l)) e (finish-Ends hook end ss l h)
Ends-bind hook end ss ts blocks h e = elim h [ ]

-- A run of a service whose mutex is free returns, whatever the service does while it runs and however
-- it ends: with the service's error, and with nil also if it panics. The service is then stopped if
-- it has finished, else crashed, its error is kept, those that wait for it are released, and a hook
-- for state changes that is the only one has been told STARTING, the states that the service has
-- announced in their order, and the state of the end.
pub run_ends :
    (cs : List ServiceCall) (end : ServiceEnd) (l : Lifecycle) (hook : ℕ)
    → l.locked ≡ false
    → l.state_hooks ≡ hook ∷ []
    → (l' : Lifecycle) × (run cs end l ≡ returns (answer_of end, l'))
      × (l'.state ≡ end_state end)
      × (l'.last_error ≡ error_of end)
      × (l'.wait_context ≡ cancelled)
      × (l'.locked ≡ false)
      × (announced l'.calls
          ≡ announced l.calls ++ (starting ∷ (states_of cs ++ (end_state end ∷ []))))
unfolding run
run_ends cs end l hook free one =
    let begun = record l { last_error = none; wait_context = open_context } in
    let starts = begin_starting-Announces hook begun free one refl in
    Ends-bind hook end ((announced l.calls ++ (starting ∷ [])) ++ states_of cs)
      (announced l.calls ++ (starting ∷ (states_of cs ++ (end_state end ∷ []))))
      (begin_starting begun >>= service_calls cs)
      (Announces-bind hook (announced l.calls ++ (starting ∷ []))
        ((announced l.calls ++ (starting ∷ [])) ++ states_of cs) (begin_starting begun)
        (service_calls cs) starts
        (service_calls-Announces hook cs (announced l.calls ++ (starting ∷ []))))
      (append_assoc (announced l.calls ++ (starting ∷ [])) (states_of cs) (end_state end ∷ [])
        ∙ append_assoc (announced l.calls) (starting ∷ []) (states_of cs ++ (end_state end ∷ [])))
