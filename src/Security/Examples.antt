-- ===== src/Security/Examples.antt =====
-- internal/security: the theorems at concrete configurations and requests, and runs of the handlers.
use libcontainerssh.Common.{ℕ, ◌+◌, ◌≤◌, ◌≡◌, refl, pos, List, [], ◌∷◌, All, none, some, arith}
use mathlib.Core.List.{mem-cons_self, not-mem-nil}
use libcontainerssh.Message.{err_too_many_sessions}
use libcontainerssh.Security.Config.{
  unconfigured, enable, filter, disable, other, ForwardingConfig, SecurityConfig,
}
use libcontainerssh.Security.Backend.{
  Backend, World, SessionRequest, on_close, on_env, on_exec, on_subsystem, on_signal, forward,
}
use libcontainerssh.Security.Command.{original_command, on_exec_request, on_subsystem_request}
use libcontainerssh.Security.Policy.{contains}
use libcontainerssh.Security.Session.{on_env_request, on_signal_request, session_handler, serve}
use libcontainerssh.Security.Validate.{validate, validate_forwarding}
use libcontainerssh.Security.Rules.{IsAllowed, contains-ne-Mem}
use libcontainerssh.Security.Confinement.{serve-keeps}
use libcontainerssh.Security.Decisions.{IsRefused}
use libcontainerssh.Security.Documented.{permitted_is_served, unpermitted-IsRefused}
use libcontainerssh.Security.Forced.{by_exec, session_handler-forced, signal_mode_ignored}
use libcontainerssh.Security.Connection.{
  ConnectionBackend, Connection, channel, bare, done, refused, on_session_channel,
  on_tcp_forward_channel, connection_handler, call_backend, open_session,
}
use libcontainerssh.Security.Sessions.{
  Event, to_connection, to_session, run, grants, grants-le, open_session-full,
}
use libcontainerssh.Security.Forwarding.{
  tcp, refusal, connection_handler-decides, forwarding_unchecked,
}

abbrev shut : ForwardingConfig
shut = record {
  reverse_forwarding_mode = disable;
  forwarding_mode = disable;
  socket_forwarding_mode = disable;
  socket_listen_mode = disable;
  x11_forwarding_mode = disable;
}

-- Variables of one name and commands of one name are allowed, and two sessions.
abbrev strict : SecurityConfig
strict = record {
  default_mode = unconfigured;
  force_command = "";
  env = record { mode = filter; allow = "TERM" ∷ []; deny = [] };
  command = record { mode = filter; allow = "date" ∷ [] };
  shell = record { mode = disable };
  subsystem = record { mode = enable; allow = []; deny = "sftp" ∷ [] };
  forwarding = shut;
  tty = record { mode = unconfigured };
  signal = record { mode = enable; allow = []; deny = [] };
  max_sessions = pos 2;
}

abbrev forced : SecurityConfig
forced = record strict { force_command = "backup" }

-- A backend that takes everything and keeps what it was asked for, newest first.
abbrev recorder : Backend (List SessionRequest)
recorder request s = (none, request ∷ s)

abbrev idle : World (List SessionRequest)
idle = record { backend = []; log = [] }

abbrev mixed : List SessionRequest
mixed = on_env 1 "LD_PRELOAD" "x" ∷ on_exec 2 "date" ∷ on_subsystem 3 "sftp" ∷ on_close ∷ []

-- With the forced command the backend sees its own command, the variable, and the end.
forced_run :
    (serve forced recorder mixed idle).backend
    ≡ on_close ∷ on_exec 2 "backup" ∷ on_env 2 original_command "date" ∷ []
unfolding serve session_handler on_env_request on_exec_request on_subsystem_request
forced_run = refl

serve-keeps_example : All (IsAllowed forced) (serve forced recorder mixed idle).backend
unfolding validate
serve-keeps_example =
    serve-keeps forced recorder (All (IsAllowed forced)) (λ request s allowed p. (allowed, p)) mixed
      idle refl tt

permitted_is_served_example :
    session_handler strict recorder (on_exec 2 "date") idle
    ≡ forward recorder (on_exec 2 "date") idle
unfolding validate
permitted_is_served_example =
    permitted_is_served strict recorder (on_exec 2 "date") idle refl refl refl tt
      (mem-cons_self, (λ m. not-mem-nil m))

unpermitted-IsRefused_example :
    IsRefused "SECURITY_ENV_REJECTED" idle
      (session_handler strict recorder (on_env 1 "LD_PRELOAD" "x") idle)
unfolding validate contains
unpermitted-IsRefused_example =
    unpermitted-IsRefused strict recorder (on_env 1 "LD_PRELOAD" "x") idle refl
      (λ m. contains-ne-Mem ("TERM" ∷ []) "LD_PRELOAD" refl m.0)
      (λ d. contains-ne-Mem ("TERM" ∷ []) "LD_PRELOAD" refl d.0)

session_handler-forced_example :
    ((session_handler forced recorder (on_exec 2 "date") idle).0 ≡ none)
    × ((session_handler forced recorder (on_exec 2 "date") idle).1.backend
        ≡ on_exec 2 "backup" ∷ on_env 2 original_command "date" ∷ [])
unfolding validate
session_handler-forced_example =
    (session_handler-forced forced recorder 2 "date" idle by_exec refl (λ e. cc) mem-cons_self).0
      refl

signal_mode_ignored_example :
    session_handler
      (record strict { signal = record (strict.signal) { mode = disable } })
      recorder
      (on_signal 4 "KILL")
      idle
    ≡ session_handler strict recorder (on_signal 4 "KILL") idle
signal_mode_ignored_example = signal_mode_ignored strict recorder disable 4 "KILL" idle

-- So a signal is passed on although signals are disabled.
abbrev no_signals : SecurityConfig
no_signals = record strict {
  shell = record { mode = enable };
  signal = record { mode = disable; allow = []; deny = [] };
}

disabled_signal :
    (session_handler no_signals recorder (on_signal 4 "KILL") idle).1.backend
    ≡ on_signal 4 "KILL" ∷ []
unfolding session_handler on_signal_request
disabled_signal = refl

-- A backend that opens every channel, and counts them.
abbrev opener : ConnectionBackend ℕ
opener (on_session_channel id extra) s = (channel (bare id), s + 1)
opener request s = (done, s)

abbrev sink : ℕ → Backend ℕ
sink n request s = (none, s)

abbrev fresh : Connection ℕ
fresh = record { backend = 0; session_count = 0; log = [] }

abbrev visits : List Event
visits =
    to_connection (on_session_channel 1 [])
    ∷ to_session 1 on_close
    ∷ to_connection (on_session_channel 2 [])
    ∷ to_session 2 on_close
    ∷ to_connection (on_session_channel 3 [])
    ∷ []

grants-le_example : 0 + grants strict opener sink visits fresh ≤ 2
grants-le_example = grants-le strict opener sink 2 visits fresh refl (omega arith) (omega arith)

-- The third session is refused, though the first two are closed.
visits_granted : grants strict opener sink visits fresh ≡ 2
unfolding grants connection_handler open_session
visits_granted = refl

abbrev both_used : Connection ℕ
both_used = record { backend = 2; session_count = 2; log = [] }

open_session-full_example :
    let (answer, c') =
      connection_handler strict opener
        (on_session_channel 3 [])
        (run strict opener sink (to_session 1 on_close ∷ to_session 2 on_close ∷ []) both_used) in
    (answer ≡ refused (err_too_many_sessions []))
    × (c'.backend
        ≡ (run strict opener sink
            (to_session 1 on_close ∷ to_session 2 on_close ∷ [])
            both_used).backend)
open_session-full_example =
    open_session-full strict opener sink 2 (to_session 1 on_close ∷ to_session 2 on_close ∷ [])
      both_used 3 [] refl (omega arith) refl

connection_handler-decides_example :
    (refusal
        (connection_handler strict opener
          (on_tcp_forward_channel 7 "db" 5432 "client" 40000)
          fresh).0
      ≡ some "SECURITY_FORWARDING_REJECTED")
    × ((connection_handler strict opener
          (on_tcp_forward_channel 7 "db" 5432 "client" 40000)
          fresh).1.backend
        ≡ 0)
connection_handler-decides_example =
    (connection_handler-decides strict opener fresh (tcp 7 "db" 5432 "client" 40000)).0 refl

abbrev misspelt : ForwardingConfig
misspelt = record shut { forwarding_mode = other "disabled" }

forwarding_unchecked_example :
    (validate (record strict { forwarding = misspelt }) ≡ validate strict)
    × (validate_forwarding misspelt ≡ none → ⊥)
    × (connection_handler
          (record strict { forwarding = misspelt })
          opener
          (on_tcp_forward_channel 7 "db" 5432 "client" 40000)
          fresh
        ≡ call_backend opener (on_tcp_forward_channel 7 "db" 5432 "client" 40000) fresh)
forwarding_unchecked_example =
    forwarding_unchecked strict opener misspelt "disabled" fresh 7 "db" 5432 "client" 40000 refl
