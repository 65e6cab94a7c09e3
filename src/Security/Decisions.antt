-- ===== src/Security/Decisions.antt =====
-- What the security layer answers to one request: the permitted are passed on, the others refused.
use libcontainerssh.Common.{String, eq_iff, ◌≡◌, refl, Bool, true, false, Option, none, some, arith}
use libcontainerssh.Message.{Message, Log, debug, write_log, code_of}
use libcontainerssh.Security.Config.{SecurityConfig}
use libcontainerssh.Security.Backend.{
  Backend, World, SessionRequest, on_close, on_shutdown, on_unsupported_channel_request,
  on_failed_decode_channel_request, on_env, on_pty, on_exec, on_shell, on_subsystem, on_signal,
  on_window, on_x11, forward,
}
use libcontainerssh.Security.Command.{on_exec_request, on_shell_request, on_subsystem_request}
use libcontainerssh.Security.Session.{
  on_env_request, on_pty_request, on_signal_request, on_x11_request, session_handler,
}
use libcontainerssh.Security.Validate.{validate}
use libcontainerssh.Security.Rules.{
  IsPermitted, get_policy-effective, contains-Mem, contains-ne-Mem, validate-subsystem,
  not-mem-nil_text,
}

-- The requests that have an answer.
abbrev pub has_answer : SessionRequest → Bool
has_answer on_close = false
has_answer on_shutdown = false
has_answer (on_unsupported_channel_request id type payload) = false
has_answer (on_failed_decode_channel_request id type payload reason) = false
has_answer _ = true

abbrev pub refusal_code : SessionRequest → String
refusal_code (on_env id name value) = "SECURITY_ENV_REJECTED"
refusal_code (on_pty id term columns rows width height modes) = "SECURITY_TTY_REJECTED"
refusal_code (on_exec id program) = "SECURITY_EXEC_REJECTED"
refusal_code (on_shell id) = "SECURITY_SHELL_REJECTED"
refusal_code (on_subsystem id subsystem) = "SECURITY_SUBSYSTEM_REJECTED"
refusal_code (on_signal id signal) = "SECURITY_SIGNAL_REJECTED"
refusal_code (on_x11 id single protocol cookie screen reverse) = "SECURITY_X11_FORWARDING_REJECTED"
refusal_code _ = ""

abbrev pub error_code : Option Message → Option String
error_code none = none
error_code (some m) = some (code_of m)

abbrev pub logged : Option Message → Log → Log
logged none log = log
logged (some m) log = write_log debug m log

-- An answer with an error of this code, which is logged; the backend is not called.
abbrev pub IsRefused : {S : Type 0} → String → World S → Option Message × World S → Type 0
IsRefused code w (answer, w') =
    (error_code answer ≡ some code) × (w'.log ≡ logged answer w.log) × (w'.backend ≡ w.backend)

module _ {S : Type 0} (config : SecurityConfig) (backend : Backend S) where
  -- Under a configuration that passes its check and forces no command, a request that has an answer
  -- and that the rules permit gets exactly what the backend does and answers.
  pub session_handler-forward :
      (request : SessionRequest) (w : World S)
      → validate config ≡ none
      → config.force_command ≡ ""
      → has_answer request ≡ true
      → IsPermitted config request
      → session_handler config backend request w ≡ forward backend request w
  unfolding session_handler on_env_request on_pty_request on_exec_request on_shell_request
      on_subsystem_request on_signal_request on_x11_request
  session_handler-forward (on_env id name value) w valid free h p = ground (
    arith,
    contains-Mem config.env.deny name,
    contains-ne-Mem config.env.deny name,
    contains-Mem config.env.allow name,
    contains-ne-Mem config.env.allow name,
    get_policy-effective config config.env.mode,
  )
  session_handler-forward (on_pty id term columns rows width height modes) w valid free h p =
      ground (arith, get_policy-effective config config.tty.mode, not-mem-nil_text "")
  session_handler-forward (on_exec id program) w valid free h p = ground (
    arith,
    contains-Mem config.command.allow program,
    contains-ne-Mem config.command.allow program,
    not-mem-nil_text program,
    get_policy-effective config config.command.mode,
    eq_iff config.force_command "",
  )
  session_handler-forward (on_shell id) w valid free h p = ground (
    arith,
    get_policy-effective config config.shell.mode,
    not-mem-nil_text "",
    eq_iff config.force_command "",
  )
  session_handler-forward (on_subsystem id subsystem) w valid free h p = ground (
    arith,
    contains-Mem config.subsystem.deny subsystem,
    contains-ne-Mem config.subsystem.deny subsystem,
    contains-Mem config.subsystem.allow subsystem,
    contains-ne-Mem config.subsystem.allow subsystem,
    get_policy-effective config config.subsystem.mode,
    validate-subsystem config,
    eq_iff config.force_command "",
  )
  session_handler-forward (on_signal id signal) w valid free h p = ground (
    arith,
    contains-Mem config.signal.deny signal,
    contains-ne-Mem config.signal.deny signal,
    contains-Mem config.signal.allow signal,
    contains-ne-Mem config.signal.allow signal,
    get_policy-effective config config.shell.mode,
  )
  session_handler-forward (on_x11 id single protocol cookie screen reverse) w valid free h p =
      ground (
        arith,
        get_policy-effective config config.forwarding.x11_forwarding_mode,
        not-mem-nil_text "",
      )
  session_handler-forward (on_window id columns rows width height) w valid free h p = refl
  session_handler-forward on_close w valid free h p = cc
  session_handler-forward on_shutdown w valid free h p = cc
  session_handler-forward (on_unsupported_channel_request id type payload) w valid free h p = cc
  session_handler-forward (on_failed_decode_channel_request id type payload reason) w valid free h
        p =
      cc

  -- Under a configuration that passes its check, a request that the rules do not
  -- permit is refused: the answer is an error with the code of the request's kind, which is logged
  -- at the debug level, and the backend is not called. This holds with a forced command too.
  pub session_handler-IsRefused :
      (request : SessionRequest) (w : World S)
      → validate config ≡ none
      → ¬ IsPermitted config request
      → IsRefused (refusal_code request) w (session_handler config backend request w)
  unfolding session_handler on_env_request on_pty_request on_exec_request on_shell_request
      on_subsystem_request on_signal_request on_x11_request code_of
  session_handler-IsRefused (on_env id name value) w valid p = ground (
    arith,
    contains-Mem config.env.deny name,
    contains-ne-Mem config.env.deny name,
    contains-Mem config.env.allow name,
    contains-ne-Mem config.env.allow name,
    get_policy-effective config config.env.mode,
  )
  session_handler-IsRefused (on_pty id term columns rows width height modes) w valid p =
      ground (arith, get_policy-effective config config.tty.mode, not-mem-nil_text "")
  session_handler-IsRefused (on_exec id program) w valid p = ground (
    arith,
    contains-Mem config.command.allow program,
    contains-ne-Mem config.command.allow program,
    not-mem-nil_text program,
    get_policy-effective config config.command.mode,
    eq_iff config.force_command "",
  )
  session_handler-IsRefused (on_shell id) w valid p = ground (
    arith,
    get_policy-effective config config.shell.mode,
    not-mem-nil_text "",
    eq_iff config.force_command "",
  )
  session_handler-IsRefused (on_subsystem id subsystem) w valid p = ground (
    arith,
    contains-Mem config.subsystem.deny subsystem,
    contains-ne-Mem config.subsystem.deny subsystem,
    contains-Mem config.subsystem.allow subsystem,
    contains-ne-Mem config.subsystem.allow subsystem,
    get_policy-effective config config.subsystem.mode,
    validate-subsystem config,
    eq_iff config.force_command "",
  )
  session_handler-IsRefused (on_signal id signal) w valid p = ground (
    arith,
    contains-Mem config.signal.deny signal,
    contains-ne-Mem config.signal.deny signal,
    contains-Mem config.signal.allow signal,
    contains-ne-Mem config.signal.allow signal,
    get_policy-effective config config.shell.mode,
  )
  session_handler-IsRefused (on_x11 id single protocol cookie screen reverse) w valid p = ground (
    arith,
    get_policy-effective config config.forwarding.x11_forwarding_mode,
    not-mem-nil_text "",
  )
  session_handler-IsRefused on_close w valid p = absurd (p tt)
  session_handler-IsRefused on_shutdown w valid p = absurd (p tt)
  session_handler-IsRefused (on_unsupported_channel_request id type payload) w valid p =
      absurd (p tt)
  session_handler-IsRefused (on_failed_decode_channel_request id type payload reason) w valid p =
      absurd (p tt)
  session_handler-IsRefused (on_window id columns rows width height) w valid p = absurd (p tt)
