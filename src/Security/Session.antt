-- ===== src/Security/Session.antt =====
-- internal/security/handler_session.go: what the security layer does with each request on a session
-- channel before the backend sees it.
use libcontainerssh.Common.{ℕ, String, if◌then◌else◌, Bool, List, [], ◌∷◌, Option, none, not}
use libcontainerssh.Message.{Message, debug, user_message, label}
use libcontainerssh.Security.Config.{SecurityConfig, filter, disable}
use libcontainerssh.Security.Policy.{get_policy, contains}
use libcontainerssh.Security.Backend.{
  Backend, World, SessionRequest, on_close, on_shutdown, on_unsupported_channel_request,
  on_failed_decode_channel_request, on_env, on_pty, on_exec, on_shell, on_subsystem, on_signal,
  on_window, on_x11, reject, forward,
}
use libcontainerssh.Security.Command.{on_exec_request, on_shell_request, on_subsystem_request}

module _ {S : Type 0} (config : SecurityConfig) (backend : Backend S) where
  unfoldable pub rejected_env : String → String → World S → Option Message × World S
  unfolding reject user_message label
  rejected_env name explanation = reject debug (
      label "name" name
        (user_message "SECURITY_ENV_REJECTED" "Environment variable setting rejected." explanation))

  unfoldable pub on_env_request : ℕ → String → String → World S → Option Message × World S
  unfolding get_policy contains rejected_env forward
  on_env_request id name value w = elim (get_policy config config.env.mode) [
    | disable ↦
        rejected_env name
          "Setting an environment variable is rejected because it is disabled in the security settings."
          w
    | filter ↦
        if contains config.env.allow name
        then forward backend (on_env id name value) w
        else rejected_env name
            "Setting an environment variable is rejected because it does not match the allow list."
            w
    | _ ↦
        if not (contains config.env.deny name)
        then forward backend (on_env id name value) w
        else rejected_env name
            "Setting an environment variable is rejected because it matches the deny list." w
  ]

  unfoldable pub rejected_pty : World S → Option Message × World S
  unfolding reject user_message
  rejected_pty = reject debug (
      user_message "SECURITY_TTY_REJECTED" "TTY allocation disabled."
        "TTY allocation is disabled in the security settings.")

  unfoldable pub on_pty_request :
      ℕ → String → ℕ → ℕ → ℕ → ℕ → List ℕ → World S → Option Message × World S
  unfolding get_policy rejected_pty forward
  on_pty_request id term columns rows width height modes w =
      elim (get_policy config config.tty.mode) [
        | disable ↦ rejected_pty w
        | filter ↦ rejected_pty w
        | _ ↦ forward backend (on_pty id term columns rows width height modes) w
      ]

  rejected_signal : String → World S → Option Message × World S
  unfolding reject user_message
  rejected_signal explanation =
      reject debug
        (user_message "SECURITY_SIGNAL_REJECTED" "Sending signals is rejected." explanation)

  -- The mode is that of the shell, as in the source.
  unfoldable pub on_signal_request : ℕ → String → World S → Option Message × World S
  unfolding get_policy contains rejected_signal forward
  on_signal_request id signal w = elim (get_policy config config.shell.mode) [
    | disable ↦
        rejected_signal "Sending the signal is rejected because signal delivery is disabled." w
    | filter ↦
        if contains config.signal.allow signal
        then forward backend (on_signal id signal) w
        else rejected_signal
            "Sending the signal is rejected because the specified signal does not match the allow list."
            w
    | _ ↦
        if not (contains config.signal.deny signal)
        then forward backend (on_signal id signal) w
        else rejected_signal
            "Sending the signal is rejected because the specified signal matches the deny list." w
  ]

  rejected_x11 : String → World S → Option Message × World S
  unfolding reject user_message
  rejected_x11 explanation =
      reject debug
        (user_message "SECURITY_X11_FORWARDING_REJECTED" "X11 forwarding is rejected" explanation)

  unfoldable pub on_x11_request :
      ℕ → Bool → String → String → ℕ → ℕ → World S → Option Message × World S
  unfolding get_policy rejected_x11 forward
  on_x11_request id single protocol cookie screen reverse w =
      elim (get_policy config config.forwarding.x11_forwarding_mode) [
        | disable ↦ rejected_x11 "X11 forwarding is rejected because it is disabled in the config" w
        | filter ↦
            rejected_x11
              "X11 forwarding is rejected because it is set to filter and filterint X11 requests is not supported"
              w
        | _ ↦ forward backend (on_x11 id single protocol cookie screen reverse) w
      ]

  -- A method that has no result is passed on, and answers nothing.
  pass_on : SessionRequest → World S → Option Message × World S
  unfolding forward
  pass_on request w = (none, (forward backend request w).1)

  -- The method that the server calls.
  unfoldable pub session_handler : SessionRequest → World S → Option Message × World S
  unfolding pass_on forward
  session_handler on_close = pass_on on_close
  session_handler on_shutdown = pass_on on_shutdown
  session_handler (on_unsupported_channel_request id type payload) =
      pass_on (on_unsupported_channel_request id type payload)
  session_handler (on_failed_decode_channel_request id type payload reason) =
      pass_on (on_failed_decode_channel_request id type payload reason)
  session_handler (on_env id name value) = on_env_request id name value
  session_handler (on_pty id term columns rows width height modes) =
      on_pty_request id term columns rows width height modes
  session_handler (on_exec id program) = on_exec_request config backend id program
  session_handler (on_shell id) = on_shell_request config backend id
  session_handler (on_subsystem id subsystem) = on_subsystem_request config backend id subsystem
  session_handler (on_signal id signal) = on_signal_request id signal
  session_handler (on_window id columns rows width height) =
      forward backend (on_window id columns rows width height)
  session_handler (on_x11 id single protocol cookie screen reverse) =
      on_x11_request id single protocol cookie screen reverse

  -- The requests of one channel, in the order in which they come.
  unfoldable pub serve : List SessionRequest → World S → World S
  serve [] w = w
  serve (request ∷ requests) w = serve requests (session_handler request w).1
