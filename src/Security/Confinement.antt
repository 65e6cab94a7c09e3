-- ===== src/Security/Confinement.antt =====
-- Whatever a client asks for, only allowed calls reach the backend.
use libcontainerssh.Common.{
  ℕ, String, eq_iff, ◌≡◌, refl, ◌≢◌, inr, Bool, List, [], ◌∷◌, arith, Option, none, some,
}
use libcontainerssh.Message.{Message}
use libcontainerssh.Security.Config.{SecurityConfig}
use libcontainerssh.Security.Backend.{
  Backend, World, SessionRequest, on_close, on_shutdown, on_unsupported_channel_request,
  on_failed_decode_channel_request, on_env, on_pty, on_exec, on_shell, on_subsystem, on_signal,
  on_window, on_x11, forward,
}
use libcontainerssh.Security.Command.{
  original_command, force, after_set_env, set_env_and_force, on_exec_request, on_shell_request,
  on_subsystem_request,
}
use libcontainerssh.Security.Session.{
  on_env_request, on_pty_request, on_signal_request, on_x11_request, session_handler, serve,
}
use libcontainerssh.Security.Validate.{validate}
use libcontainerssh.Security.Rules.{
  IsAllowed, get_policy-effective, contains-Mem, contains-ne-Mem, validate-subsystem,
  not-mem-nil_text,
}

module _ {S : Type 0} (config : SecurityConfig) (backend : Backend S) (P : S → Type 0)
    (keeps : (request : SessionRequest) (s : S)
      → IsAllowed config request
      → P s
      → P (backend request s).1) where
  forward-keeps :
      (request : SessionRequest) (w : World S)
      → IsAllowed config request
      → P w.backend
      → P (forward backend request w).1.backend
  unfolding forward
  forward-keeps request w allowed p = keeps request w.backend allowed p

  on_env_request-keeps :
      (id : ℕ) (name value : String) (w : World S)
      → P w.backend
      → P (on_env_request config backend id name value w).1.backend
  unfolding on_env_request
  on_env_request-keeps id name value w p = ground (
    arith,
    forward-keeps (on_env id name value) w,
    contains-Mem config.env.allow name,
    contains-ne-Mem config.env.deny name,
    get_policy-effective config config.env.mode,
  )

  on_pty_request-keeps :
      (id : ℕ) (term : String) (columns rows width height : ℕ) (modes : List ℕ) (w : World S)
      → P w.backend
      → P (on_pty_request config backend id term columns rows width height modes w).1.backend
  unfolding on_pty_request
  on_pty_request-keeps id term columns rows width height modes w p = ground (
    arith,
    forward-keeps (on_pty id term columns rows width height modes) w,
    get_policy-effective config config.tty.mode,
    not-mem-nil_text "",
  )

  force-keeps :
      (id : ℕ) (w : World S)
      → config.force_command ≢ ""
      → P w.backend
      → P (force config backend id w).1.backend
  unfolding force forward
  force-keeps id w forced p =
      keeps (on_exec id config.force_command) w.backend (inr (forced, refl)) p

  after_set_env-keeps :
      (id : ℕ) (answer : Option Message) (w : World S)
      → config.force_command ≢ ""
      → P w.backend
      → P (after_set_env config backend id answer w).1.backend
  unfolding after_set_env
  after_set_env-keeps id (some cause) w forced p = p
  after_set_env-keeps id none w forced p = force-keeps id w forced p

  set_env_and_force-keeps :
      (id : ℕ) (asked : String) (w : World S)
      → config.force_command ≢ ""
      → P w.backend
      → P (set_env_and_force config backend id asked w).1.backend
  unfolding set_env_and_force
  set_env_and_force-keeps id asked w forced p =
      after_set_env-keeps id _ _ forced
        (forward-keeps (on_env id original_command asked) w (inr (forced, refl)) p)

  on_exec_request-keeps :
      (id : ℕ) (program : String) (w : World S)
      → P w.backend
      → P (on_exec_request config backend id program w).1.backend
  unfolding on_exec_request
  on_exec_request-keeps id program w p = ground (
    arith,
    forward-keeps (on_exec id program) w,
    set_env_and_force-keeps id program w,
    contains-Mem config.command.allow program,
    get_policy-effective config config.command.mode,
    not-mem-nil_text program,
    eq_iff config.force_command "",
  )

  on_shell_request-keeps :
      (id : ℕ) (w : World S) → P w.backend → P (on_shell_request config backend id w).1.backend
  unfolding on_shell_request
  on_shell_request-keeps id w p = ground (
    arith,
    forward-keeps (on_shell id) w,
    force-keeps id w,
    get_policy-effective config config.shell.mode,
    not-mem-nil_text "",
    eq_iff config.force_command "",
  )

  on_subsystem_request-keeps :
      (id : ℕ) (subsystem : String) (w : World S)
      → validate config ≡ none
      → P w.backend
      → P (on_subsystem_request config backend id subsystem w).1.backend
  unfolding on_subsystem_request
  on_subsystem_request-keeps id subsystem w valid p = ground (
    arith,
    forward-keeps (on_subsystem id subsystem) w,
    set_env_and_force-keeps id subsystem w,
    contains-Mem config.subsystem.allow subsystem,
    contains-ne-Mem config.subsystem.deny subsystem,
    get_policy-effective config config.subsystem.mode,
    validate-subsystem config,
    eq_iff config.force_command "",
  )

  on_signal_request-keeps :
      (id : ℕ) (signal : String) (w : World S)
      → P w.backend
      → P (on_signal_request config backend id signal w).1.backend
  unfolding on_signal_request
  on_signal_request-keeps id signal w p = ground (
    arith,
    forward-keeps (on_signal id signal) w,
    contains-Mem config.signal.allow signal,
    contains-ne-Mem config.signal.deny signal,
    get_policy-effective config config.shell.mode,
  )

  on_x11_request-keeps :
      (id : ℕ) (single : Bool) (protocol cookie : String) (screen reverse : ℕ) (w : World S)
      → P w.backend
      → P (on_x11_request config backend id single protocol cookie screen reverse w).1.backend
  unfolding on_x11_request
  on_x11_request-keeps id single protocol cookie screen reverse w p = ground (
    arith,
    forward-keeps (on_x11 id single protocol cookie screen reverse) w,
    get_policy-effective config config.forwarding.x11_forwarding_mode,
    not-mem-nil_text "",
  )

  session_handler-keeps :
      (request : SessionRequest) (w : World S)
      → validate config ≡ none
      → P w.backend
      → P (session_handler config backend request w).1.backend
  unfolding session_handler
  session_handler-keeps on_close w valid p = forward-keeps on_close w tt p
  session_handler-keeps on_shutdown w valid p = forward-keeps on_shutdown w tt p
  session_handler-keeps (on_unsupported_channel_request id type payload) w valid p =
      forward-keeps (on_unsupported_channel_request id type payload) w tt p
  session_handler-keeps (on_failed_decode_channel_request id type payload reason) w valid p =
      forward-keeps (on_failed_decode_channel_request id type payload reason) w tt p
  session_handler-keeps (on_env id name value) w valid p = on_env_request-keeps id name value w p
  session_handler-keeps (on_pty id term columns rows width height modes) w valid p =
      on_pty_request-keeps id term columns rows width height modes w p
  session_handler-keeps (on_exec id program) w valid p = on_exec_request-keeps id program w p
  session_handler-keeps (on_shell id) w valid p = on_shell_request-keeps id w p
  session_handler-keeps (on_subsystem id subsystem) w valid p =
      on_subsystem_request-keeps id subsystem w valid p
  session_handler-keeps (on_signal id signal) w valid p = on_signal_request-keeps id signal w p
  session_handler-keeps (on_window id columns rows width height) w valid p =
      forward-keeps (on_window id columns rows width height) w tt p
  session_handler-keeps (on_x11 id single protocol cookie screen reverse) w valid p =
      on_x11_request-keeps id single protocol cookie screen reverse w p

  -- The handler makes allowed calls of the backend only: under a configuration that passes its
  -- check, whatever those calls keep true of the backend's state stays true under every sequence of
  -- a client's requests.
  pub serve-keeps :
      (requests : List SessionRequest) (w : World S)
      → validate config ≡ none
      → P w.backend
      → P (serve config backend requests w).backend
  unfolding serve
  serve-keeps [] w valid p = p
  serve-keeps (request ∷ requests) w valid p =
      serve-keeps requests (session_handler config backend request w).1 valid
        (session_handler-keeps request w valid p)
