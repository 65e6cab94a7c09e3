-- ===== src/Security/Forced.antt =====
-- The forced command, and the mode by which signals are decided.
use libcontainerssh.Common.{ℕ, String, eq_iff, ◌≡◌, refl, ◌≢◌, none, some, arith}
use libcontainerssh.Message.{Message, wrap_user}
use libcontainerssh.Security.Config.{SecurityConfig, SecurityExecutionPolicy}
use libcontainerssh.Security.Backend.{
  Backend, World, SessionRequest, on_env, on_exec, on_subsystem, on_signal, forward, reject,
}
use libcontainerssh.Security.Command.{
  original_command, force, set_env_and_force, on_exec_request, on_subsystem_request,
}
use libcontainerssh.Security.Session.{on_signal_request, session_handler}
use libcontainerssh.Security.Validate.{validate}
use libcontainerssh.Security.Rules.{
  IsPermitted, get_policy-effective, contains-Mem, contains-ne-Mem, validate-subsystem,
  not-mem-nil_text,
}

-- The requests that name what is to run.
pub data AsksFor (id : ℕ) (asked : String) : SessionRequest → Type 0 where
  by_exec : AsksFor id asked (on_exec id asked)
  by_subsystem : AsksFor id asked (on_subsystem id asked)

module _ {S : Type 0} (config : SecurityConfig) (backend : Backend S) where
  forced-set_env :
      {request : SessionRequest} (id : ℕ) (asked : String) (w : World S)
      → AsksFor id asked request
      → validate config ≡ none
      → config.force_command ≢ ""
      → IsPermitted config request
      → session_handler config backend request w ≡ set_env_and_force config backend id asked w
  unfolding session_handler on_exec_request on_subsystem_request
  forced-set_env id asked w by_exec valid forced p = ground (
    arith,
    contains-Mem config.command.allow asked,
    contains-ne-Mem config.command.allow asked,
    not-mem-nil_text asked,
    get_policy-effective config config.command.mode,
    eq_iff config.force_command "",
  )
  forced-set_env id asked w by_subsystem valid forced p = ground (
    arith,
    contains-Mem config.subsystem.deny asked,
    contains-ne-Mem config.subsystem.deny asked,
    contains-Mem config.subsystem.allow asked,
    contains-ne-Mem config.subsystem.allow asked,
    get_policy-effective config config.subsystem.mode,
    validate-subsystem config,
    eq_iff config.force_command "",
  )

  -- A permitted exec or subsystem request under a forced command first sets SSH_ORIGINAL_COMMAND to
  -- what was asked for. If the backend takes that, it is then told to run the forced command, and its
  -- answer to that is the answer; if it does not, it is not called again and the answer is the
  -- error, wrapped. The configuration is one that passes its check.
  pub session_handler-forced :
      {request : SessionRequest} (id : ℕ) (asked : String) (w : World S)
      → AsksFor id asked request
      → validate config ≡ none
      → config.force_command ≢ ""
      → IsPermitted config request
      → let (refused, s) = backend (on_env id original_command asked) w.backend in
        let (answer, w') = session_handler config backend request w in
        (refused ≡ none
          → (answer ≡ (backend (on_exec id config.force_command) s).0)
            × (w'.backend ≡ (backend (on_exec id config.force_command) s).1))
        × ((cause : Message)
            → refused ≡ some cause
            → (answer
                ≡ some (
                    wrap_user cause "SECURITY_EXEC_FAILED_SETENV" "Could not execute program."
                      "Command execution failed because the security layer could not set the SSH_ORIGINAL_COMMAND variable."))
              × (w'.backend ≡ s))
  unfolding set_env_and_force forward force reject
  session_handler-forced id asked w asks valid forced p =
      rw (forced-set_env id asked w asks valid forced p)
        ((λ e. ground arith), (λ cause e. ground arith))

  -- The mode of the signal settings has no part in how a signal is handled: with any two modes the
  -- handler gives the same answer and leaves the same state.
  pub signal_mode_ignored :
      (mode : SecurityExecutionPolicy) (id : ℕ) (signal : String) (w : World S)
      → let changed = record config { signal = record (config.signal) { mode = mode } } in
        session_handler changed backend (on_signal id signal) w
        ≡ session_handler config backend (on_signal id signal) w
  unfolding session_handler on_signal_request
  signal_mode_ignored mode id signal w = refl
