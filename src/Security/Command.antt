-- ===== src/Security/Command.antt =====
-- internal/security/handler_session.go: what the security layer does with a request to run a program
-- (exec, shell and subsystem), with the forced command.
use Prim.Native.String.{◌++◌ as str_append}
use libcontainerssh.Common.{ℕ, String, str_eq, if◌then◌else◌, Option, none, some, not}
use libcontainerssh.Message.{Message, debug, error, write_log, user_message, new_message, wrap_user}
use libcontainerssh.Security.Config.{SecurityConfig, enable, filter, disable}
use libcontainerssh.Security.Policy.{get_policy, contains}
use libcontainerssh.Security.Backend.{
  Backend, World, on_env, on_exec, on_shell, on_subsystem, reject, forward,
}

abbrev pub original_command : String
original_command = "SSH_ORIGINAL_COMMAND"

module _ {S : Type 0} (config : SecurityConfig) (backend : Backend S) where
  -- `MSecurityForcingCommand`, and the forced command in place of the client's.
  unfoldable pub force : ℕ → World S → Option Message × World S
  unfolding forward new_message
  force id w = forward backend (on_exec id config.force_command) (record w {
    log =
        write_log debug
          (new_message "SECURITY_EXEC_FORCING_COMMAND"
            (str_append "Forcing command execution to " config.force_command))
          w.log;
  })

  -- The two outcomes of setting the variable: an error ends the request.
  unfoldable pub after_set_env : ℕ → Option Message → World S → Option Message × World S
  unfolding reject wrap_user force
  after_set_env id (some cause) w =
      reject error
        (wrap_user cause "SECURITY_EXEC_FAILED_SETENV" "Could not execute program."
          "Command execution failed because the security layer could not set the SSH_ORIGINAL_COMMAND variable.")
        w
  after_set_env id none w = force id w

  -- The end of `OnExecRequest` and `OnSubsystem`: what the client asked for becomes a variable.
  unfoldable pub set_env_and_force : ℕ → String → World S → Option Message × World S
  unfolding forward after_set_env
  set_env_and_force id asked w =
      let (answer, w') = forward backend (on_env id original_command asked) w in
      after_set_env id answer w'

  unfoldable pub run_exec : ℕ → String → World S → Option Message × World S
  unfolding forward set_env_and_force
  run_exec id program w =
      if str_eq config.force_command ""
      then forward backend (on_exec id program) w
      else set_env_and_force id program w

  unfoldable pub rejected_exec : String → World S → Option Message × World S
  unfolding reject user_message
  rejected_exec explanation =
      reject debug (user_message "SECURITY_EXEC_REJECTED" "Command execution disabled." explanation)

  unfoldable pub on_exec_request : ℕ → String → World S → Option Message × World S
  unfolding get_policy contains rejected_exec run_exec
  on_exec_request id program w = elim (get_policy config config.command.mode) [
    | disable ↦ rejected_exec "Command execution is disabled in the security settings." w
    | filter ↦
        if not (contains config.command.allow program)
        then rejected_exec
            "The specified command passed from the client does not match the specified allow list."
            w
        else run_exec id program w
    | _ ↦ run_exec id program w
  ]

  unfoldable pub rejected_shell : World S → Option Message × World S
  unfolding reject user_message
  rejected_shell = reject debug (
      user_message "SECURITY_SHELL_REJECTED" "Shell execution disabled."
        "Shell execution is disabled in the security settings.")

  unfoldable pub run_shell : ℕ → World S → Option Message × World S
  unfolding forward force
  run_shell id w =
      if str_eq config.force_command "" then forward backend (on_shell id) w else force id w

  unfoldable pub on_shell_request : ℕ → World S → Option Message × World S
  unfolding get_policy rejected_shell run_shell
  on_shell_request id w = elim (get_policy config config.shell.mode) [
    | disable ↦ rejected_shell w
    | filter ↦ rejected_shell w
    | _ ↦ run_shell id w
  ]

  rejected_subsystem : String → World S → Option Message × World S
  unfolding reject user_message
  rejected_subsystem explanation =
      reject debug
        (user_message "SECURITY_SUBSYSTEM_REJECTED" "Subsystem execution disabled." explanation)

  unfoldable pub run_subsystem : ℕ → String → World S → Option Message × World S
  unfolding forward set_env_and_force
  run_subsystem id subsystem w =
      if str_eq config.force_command ""
      then forward backend (on_subsystem id subsystem) w
      else set_env_and_force id subsystem w

  -- A mode that is none of the three reaches the backend with no look at the deny list.
  unfoldable pub on_subsystem_request : ℕ → String → World S → Option Message × World S
  unfolding get_policy contains rejected_subsystem run_subsystem
  on_subsystem_request id subsystem w = elim (get_policy config config.subsystem.mode) [
    | disable ↦ rejected_subsystem "Subsystem execution is disabled in the security settings." w
    | filter ↦
        if not (contains config.subsystem.allow subsystem)
        then rejected_subsystem
            "The specified subsystem does not match the allowed subsystems list." w
        else run_subsystem id subsystem w
    | enable ↦
        if contains config.subsystem.deny subsystem
        then rejected_subsystem
            "The subsystem execution is rejected because the specified subsystem matches the deny list."
            w
        else run_subsystem id subsystem w
    | _ ↦ run_subsystem id subsystem w
  ]
