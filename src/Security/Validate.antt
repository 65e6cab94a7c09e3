-- ===== src/Security/Validate.antt =====
-- config/error.go and the `Validate` methods of config/security.go.
use Prim.Native.String.{◌++◌ as str_append}
use libcontainerssh.Common.{String, ℤ, pos, negsuc, List, [], ◌∷◌, Option, none, some, zero, suc}
use libcontainerssh.Security.Config.{
  SecurityExecutionPolicy, unconfigured, enable, filter, disable, other, ForwardingConfig,
  SecurityConfig,
}

-- An error of a check: one of the configuration, with the option that is wrong, or a plain text.
pub data ConfigError : Type 0 where
  config_error : List String → String → ConfigError
  text_error : String → ConfigError

unfoldable pub new_error : String → String → ConfigError
new_error option message = config_error (option ∷ []) message

-- `wrap`: `wrapWithMessage` with an empty message, on an error that is there.
unfoldable pub wrap : ConfigError → String → ConfigError
wrap (config_error option_path message) option = config_error (option ∷ option_path) message
wrap (text_error message) option = config_error (option ∷ []) message

-- `if err := e; err != nil { return f(err) }`, and the rest.
infixr 6 ◌or_else◌
abbrev pub ◌or_else◌ : Option ConfigError → Option ConfigError → Option ConfigError
some err or_else rest = some err
none or_else rest = rest

abbrev pub wrapped : Option ConfigError → String → Option ConfigError
wrapped none option = none
wrapped (some err) option = some (wrap err option)

unfoldable pub validate_policy : SecurityExecutionPolicy → Option ConfigError
validate_policy unconfigured = none
validate_policy enable = none
validate_policy filter = none
validate_policy disable = none
validate_policy (other text) = some (text_error (str_append "invalid mode: " text))

-- The `Validate` of the parts that hold a mode.
unfoldable pub validate_mode : SecurityExecutionPolicy → Option ConfigError
unfolding validate_policy
validate_mode mode = wrapped (validate_policy mode) "mode"

invalid_mode : Option ConfigError → Option ConfigError
invalid_mode none = none
invalid_mode (some (config_error option_path message)) =
    some (text_error (str_append "invalid mode (" (str_append message ")")))
invalid_mode (some (text_error message)) =
    some (text_error (str_append "invalid mode (" (str_append message ")")))

unfoldable pub validate_forwarding : ForwardingConfig → Option ConfigError
unfolding validate_policy invalid_mode
validate_forwarding f =
    invalid_mode (validate_policy f.reverse_forwarding_mode)
    or_else invalid_mode (validate_policy f.forwarding_mode)
    or_else invalid_mode (validate_policy f.socket_forwarding_mode)
    or_else invalid_mode (validate_policy f.socket_listen_mode)
    or_else invalid_mode (validate_policy f.x11_forwarding_mode)

-- MaxSessions below -1 is refused.
validate_max_sessions : ℤ → Option ConfigError
unfolding new_error
validate_max_sessions (pos n) = none
validate_max_sessions (negsuc zero) = none
validate_max_sessions (negsuc (suc n)) =
    some (new_error "maxSessions" "invalid maxSessions setting")

-- The forwarding part has a check, and it is not among those that are made here.
unfoldable pub validate : SecurityConfig → Option ConfigError
unfolding validate_policy validate_mode validate_max_sessions
validate c =
    wrapped (validate_policy c.default_mode) "defaultMode"
    or_else wrapped (validate_mode c.env.mode) "env"
    or_else wrapped (validate_mode c.command.mode) "command"
    or_else wrapped (validate_mode c.shell.mode) "shell"
    or_else wrapped (validate_mode c.subsystem.mode) "subsystem"
    or_else wrapped (validate_mode c.tty.mode) "tty"
    or_else wrapped (validate_mode c.signal.mode) "signal"
    or_else validate_max_sessions c.max_sessions
