-- ===== src/Security/Config.antt =====
-- config/security.go: the execution policies and the security configuration.
use libcontainerssh.Common.{String, Bool, true, false, List, ℤ}

-- A policy is a text in the source: the three modes, the empty text, and any other text, which only
-- a configuration that was not validated can hold.
pub data SecurityExecutionPolicy : Type 0 where
  unconfigured enable filter disable : SecurityExecutionPolicy
  other : String → SecurityExecutionPolicy

pub record SecurityEnvConfig : Type 0 where
  pub mode : SecurityExecutionPolicy
  pub allow : List String
  pub deny : List String

pub record CommandConfig : Type 0 where
  pub mode : SecurityExecutionPolicy
  pub allow : List String

pub record SecurityShellConfig : Type 0 where
  pub mode : SecurityExecutionPolicy

pub record SubsystemConfig : Type 0 where
  pub mode : SecurityExecutionPolicy
  pub allow : List String
  pub deny : List String

pub record ForwardingConfig : Type 0 where
  pub reverse_forwarding_mode : SecurityExecutionPolicy
  pub forwarding_mode : SecurityExecutionPolicy
  pub socket_forwarding_mode : SecurityExecutionPolicy
  pub socket_listen_mode : SecurityExecutionPolicy
  pub x11_forwarding_mode : SecurityExecutionPolicy

pub record SecurityTtyConfig : Type 0 where
  pub mode : SecurityExecutionPolicy

pub record SecuritySignalConfig : Type 0 where
  pub mode : SecurityExecutionPolicy
  pub allow : List String
  pub deny : List String

pub record SecurityConfig : Type 0 where
  pub default_mode : SecurityExecutionPolicy
  pub force_command : String
  pub env : SecurityEnvConfig
  pub command : CommandConfig
  pub shell : SecurityShellConfig
  pub subsystem : SubsystemConfig
  pub forwarding : ForwardingConfig
  pub tty : SecurityTtyConfig
  pub signal : SecuritySignalConfig
  pub max_sessions : ℤ

-- The test `primary != ExecutionPolicyUnconfigured`.
unfoldable pub is_configured : SecurityExecutionPolicy → Bool
is_configured unconfigured = false
is_configured _ = true
