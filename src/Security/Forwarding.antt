-- ===== src/Security/Forwarding.antt =====
-- internal/security/handler_ssh.go and config/security.go: which forwarding requests pass.
use libcontainerssh.Common.{ℕ, String, ◌≡◌, refl, Bool, true, false, Option, some, none, arith}
use libcontainerssh.Message.{code_of}
use libcontainerssh.Security.Config.{
  SecurityExecutionPolicy, filter, disable, other, ForwardingConfig, SecurityConfig,
}
use libcontainerssh.Security.Connection.{
  ConnectionBackend, ConnectionRequest, Connection, Response, on_tcp_forward_channel,
  on_request_tcp_reverse_forward, on_direct_stream_local, on_request_stream_local, refused,
  connection_handler, open_tcp_forward, request_tcp_reverse_forward, open_stream_local,
  request_stream_local, call_backend,
}
use libcontainerssh.Security.Policy.{get_policy}
use libcontainerssh.Security.Rules.{effective, get_policy-effective}
use libcontainerssh.Security.Validate.{validate, validate_forwarding}

-- The forwarding requests with the setting that decides each and the code of its refusal.
pub data Setting (f : ForwardingConfig)
    : ConnectionRequest → SecurityExecutionPolicy → String → Type 0 where
  tcp :
      (id : ℕ) (host : String) (port : ℕ) (originator_host : String) (originator_port : ℕ)
      → Setting f
          (on_tcp_forward_channel id host port originator_host originator_port)
          f.forwarding_mode
          "SECURITY_FORWARDING_REJECTED"
  reverse_tcp :
      (host : String) (port reverse : ℕ)
      → Setting f
          (on_request_tcp_reverse_forward host port reverse)
          f.reverse_forwarding_mode
          "SECURITY_REVERSE_FORWARDING_REJECTED"
  stream_local :
      (id : ℕ) (path : String)
      → Setting f
          (on_direct_stream_local id path)
          f.socket_forwarding_mode
          "SECURITY_FORWARDING_REJECTED"
  reverse_stream_local :
      (path : String) (reverse : ℕ)
      → Setting f
          (on_request_stream_local path reverse)
          f.socket_listen_mode
          "SECURITY_REVERSE_FORWARDING_REJECTED"

-- There are no lists for forwarding, so `filter` lets as little through as `disable`.
abbrev pub blocks : SecurityExecutionPolicy → Bool
blocks disable = true
blocks filter = true
blocks _ = false

abbrev pub refusal : Response → Option String
refusal (refused m) = some (code_of m)
refusal _ = none

module _ {S : Type 0} (config : SecurityConfig) (backend : ConnectionBackend S) where
  -- A forwarding request is decided by its own setting, or the default where that is not
  -- configured: if the mode is `disable` or `filter` it is refused with its code and the backend is
  -- not called, and in any other mode the answer and the state are the backend's.
  pub connection_handler-decides :
      {request : ConnectionRequest} {mode : SecurityExecutionPolicy} {code : String}
      (c : Connection S)
      → Setting config.forwarding request mode code
      → let (answer, c') = connection_handler config backend request c in
        (blocks (effective mode config.default_mode) ≡ true
          → (refusal answer ≡ some code) × (c'.backend ≡ c.backend))
        × (blocks (effective mode config.default_mode) ≡ false
            → connection_handler config backend request c ≡ call_backend backend request c)
  unfolding connection_handler open_tcp_forward request_tcp_reverse_forward open_stream_local
      request_stream_local code_of
  connection_handler-decides c (tcp id host port originator_host originator_port) =
      let mode : get_policy config config.forwarding.forwarding_mode
          ≡ effective config.forwarding.forwarding_mode config.default_mode =
        get_policy-effective config config.forwarding.forwarding_mode in
      ((λ h. ground arith), (λ h. ground arith))
  connection_handler-decides c (reverse_tcp host port reverse) =
      let mode : get_policy config config.forwarding.reverse_forwarding_mode
          ≡ effective config.forwarding.reverse_forwarding_mode config.default_mode =
        get_policy-effective config config.forwarding.reverse_forwarding_mode in
      ((λ h. ground arith), (λ h. ground arith))
  connection_handler-decides c (stream_local id path) =
      let mode : get_policy config config.forwarding.socket_forwarding_mode
          ≡ effective config.forwarding.socket_forwarding_mode config.default_mode =
        get_policy-effective config config.forwarding.socket_forwarding_mode in
      ((λ h. ground arith), (λ h. ground arith))
  connection_handler-decides c (reverse_stream_local path reverse) =
      let mode : get_policy config config.forwarding.socket_listen_mode
          ≡ effective config.forwarding.socket_listen_mode config.default_mode =
        get_policy-effective config config.forwarding.socket_listen_mode in
      ((λ h. ground arith), (λ h. ground arith))

  -- The check of a configuration does not look at its forwarding part: it gives the same with any
  -- other one. A mode for forwarded connections that the forwarding part's own check refuses lets
  -- every request for such a connection through to the backend.
  pub forwarding_unchecked :
      (f : ForwardingConfig) (text : String) (c : Connection S) (id : ℕ) (host : String) (port : ℕ)
      (originator_host : String) (originator_port : ℕ)
      → f.forwarding_mode ≡ other text
      → let misspelt = record config { forwarding = f } in
        let request = on_tcp_forward_channel id host port originator_host originator_port in
        (validate misspelt ≡ validate config)
        × (validate_forwarding f ≡ none → ⊥)
        × (connection_handler misspelt backend request c ≡ call_backend backend request c)
  unfolding connection_handler open_tcp_forward validate validate_forwarding
  forwarding_unchecked f text c id host port originator_host originator_port e =
      (refl, ground arith, ground arith)
