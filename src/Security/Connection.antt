-- ===== src/Security/Connection.antt =====
-- internal/security/handler_ssh.go: what the security layer does with the requests of a connection
-- that do not belong to a session channel, and the limit on session channels.
use libcontainerssh.Common.{
  ℕ, ◌+◌, ◌%◌, ◌^◌, leb, if◌then◌else◌, String, ℤ, pos, negsuc, Bool, false, List, [],
}
use libcontainerssh.Message.{
  Message, prohibited, Log, err_too_many_sessions, debug, write_log, user_message,
  new_channel_rejection,
}
use libcontainerssh.Security.Config.{SecurityConfig, filter, disable}
use libcontainerssh.Security.Policy.{get_policy}

-- The methods of `sshserver.SSHConnectionHandler` with their arguments. A channel's number stands for
-- its metadata, and the handler of reverse connections is known by a number.
pub data ConnectionRequest : Type 0 where
  on_shutdown : ConnectionRequest
  on_unsupported_global_request : ℕ → String → List ℕ → ConnectionRequest
  on_failed_decode_global_request : ℕ → String → List ℕ → Message → ConnectionRequest
  on_unsupported_channel : ℕ → String → List ℕ → ConnectionRequest
  on_session_channel : ℕ → List ℕ → ConnectionRequest
  on_tcp_forward_channel : ℕ → String → ℕ → String → ℕ → ConnectionRequest
  on_request_tcp_reverse_forward : String → ℕ → ℕ → ConnectionRequest
  on_request_cancel_tcp_reverse_forward : String → ℕ → ConnectionRequest
  on_direct_stream_local : ℕ → String → ConnectionRequest
  on_request_stream_local : String → ℕ → ConnectionRequest
  on_request_cancel_stream_local : String → ConnectionRequest

-- A channel of the backend, known by a number, or a channel behind a `sessionHandler`.
pub data Channel : Type 0 where
  bare : ℕ → Channel
  secured : SecurityConfig → Channel → Channel

-- What a method answers: nothing, an error or a rejection, or a channel.
pub data Response : Type 0 where
  done : Response
  refused : Message → Response
  channel : Channel → Response

abbrev pub ConnectionBackend : Type 0 → Type 0
ConnectionBackend S = ConnectionRequest → S → Response × S

pub record Connection (S : Type 0) : Type 0 where
  pub backend : S
  pub session_count : ℕ  -- uint
  pub log : Log

-- `config.MaxSessions > -1 && sessionCount >= uint(config.MaxSessions)`
unfoldable pub is_full : ℤ → ℕ → Bool
is_full (pos max_sessions) session_count = leb max_sessions session_count
is_full (negsuc n) session_count = false

module _ {S : Type 0} where
  unfoldable pub refuse : Message → Connection S → Response × Connection S
  refuse m c = (refused m, record c { log = write_log debug m c.log })

  unfoldable pub call_backend :
      ConnectionBackend S → ConnectionRequest → Connection S → Response × Connection S
  call_backend backend request c =
      let (answer, s) = backend request c.backend in (answer, record c { backend = s })

module _ {S : Type 0} (config : SecurityConfig) (backend : ConnectionBackend S) where
  -- What follows the backend's answer: an error is handed on, and a channel is counted and wrapped.
  count_session : Response → Connection S → Response × Connection S
  count_session (channel opened) c =
      (channel (secured config opened), record c { session_count = (c.session_count + 1) % 2 ^ 64 })
  count_session answer c = (answer, c)

  unfoldable pub open_session : ℕ → List ℕ → Connection S → Response × Connection S
  unfolding is_full refuse call_backend count_session
  open_session id extra c =
      if is_full config.max_sessions c.session_count
      then refuse (err_too_many_sessions []) c
      else let (answer, c') = call_backend backend (on_session_channel id extra) c in
        count_session answer c'

  unfoldable pub open_tcp_forward :
      ℕ → String → ℕ → String → ℕ → Connection S → Response × Connection S
  unfolding get_policy refuse new_channel_rejection call_backend
  open_tcp_forward id host port originator_host originator_port c =
      elim (get_policy config config.forwarding.forwarding_mode) [
        | disable ↦
            refuse
              (new_channel_rejection prohibited "SECURITY_FORWARDING_REJECTED"
                "Forwarding is rejected" "Forwarding is rejected because it is disabled")
              c
        | filter ↦
            refuse
              (new_channel_rejection prohibited "SECURITY_FORWARDING_REJECTED"
                "Forwarding is rejected"
                "Forwarding is rejected because it is set to filtered and filtering is currently not supported")
              c
        | _ ↦
            call_backend backend
              (on_tcp_forward_channel id host port originator_host originator_port) c
      ]

  unfoldable pub request_tcp_reverse_forward :
      String → ℕ → ℕ → Connection S → Response × Connection S
  unfolding get_policy refuse user_message call_backend
  request_tcp_reverse_forward host port reverse c =
      elim (get_policy config config.forwarding.reverse_forwarding_mode) [
        | disable ↦
            refuse
              (user_message "SECURITY_REVERSE_FORWARDING_REJECTED" "Reverse forwarding is rejected"
                "Reverse forwarding is rejected because it is disabled in the config")
              c
        | filter ↦
            refuse
              (user_message "SECURITY_REVERSE_FORWARDING_REJECTED" "Reverse forwarding is rejected"
                "Reverse forwarding is rejected because it is set to filter and filtering reverse forwarding requests is not supported")
              c
        | _ ↦ call_backend backend (on_request_tcp_reverse_forward host port reverse) c
      ]

  unfoldable pub open_stream_local : ℕ → String → Connection S → Response × Connection S
  unfolding get_policy refuse new_channel_rejection call_backend
  open_stream_local id path c = elim (get_policy config config.forwarding.socket_forwarding_mode) [
    | disable ↦
        refuse
          (new_channel_rejection prohibited "SECURITY_FORWARDING_REJECTED"
            "StreamLocal forwarding is rejected"
            "StreamLocal forwarding is rejected because it is disabled")
          c
    | filter ↦
        refuse
          (new_channel_rejection prohibited "SECURITY_FORWARDING_REJECTED"
            "StreamLocal forwarding is rejected"
            "StreamLocal forwarding is rejected because it is set to filtered and filtering is currently not supported")
          c
    | _ ↦ call_backend backend (on_direct_stream_local id path) c
  ]

  unfoldable pub request_stream_local : String → ℕ → Connection S → Response × Connection S
  unfolding get_policy refuse user_message call_backend
  request_stream_local path reverse c =
      elim (get_policy config config.forwarding.socket_listen_mode) [
        | disable ↦
            refuse
              (user_message "SECURITY_REVERSE_FORWARDING_REJECTED"
                "Reverse socket forwarding is rejected"
                "Reverse socket forwarding is rejected because it is disabled in the config")
              c
        | filter ↦
            refuse
              (user_message "SECURITY_REVERSE_FORWARDING_REJECTED"
                "Reverse socket forwarding is rejected"
                "Reverse socket forwarding is rejected because it is set to filter and filtering reverse forwarding requests is not supported")
              c
        | _ ↦ call_backend backend (on_request_stream_local path reverse) c
      ]

  tell_backend : ConnectionRequest → Connection S → Response × Connection S
  unfolding call_backend
  tell_backend request c = (done, (call_backend backend request c).1)

  unfoldable pub connection_handler : ConnectionRequest → Connection S → Response × Connection S
  unfolding tell_backend call_backend
  connection_handler on_shutdown = tell_backend on_shutdown
  connection_handler (on_unsupported_global_request id type payload) =
      tell_backend (on_unsupported_global_request id type payload)
  connection_handler (on_failed_decode_global_request id type payload reason) =
      tell_backend (on_failed_decode_global_request id type payload reason)
  connection_handler (on_unsupported_channel id type extra) =
      tell_backend (on_unsupported_channel id type extra)
  connection_handler (on_session_channel id extra) = open_session id extra
  connection_handler (on_tcp_forward_channel id host port originator_host originator_port) =
      open_tcp_forward id host port originator_host originator_port
  connection_handler (on_request_tcp_reverse_forward host port reverse) =
      request_tcp_reverse_forward host port reverse
  connection_handler (on_request_cancel_tcp_reverse_forward host port) =
      call_backend backend (on_request_cancel_tcp_reverse_forward host port)
  connection_handler (on_direct_stream_local id path) = open_stream_local id path
  connection_handler (on_request_stream_local path reverse) = request_stream_local path reverse
  connection_handler (on_request_cancel_stream_local path) =
      call_backend backend (on_request_cancel_stream_local path)
