-- ===== src/SshServer/Global.antt =====
-- internal/sshserver/serverImpl.go: the requests that a client sends on the connection itself.
use Prim.Native.String.{◌++◌ as str_append}
use libcontainerssh.Common.{
  ℕ, String, str_eq, if◌then◌else◌, false, List, [], ◌∷◌, Option, none, some,
}
use libcontainerssh.Message.{Message, foreign, wrap, debug}
use libcontainerssh.Security.Connection.{
  ConnectionBackend, ConnectionRequest, Response, refused, on_unsupported_global_request,
  on_failed_decode_global_request, on_request_tcp_reverse_forward,
  on_request_cancel_tcp_reverse_forward, on_request_stream_local, on_request_cancel_stream_local,
}
use libcontainerssh.SshServer.Payloads.{
  Request, Reply, Unmarshal, GlobalPayload, reverse_forward, cancel_reverse_forward,
  stream_local_forward, cancel_stream_local_forward, unmarshal_global_request_payload,
}
use libcontainerssh.SshServer.Reply.{
  Session, find_connection, note, send_reply, reply, logged_request, answered,
}

-- The error in what a method answers.
abbrev pub error_in : Response → Option Message
error_in (refused err) = some err
error_in _ = none

module _ {S : Type 0} (ssh : Unmarshal) (send : List Reply → Reply → Option Message)
    (handler : ConnectionBackend S) where
  unfoldable pub call_connection : ConnectionRequest → Session S → Option Message × Session S
  call_connection request st =
      let (answer, s) = handler request st.handler in (error_in answer, record st { handler = s })

  unfoldable pub handle_keep_alive_request : Request → Session S → Session S
  unfolding send_reply
  handle_keep_alive_request request st =
      send_reply send request false ""
        (str_append "failed to send reply to global request type " request.type) st

  -- `onForwardTCPIP` and `onForwardStreamLocal`, from the connection that was found.
  unfoldable pub forward_on :
      Option ℕ → (ℕ → ConnectionRequest) → Session S → Option Message × Session S
  unfolding call_connection
  forward_on none request st =
      (some (foreign "Couldn't find connection in map, something terrible happened"), st)
  forward_on (some conn) request st = call_connection (request conn) st

  unfoldable pub handle_decoded_global_request :
      String → GlobalPayload → Session S → Option Message × Session S
  unfolding forward_on find_connection call_connection
  handle_decoded_global_request connection_id (reverse_forward p) st =
      forward_on (find_connection connection_id st.conn_map)
        (λ conn. on_request_tcp_reverse_forward p.address p.port conn) st
  handle_decoded_global_request connection_id (cancel_reverse_forward p) st =
      call_connection (on_request_cancel_tcp_reverse_forward p.address p.port) st
  handle_decoded_global_request connection_id (stream_local_forward p) st =
      forward_on (find_connection connection_id st.conn_map)
        (λ conn. on_request_stream_local p.socket_path conn) st
  handle_decoded_global_request connection_id (cancel_stream_local_forward p) st =
      call_connection (on_request_cancel_stream_local p.socket_path) st

  -- What `handleGlobalRequest` does with what was decoded.
  unfoldable pub dispatch_global :
      String → ℕ → Request → Option (GlobalPayload × Option Message) → Session S → Session S
  unfolding call_connection reply note logged_request handle_decoded_global_request answered
  dispatch_global connection_id id request none st =
      reply send request false (str_append "unsupported global request type: " request.type)
        (call_connection (on_unsupported_global_request id request.type request.payload) st).1
  dispatch_global connection_id id request (some (payload, some err)) st =
      reply send request false "failed to unmarshal payload"
        (call_connection (on_failed_decode_global_request id request.type request.payload err) (
          note debug
            (wrap err "SSH_DECODE_FAILED"
              (str_append "failed to unmarshal " (str_append request.type " request payload")))
            st)).1
  dispatch_global connection_id id request (some (payload, none)) st =
      answered send "SSH_GLOBAL_REQUEST" " global request from client" request (
        handle_decoded_global_request connection_id payload
          (logged_request "SSH_GLOBAL_REQUEST" " global request from client" request st))

  unfoldable pub handle_global_request : String → ℕ → Request → Session S → Session S
  unfolding handle_keep_alive_request dispatch_global unmarshal_global_request_payload
  handle_global_request connection_id id request st =
      if str_eq request.type "keepalive@openssh.com"
      then handle_keep_alive_request request st
      else dispatch_global connection_id id request (unmarshal_global_request_payload ssh request)
          st

  -- The loop of `handleGlobalRequests`. Each request comes with the number that the loop reads for it:
  -- the counter belongs to the server, and the loops of other connections raise it at any time with no
  -- lock, so any numbers may be read.
  unfoldable pub handle_global_requests : String → List (ℕ × Request) → Session S → Session S
  unfolding handle_global_request
  handle_global_requests connection_id [] st = st
  handle_global_requests connection_id ((id, request) ∷ requests) st =
      handle_global_requests connection_id requests
        (handle_global_request connection_id id request st)
