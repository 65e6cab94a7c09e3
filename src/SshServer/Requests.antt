-- ===== src/SshServer/Requests.antt =====
-- internal/sshserver/serverImpl.go: the requests on a session channel.
use Prim.Native.String.{◌++◌ as str_append}
use libcontainerssh.Common.{ℕ, ◌+◌, ◌%◌, ◌^◌, String, false, List, [], ◌∷◌, Option, none, some}
use libcontainerssh.Message.{Message, foreign, wrap, debug}
use libcontainerssh.Security.Backend.{
  Backend, SessionRequest, on_close, on_unsupported_channel_request,
  on_failed_decode_channel_request, on_env, on_pty, on_exec, on_shell, on_subsystem, on_signal,
  on_window, on_x11,
}
use libcontainerssh.SshServer.Reply.{
  Session, find_connection, note, reply, logged_request, answered,
}
use libcontainerssh.SshServer.Payloads.{
  Request, Reply, Unmarshal, ChannelPayload, env, pty, shell, exec, subsystem, window, signal, x11,
  X11RequestPayload, unmarshal_channel_request_payload,
}

module _ {S : Type 0} (ssh : Unmarshal) (send : List Reply → Reply → Option Message)
    (handler : Backend S) where
  -- A call of the handler.
  unfoldable pub call : SessionRequest → Session S → Option Message × Session S
  call request st =
      let (failed, s) = handler request st.handler in (failed, record st { handler = s })

  -- `onX11`, from the connection that was found.
  unfoldable pub x11_on : Option ℕ → ℕ → X11RequestPayload → Session S → Option Message × Session S
  unfolding call
  x11_on none id p st =
      (some (foreign "Couldn't find connection in map, something terrible happened"), st)
  x11_on (some conn) id p st =
      call (on_x11 id p.single_connection p.protocol p.cookie p.screen conn) st

  unfoldable pub handle_decoded_channel_request :
      String → ℕ → ChannelPayload → Session S → Option Message × Session S
  unfolding call x11_on find_connection
  handle_decoded_channel_request connection_id id (env p) st = call (on_env id p.name p.value) st
  handle_decoded_channel_request connection_id id (pty p) st =
      call (on_pty id p.term p.columns p.rows p.width p.height p.mode_list) st
  handle_decoded_channel_request connection_id id shell st = call (on_shell id) st
  handle_decoded_channel_request connection_id id (exec p) st = call (on_exec id p.exec) st
  handle_decoded_channel_request connection_id id (subsystem p) st =
      call (on_subsystem id p.subsystem) st
  handle_decoded_channel_request connection_id id (window p) st =
      call (on_window id p.columns p.rows p.width p.height) st
  handle_decoded_channel_request connection_id id (signal p) st = call (on_signal id p.signal) st
  handle_decoded_channel_request connection_id id (x11 p) st =
      x11_on (find_connection connection_id st.conn_map) id p st

  -- What `handleChannelRequest` does with what was decoded.
  unfoldable pub dispatch :
      String → ℕ → Request → Option (ChannelPayload × Option Message) → Session S → Session S
  unfolding call reply note logged_request handle_decoded_channel_request answered
  dispatch connection_id id request none st =
      reply send request false (str_append "unsupported request type: " request.type)
        (call (on_unsupported_channel_request id request.type request.payload) st).1
  dispatch connection_id id request (some (payload, some err)) st =
      reply send request false "failed to unmarshal payload"
        (call (on_failed_decode_channel_request id request.type request.payload err) (
          note debug
            (wrap err "SSH_DECODE_FAILED"
              (str_append "failed to unmarshal " (str_append request.type " request payload")))
            st)).1
  dispatch connection_id id request (some (payload, none)) st =
      answered send "SSH_CHANNEL_REQUEST" " channel request from client" request (
        handle_decoded_channel_request connection_id id payload
          (logged_request "SSH_CHANNEL_REQUEST" " channel request from client" request st))

  unfoldable pub handle_channel_request : String → ℕ → Request → Session S → Session S
  unfolding unmarshal_channel_request_payload dispatch
  handle_channel_request connection_id id request st =
      dispatch connection_id id request (unmarshal_channel_request_payload ssh request) st

  -- The loop of `handleSessionChannel`: when the client has closed its requests, the handler is told.
  unfoldable pub handle_requests : String → ℕ → List Request → Session S → Session S
  unfolding call handle_channel_request
  handle_requests connection_id id [] st = (call on_close st).1
  handle_requests connection_id id (request ∷ requests) st =
      handle_requests connection_id ((id + 1) % 2 ^ 64) requests
        (handle_channel_request connection_id id request st)
