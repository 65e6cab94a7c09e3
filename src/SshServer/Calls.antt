-- ===== src/SshServer/Calls.antt =====
-- internal/sshserver/serverImpl.go: which calls the requests on a session channel become, and that
-- the loop makes exactly these.
use Prim.Native.String.{◌++◌ as str_append}
use libcontainerssh.Common.{
  ℕ, ◌+◌, ◌%◌, ◌^◌, ◌≡◌, refl, ap, sym, ◌∙◌, subst, String, false, List, [], ◌∷◌, Option, none,
  some,
}
use libcontainerssh.Message.{Message, wrap, debug}
use libcontainerssh.Security.Config.{SecurityConfig}
use libcontainerssh.Security.Rules.{IsAllowed}
use libcontainerssh.Security.Validate.{validate}
use libcontainerssh.Security.Backend.{
  Backend, World, SessionRequest, on_close, on_unsupported_channel_request,
  on_failed_decode_channel_request, on_env, on_pty, on_exec, on_shell, on_subsystem, on_signal,
  on_window, on_x11,
}
use libcontainerssh.Security.Session.{session_handler, serve}
use libcontainerssh.Security.Confinement.{serve-keeps}
use libcontainerssh.SshServer.Payloads.{
  Request, Reply, Unmarshal, ChannelPayload, env, pty, shell, exec, subsystem, window, signal, x11,
  X11RequestPayload, unmarshal_channel_request_payload,
}
use libcontainerssh.SshServer.Reply.{Session, find_connection, note, reply, logged_request}
use libcontainerssh.SshServer.Reply.Answers.{view, reply-view, answered-view}
use libcontainerssh.SshServer.Requests.{
  call, x11_on, dispatch, handle_decoded_channel_request, handle_channel_request, handle_requests,
}

abbrev pub x11_call : Option ℕ → ℕ → X11RequestPayload → Option SessionRequest
x11_call none id p = none
x11_call (some conn) id p = some (on_x11 id p.single_connection p.protocol p.cookie p.screen conn)

-- The call for a payload; there is none for X11 on a connection that the server does not know.
abbrev pub call_of_payload : String → List (String × ℕ) → ℕ → ChannelPayload → Option SessionRequest
call_of_payload connection_id conns id (env p) = some (on_env id p.name p.value)
call_of_payload connection_id conns id (pty p) =
    some (on_pty id p.term p.columns p.rows p.width p.height p.mode_list)
call_of_payload connection_id conns id shell = some (on_shell id)
call_of_payload connection_id conns id (exec p) = some (on_exec id p.exec)
call_of_payload connection_id conns id (subsystem p) = some (on_subsystem id p.subsystem)
call_of_payload connection_id conns id (window p) =
    some (on_window id p.columns p.rows p.width p.height)
call_of_payload connection_id conns id (signal p) = some (on_signal id p.signal)
call_of_payload connection_id conns id (x11 p) = x11_call (find_connection connection_id conns) id p

-- The call for what was decoded of a request.
abbrev pub call_of :
    String
    → List (String × ℕ)
    → ℕ
    → Request
    → Option (ChannelPayload × Option Message)
    → Option SessionRequest
call_of connection_id conns id request none =
    some (on_unsupported_channel_request id request.type request.payload)
call_of connection_id conns id request (some (payload, some err)) =
    some (on_failed_decode_channel_request id request.type request.payload err)
call_of connection_id conns id request (some (payload, none)) =
    call_of_payload connection_id conns id payload

abbrev pub with_call : Option SessionRequest → List SessionRequest → List SessionRequest
with_call none calls = calls
with_call (some c) calls = c ∷ calls

-- The calls for a channel's requests, the first of which has the number that is given: they are
-- numbered on from there, and the last call is that the channel is closed.
unfoldable pub calls :
    Unmarshal → String → List (String × ℕ) → ℕ → List Request → List SessionRequest
calls ssh connection_id conns id [] = on_close ∷ []
calls ssh connection_id conns id (request ∷ requests) =
    with_call
      (call_of connection_id conns id request (unmarshal_channel_request_payload ssh request))
      (calls ssh connection_id conns ((id + 1) % 2 ^ 64) requests)

-- A handler after a call, if there is one.
abbrev pub after_call : {S : Type 0} → Backend S → Option SessionRequest → S → S
after_call handler none s = s
after_call handler (some c) s = (handler c s).1

-- A handler after a sequence of calls.
unfoldable pub after_calls : {S : Type 0} → Backend S → List SessionRequest → S → S
after_calls handler [] s = s
after_calls handler (c ∷ cs) s = after_calls handler cs (handler c s).1

module _ {S : Type 0} (ssh : Unmarshal) (send : List Reply → Reply → Option Message)
    (handler : Backend S) where
  x11_on-view :
      (conn : Option ℕ) (id : ℕ) (p : X11RequestPayload) (st : Session S)
      → view send (x11_on ssh send handler conn id p st).1
        ≡ (after_call handler (x11_call conn id p) st.handler, st.conn_map)
  unfolding x11_on call
  x11_on-view none id p st = refl
  x11_on-view (some conn) id p st = refl

  decoded-view :
      (connection_id : String) (id : ℕ) (payload : ChannelPayload) (st : Session S)
      → view send (handle_decoded_channel_request ssh send handler connection_id id payload st).1
        ≡ (
          after_call handler (call_of_payload connection_id st.conn_map id payload) st.handler,
          st.conn_map,
        )
  unfolding handle_decoded_channel_request call
  decoded-view connection_id id (x11 p) st =
      x11_on-view (find_connection connection_id st.conn_map) id p st
  decoded-view connection_id id payload st = refl

  pub dispatch-view :
      (connection_id : String) (id : ℕ) (request : Request)
      (decoded : Option (ChannelPayload × Option Message)) (st : Session S)
      → view send (dispatch ssh send handler connection_id id request decoded st) ≡ (
        after_call handler (call_of connection_id st.conn_map id request decoded) st.handler,
        st.conn_map,
      )
  unfolding dispatch call note logged_request reply
  dispatch-view connection_id id request none st =
      reply-view send request false (str_append "unsupported request type: " request.type)
        "Failed to send reply to client"
        (call ssh send handler (on_unsupported_channel_request id request.type request.payload)
          st).1
  dispatch-view connection_id id request (some (payload, some err)) st =
      reply-view send request false "failed to unmarshal payload" "Failed to send reply to client"
        (call ssh send handler
          (on_failed_decode_channel_request id request.type request.payload err)
          (note debug
            (wrap err "SSH_DECODE_FAILED"
              (str_append "failed to unmarshal " (str_append request.type " request payload")))
            st)).1
  dispatch-view connection_id id request (some (payload, none)) st =
      let st' = logged_request "SSH_CHANNEL_REQUEST" " channel request from client" request st in
      answered-view send "SSH_CHANNEL_REQUEST" " channel request from client" request
        (handle_decoded_channel_request ssh send handler connection_id id payload st')
      ∙ decoded-view connection_id id payload st'

  after_calls-with_call :
      (c : Option SessionRequest) (cs : List SessionRequest) (s : S)
      → after_calls handler (with_call c cs) s ≡ after_calls handler cs (after_call handler c s)
  unfolding after_calls
  after_calls-with_call none cs s = refl
  after_calls-with_call (some c) cs s = refl

  -- The loop over the requests of a session channel makes exactly the calls that the requests stand
  -- for, in their order, numbered one after the other, and then tells the handler of the end.
  pub handle_requests-calls :
      (connection_id : String) (id : ℕ) (requests : List Request) (st : Session S)
      → (handle_requests ssh send handler connection_id id requests st).handler
        ≡ after_calls handler (calls ssh connection_id st.conn_map id requests) st.handler
  unfolding handle_requests calls after_calls call handle_channel_request
  handle_requests-calls connection_id id [] st = refl
  handle_requests-calls connection_id id (request ∷ requests) st =
      let st' = handle_channel_request ssh send handler connection_id id request st in
      let next = (id + 1) % 2 ^ 64 in
      let c =
        call_of connection_id st.conn_map id request
          (unmarshal_channel_request_payload ssh request) in
      handle_requests-calls connection_id next requests st'
      ∙ ap (λ v. after_calls handler (calls ssh connection_id v.1 next requests) v.0)
          (dispatch-view connection_id id request (unmarshal_channel_request_payload ssh request)
            st)
      ∙ sym (after_calls-with_call c (calls ssh connection_id st.conn_map next requests) st.handler)

-- Behind the security layer a sequence of calls is what `serve` serves.
serve-after_calls :
    {S : Type 0} (config : SecurityConfig) (backend : Backend S) (cs : List SessionRequest)
    (w : World S)
    → after_calls (session_handler config backend) cs w ≡ serve config backend cs w
unfolding after_calls serve
serve-after_calls config backend [] w = refl
serve-after_calls config backend (c ∷ cs) w =
    serve-after_calls config backend cs (session_handler config backend c w).1

-- Whatever a client sends on a session channel of a server behind the security layer, what the calls
-- that the security rules allow keep true of the backend stays true, if the configuration passes its
-- check.
pub handle_requests-keeps :
    {S : Type 0} (config : SecurityConfig) (backend : Backend S) (P : S → Type 0)
    (keeps : (request : SessionRequest) (s : S)
      → IsAllowed config request
      → P s
      → P (backend request s).1)
    (ssh : Unmarshal) (send : List Reply → Reply → Option Message) (connection_id : String)
    (requests : List Request) (st : Session (World S))
    → validate config ≡ none
    → P st.handler.backend
    → P
        (handle_requests ssh send
          (session_handler config backend)
          connection_id
          0
          requests
          st).handler.backend
handle_requests-keeps config backend P keeps ssh send connection_id requests st valid p =
    let cs = calls ssh connection_id st.conn_map 0 requests in
    subst (λ w. P w.backend)
      (sym (
        handle_requests-calls ssh send (session_handler config backend) connection_id 0 requests st
        ∙ serve-after_calls config backend cs st.handler))
      (serve-keeps config backend P keeps cs st.handler valid p)
