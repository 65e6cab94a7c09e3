-- ===== src/SshServer/Replies.antt =====
-- internal/sshserver/serverImpl.go: which answers the server gives to the requests on a session
-- channel, as calls of `Reply` of the SSH library: whether it succeeded, and a text. The library sends
-- no text on a channel.
use Prim.Native.String.{◌++◌ as str_append}
use mathlib.Core.List.{append-nil, append_assoc}
use libcontainerssh.Common.{
  ℕ, ◌+◌, ◌%◌, ◌^◌, ◌≡◌, refl, ap, sym, ◌∙◌, String, false, List, [], ◌∷◌, ◌++◌, Option, none, some,
}
use libcontainerssh.Message.{Message, error_text, wrap, debug}
use libcontainerssh.Security.Backend.{
  Backend, SessionRequest, on_unsupported_channel_request, on_failed_decode_channel_request,
}
use libcontainerssh.SshServer.Payloads.{
  Request, Reply, Unmarshal, ChannelPayload, x11, X11RequestPayload,
  unmarshal_channel_request_payload,
}
use libcontainerssh.SshServer.Reply.{Session, find_connection, note, reply, logged_request}
use libcontainerssh.SshServer.Reply.Answers.{
  failure_reply, verdict, wanted, reply-replies, answered-replies,
}
use libcontainerssh.SshServer.Requests.{
  call, x11_on, dispatch, handle_decoded_channel_request, handle_channel_request, handle_requests,
}
use libcontainerssh.SshServer.Calls.{call_of, call_of_payload, x11_call, after_call, dispatch-view}

module _ {S : Type 0} (handler : Backend S) where
  -- The answer to a call that is to be made, and to one that cannot be.
  abbrev pub answer_to : Option SessionRequest → S → Reply
  answer_to none s = failure_reply "Couldn't find connection in map, something terrible happened"
  answer_to (some c) s = verdict (handler c s).0

  -- The answer to a request, from what was decoded of it.
  abbrev pub answer_of :
      String
      → List (String × ℕ)
      → ℕ
      → Request
      → Option (ChannelPayload × Option Message)
      → S
      → Reply
  answer_of connection_id conns id request none s =
      failure_reply (str_append "unsupported request type: " request.type)
  answer_of connection_id conns id request (some (payload, some err)) s =
      failure_reply "failed to unmarshal payload"
  answer_of connection_id conns id request (some (payload, none)) s =
      answer_to (call_of_payload connection_id conns id payload) s

-- The answers to a channel's requests, one for each request that wants one.
unfoldable pub answers :
    {S : Type 0}
    → Backend S
    → Unmarshal
    → String
    → List (String × ℕ)
    → ℕ
    → List Request
    → S
    → List Reply
answers handler ssh connection_id conns id [] s = []
answers handler ssh connection_id conns id (request ∷ requests) s =
    let decoded = unmarshal_channel_request_payload ssh request in
    wanted request (answer_of handler connection_id conns id request decoded s)
    ++ answers handler ssh connection_id conns ((id + 1) % 2 ^ 64) requests
        (after_call handler (call_of connection_id conns id request decoded) s)

module _ {S : Type 0} (ssh : Unmarshal) (send : List Reply → Reply → Option Message)
    (handler : Backend S)
    (sends : (sent : List Reply) (answer : Reply) → send sent answer ≡ none) where
  -- What the client is to be told, and that it has not been told yet.
  abbrev Tells : Reply → Session S → Option Message × Session S → Type 0
  Tells answer st (failed, st') = (verdict failed ≡ answer) × (st'.replies ≡ st.replies)

  x11_on-Tells :
      (conn : Option ℕ) (id : ℕ) (p : X11RequestPayload) (st : Session S)
      → Tells
          (answer_to handler (x11_call conn id p) st.handler)
          st
          (x11_on ssh send handler conn id p st)
  unfolding x11_on call error_text
  x11_on-Tells none id p st = (refl, refl)
  x11_on-Tells (some conn) id p st = (refl, refl)

  decoded-Tells :
      (connection_id : String) (id : ℕ) (payload : ChannelPayload) (st : Session S)
      → Tells
          (answer_to handler (call_of_payload connection_id st.conn_map id payload) st.handler)
          st
          (handle_decoded_channel_request ssh send handler connection_id id payload st)
  unfolding handle_decoded_channel_request call
  decoded-Tells connection_id id (x11 p) st =
      x11_on-Tells (find_connection connection_id st.conn_map) id p st
  decoded-Tells connection_id id payload st = (refl, refl)

  pub dispatch-replies :
      (connection_id : String) (id : ℕ) (request : Request)
      (decoded : Option (ChannelPayload × Option Message)) (st : Session S)
      → (dispatch ssh send handler connection_id id request decoded st).replies
        ≡ st.replies
          ++ wanted request
              (answer_of handler connection_id st.conn_map id request decoded st.handler)
  unfolding dispatch call note logged_request reply
  dispatch-replies connection_id id request none st =
      reply-replies send sends request false (str_append "unsupported request type: " request.type)
        "Failed to send reply to client"
        (call ssh send handler (on_unsupported_channel_request id request.type request.payload)
          st).1
  dispatch-replies connection_id id request (some (payload, some err)) st =
      reply-replies send sends request false "failed to unmarshal payload"
        "Failed to send reply to client"
        (call ssh send handler
          (on_failed_decode_channel_request id request.type request.payload err)
          (note debug
            (wrap err "SSH_DECODE_FAILED"
              (str_append "failed to unmarshal " (str_append request.type " request payload")))
            st)).1
  dispatch-replies connection_id id request (some (payload, none)) st =
      let st' = logged_request "SSH_CHANNEL_REQUEST" " channel request from client" request st in
      let done = handle_decoded_channel_request ssh send handler connection_id id payload st' in
      let (told, same) = decoded-Tells connection_id id payload st' in
      answered-replies send sends "SSH_CHANNEL_REQUEST" " channel request from client" request done
      ∙ ap (λ rs. rs ++ wanted request (verdict done.0)) same
      ∙ ap (λ a. st.replies ++ wanted request a) told

  -- If every call of the library's Reply succeeds, the loop over the requests of a session channel
  -- calls it once for each request that wants an answer, in the order of the requests. The call says
  -- success, with no text, exactly if the request could be decoded, the connection was found where the
  -- request needs it, and the handler, in the state that the requests before have led to, has no
  -- error. Otherwise it says failure, and the text that it hands to the library is that of the
  -- handler's error, or a fixed one where the request is of an unknown type or could not be decoded or
  -- the connection was not found. What the library sends of the text is not said.
  pub handle_requests-replies :
      (connection_id : String) (id : ℕ) (requests : List Request) (st : Session S)
      → (handle_requests ssh send handler connection_id id requests st).replies
        ≡ st.replies ++ answers handler ssh connection_id st.conn_map id requests st.handler
  unfolding handle_requests answers call handle_channel_request
  handle_requests-replies connection_id id [] st = sym (append-nil st.replies)
  handle_requests-replies connection_id id (request ∷ requests) st =
      let decoded = unmarshal_channel_request_payload ssh request in
      let next = (id + 1) % 2 ^ 64 in
      let st' = dispatch ssh send handler connection_id id request decoded st in
      let answer =
        wanted request
          (answer_of handler connection_id st.conn_map id request decoded st.handler) in
      handle_requests-replies connection_id next requests st'
      ∙ ap (λ v. st'.replies ++ answers handler ssh connection_id v.1 next requests v.0)
          (dispatch-view ssh send handler connection_id id request decoded st)
      ∙ ap
          (λ rs.
            rs
            ++ answers handler ssh connection_id st.conn_map next requests (
                after_call handler (call_of connection_id st.conn_map id request decoded)
                  st.handler))
          (dispatch-replies connection_id id request decoded st)
      ∙ append_assoc st.replies answer (
          answers handler ssh connection_id st.conn_map next requests
            (after_call handler (call_of connection_id st.conn_map id request decoded) st.handler))
