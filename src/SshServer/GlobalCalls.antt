-- ===== src/SshServer/GlobalCalls.antt =====
-- internal/sshserver/serverImpl.go: what the requests on the connection itself become, and that the
-- loop over them does exactly that.
use mathlib.Core.List.{append_assoc, append-nil}
use Prim.Native.String.{◌++◌ as str_append}
use libcontainerssh.Common.{
  ℕ, ◌≡◌, refl, ap, sym, ◌∙◌, String, str_eq, if◌then◌else◌, Bool, false, List, [], ◌∷◌, ◌++◌,
  Option, none, some, Bool-cases, inl, inr,
}
use libcontainerssh.Message.{Message, error_text}
use libcontainerssh.Security.Connection.{
  ConnectionBackend, ConnectionRequest, Response, on_unsupported_global_request,
  on_failed_decode_global_request, on_request_tcp_reverse_forward,
  on_request_cancel_tcp_reverse_forward, on_request_stream_local, on_request_cancel_stream_local,
}
use libcontainerssh.SshServer.Payloads.{
  Request, Reply, Unmarshal, GlobalPayload, reverse_forward, cancel_reverse_forward,
  stream_local_forward, cancel_stream_local_forward, unmarshal_global_request_payload,
}
use libcontainerssh.SshServer.Reply.{
  Session, find_connection, note, send_reply, reply, logged_request, answered,
}
use libcontainerssh.SshServer.Reply.Answers.{
  view, verdict, failure_reply, wanted, reply-view, answered-view, reply-replies, answered-replies,
}
use libcontainerssh.SshServer.Global.{
  error_in, call_connection, handle_keep_alive_request, forward_on, handle_decoded_global_request,
  dispatch_global, handle_global_request, handle_global_requests,
}

-- What a request is for the handler: nothing, a call, or one that cannot be made.
pub data Task : Type 0 where
  nothing : Task
  call_with : ConnectionRequest → (Response → Reply) → Task
  no_connection : Task

abbrev on_connection : Option ℕ → (ℕ → ConnectionRequest) → Task
on_connection none request = no_connection
on_connection (some conn) request = call_with (request conn) (λ answer. verdict (error_in answer))

abbrev task_of_payload : String → List (String × ℕ) → GlobalPayload → Task
task_of_payload connection_id conns (reverse_forward p) =
    on_connection (find_connection connection_id conns)
      (λ conn. on_request_tcp_reverse_forward p.address p.port conn)
task_of_payload connection_id conns (cancel_reverse_forward p) =
    call_with (on_request_cancel_tcp_reverse_forward p.address p.port)
      (λ answer. verdict (error_in answer))
task_of_payload connection_id conns (stream_local_forward p) =
    on_connection (find_connection connection_id conns)
      (λ conn. on_request_stream_local p.socket_path conn)
task_of_payload connection_id conns (cancel_stream_local_forward p) =
    call_with (on_request_cancel_stream_local p.socket_path) (λ answer. verdict (error_in answer))

abbrev task_of_decoded :
    String → List (String × ℕ) → ℕ → Request → Option (GlobalPayload × Option Message) → Task
task_of_decoded connection_id conns id request none =
    call_with (on_unsupported_global_request id request.type request.payload)
      (λ answer. failure_reply (str_append "unsupported global request type: " request.type))
task_of_decoded connection_id conns id request (some (payload, some err)) =
    call_with (on_failed_decode_global_request id request.type request.payload err)
      (λ answer. failure_reply "failed to unmarshal payload")
task_of_decoded connection_id conns id request (some (payload, none)) =
    task_of_payload connection_id conns payload

-- A keepalive is nothing for the handler, although it has a number.
abbrev pub task_of : Unmarshal → String → List (String × ℕ) → ℕ → Request → Task
task_of ssh connection_id conns id request =
    if str_eq request.type "keepalive@openssh.com"
    then nothing
    else task_of_decoded connection_id conns id request
        (unmarshal_global_request_payload ssh request)

-- A task leads to a state of the handler and to an answer.
abbrev pub perform : {S : Type 0} → ConnectionBackend S → Task → S → Reply × S
perform handler nothing s = (failure_reply "", s)
perform handler (call_with request to_reply) s =
    let (answer, s') = handler request s in (to_reply answer, s')
perform handler no_connection s =
    (failure_reply "Couldn't find connection in map, something terrible happened", s)

-- The handler's state after the requests, and the answers that are wanted.
unfoldable pub perform_all :
    {S : Type 0}
    → ConnectionBackend S
    → Unmarshal
    → String
    → List (String × ℕ)
    → List (ℕ × Request)
    → S
    → List Reply × S
perform_all handler ssh connection_id conns [] s = ([], s)
perform_all handler ssh connection_id conns ((id, request) ∷ requests) s =
    let (answer, s') = perform handler (task_of ssh connection_id conns id request) s in
    let (answers, s'') = perform_all handler ssh connection_id conns requests s' in
    (wanted request answer ++ answers, s'')

module _ {S : Type 0} (ssh : Unmarshal) (send : List Reply → Reply → Option Message)
    (sends : (sent : List Reply) (answer : Reply) → send sent answer ≡ none)
    (handler : ConnectionBackend S) where
  -- A task is done but for the answer, which is not sent yet.
  abbrev Tells : Task → Session S → Option Message × Session S → Type 0
  Tells task st (failed, st') =
      (verdict failed ≡ (perform handler task st.handler).0)
      × (view send st' ≡ ((perform handler task st.handler).1, st.conn_map))
      × (st'.replies ≡ st.replies)

  forward_on-Tells :
      (conn : Option ℕ) (request : ℕ → ConnectionRequest) (st : Session S)
      → Tells (on_connection conn request) st (forward_on ssh send handler conn request st)
  unfolding forward_on call_connection error_text
  forward_on-Tells none request st = (refl, refl, refl)
  forward_on-Tells (some conn) request st = (refl, refl, refl)

  decoded-Tells :
      (connection_id : String) (payload : GlobalPayload) (st : Session S)
      → Tells
          (task_of_payload connection_id st.conn_map payload)
          st
          (handle_decoded_global_request ssh send handler connection_id payload st)
  unfolding handle_decoded_global_request call_connection
  decoded-Tells connection_id (reverse_forward p) st =
      forward_on-Tells (find_connection connection_id st.conn_map)
        (λ conn. on_request_tcp_reverse_forward p.address p.port conn) st
  decoded-Tells connection_id (cancel_reverse_forward p) st = (refl, refl, refl)
  decoded-Tells connection_id (stream_local_forward p) st =
      forward_on-Tells (find_connection connection_id st.conn_map)
        (λ conn. on_request_stream_local p.socket_path conn) st
  decoded-Tells connection_id (cancel_stream_local_forward p) st = (refl, refl, refl)

  -- A task is done, and its answer is sent where it is wanted.
  abbrev Does : Request → Task → Session S → Session S → Type 0
  Does request task st st' =
      (view send st' ≡ ((perform handler task st.handler).1, st.conn_map))
      × (st'.replies ≡ st.replies ++ wanted request (perform handler task st.handler).0)

  answered-Does :
      (kind words : String) (request : Request) (task : Task) (st : Session S)
      (told : Option Message × Session S)
      → Tells task st told
      → Does request task st (answered send kind words request told)
  answered-Does kind words request task st told (says, same, before) = (
    answered-view send kind words request told ∙ same,
    answered-replies send sends kind words request told
        ∙ ap (λ rs. rs ++ wanted request (verdict told.0)) before
        ∙ ap (λ a. st.replies ++ wanted request a) says,
  )

  reply-Does :
      (request : Request) (success : Bool) (message complaint : String) (task : Task)
      (st st' : Session S)
      → (perform handler task st.handler).0 ≡ record { success = success; message = message }
      → view send st' ≡ ((perform handler task st.handler).1, st.conn_map)
      → st'.replies ≡ st.replies
      → Does request task st (send_reply send request success message complaint st')
  reply-Does request success message complaint task st st' says same before = (
    reply-view send request success message complaint st' ∙ same,
    reply-replies send sends request success message complaint st'
        ∙ ap (λ rs. rs ++ wanted request (record { success = success; message = message })) before
        ∙ ap (λ a. st.replies ++ wanted request a) (sym says),
  )

  dispatch_global-Does :
      (connection_id : String) (id : ℕ) (request : Request)
      (decoded : Option (GlobalPayload × Option Message)) (st : Session S)
      → Does request
          (task_of_decoded connection_id st.conn_map id request decoded)
          st
          (dispatch_global ssh send handler connection_id id request decoded st)
  unfolding dispatch_global reply call_connection note logged_request
  dispatch_global-Does connection_id id request none st =
      reply-Does request false (str_append "unsupported global request type: " request.type)
        "Failed to send reply to client" (task_of_decoded connection_id st.conn_map id request none)
        st _ refl refl refl
  dispatch_global-Does connection_id id request (some (payload, some err)) st =
      reply-Does request false "failed to unmarshal payload" "Failed to send reply to client"
        (task_of_decoded connection_id st.conn_map id request (some (payload, some err))) st _ refl
        refl refl
  dispatch_global-Does connection_id id request (some (payload, none)) st =
      let st' = logged_request "SSH_GLOBAL_REQUEST" " global request from client" request st in
      answered-Does "SSH_GLOBAL_REQUEST" " global request from client" request
        (task_of_payload connection_id st.conn_map payload) st
        (handle_decoded_global_request ssh send handler connection_id payload st')
        (decoded-Tells connection_id payload st')

  handle_global_request-Does :
      (connection_id : String) (id : ℕ) (request : Request) (st : Session S)
      → Does request
          (task_of ssh connection_id st.conn_map id request)
          st
          (handle_global_request ssh send handler connection_id id request st)
  unfolding handle_global_request handle_keep_alive_request
  handle_global_request-Does connection_id id request st =
      elim (Bool-cases (str_eq request.type "keepalive@openssh.com")) [
        | inl e ↦ rw e (
            reply-Does request false ""
              (str_append "failed to send reply to global request type " request.type) nothing st st
              refl refl refl)
        | inr e ↦ rw e (
            dispatch_global-Does connection_id id request
              (unmarshal_global_request_payload ssh request) st)
      ]

  -- If every answer can be sent, the loop over the requests on a connection makes the handler's calls
  -- and gives the answers that the requests stand for, in their order, with whatever numbers the loop has
  -- read for them: a keepalive is answered with a failure and no call, a request that the
  -- server cannot read is a call and a failure, and any other is answered with what the call gives.
  pub handle_global_requests-performs :
      (connection_id : String) (requests : List (ℕ × Request)) (st : Session S)
      → let st' = handle_global_requests ssh send handler connection_id requests st in
        let (answers, s) = perform_all handler ssh connection_id st.conn_map requests st.handler in
        (st'.handler ≡ s) × (st'.replies ≡ st.replies ++ answers)
  unfolding handle_global_requests perform_all
  handle_global_requests-performs connection_id [] st = (refl, sym (append-nil st.replies))
  handle_global_requests-performs connection_id ((id, request) ∷ requests) st =
      let st' = handle_global_request ssh send handler connection_id id request st in
      let (same, told) = handle_global_request-Does connection_id id request st in
      let (state, answers) = handle_global_requests-performs connection_id requests st' in
      let answer =
        wanted request
          (perform handler (task_of ssh connection_id st.conn_map id request) st.handler).0 in
      let rest : S × List (String × ℕ) → List Reply × S =
        λ v. perform_all handler ssh connection_id v.1 requests v.0 in
      (
        state ∙ ap (λ v. (rest v).1) same,
        answers
            ∙ ap (λ rs. rs ++ (rest (view send st')).0) told
            ∙ ap (λ v. st.replies ++ answer ++ (rest v).0) same
            ∙ append_assoc st.replies answer _,
      )
