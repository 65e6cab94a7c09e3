-- ===== src/SshServer/Refusals.antt =====
-- internal/sshserver/serverImpl.go over internal/security: what becomes of a request that the
-- documentation of the security settings does not permit.
use libcontainerssh.Common.{
  ℕ, ◌≡◌, refl, ap, ◌∙◌, String, true, List, [], ◌∷◌, ◌++◌, Option, none, some, if◌then◌else◌,
}
use libcontainerssh.Message.{Message, error_text}
use libcontainerssh.Security.Config.{SecurityConfig}
use libcontainerssh.Security.Documented.{IsDocumented, KeepsTo, unpermitted-IsRefused}
use libcontainerssh.Security.Validate.{validate}
use libcontainerssh.Security.Backend.{Backend, World, SessionRequest}
use libcontainerssh.Security.Decisions.{error_code, refusal_code}
use libcontainerssh.Security.Session.{session_handler}
use libcontainerssh.SshServer.Payloads.{
  Request, Reply, Unmarshal, ChannelPayload, unmarshal_channel_request_payload,
}
use libcontainerssh.SshServer.Reply.{Session}
use libcontainerssh.SshServer.Reply.Answers.{verdict, failure_reply, wanted}
use libcontainerssh.SshServer.Requests.{handle_channel_request, dispatch}
use libcontainerssh.SshServer.Calls.{call_of, call_of_payload, after_call, dispatch-view}
use libcontainerssh.SshServer.Replies.{answer_of, answer_to, dispatch-replies}

-- An answer with an error's code is a failure.
verdict-error_code :
    (code : String) (failed : Option Message)
    → error_code failed ≡ some code
    → (text : String) × (verdict failed ≡ failure_reply text)
verdict-error_code code none e = cc
verdict-error_code code (some err) e = (error_text err, refl)

module _ {S : Type 0} (config : SecurityConfig) (backend : Backend S) (ssh : Unmarshal)
    (send : List Reply → Reply → Option Message)
    (sends : (sent : List Reply) (answer : Reply) → send sent answer ≡ none) where
  -- If every answer can be sent and the security configuration passes its check: a request that is
  -- decoded to a call that the documentation of the security settings does not permit, and that wants
  -- an answer, is answered once, with a failure, and leaves the backend as it was, whatever the backend
  -- is. What is asked for must not be both on the allow list and on the deny list, and for a signal
  -- the shell must have the mode of the signals.
  pub handle_channel_request-refuses :
      (connection_id : String) (id : ℕ) (request : Request) (payload : ChannelPayload)
      (c : SessionRequest) (st : Session (World S))
      → validate config ≡ none
      → unmarshal_channel_request_payload ssh request ≡ some (payload, none)
      → call_of_payload connection_id st.conn_map id payload ≡ some c
      → KeepsTo config c
      → ¬ IsDocumented config c
      → request.want_reply ≡ true
      → let st' =
          handle_channel_request ssh send
            (session_handler config backend)
            connection_id
            id
            request
            st in
        (st'.handler.backend ≡ st.handler.backend)
        × ((text : String) × (st'.replies ≡ st.replies ++ (failure_reply text ∷ [])))
  unfolding handle_channel_request
  handle_channel_request-refuses connection_id id request payload c st valid e called keeps refused
        want =
      let handler = session_handler config backend in
      let decoded = unmarshal_channel_request_payload ssh request in
      let (code, logged, kept) =
        unpermitted-IsRefused config backend c st.handler valid keeps refused in
      let (text, told) = verdict-error_code (refusal_code c) (handler c st.handler).0 code in
      let answer : answer_of handler connection_id st.conn_map id request decoded st.handler
          ≡ failure_reply text =
        ap (λ d. answer_of handler connection_id st.conn_map id request d st.handler) e
        ∙ ap (λ o. answer_to handler o st.handler) called
        ∙ told in
      let view : (dispatch ssh send handler connection_id id request decoded st).handler
          ≡ (handler c st.handler).1 =
        ap (λ v. v.0) (dispatch-view ssh send handler connection_id id request decoded st)
        ∙ ap (λ d. after_call handler (call_of connection_id st.conn_map id request d) st.handler) e
        ∙ ap (λ o. after_call handler o st.handler) called in
      (
        ap (λ w. w.backend) view ∙ kept,
        (
          text,
          dispatch-replies ssh send handler sends connection_id id request decoded st
              ∙ ap (λ a. st.replies ++ wanted request a) answer
              ∙ ap (λ b. st.replies ++ (if b then failure_reply text ∷ [] else [])) want,
        ),
      )
