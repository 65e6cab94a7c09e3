-- ===== src/SshServer/Reply/Answers.antt =====
-- internal/sshserver/serverImpl.go: what an answer to a request changes.
use mathlib.Core.List.{append-nil}
use Prim.Native.String.{◌++◌ as str_append}
use libcontainerssh.Common.{
  ℕ, ◌≡◌, String, if◌then◌else◌, Bool, true, false, List, [], ◌∷◌, ◌++◌, Option, none, some, arith,
}
use libcontainerssh.Message.{Message, error_text}
use libcontainerssh.SshServer.Payloads.{Request, Reply}
use libcontainerssh.SshServer.Reply.{Session, note, logged_request, send_reply, reply, answered}

abbrev pub success_reply : Reply
success_reply = record { success = true; message = "" }

abbrev pub failure_reply : String → Reply
failure_reply text = record { success = false; message = text }

abbrev pub verdict : Option Message → Reply
verdict none = success_reply
verdict (some err) = failure_reply (error_text err)

abbrev pub wanted : Request → Reply → List Reply
wanted request answer = if request.want_reply then answer ∷ [] else []

module _ {S : Type 0} (send : List Reply → Reply → Option Message) where
  -- What is left of a state: the handler's, and the connections.
  abbrev pub view : Session S → S × List (String × ℕ)
  view st = (st.handler, st.conn_map)

  pub reply-view :
      (request : Request) (success : Bool) (message complaint : String) (st : Session S)
      → view (send_reply send request success message complaint st) ≡ view st
  unfolding send_reply note
  reply-view request success message complaint st = ground arith

  pub answered-view :
      (kind words : String) (request : Request) (r : Option Message × Session S)
      → view (answered send kind words request r) ≡ view r.1
  unfolding answered logged_request note reply
  answered-view kind words request (none, st) =
      reply-view request true "" "Failed to send reply to client"
        (logged_request (str_append kind "_SUCCESSFUL") (str_append words " successful") request st)
  answered-view kind words request (some err, st) =
      reply-view request false (error_text err) "Failed to send reply to client"
        (logged_request (str_append kind "_FAILED") (str_append words " failed") request st)

  module _ (sends : (sent : List Reply) (answer : Reply) → send sent answer ≡ none) where
    pub reply-replies :
        (request : Request) (success : Bool) (message complaint : String) (st : Session S)
        → (send_reply send request success message complaint st).replies
          ≡ st.replies ++ wanted request (record { success = success; message = message })
    unfolding send_reply
    reply-replies request success message complaint st = ground (
      arith,
      append-nil st.replies,
      sends st.replies (record { success = success; message = message }),
    )

    pub answered-replies :
        (kind words : String) (request : Request) (r : Option Message × Session S)
        → (answered send kind words request r).replies ≡ r.1.replies ++ wanted request (verdict r.0)
    unfolding answered logged_request note reply
    answered-replies kind words request (none, st) =
        reply-replies request true "" "Failed to send reply to client" (
          logged_request (str_append kind "_SUCCESSFUL") (str_append words " successful") request
            st)
    answered-replies kind words request (some err, st) =
        reply-replies request false (error_text err) "Failed to send reply to client"
          (logged_request (str_append kind "_FAILED") (str_append words " failed") request st)
