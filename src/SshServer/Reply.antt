-- ===== src/SshServer/Reply.antt =====
-- internal/sshserver/serverImpl.go: the answers to requests, and the log. Log lines that have no code
-- are left out.

pub mod Answers
use Prim.Native.String.{◌++◌ as str_append}
use libcontainerssh.Common.{
  ℕ, String, str_eq, if◌then◌else◌, Bool, true, false, List, [], ◌∷◌, ◌++◌, Option, none, some,
}
use libcontainerssh.Message.{
  Message, error_text, new_message, wrap, label, Level, debug, Log, write_log,
}
use libcontainerssh.SshServer.Payloads.{Request, Reply}

-- The state of the handler that is called, the answers that the client has been sent, the log, and
-- the connections of the server, each known by a number.
pub record Session (S : Type 0) : Type 0 where
  pub handler : S
  pub replies : List Reply
  pub log : Log
  pub conn_map : List (String × ℕ)

-- A Go map is read by its key.
unfoldable pub find_connection : String → List (String × ℕ) → Option ℕ
find_connection key [] = none
find_connection key ((k, conn) ∷ rest) =
    if str_eq k key then some conn else find_connection key rest

unfoldable pub note : {S : Type 0} → Level → Message → Session S → Session S
note level m st = record st { log = write_log level m st.log }

-- The log line of a request, with its type.
unfoldable pub logged_request : {S : Type 0} → String → String → Request → Session S → Session S
unfolding note new_message label
logged_request code text request st =
    note debug (label "RequestType" request.type (new_message code (str_append request.type text)))
      st

-- `send` is the error, if there is one, of sending an answer after those that have been sent.
module _ {S : Type 0} (send : List Reply → Reply → Option Message) where
  -- An answer is sent if the client wants one; `complaint` is logged if that fails.
  unfoldable pub send_reply : Request → Bool → String → String → Session S → Session S
  unfolding note wrap
  send_reply request success message complaint st =
      let answer : Reply = record { success = success; message = message } in
      if request.want_reply
      then elim (send st.replies answer) [
        | none ↦ record st { replies = st.replies ++ (answer ∷ []) }
        | some err ↦ note debug (wrap err "SSH_REPLY_SEND_FAILED" complaint) st
      ]
      else st

  -- The function that `createReply` makes.
  unfoldable pub reply : Request → Bool → String → Session S → Session S
  unfolding send_reply
  reply request success message st =
      send_reply request success message "Failed to send reply to client" st

  -- The end of `handleChannelRequest` and `handleGlobalRequest`, from what the handler answered;
  -- `kind` begins the codes, and `words` is in the texts.
  unfoldable pub answered : String → String → Request → Option Message × Session S → Session S
  unfolding logged_request reply error_text
  answered kind words request (some err, st) =
      reply request false (error_text err)
        (logged_request (str_append kind "_FAILED") (str_append words " failed") request st)
  answered kind words request (none, st) =
      reply request true ""
        (logged_request (str_append kind "_SUCCESSFUL") (str_append words " successful") request st)
