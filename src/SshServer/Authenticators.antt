-- ===== src/SshServer/Authenticators.antt =====
-- internal/sshserver/serverImpl.go: the callbacks by which the SSH library has a client authenticated.
use Prim.Native.String.{◌++◌ as str_append}
use libcontainerssh.Common.{
  ℕ, String, Bool, true, false, List, [], ◌∷◌, map, Option, none, some, Call, returns, panics, ◌⊎◌,
  inl, inr,
}
use libcontainerssh.Message.{
  Message, Labels, Log, error_text, info, label, set_label, new_message, user_message, wrap_user,
  write_log,
}
use libcontainerssh.Metadata.{
  ConnectionMetadata, ConnectionAuthPendingMetadata, ConnectionAuthenticatedMetadata,
  start_authentication,
}
use libcontainerssh.AuthIntegration.Interface.{
  auth_success, auth_failure, auth_unavailable, AuthResult, Credentials, password, pub_key,
  keyboard_interactive, Challenge, KeyboardInteractiveQuestion, NetworkConnectionHandler,
}
use libcontainerssh.AuthIntegration.Questions.{get_id}

-- What the library says of the client, `ssh.ConnMetadata`.
pub record Client : Type 0 where
  pub client_version : String
  pub user : String

-- The extension "containerssh-metadata" of the permissions that a callback gives.
pub record Permissions : Type 0 where
  pub metadata : String

-- What the callbacks use of a GSSAPI server, whose state is `G`; its methods may panic.
pub record GssApi (G S : Type 0) : Type 0 where
  pub success : G → S → Call Bool
  pub error : G → S → Call (Option Message)
  pub allow_login :
      String
      → ConnectionAuthPendingMetadata
      → G
      → S
      → Call ((ConnectionAuthenticatedMetadata × Option Message) × G × S)

-- The state of the handler of the network connection, that of its GSSAPI server, that of all that is
-- outside, and the log.
pub record Gate (G H S : Type 0) : Type 0 where
  pub handler : H
  pub gss : G
  pub outside : S
  pub log : Log

pub data Method : Type 0 where
  password_method pub_key_method keyboard_interactive_method gssapi_method : Method

abbrev pub method_name : Method → String
method_name password_method = "Password"
method_name pub_key_method = "Public key"
method_name keyboard_interactive_method = "Keyboard-interactive"
method_name gssapi_method = "GSSAPI"

abbrev pub method_label : Method → String
method_label password_method = "password"
method_label pub_key_method = "public key"
method_label keyboard_interactive_method = "keyboard-interactive"
method_label gssapi_method = "gssapi"

unfoldable pub method_text : Method → String → String → String
method_text method username end =
    str_append (method_name method)
      (str_append " authentication for user " (str_append username end))

unfoldable pub method_labels : Method → String → Message → Message
unfolding label
method_labels method username m = label "method" (method_label method) (label "username" username m)

unfoldable pub auth_failure_message :
    Method → ConnectionAuthPendingMetadata → Option Message → Message
unfolding user_message wrap_user error_text method_text method_labels label
auth_failure_message method meta none = method_labels method meta.username (
    user_message "SSH_AUTH_FAILED" "Authentication failed."
      (method_text method meta.username " failed."))
auth_failure_message method meta (some err) = label "reason" (error_text err) (
    method_labels method meta.username (
      wrap_user err "SSH_AUTH_FAILED" "Authentication failed."
        (method_text method meta.username " failed.")))

unfoldable pub auth_unavailable_message : Method → ConnectionAuthPendingMetadata → Message → Message
unfolding wrap_user error_text method_text method_labels label
auth_unavailable_message method meta err = label "reason" (error_text err) (
    method_labels method meta.username (
      wrap_user err "SSH_AUTH_UNAVAILABLE"
        "Authentication is currently unavailable, please try a different authentication method or try again later."
        (method_text method meta.username " currently unavailable.")))

unfoldable pub auth_successful_message : Method → ConnectionAuthenticatedMetadata → Message
unfolding user_message method_text method_labels
auth_successful_message method meta = method_labels method meta.pending.username (
    user_message "SSH_AUTH_SUCCESSFUL" "Authentication successful."
      (method_text method meta.pending.username " successful."))

-- The questions that are put to the client, who is given the texts and whether to show what is typed.
-- The client answers each of them or fails, so that there are no more answers than questions.
abbrev pub Prompt : Type 0 → Type 0
Prompt S = String → String → List String → List Bool → S → (List String × Option Message) × S

-- The loop over the client's answers.
unfoldable pub fill_answers : List KeyboardInteractiveQuestion → List String → Labels → Labels
unfolding get_id set_label
fill_answers (question ∷ questions) (raw ∷ answers) filled =
    fill_answers questions answers (set_label (get_id question) raw filled)
fill_answers questions answers filled = filled

unfoldable pub challenge_wrapper : {S : Type 0} → Prompt S → String → Challenge S
unfolding fill_answers
challenge_wrapper prompt user instruction questions s =
    let ((answers, failed), s') =
      prompt user instruction (map (λ q. q.question) questions)
        (map (λ q. q.echo_response) questions) s in
    ((fill_answers questions answers [], failed), s')

-- An attempt of a client to be let in: the password, the key as it is written in an authorized_keys
-- file and without spaces around it, the client that is asked, or GSSAPI.
pub data Attempt (S : Type 0) : Type 0 where
  by_password : List ℕ → Attempt S
  by_pub_key : String → Attempt S
  by_keyboard_interactive : Prompt S → Attempt S
  by_gssapi : Attempt S

module _ {G H S : Type 0} (connection : NetworkConnectionHandler H S)
    (marshal : ConnectionAuthenticatedMetadata → Message ⊎ String) (meta : ConnectionMetadata) where
  unfoldable pub note_auth : Message → Gate G H S → Gate G H S
  note_auth m gate = record gate { log = write_log info m gate.log }

  -- What follows the handler's answer: `createPasswordAuthenticator` and the two like it.
  unfoldable pub judge :
      Method
      → ConnectionAuthPendingMetadata
      → AuthResult
      → Gate G H S
      → Call ((ConnectionAuthenticatedMetadata × Option Message) × Gate G H S)
  unfolding note_auth auth_failure_message auth_unavailable_message auth_successful_message
  judge method authenticating (auth_success, after, err) gate =
      returns ((after, none), note_auth (auth_successful_message method after) gate)
  judge method authenticating (auth_failure, after, err) gate =
      let failed = auth_failure_message method authenticating err in
      returns ((after, some failed), note_auth failed gate)
  judge method authenticating (auth_unavailable, after, some err) gate =
      let failed = auth_unavailable_message method authenticating err in
      returns ((after, some failed), note_auth failed gate)
  judge method authenticating (auth_unavailable, after, none) gate = panics

  unfoldable pub authenticate :
      Method
      → Client
      → Credentials S
      → Gate G H S
      → Call ((ConnectionAuthenticatedMetadata × Option Message) × Gate G H S)
  unfolding judge
  authenticate method client credentials gate =
      let authenticating = start_authentication meta client.client_version client.user in
      let (result, h, s) =
        connection.on_auth credentials authenticating gate.handler gate.outside in
      judge method authenticating result (record gate { handler = h; outside = s })

  -- `createPasswordCallback` and the two like it, from what the authenticator gave.
  unfoldable pub permit :
      Call ((ConnectionAuthenticatedMetadata × Option Message) × Gate G H S)
      → Call ((Option Permissions × Option Message) × Gate G H S)
  permit panics = panics
  permit (returns ((after, some err), gate)) = returns ((none, some err), gate)
  permit (returns ((after, none), gate)) = elim (marshal after) [
    | inl err ↦ returns ((none, some err), gate)
    | inr text ↦ returns ((some (record { metadata = text }), none), gate)
  ]

  unfoldable pub callback :
      Method
      → Client
      → Credentials S
      → Gate G H S
      → Call ((Option Permissions × Option Message) × Gate G H S)
  unfolding authenticate permit
  callback method client credentials gate = permit (authenticate method client credentials gate)

  -- The function `AllowLogin`, from what the server's `Success` says.
  unfoldable pub refuse_login :
      GssApi G S → Gate G H S → Call ((Option Permissions × Option Message) × Gate G H S)
  unfolding new_message
  refuse_login server gate = elim (server.error gate.gss gate.outside) [
    | panics ↦ panics
    | returns none ↦
        returns ((none, some (new_message "SSH_AUTH_FAILED" "Authentication failed")), gate)
    | returns (some err) ↦ returns ((none, some err), gate)
  ]

  unfoldable pub conclude_login :
      ConnectionAuthPendingMetadata
      → Call ((ConnectionAuthenticatedMetadata × Option Message) × G × S)
      → Gate G H S
      → Call ((Option Permissions × Option Message) × Gate G H S)
  unfolding note_auth auth_failure_message auth_successful_message permit
  conclude_login authenticating panics gate = panics
  conclude_login authenticating (returns ((after, some err), g, s)) gate =
      let failed = auth_failure_message gssapi_method authenticating (some err) in
      returns ((none, some failed), note_auth failed (record gate { gss = g; outside = s }))
  conclude_login authenticating (returns ((after, none), g, s)) gate = permit (
      returns (
        (after, none),
        note_auth (auth_successful_message gssapi_method after)
            (record gate { gss = g; outside = s }),
      ))

  unfoldable pub allow_login_callback :
      GssApi G S → Client → Gate G H S → Call ((Option Permissions × Option Message) × Gate G H S)
  unfolding refuse_login conclude_login
  allow_login_callback server client gate = elim (server.success gate.gss gate.outside) [
    | panics ↦ panics
    | returns false ↦ refuse_login server gate
    | returns true ↦
        let authenticating = start_authentication meta client.client_version client.user in
        conclude_login authenticating
          (server.allow_login client.user authenticating gate.gss gate.outside) gate
  ]

  -- `createAuthenticators`: what the library calls for each kind of attempt. There is no GSSAPI
  -- callback without a GSSAPI server, and the library then refuses the attempt itself.
  unfoldable pub callbacks :
      Option (GssApi G S)
      → Client
      → Attempt S
      → Gate G H S
      → Option (Call ((Option Permissions × Option Message) × Gate G H S))
  unfolding callback allow_login_callback challenge_wrapper
  callbacks server client (by_password word) gate =
      some (callback password_method client (password word) gate)
  callbacks server client (by_pub_key authorized_key) gate =
      some (callback pub_key_method client (pub_key authorized_key) gate)
  callbacks server client (by_keyboard_interactive prompt) gate = some (
      callback keyboard_interactive_method client
        (keyboard_interactive (challenge_wrapper prompt client.user)) gate)
  callbacks none client by_gssapi gate = none
  callbacks (some server) client by_gssapi gate = some (allow_login_callback server client gate)
