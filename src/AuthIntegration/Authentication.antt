-- ===== src/AuthIntegration/Authentication.antt =====
-- internal/authintegration/handler.go: `networkConnectionHandler`, which asks the authenticators.
use libcontainerssh.Common.{ℕ, String, if◌then◌else◌, Bool, true, false, List, Option, none, some}
use libcontainerssh.Message.{user_message}
use libcontainerssh.Metadata.{ConnectionMetadata, ConnectionAuthPendingMetadata, auth_failed}
use libcontainerssh.AuthIntegration.Interface.{
  auth_success, auth_failure, auth_unavailable, AuthResult, AuthenticationContext, Challenge,
  Credentials, password, pub_key, keyboard_interactive, Authenticators, GssApiServer,
  NetworkConnectionHandler,
}
use libcontainerssh.AuthIntegration.Questions.{adapt}

-- The constants of the type, which is an integer in the source, and its other values.
pub data Behavior : Type 0 where
  no_passthrough passthrough_on_failure passthrough_on_success : Behavior
  passthrough_on_unavailable : Behavior
  other_behavior : ℕ → Behavior

abbrev pub validate : Behavior → Bool
validate (other_behavior n) = false
validate _ = true

abbrev pub on_failure : Behavior → Bool
on_failure passthrough_on_failure = true
on_failure _ = false

abbrev pub on_success : Behavior → Bool
on_success passthrough_on_success = true
on_success _ = false

abbrev pub on_unavailable : Behavior → Bool
on_unavailable passthrough_on_unavailable = true
on_unavailable _ = false

-- The fields that change: the context of the last attempt, and the state of the backend.
pub record AuthHandler (H : Type 0) : Type 0 where
  pub auth_context : Option AuthenticationContext
  pub backend_state : H

module _ {H S : Type 0} (behavior : Behavior) (authenticators : Authenticators S)
    (backend : NetworkConnectionHandler H S) where
  -- With what each method begins.
  unfoldable pub dismiss : AuthHandler H → S → S
  dismiss h s = elim h.auth_context [
    | none ↦ s
    | some context ↦ authenticators.on_disconnect context s
  ]

  -- What a method answers if its authenticator is nil; the context stays.
  unfoldable pub disabled :
      String → ConnectionAuthPendingMetadata → AuthHandler H → S → AuthResult × AuthHandler H × S
  unfolding dismiss auth_failed user_message
  disabled explanation meta h s = (
    (
      auth_unavailable,
      auth_failed meta,
      some (
          user_message "SSH_AUTH_UNAVAILABLE" "This authentication method is currently unavailable."
            explanation),
    ),
    h,
    dismiss h s,
  )

  -- The same method of the backend.
  unfoldable pub pass_through :
      Credentials S
      → ConnectionAuthPendingMetadata
      → AuthHandler H
      → S
      → AuthResult × AuthHandler H × S
  pass_through credentials meta h s =
      let (answer, b, s') = backend.on_auth credentials meta h.backend_state s in
      (answer, record h { backend_state = b }, s')

  -- The rest of `OnAuthPassword`, from the context of the authenticator.
  unfoldable pub conclude_password :
      List ℕ
      → ConnectionAuthPendingMetadata
      → AuthHandler H
      → AuthenticationContext × S
      → AuthResult × AuthHandler H × S
  unfolding pass_through auth_failed
  conclude_password word meta h (context, s) =
      let h' = record h { auth_context = some context } in
      if context.success
      then if on_success behavior
        then pass_through (password word) meta h' s
        else ((auth_success, context.metadata, none), h', s)
      else elim context.error [
        | some err ↦
            if on_unavailable behavior
            then pass_through (password word) meta h' s
            else ((auth_unavailable, auth_failed meta, some err), h', s)
        | none ↦
            if on_failure behavior
            then pass_through (password word) meta h' s
            else ((auth_failure, auth_failed meta, none), h', s)
      ]

  -- The rest of `OnAuthPubKey` and `OnAuthKeyboardInteractive`, which answer what the context has.
  unfoldable pub conclude :
      Credentials S
      → ConnectionAuthPendingMetadata
      → AuthHandler H
      → AuthenticationContext × S
      → AuthResult × AuthHandler H × S
  unfolding pass_through
  conclude credentials meta h (context, s) =
      let h' = record h { auth_context = some context } in
      if context.success
      then if on_success behavior
        then pass_through credentials meta h' s
        else ((auth_success, context.metadata, context.error), h', s)
      else elim context.error [
        | some err ↦
            if on_unavailable behavior
            then pass_through credentials meta h' s
            else ((auth_unavailable, context.metadata, context.error), h', s)
        | none ↦
            if on_failure behavior
            then pass_through credentials meta h' s
            else ((auth_failure, context.metadata, context.error), h', s)
      ]

  unfoldable pub on_auth_password :
      List ℕ → ConnectionAuthPendingMetadata → AuthHandler H → S → AuthResult × AuthHandler H × S
  unfolding disabled dismiss conclude_password
  on_auth_password word meta h s = elim authenticators.password_authenticator [
    | none ↦ disabled "Password authentication is disabled." meta h s
    | some authenticate ↦ conclude_password word meta h (authenticate meta word (dismiss h s))
  ]

  unfoldable pub on_auth_pub_key :
      String → ConnectionAuthPendingMetadata → AuthHandler H → S → AuthResult × AuthHandler H × S
  unfolding disabled dismiss conclude
  on_auth_pub_key key meta h s = elim authenticators.public_key_authenticator [
    | none ↦ disabled "Public key authentication is disabled." meta h s
    | some authenticate ↦ conclude (pub_key key) meta h (authenticate meta key (dismiss h s))
  ]

  unfoldable pub on_auth_keyboard_interactive :
      Challenge S
      → ConnectionAuthPendingMetadata
      → AuthHandler H
      → S
      → AuthResult × AuthHandler H × S
  unfolding disabled dismiss conclude adapt
  on_auth_keyboard_interactive challenge meta h s =
      elim authenticators.keyboard_interactive_authenticator [
        | none ↦ disabled "Keyboard-interactive authentication is disabled." meta h s
        | some authenticate ↦
            conclude (keyboard_interactive challenge) meta h
              (authenticate meta (adapt challenge) (dismiss h s))
      ]

  unfoldable pub on_auth_gssapi : ConnectionMetadata → S → Option (GssApiServer S) × S
  on_auth_gssapi meta s = elim authenticators.gssapi_authenticator [
    | none ↦ (none, s)
    | some authenticate ↦ let (server, s') = authenticate meta s in (some server, s')
  ]

  unfoldable pub on_auth :
      Credentials S
      → ConnectionAuthPendingMetadata
      → AuthHandler H
      → S
      → AuthResult × AuthHandler H × S
  unfolding on_auth_password on_auth_pub_key on_auth_keyboard_interactive
  on_auth (password word) meta h s = on_auth_password word meta h s
  on_auth (pub_key key) meta h s = on_auth_pub_key key meta h s
  on_auth (keyboard_interactive challenge) meta h s =
      on_auth_keyboard_interactive challenge meta h s

  -- The other methods pass the call on; OnDisconnect ends the last attempt first.
  unfoldable pub auth_handler : NetworkConnectionHandler (AuthHandler H) S
  unfolding on_auth dismiss
  auth_handler = record {
    on_auth = on_auth;
    on_handshake_failed = λ meta reason h s.
        let (b, s') = backend.on_handshake_failed meta reason h.backend_state s in
        (record h { backend_state = b }, s');
    on_handshake_success = λ meta h s.
        let (answer, b, s') = backend.on_handshake_success meta h.backend_state s in
        (answer, record h { backend_state = b }, s');
    on_disconnect = λ h s.
        let (b, s') = backend.on_disconnect h.backend_state (dismiss h s) in
        (record h { backend_state = b }, s');
    on_shutdown = λ h s.
        let (b, s') = backend.on_shutdown h.backend_state s in (record h { backend_state = b }, s');
  }
