-- ===== src/AuthIntegration/Interface.antt =====
-- internal/sshserver/handler.go and internal/auth/authentication.go: the interfaces between the SSH
-- server, the handler that authenticates, its authenticators, and the backend below it.
use libcontainerssh.Common.{ℕ, String, Bool, List, Option}
use libcontainerssh.Message.{Message, Labels}
use libcontainerssh.Metadata.{
  ConnectionMetadata, ConnectionAuthPendingMetadata, ConnectionAuthenticatedMetadata,
}

pub data AuthResponse : Type 0 where
  auth_success auth_failure auth_unavailable : AuthResponse

abbrev pub AuthResult : Type 0
AuthResult = AuthResponse × ConnectionAuthenticatedMetadata × Option Message

-- Both packages have a type of this name with the same fields.
pub record KeyboardInteractiveQuestion : Type 0 where
  pub id : String
  pub question : String
  pub echo_response : Bool

-- A challenge asks the client, who answers with a map of texts or with an error. `S` is the state of
-- all that is outside of the handlers: the client, the authenticators, their servers.
abbrev pub Challenge : Type 0 → Type 0
Challenge S = String → List KeyboardInteractiveQuestion → S → (Labels × Option Message) × S

-- What an authentication has found. `id` stands for the object itself.
pub record AuthenticationContext : Type 0 where
  pub id : ℕ
  pub success : Bool
  pub error : Option Message
  pub metadata : ConnectionAuthenticatedMetadata

pub record AuthorizationResponse : Type 0 where
  pub success : Bool
  pub error : Option Message
  pub metadata : ConnectionAuthenticatedMetadata

abbrev pub AuthzProvider : Type 0 → Type 0
AuthzProvider S = ConnectionAuthenticatedMetadata → S → AuthorizationResponse × S

pub record GssApiServer (S : Type 0) : Type 0 where
  pub success : S → Bool
  pub error : S → Option Message
  pub accept_sec_context : List ℕ → S → (List ℕ × String × Bool × Option Message) × S
  pub verify_mic : List ℕ → List ℕ → S → Option Message × S
  pub delete_sec_context : S → Option Message × S
  pub allow_login :
      String
      → ConnectionAuthPendingMetadata
      → S
      → (ConnectionAuthenticatedMetadata × Option Message) × S

-- What a client shows to be let in.
pub data Credentials (S : Type 0) : Type 0 where
  password : List ℕ → Credentials S
  pub_key : String → Credentials S
  keyboard_interactive : Challenge S → Credentials S

-- The authenticators, where there are any; `none` is nil. `on_disconnect` is the method of a context.
pub record Authenticators (S : Type 0) : Type 0 where
  pub password_authenticator :
      Option (ConnectionAuthPendingMetadata → List ℕ → S → AuthenticationContext × S)
  pub public_key_authenticator :
      Option (ConnectionAuthPendingMetadata → String → S → AuthenticationContext × S)
  pub keyboard_interactive_authenticator :
      Option (ConnectionAuthPendingMetadata → Challenge S → S → AuthenticationContext × S)
  pub gssapi_authenticator : Option (ConnectionMetadata → S → GssApiServer S × S)
  pub on_disconnect : AuthenticationContext → S → S

-- `NetworkConnectionHandler`, with the state `H` of the handler; a handler of the SSH connection is
-- known by a number. The three methods for credentials are one function, told apart by what they
-- are given; the server that OnAuthGSSAPI gives is modelled where it is made and where it is used.
pub record NetworkConnectionHandler (H S : Type 0) : Type 0 where
  pub on_auth : Credentials S → ConnectionAuthPendingMetadata → H → S → AuthResult × H × S
  pub on_handshake_failed : ConnectionMetadata → Option Message → H → S → H × S
  pub on_handshake_success :
      ConnectionAuthenticatedMetadata
      → H
      → S
      → (Option ℕ × ConnectionAuthenticatedMetadata × Option Message) × H × S
  pub on_disconnect : H → S → H × S
  pub on_shutdown : H → S → H × S
