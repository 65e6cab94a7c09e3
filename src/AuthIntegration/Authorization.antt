-- ===== src/AuthIntegration/Authorization.antt =====
-- internal/authintegration/handler.go: `authzNetworkConnectionHandler`, which lets in only those that
-- the authorization provider allows, and `OnNetworkConnection`, which puts the handlers together.
use libcontainerssh.Common.{
  ℕ, String, if◌then◌else◌, Bool, false, List, Option, none, some, Call, returns, panics,
}
use libcontainerssh.Message.{Message}
use libcontainerssh.Metadata.{
  ConnectionMetadata, ConnectionAuthPendingMetadata, ConnectionAuthenticatedMetadata,
}
use libcontainerssh.AuthIntegration.Interface.{
  auth_success, auth_failure, AuthResult, AuthzProvider, AuthorizationResponse, Authenticators,
  Credentials, GssApiServer, NetworkConnectionHandler,
}
use libcontainerssh.AuthIntegration.Authentication.{Behavior, AuthHandler, auth_handler}

unfoldable pub generic_authorization :
    {S : Type 0} → AuthzProvider S → AuthResult → S → AuthResult × S
generic_authorization authorize (auth_success, meta, err) s =
    let (allowed, s') = authorize meta s in
    if allowed.success
    then ((auth_success, allowed.metadata, err), s')
    else ((auth_failure, allowed.metadata, allowed.error), s')
generic_authorization authorize (answer, meta, err) s = ((answer, meta, err), s)

module _ {H S : Type 0} (authorize : AuthzProvider S) (backend : NetworkConnectionHandler H S) where
  unfoldable pub authz_on_auth :
      Credentials S → ConnectionAuthPendingMetadata → H → S → AuthResult × H × S
  unfolding generic_authorization
  authz_on_auth credentials meta h s =
      let (answer, h', s') = backend.on_auth credentials meta h s in
      let (answer', s'') = generic_authorization authorize answer s' in (answer', h', s'')

  unfoldable pub authz_handler : NetworkConnectionHandler H S
  unfolding authz_on_auth
  authz_handler = record {
    on_auth = authz_on_auth;
    on_handshake_failed = backend.on_handshake_failed;
    on_handshake_success = backend.on_handshake_success;
    on_disconnect = backend.on_disconnect;
    on_shutdown = backend.on_shutdown;
  }

-- The fields of `authzGssApiServer`; `none` is nil.
pub record AuthzGssApiServer (S : Type 0) : Type 0 where
  pub backend : Option (GssApiServer S)
  pub authorization_provider : Option (AuthzProvider S)
  pub authz_response : Option AuthorizationResponse

-- `OnAuthGSSAPI`, on the server that the handler below has given: one field is filled.
unfoldable pub authz_gssapi : {S : Type 0} → Option (GssApiServer S) → AuthzGssApiServer S
authz_gssapi server = record {
  backend = server;
  authorization_provider = none;
  authz_response = none;
}

module _ {S : Type 0} (g : AuthzGssApiServer S) where
  unfoldable pub gssapi_success : S → Call Bool
  gssapi_success s = elim g.backend [
    | none ↦ panics
    | some server ↦
        if server.success s
        then elim g.authz_response [ none ↦ returns false | some allowed ↦ returns allowed.success ]
        else returns false
  ]

  unfoldable pub gssapi_error : S → Call (Option Message)
  gssapi_error s = elim g.backend [
    | none ↦ panics
    | some server ↦ elim (server.error s) [
      | some err ↦ returns (some err)
      | none ↦ elim g.authz_response [ none ↦ returns none | some allowed ↦ returns allowed.error ]
    ]
  ]

  gssapi_accept_sec_context : List ℕ → S → Call ((List ℕ × String × Bool × Option Message) × S)
  gssapi_accept_sec_context token s = elim g.backend [
    | none ↦ panics
    | some server ↦ returns (server.accept_sec_context token s)
  ]

  gssapi_verify_mic : List ℕ → List ℕ → S → Call (Option Message × S)
  gssapi_verify_mic mic_field mic_token s = elim g.backend [
    | none ↦ panics
    | some server ↦ returns (server.verify_mic mic_field mic_token s)
  ]

  gssapi_delete_sec_context : S → Call (Option Message × S)
  gssapi_delete_sec_context s = elim g.backend [
    | none ↦ panics
    | some server ↦ returns (server.delete_sec_context s)
  ]

  unfoldable pub gssapi_allow_login :
      String
      → ConnectionAuthPendingMetadata
      → S
      → Call ((ConnectionAuthenticatedMetadata × Option Message) × AuthzGssApiServer S × S)
  gssapi_allow_login username meta s = elim g.backend [
    | none ↦ panics
    | some server ↦
        let ((authenticated_metadata, failed), s') = server.allow_login username meta s in
        elim failed [
          | some err ↦ returns ((authenticated_metadata, some err), g, s')
          | none ↦ elim g.authorization_provider [
            | none ↦ panics
            | some authorize ↦
                let (allowed, s'') = authorize authenticated_metadata s' in
                returns (
                  (allowed.metadata, allowed.error),
                  record g { authz_response = some allowed },
                  s'',
                )
          ]
        ]
  ]

module _ {H S : Type 0} (behavior : Behavior) (authenticators : Authenticators S)
    (authorization_provider : Option (AuthzProvider S))
    (backend : NetworkConnectionHandler H S) where
  -- The handler that `OnNetworkConnection` returns.
  unfoldable pub network_handler : NetworkConnectionHandler (AuthHandler H) S
  unfolding auth_handler authz_handler
  network_handler = elim authorization_provider [
    | none ↦ auth_handler behavior authenticators backend
    | some authorize ↦ authz_handler authorize (auth_handler behavior authenticators backend)
  ]

  -- `accept` is `OnNetworkConnection` of the handler below, which is there by `New`: it gives the
  -- state of its own handler, the metadata, and an error or none.
  on_network_connection :
      (ConnectionMetadata → S → (H × ConnectionMetadata × Option Message) × S)
      → ConnectionMetadata
      → S
      → (Option (NetworkConnectionHandler (AuthHandler H) S × AuthHandler H)
          × ConnectionMetadata
          × Option Message)
        × S
  unfolding network_handler
  on_network_connection accept meta s =
      let ((h, meta', failed), s') = accept meta s in
      elim failed [
        | some err ↦ ((none, meta', some err), s')
        | none ↦ (
          (some (network_handler, record { auth_context = none; backend_state = h }), meta', none),
          s',
        )
      ]
