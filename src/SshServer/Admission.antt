-- ===== src/SshServer/Admission.antt =====
-- internal/sshserver/serverImpl.go over internal/authintegration: whom the callbacks let in.
use mathlib.Core.Option.{some_inj}
use libcontainerssh.Common.{
  ◌≡◌, refl, ◌∙◌, ap, sym, String, true, Option, none, some, arith, returns, ◌⊎◌, inr,
}
use libcontainerssh.Message.{Message}
use libcontainerssh.Metadata.{
  ConnectionMetadata, ConnectionAuthPendingMetadata, ConnectionAuthenticatedMetadata,
  start_authentication,
}
use libcontainerssh.AuthIntegration.Interface.{
  auth_success, auth_failure, auth_unavailable, AuthResult, AuthenticationContext, AuthzProvider,
  Credentials, password, pub_key, keyboard_interactive, Authenticators, NetworkConnectionHandler,
}
use libcontainerssh.AuthIntegration.Authentication.{no_passthrough, AuthHandler, dismiss}
use libcontainerssh.AuthIntegration.Authorization.{
  AuthzGssApiServer, network_handler, gssapi_success, gssapi_error, gssapi_allow_login,
}
use libcontainerssh.AuthIntegration.Outcomes.{consult}
use libcontainerssh.AuthIntegration.Admission.{on_auth-IsAuthorized}
use libcontainerssh.SshServer.Authenticators.{
  Client, Permissions, GssApi, Gate, Method, Attempt, by_password, by_pub_key,
  by_keyboard_interactive, by_gssapi, challenge_wrapper, judge, authenticate, permit, note_auth,
  password_method, pub_key_method, keyboard_interactive_method, callback, refuse_login,
  allow_login_callback, callbacks,
}

-- What the client shows in an attempt; a GSSAPI attempt shows nothing that the handler is asked about.
abbrev pub credentials_of : {S : Type 0} → Client → Attempt S → Option (Credentials S)
credentials_of client (by_password word) = some (password word)
credentials_of client (by_pub_key authorized_key) = some (pub_key authorized_key)
credentials_of client (by_keyboard_interactive prompt) =
    some (keyboard_interactive (challenge_wrapper prompt client.user))
credentials_of client by_gssapi = none

-- The GSSAPI server of a handler with an authorization provider, as the callbacks see it.
abbrev pub authz_gss_api : {S : Type 0} → GssApi (AuthzGssApiServer S) S
authz_gss_api = record {
  success = gssapi_success;
  error = gssapi_error;
  allow_login = λ username meta g s. gssapi_allow_login g username meta s;
}

module _ {G H S : Type 0} (connection : NetworkConnectionHandler H S)
    (marshal : ConnectionAuthenticatedMetadata → Message ⊎ String) (meta : ConnectionMetadata) where
  judge-success :
      (method : Method) (authenticating : ConnectionAuthPendingMetadata) (result : AuthResult)
      (gate gate' : Gate G H S) (p : Permissions) (err : Option Message)
      → permit connection marshal meta
          (judge connection marshal meta method authenticating result gate)
        ≡ returns ((some p, err), gate')
      → (result.0 ≡ auth_success) × (marshal result.1 ≡ inr p.metadata) × (err ≡ none)
  unfolding judge permit
  judge-success method authenticating (auth_success, after, e) gate gate' p err h = ground arith
  judge-success method authenticating (auth_failure, after, e) gate gate' p err h = cc
  judge-success method authenticating (auth_unavailable, after, some e) gate gate' p err h = cc
  judge-success method authenticating (auth_unavailable, after, none) gate gate' p err h = cc

  judge-gss :
      (method : Method) (authenticating : ConnectionAuthPendingMetadata) (result : AuthResult)
      (gate gate' : Gate G H S) (answer : Option Permissions × Option Message)
      → permit connection marshal meta
          (judge connection marshal meta method authenticating result gate)
        ≡ returns (answer, gate')
      → gate'.gss ≡ gate.gss
  unfolding judge permit note_auth
  judge-gss method authenticating (auth_success, after, e) gate gate' answer h = ground arith
  judge-gss method authenticating (auth_failure, after, e) gate gate' answer h = ground arith
  judge-gss method authenticating (auth_unavailable, after, some e) gate gate' answer h =
      ground arith
  judge-gss method authenticating (auth_unavailable, after, none) gate gate' answer h = cc

module _ {H S : Type 0} (authenticators : Authenticators S) (authorize : AuthzProvider S)
    (backend : NetworkConnectionHandler H S) where
  -- The handler that `OnNetworkConnection` gives where the program is set up with a provider.
  abbrev pub guarded : NetworkConnectionHandler (AuthHandler H) S
  guarded = network_handler no_passthrough authenticators (some authorize) backend

module _ {H S : Type 0} (authenticators : Authenticators S) (authorize : AuthzProvider S)
    (backend : NetworkConnectionHandler H S)
    (marshal : ConnectionAuthenticatedMetadata → Message ⊎ String) (meta : ConnectionMetadata) where
  -- What an attempt that is let in has shown: an authenticator found the credentials right, the
  -- authorization provider allowed what it found, and the permissions carry the provider's metadata.
  abbrev pub IsLetIn :
      Client → Attempt S → Gate (AuthzGssApiServer S) (AuthHandler H) S → String → Type 0
  IsLetIn client attempt gate text =
      (credentials : Credentials S) × (context : AuthenticationContext) × (s : S) × (credentials_of
          client attempt
        ≡ some credentials)
      × (consult authenticators credentials
            (start_authentication meta client.client_version client.user)
            (dismiss no_passthrough authenticators backend gate.handler gate.outside)
          ≡ some (context, s))
      × (context.success ≡ true)
      × ((authorize context.metadata s).0.success ≡ true)
      × (marshal (authorize context.metadata s).0.metadata ≡ inr text)

  callback-IsLetIn :
      (method : Method) (client : Client) (attempt : Attempt S) (credentials : Credentials S)
      (gate gate' : Gate (AuthzGssApiServer S) (AuthHandler H) S) (p : Permissions)
      (err : Option Message)
      → credentials_of client attempt ≡ some credentials
      → callback
          (guarded authenticators authorize backend)
          marshal
          meta
          method
          client
          credentials
          gate
        ≡ returns ((some p, err), gate')
      → IsLetIn client attempt gate p.metadata
  unfolding callback authenticate
  callback-IsLetIn method client attempt credentials gate gate' p err shown e =
      let authenticating = start_authentication meta client.client_version client.user in
      let (result, h, s) =
        (guarded authenticators authorize backend).on_auth credentials authenticating gate.handler
          gate.outside in
      let (went, text, none_left) =
        judge-success (guarded authenticators authorize backend) marshal meta method authenticating
          result (record gate { handler = h; outside = s }) gate' p err e in
      let (context, s', from, right, allowed, after, kept) =
        on_auth-IsAuthorized authenticators authorize backend credentials authenticating
          gate.handler gate.outside went in
      (credentials, context, s', shown, from, right, allowed, ap marshal (sym after) ∙ text)

  -- A GSSAPI attempt is not let in as long as the provider has not been asked, which stays so.
  allow_login_callback-refuses :
      (client : Client) (gate gate' : Gate (AuthzGssApiServer S) (AuthHandler H) S)
      (answer : Option Permissions × Option Message)
      → gate.gss.authz_response ≡ none
      → allow_login_callback
          (guarded authenticators authorize backend)
          marshal
          meta
          authz_gss_api
          client
          gate
        ≡ returns (answer, gate')
      → (answer.0 ≡ none) × (gate'.gss ≡ gate.gss)
  unfolding allow_login_callback refuse_login gssapi_success gssapi_error
  allow_login_callback-refuses client gate gate' answer fresh e = ground arith

  -- A callback changes nothing in the GSSAPI server.
  callback-gss :
      (method : Method) (client : Client) (credentials : Credentials S)
      (gate gate' : Gate (AuthzGssApiServer S) (AuthHandler H) S)
      (answer : Option Permissions × Option Message)
      → callback
          (guarded authenticators authorize backend)
          marshal
          meta
          method
          client
          credentials
          gate
        ≡ returns (answer, gate')
      → gate'.gss ≡ gate.gss
  unfolding callback authenticate
  callback-gss method client credentials gate gate' answer e =
      let authenticating = start_authentication meta client.client_version client.user in
      let (result, h, s) =
        (guarded authenticators authorize backend).on_auth credentials authenticating gate.handler
          gate.outside in
      judge-gss (guarded authenticators authorize backend) marshal meta method authenticating result
        (record gate { handler = h; outside = s }) gate' answer e

  pub callbacks-IsLetIn :
      (client : Client) (attempt : Attempt S)
      (gate gate' : Gate (AuthzGssApiServer S) (AuthHandler H) S) (p : Permissions)
      (err : Option Message)
      → gate.gss.authz_response ≡ none
      → callbacks
          (guarded authenticators authorize backend)
          marshal
          meta
          (some authz_gss_api)
          client
          attempt
          gate
        ≡ some (returns ((some p, err), gate'))
      → IsLetIn client attempt gate p.metadata
  unfolding callbacks
  callbacks-IsLetIn client (by_password word) gate gate' p err fresh e =
      callback-IsLetIn password_method client (by_password word) (password word) gate gate' p err
        refl (some_inj.0 e)
  callbacks-IsLetIn client (by_pub_key key) gate gate' p err fresh e =
      callback-IsLetIn pub_key_method client (by_pub_key key) (pub_key key) gate gate' p err refl
        (some_inj.0 e)
  callbacks-IsLetIn client (by_keyboard_interactive prompt) gate gate' p err fresh e =
      callback-IsLetIn keyboard_interactive_method client (by_keyboard_interactive prompt)
        (keyboard_interactive (challenge_wrapper prompt client.user)) gate gate' p err refl
        (some_inj.0 e)
  callbacks-IsLetIn client by_gssapi gate gate' p err fresh e =
      let refused =
        (allow_login_callback-refuses client gate gate' (some p, err) fresh (some_inj.0 e)).0 in
      cc

  pub callbacks-gss :
      (client : Client) (attempt : Attempt S)
      (gate gate' : Gate (AuthzGssApiServer S) (AuthHandler H) S)
      (answer : Option Permissions × Option Message)
      → gate.gss.authz_response ≡ none
      → callbacks
          (guarded authenticators authorize backend)
          marshal
          meta
          (some authz_gss_api)
          client
          attempt
          gate
        ≡ some (returns (answer, gate'))
      → gate'.gss.authz_response ≡ none
  unfolding callbacks
  callbacks-gss client (by_password word) gate gate' answer fresh e =
      ap (λ g. g.authz_response)
        (callback-gss password_method client (password word) gate gate' answer (some_inj.0 e))
      ∙ fresh
  callbacks-gss client (by_pub_key key) gate gate' answer fresh e =
      ap (λ g. g.authz_response)
        (callback-gss pub_key_method client (pub_key key) gate gate' answer (some_inj.0 e))
      ∙ fresh
  callbacks-gss client (by_keyboard_interactive prompt) gate gate' answer fresh e =
      ap (λ g. g.authz_response)
        (callback-gss keyboard_interactive_method client
          (keyboard_interactive (challenge_wrapper prompt client.user)) gate gate' answer
          (some_inj.0 e))
      ∙ fresh
  callbacks-gss client by_gssapi gate gate' answer fresh e =
      ap (λ g. g.authz_response)
        (allow_login_callback-refuses client gate gate' answer fresh (some_inj.0 e)).1
      ∙ fresh
