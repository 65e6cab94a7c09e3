-- ===== src/AuthIntegration/Admission.antt =====
-- internal/authintegration/handler.go: who is let in where an authorization provider is set and
-- nothing is left to the backend, as the program sets it up (factory.go).
use libcontainerssh.Common.{
  ◌≡◌, refl, ◌∙◌, ap, sym, subst, String, true, false, Option, none, some, arith, returns, panics,
}
use libcontainerssh.Metadata.{ConnectionAuthPendingMetadata}
use libcontainerssh.AuthIntegration.Interface.{
  auth_success, auth_failure, auth_unavailable, AuthResult, AuthenticationContext, AuthzProvider,
  Credentials, password, pub_key, keyboard_interactive, Authenticators, GssApiServer,
  NetworkConnectionHandler,
}
use libcontainerssh.AuthIntegration.Authentication.{no_passthrough, AuthHandler, on_auth, dismiss}
use libcontainerssh.AuthIntegration.Authorization.{
  generic_authorization, network_handler, authz_gssapi, gssapi_success, gssapi_allow_login,
}
use libcontainerssh.AuthIntegration.Outcomes.{consult, settle, on_auth-settle}

module _ {H S : Type 0} (authenticators : Authenticators S) (authorize : AuthzProvider S)
    (backend : NetworkConnectionHandler H S) where
  -- What is so after a success: a context has succeeded, and the answer has its metadata.
  abbrev IsAdmitted :
      AuthHandler H → Option (AuthenticationContext × S) → AuthResult × AuthHandler H × S → Type 0
  IsAdmitted h found ((answer, after, err), h', s') =
      (context : AuthenticationContext) × (found ≡ some (context, s'))
      × (context.success ≡ true)
      × (after ≡ context.metadata)
      × (h' ≡ record h { auth_context = some context })

  settle-IsAdmitted :
      (credentials : Credentials S) (meta : ConnectionAuthPendingMetadata) (h : AuthHandler H)
      (s : S) (found : Option (AuthenticationContext × S))
      → (settle no_passthrough authenticators backend credentials meta h s found).0.0 ≡ auth_success
      → IsAdmitted h found (settle no_passthrough authenticators backend credentials meta h s found)
  unfolding settle
  settle-IsAdmitted (password word) meta h s none e = cc
  settle-IsAdmitted (pub_key key) meta h s none e = cc
  settle-IsAdmitted (keyboard_interactive challenge) meta h s none e = cc
  settle-IsAdmitted (password word) meta h s (some (context, s')) e =
      (context, ground arith, ground arith, ground arith, ground arith)
  settle-IsAdmitted (pub_key key) meta h s (some (context, s')) e =
      (context, ground arith, ground arith, ground arith, ground arith)
  settle-IsAdmitted (keyboard_interactive challenge) meta h s (some (context, s')) e =
      (context, ground arith, ground arith, ground arith, ground arith)

  generic_authorization-success :
      (result : AuthResult) (s : S)
      → (generic_authorization authorize result s).0.0 ≡ auth_success
      → let ((answer, after, err), s') = generic_authorization authorize result s in
        (result.0 ≡ auth_success)
        × ((authorize result.1 s).0.success ≡ true)
        × (after ≡ (authorize result.1 s).0.metadata)
        × (s' ≡ (authorize result.1 s).1)
  unfolding generic_authorization
  generic_authorization-success (auth_success, after, err) s e = ground arith
  generic_authorization-success (auth_failure, after, err) s e = cc
  generic_authorization-success (auth_unavailable, after, err) s e = cc

  -- A client is let in only after an authenticator has found that its credentials are right and the
  -- authorization provider has allowed what that authenticator has found; the metadata that go on
  -- are the provider's, and the backend was not asked.
  pub on_auth-IsAuthorized :
      (credentials : Credentials S) (meta : ConnectionAuthPendingMetadata) (h : AuthHandler H)
      (s : S)
      → let result =
          (network_handler no_passthrough authenticators (some authorize) backend).on_auth
            credentials meta h s in
        result.0.0 ≡ auth_success
        → (context : AuthenticationContext) × (s' : S) × (consult authenticators credentials meta
              (dismiss no_passthrough authenticators backend h s)
            ≡ some (context, s'))
          × (context.success ≡ true)
          × ((authorize context.metadata s').0.success ≡ true)
          × (result.0.1 ≡ (authorize context.metadata s').0.metadata)
          × (result.1 ≡ record h { auth_context = some context })
  unfolding network_handler
  on_auth-IsAuthorized credentials meta h s e =
      let asked = on_auth no_passthrough authenticators backend credentials meta h s in
      let found =
        consult authenticators credentials meta
          (dismiss no_passthrough authenticators backend h s) in
      let settled = on_auth-settle no_passthrough authenticators backend credentials meta h s in
      let (went, allowed, after, rest) = generic_authorization-success asked.0 asked.2 e in
      let (context, from, right, same, kept) =
        subst (IsAdmitted h found) (sym settled)
          (settle-IsAdmitted credentials meta h s found (ap (λ r. r.0.0) (sym settled) ∙ went)) in
      (
        context,
        asked.2,
        from,
        right,
        subst (λ m. (authorize m asked.2).0.success ≡ true) same allowed,
        after ∙ ap (λ m. (authorize m asked.2).0.metadata) same,
        kept,
      )

  -- The answer, its metadata and the state that an accepted context leads to.
  abbrev Accepts : AuthenticationContext → S → AuthResult × AuthHandler H × S → Type 0
  Accepts context s ((answer, after, err), h', s') =
      (answer ≡ auth_success) × (after ≡ context.metadata) × (s' ≡ s)

  settle-Accepts :
      (credentials : Credentials S) (meta : ConnectionAuthPendingMetadata) (h : AuthHandler H)
      (s s' : S) (context : AuthenticationContext)
      → context.success ≡ true
      → Accepts context s'
          (settle no_passthrough authenticators backend credentials meta h s (some (context, s')))
  unfolding settle
  settle-Accepts (password word) meta h s s' context e = ground arith
  settle-Accepts (pub_key key) meta h s s' context e = ground arith
  settle-Accepts (keyboard_interactive challenge) meta h s s' context e = ground arith

  generic_authorization-allows :
      (result : AuthResult) (s : S)
      → result.0 ≡ auth_success
      → (authorize result.1 s).0.success ≡ true
      → (generic_authorization authorize result s).0.0 ≡ auth_success
  unfolding generic_authorization
  generic_authorization-allows (auth_success, after, err) s e allowed = ground arith
  generic_authorization-allows (auth_failure, after, err) s e allowed = cc
  generic_authorization-allows (auth_unavailable, after, err) s e allowed = cc

  -- A client whose credentials an authenticator finds right, and whom the authorization provider then
  -- allows, is let in.
  pub on_auth-allows :
      (credentials : Credentials S) (meta : ConnectionAuthPendingMetadata) (h : AuthHandler H)
      (s s' : S) (context : AuthenticationContext)
      → consult authenticators credentials meta (dismiss no_passthrough authenticators backend h s)
        ≡ some (context, s')
      → context.success ≡ true
      → (authorize context.metadata s').0.success ≡ true
      → ((network_handler no_passthrough authenticators (some authorize) backend).on_auth
          credentials meta h s).0.0
        ≡ auth_success
  unfolding network_handler
  on_auth-allows credentials meta h s s' context from right allowed =
      let asked = on_auth no_passthrough authenticators backend credentials meta h s in
      let (went, same, later) =
        subst (Accepts context s')
          (sym (
            on_auth-settle no_passthrough authenticators backend credentials meta h s
            ∙ ap (settle no_passthrough authenticators backend credentials meta h s) from))
          (settle-Accepts credentials meta h s s' context right) in
      generic_authorization-allows asked.0 asked.2 went (
        ap (λ m. (authorize m asked.2).0.success) same
        ∙ ap (λ t. (authorize context.metadata t).0.success) later
        ∙ allowed)

-- With an authorization provider no GSSAPI login goes through: when the server below has let the
-- client in, the call that asks for its login panics, the attempt never counts as a success, and
-- without a server below both calls panic.
pub gssapi_allow_login_panics :
    {S : Type 0} (server : GssApiServer S) (username : String)
    (meta : ConnectionAuthPendingMetadata) (s : S)
    → (server.allow_login username meta s).0.1 ≡ none
    → (gssapi_allow_login (authz_gssapi (some server)) username meta s ≡ panics)
      × ((s' : S) → gssapi_success (authz_gssapi (some server)) s' ≡ returns false)
      × (gssapi_allow_login (authz_gssapi none) username meta s ≡ panics)
      × (gssapi_success (authz_gssapi none) s ≡ panics)
unfolding gssapi_allow_login gssapi_success authz_gssapi
gssapi_allow_login_panics server username meta s e =
    (ground arith, (λ s'. ground arith), refl, refl)
