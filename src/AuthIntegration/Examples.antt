-- ===== src/AuthIntegration/Examples.antt =====
-- Concrete attempts to log in, and the theorems at them. The state of the world is a number that
-- counts the calls of what is outside.
use libcontainerssh.Common.{
  ℕ, ◌+◌, ◌≡◌, ◌==◌, refl, String, Bool, true, false, List, [], ◌∷◌, none, some, panics, returns,
}
use libcontainerssh.Metadata.{ConnectionAuthPendingMetadata, ConnectionAuthenticatedMetadata}
use libcontainerssh.AuthIntegration.Interface.{
  auth_success, auth_unavailable, AuthenticationContext, AuthzProvider, password, pub_key,
  Authenticators, GssApiServer, NetworkConnectionHandler,
}
use libcontainerssh.AuthIntegration.Authentication.{
  no_passthrough, passthrough_on_failure, AuthHandler, on_auth, dismiss, pass_through,
}
use libcontainerssh.AuthIntegration.Authorization.{
  network_handler, authz_gssapi, gssapi_success, gssapi_allow_login,
}
use libcontainerssh.AuthIntegration.Outcomes.{
  consult, error_code, on_auth_disabled, on_auth-pass_through, on_auth-verdict,
}
use libcontainerssh.AuthIntegration.Admission.{
  on_auth-IsAuthorized, on_auth-allows, gssapi_allow_login_panics,
}

abbrev attempt : ConnectionAuthPendingMetadata
attempt = record {
  connection = record {
    remote_address = record { ip = 127 ∷ 0 ∷ 0 ∷ 1 ∷ []; port = 22 };
    connection_id = "0123";
    metadata = none;
    environment = none;
    files = none;
  };
  client_version = "SSH-2.0-x";
  username = "foo";
}

abbrev is_right : List ℕ → Bool
is_right [] = false
is_right (n ∷ ns) = n == 1

abbrev named : String → ConnectionAuthenticatedMetadata
named name = record { pending = attempt; authenticated_username = name }

-- Passwords are checked, and there are no other authenticators.
abbrev passwords : Authenticators ℕ
passwords = record {
  password_authenticator = some (λ meta word s.
      (record { id = s; success = is_right word; error = none; metadata = named "foo" }, s + 1));
  public_key_authenticator = none;
  keyboard_interactive_authenticator = none;
  gssapi_authenticator = none;
  on_disconnect = λ context s. s + 1;
}

-- A backend that takes everyone and counts its calls.
abbrev counting : NetworkConnectionHandler ℕ ℕ
counting = record {
  on_auth = λ credentials meta h s. ((auth_success, named "backend", none), h + 1, s);
  on_handshake_failed = λ meta reason h s. (h, s);
  on_handshake_success = λ meta h s. ((some 1, meta, none), h, s);
  on_disconnect = λ h s. (h, s);
  on_shutdown = λ h s. (h, s);
}

abbrev allow_all : AuthzProvider ℕ
allow_all meta s = (record { success = true; error = none; metadata = named "allowed" }, s + 1)

abbrev first : AuthHandler ℕ
first = record { auth_context = none; backend_state = 0 }

abbrev found : Bool → AuthenticationContext
found right = record { id = 5; success = right; error = none; metadata = named "foo" }

on_auth_disabled_example :
    let ((answer, after, err), h', s') =
      on_auth no_passthrough passwords counting (pub_key "key") attempt first 5 in
    (answer ≡ auth_unavailable)
    × (error_code err ≡ some "SSH_AUTH_UNAVAILABLE")
    × (h' ≡ first)
    × (s' ≡ dismiss no_passthrough passwords counting first 5)
unfolding consult
on_auth_disabled_example =
    on_auth_disabled no_passthrough passwords counting (pub_key "key") attempt first 5 refl

on_auth-pass_through_example :
    on_auth passthrough_on_failure passwords counting (password []) attempt first 5
    ≡ pass_through passthrough_on_failure passwords counting
        (password [])
        attempt
        (record first { auth_context = some (found false) })
        6
unfolding consult dismiss
on_auth-pass_through_example =
    on_auth-pass_through passthrough_on_failure passwords counting (password []) attempt first 5
      (found false) 6 refl refl

on_auth-verdict_example :
    let ((answer, after, err), h', s') =
      on_auth passthrough_on_failure passwords counting (password (1 ∷ [])) attempt first 5 in
    (answer ≡ auth_success) × (h' ≡ record first { auth_context = some (found true) }) × (s' ≡ 6)
unfolding consult dismiss
on_auth-verdict_example =
    on_auth-verdict passthrough_on_failure passwords counting (password (1 ∷ [])) attempt first 5
      (found true) 6 refl refl

on_auth-IsAuthorized_example :
    let result =
      (network_handler no_passthrough passwords (some allow_all) counting).on_auth
        (password (1 ∷ []))
        attempt
        first
        5 in
    (context : AuthenticationContext) × (s' : ℕ) × (consult passwords
        (password (1 ∷ []))
        attempt
        (dismiss no_passthrough passwords counting first 5)
      ≡ some (context, s'))
    × (context.success ≡ true)
    × (true ≡ true)
    × (result.0.1 ≡ named "allowed")
    × (result.1 ≡ record first { auth_context = some context })
unfolding network_handler
on_auth-IsAuthorized_example =
    on_auth-IsAuthorized passwords allow_all counting (password (1 ∷ [])) attempt first 5 refl

on_auth-allows_example :
    ((network_handler no_passthrough passwords (some allow_all) counting).on_auth
      (password (1 ∷ []))
      attempt
      first
      5).0.0
    ≡ auth_success
unfolding consult dismiss
on_auth-allows_example =
    on_auth-allows passwords allow_all counting (password (1 ∷ [])) attempt first 5 6 (found true)
      refl refl refl

-- A GSSAPI server that lets everyone in.
abbrev open_server : GssApiServer ℕ
open_server = record {
  success = λ s. true;
  error = λ s. none;
  accept_sec_context = λ token s. ((token, "foo", false, none), s);
  verify_mic = λ field token s. (none, s);
  delete_sec_context = λ s. (none, s);
  allow_login = λ username meta s. ((named username, none), s);
}

gssapi_allow_login_panics_example :
    (gssapi_allow_login (authz_gssapi (some open_server)) "foo" attempt 5 ≡ panics)
    × ((s' : ℕ) → gssapi_success (authz_gssapi (some open_server)) s' ≡ returns false)
    × (gssapi_allow_login {S = ℕ} (authz_gssapi none) "foo" attempt 5 ≡ panics)
    × (gssapi_success {S = ℕ} (authz_gssapi none) 5 ≡ panics)
gssapi_allow_login_panics_example = gssapi_allow_login_panics open_server "foo" attempt 5 refl
