-- ===== src/SshServer/EntryExamples.antt =====
-- internal/sshserver: the theorems on network connections, at one that logs in by a password.
use libcontainerssh.Common.{
  ℕ, ◌+◌, ◌==◌, ◌≡◌, refl, ap, ◌∙◌, String, Bool, true, false, List, [], ◌∷◌, Option, none, some,
  Call, returns, panics, returns_inj, ◌⊎◌, inl, inr, subst,
}
use mathlib.Core.List.{not-mem-nil}
use mathlib.Core.Option.{some_inj}
use libcontainerssh.Message.{Message, foreign}
use libcontainerssh.Metadata.{ConnectionMetadata, ConnectionAuthenticatedMetadata}
use libcontainerssh.AuthIntegration.Interface.{
  auth_success, AuthzProvider, Authenticators, NetworkConnectionHandler,
}
use libcontainerssh.AuthIntegration.Authentication.{AuthHandler, on_auth_gssapi}
use libcontainerssh.AuthIntegration.Authorization.{AuthzGssApiServer, authz_gssapi, network_handler}
use libcontainerssh.SshServer.Authenticators.{GssApi, Client, Permissions, Gate, by_password}
use libcontainerssh.SshServer.Handshake.{
  Callbacks, ServerConn, NewServerConn, Server, Progress, ended, handle_connection,
}
use libcontainerssh.SshServer.Library.{Reaches, at_start, called, PassesOn, OnlyCalls}
use libcontainerssh.SshServer.Entry.{IsEntered, handle_connection-IsEntered}
use libcontainerssh.SshServer.Release.{Leaves, handle_connection-Leaves}

abbrev somebody : Client
somebody = record { client_version = "SSH-2.0-x"; user = "foo" }

-- A library that has the client try one password, and passes on what the callback answers.
abbrev relay :
    {G H S : Type 0}
    → Gate G H S
    → Option (Call ((Option Permissions × Option Message) × Gate G H S))
    → Call ((Message ⊎ ServerConn) × Gate G H S)
relay start none = returns (inl (foreign "no callback"), start)
relay start (some panics) = panics
relay start (some (returns ((none, err), gate))) = returns (inl (foreign "no permissions"), gate)
relay start (some (returns ((some p, err), gate))) =
    returns (inr (record { number = 7; extension = some p.metadata }), gate)

abbrev one_try : {G H S : Type 0} → NewServerConn G H S
one_try cbs start = relay start (cbs somebody (by_password (1 ∷ [])) start)

-- What was passed on is the callback's.
relay-from :
    {G H S : Type 0} (start gate' : Gate G H S)
    (answer : Option (Call ((Option Permissions × Option Message) × Gate G H S)))
    (conn : ServerConn) (text : String)
    → relay start answer ≡ returns (inr conn, gate')
    → conn.extension ≡ some text
    → (after : Gate G H S) × (err : Option Message) × (answer
        ≡ some (returns ((some (record { metadata = text }), err), after)))
relay-from start gate' none conn text e has = cc
relay-from start gate' (some panics) conn text e has = cc
relay-from start gate' (some (returns ((none, err), gate))) conn text e has = cc
relay-from start gate' (some (returns ((some p, err), gate))) conn text e has =
    let shown : Message ⊎ ServerConn → Option String =
      λ r. elim r [ inr c ↦ c.extension | inl m ↦ none ] in
    let same : p.metadata ≡ text = some_inj.0 (ap (λ r. shown r.0) (returns_inj e) ∙ has) in
    (gate, err, ap (λ t. some (returns ((some (record { metadata = t }), err), gate))) same)

relay-Reaches :
    {G H S : Type 0} (cbs : Callbacks G H S) (start gate' : Gate G H S)
    (answer : Option (Call ((Option Permissions × Option Message) × Gate G H S)))
    (result : Message ⊎ ServerConn)
    → cbs somebody (by_password (1 ∷ [])) start ≡ answer
    → relay start answer ≡ returns (result, gate')
    → Reaches cbs start gate'
relay-Reaches cbs start gate' none result same e =
    subst (Reaches cbs start) (ap (λ r. r.1) (returns_inj e)) at_start
relay-Reaches cbs start gate' (some panics) result same e = cc
relay-Reaches cbs start gate' (some (returns ((none, err), gate))) result same e =
    subst (Reaches cbs start) (ap (λ r. r.1) (returns_inj e))
      (called somebody (by_password (1 ∷ [])) (none, err) at_start same)
relay-Reaches cbs start gate' (some (returns ((some p, err), gate))) result same e =
    subst (Reaches cbs start) (ap (λ r. r.1) (returns_inj e))
      (called somebody (by_password (1 ∷ [])) (some p, err) at_start same)

one_try-PassesOn : {G H S : Type 0} → PassesOn {G = G} {H = H} {S = S} one_try
one_try-PassesOn cbs start gate' conn text e has =
    let (after, err, from) =
      relay-from start gate' (cbs somebody (by_password (1 ∷ [])) start) conn text e has in
    (somebody, by_password (1 ∷ []), start, after, err, at_start, from)

abbrev link : ConnectionMetadata
link = record {
  remote_address = record { ip = 127 ∷ 0 ∷ 0 ∷ 1 ∷ []; port = 22 };
  connection_id = "0123";
  metadata = none;
  environment = none;
  files = none;
}

abbrev known_as : String → ConnectionAuthenticatedMetadata
known_as name = record {
  pending = record { connection = link; client_version = "SSH-2.0-x"; username = "foo" };
  authenticated_username = name;
}

abbrev starts_right : List ℕ → Bool
starts_right [] = false
starts_right (n ∷ ns) = n == 1

-- Passwords are checked, and there are no other authenticators.
abbrev password_only : Authenticators ℕ
password_only = record {
  password_authenticator = some (λ meta word s. (
    record { id = s; success = starts_right word; error = none; metadata = known_as "foo" },
    s + 1,
  ));
  public_key_authenticator = none;
  keyboard_interactive_authenticator = none;
  gssapi_authenticator = none;
  on_disconnect = λ context s. s + 1;
}

-- A backend that counts how often it is told of the end.
abbrev told_backend : NetworkConnectionHandler ℕ ℕ
told_backend = record {
  on_auth = λ credentials meta h s. ((auth_success, known_as "backend", none), h, s);
  on_handshake_failed = λ meta reason h s. (h, s);
  on_handshake_success = λ meta h s. ((some 1, meta, none), h, s);
  on_disconnect = λ h s. (h + 1, s);
  on_shutdown = λ h s. (h, s);
}

abbrev allow_everyone : AuthzProvider ℕ
allow_everyone meta s =
    (record { success = true; error = none; metadata = known_as "allowed" }, s + 1)

abbrev to_text : ConnectionAuthenticatedMetadata → Message ⊎ String
to_text meta = inr meta.authenticated_username

abbrev from_text : String → Message ⊎ ConnectionAuthenticatedMetadata
from_text name = inr (known_as name)

abbrev arrived : Server (AuthzGssApiServer ℕ) (AuthHandler ℕ) ℕ
arrived = record {
  gate = record {
    handler = record { auth_context = none; backend_state = 0 };
    gss = authz_gssapi none;
    outside = 0;
    log = [];
  };
  shutdown_handlers = [];
  client_sockets = [];
  conn_map = [];
  wg = 1;
  closed = false;
}

handle_connection-IsEntered_example :
    (start : Gate (AuthzGssApiServer ℕ) (AuthHandler ℕ) ℕ) × (start.handler
      ≡ record { auth_context = none; backend_state = 0 })
    × (start.outside ≡ 0)
    × IsEntered password_only allow_everyone told_backend to_text from_text link start
        (known_as "allowed")
unfolding handle_connection network_handler on_auth_gssapi
handle_connection-IsEntered_example =
    handle_connection-IsEntered password_only allow_everyone told_backend to_text from_text "0123"
      one_try link arrived _ (some 1) (known_as "allowed") one_try-PassesOn refl

abbrev no_gssapi : ConnectionMetadata → ℕ → (Option (GssApi ℕ ℕ) × ℕ) × ℕ
no_gssapi meta s = ((none, 0), s)

one_try-OnlyCalls : {G H S : Type 0} → OnlyCalls {G = G} {H = H} {S = S} one_try
one_try-OnlyCalls cbs start gate' result e =
    relay-Reaches cbs start gate' (cbs somebody (by_password (1 ∷ [])) start) result refl e

abbrev landed : Server ℕ ℕ ℕ
landed = record {
  gate = record { handler = 0; gss = 0; outside = 0; log = [] };
  shutdown_handlers = [];
  client_sockets = [];
  conn_map = [];
  wg = 1;
  closed = false;
}

abbrev final : Call (Progress × Server ℕ ℕ ℕ) → Progress × Server ℕ ℕ ℕ
final (returns p) = p
final panics = (ended, landed)

-- The connection is established, and then ends.
handle_connection-Leaves_example :
    Leaves told_backend
      (λ h. h)
      (λ h s. refl)
      (λ meta reason h s. refl)
      (λ meta h s. refl)
      (λ credentials meta h s. refl)
      "0123"
      []
      0
      1
      (final (
        handle_connection told_backend "0123" to_text from_text one_try no_gssapi
          (inr link)
          landed))
unfolding handle_connection
handle_connection-Leaves_example =
    handle_connection-Leaves told_backend (λ h. h) (λ h s. refl) (λ meta reason h s. refl)
      (λ meta h s. refl) (λ credentials meta h s. refl) "0123" to_text from_text one_try no_gssapi
      (inr link) landed _ one_try-OnlyCalls not-mem-nil not-mem-nil refl
