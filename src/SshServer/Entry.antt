-- ===== src/SshServer/Entry.antt =====
-- internal/sshserver/serverImpl.go over internal/authintegration: who gets an SSH connection.
use libcontainerssh.Common.{
  ℕ, ◌≡◌, refl, ap, String, Option, none, some, Call, returns, panics, ◌⊎◌, inl, inr,
}
use libcontainerssh.Message.{Message}
use libcontainerssh.Metadata.{ConnectionMetadata, ConnectionAuthenticatedMetadata}
use libcontainerssh.AuthIntegration.Interface.{
  AuthzProvider, Authenticators, NetworkConnectionHandler,
}
use libcontainerssh.AuthIntegration.Authentication.{AuthHandler, no_passthrough, on_auth_gssapi}
use libcontainerssh.AuthIntegration.Authorization.{AuthzGssApiServer, authz_gssapi}
use libcontainerssh.SshServer.Authenticators.{Client, GssApi, Gate, Attempt, callbacks}
use libcontainerssh.SshServer.Admission.{
  authz_gss_api, guarded, IsLetIn, callbacks-IsLetIn, callbacks-gss,
}
use libcontainerssh.SshServer.Library.{Reaches, at_start, outside_moves, called, PassesOn}
use libcontainerssh.SshServer.Handshake.{
  Callbacks, ServerConn, NewServerConn, Server, established, abort_cleanup, admit, greet,
  read_permissions, conclude_handshake, after_handshake, note_at, shake_hands, handle_connection,
}

module _ {G H S : Type 0} (connection : NetworkConnectionHandler H S) (connection_id : String)
    (meta : ConnectionMetadata) where
  admit-established :
      (authenticated after : ConnectionAuthenticatedMetadata) (number : ℕ)
      (answer : Option ℕ × Option Message) (handler : Option ℕ) (st : Server G H S)
      → (admit connection connection_id meta authenticated number answer st).0
        ≡ established handler after
      → authenticated ≡ after
  unfolding admit abort_cleanup
  admit-established authenticated after number (h, some err) handler st e = cc
  admit-established authenticated after number (h, none) handler st e = cc

  greet-established :
      (read : Message ⊎ ConnectionAuthenticatedMetadata) (number : ℕ) (st : Server G H S)
      (handler : Option ℕ) (authenticated : ConnectionAuthenticatedMetadata)
      → (greet connection connection_id meta read number st).0 ≡ established handler authenticated
      → read ≡ inr authenticated
  unfolding greet abort_cleanup
  greet-established (inl err) number st handler authenticated e = cc
  greet-established (inr read) number st handler authenticated e =
      let ((h, after, err), b, s) =
        connection.on_handshake_success read st.gate.handler st.gate.outside in
      ap inr (
        admit-established read authenticated number (h, err) handler
          (record st { gate = record st.gate { handler = b; outside = s } }) e)

  read_permissions-established :
      (unmarshal : String → Message ⊎ ConnectionAuthenticatedMetadata) (extension : Option String)
      (number : ℕ) (st : Server G H S) (handler : Option ℕ)
      (authenticated : ConnectionAuthenticatedMetadata)
      → (read_permissions connection connection_id unmarshal meta extension number st).0
        ≡ established handler authenticated
      → (text : String) × (extension ≡ some text) × (unmarshal text ≡ inr authenticated)
  unfolding read_permissions abort_cleanup
  read_permissions-established unmarshal none number st handler authenticated e = cc
  read_permissions-established unmarshal (some text) number st handler authenticated e =
      (text, refl, greet-established (unmarshal text) number st handler authenticated e)

  conclude_handshake-established :
      (unmarshal : String → Message ⊎ ConnectionAuthenticatedMetadata)
      (result : Message ⊎ ServerConn) (st : Server G H S) (handler : Option ℕ)
      (authenticated : ConnectionAuthenticatedMetadata)
      → (conclude_handshake connection connection_id unmarshal meta result st).0
        ≡ established handler authenticated
      → (conn : ServerConn) × (text : String) × (result ≡ inr conn)
        × (conn.extension ≡ some text)
        × (unmarshal text ≡ inr authenticated)
  unfolding conclude_handshake abort_cleanup
  conclude_handshake-established unmarshal (inl err) st handler authenticated e = cc
  conclude_handshake-established unmarshal (inr conn) st handler authenticated e =
      let (text, has, reads) =
        read_permissions-established unmarshal conn.extension conn.number st handler authenticated
          e in
      (conn, text, refl, has, reads)

  after_handshake-established :
      (unmarshal : String → Message ⊎ ConnectionAuthenticatedMetadata)
      (shaken : Call ((Message ⊎ ServerConn) × Gate G H S)) (st st' : Server G H S)
      (handler : Option ℕ) (authenticated : ConnectionAuthenticatedMetadata)
      → after_handshake connection connection_id unmarshal meta shaken st
        ≡ returns (established handler authenticated, st')
      → (conn : ServerConn) × (text : String) × (gate' : Gate G H S) × (shaken
          ≡ returns (inr conn, gate'))
        × (conn.extension ≡ some text)
        × (unmarshal text ≡ inr authenticated)
  unfolding after_handshake
  after_handshake-established unmarshal panics st st' handler authenticated e = cc
  after_handshake-established unmarshal (returns (result, gate')) st st' handler authenticated e =
      let (conn, text, right, has, reads) =
        conclude_handshake-established unmarshal result (record st { gate = gate' }) handler
          authenticated cc in
      (conn, text, gate', ap (λ r. returns (r, gate')) right, has, reads)

module _ {H S : Type 0} (authenticators : Authenticators S) (authorize : AuthzProvider S)
    (backend : NetworkConnectionHandler H S)
    (marshal : ConnectionAuthenticatedMetadata → Message ⊎ String)
    (unmarshal : String → Message ⊎ ConnectionAuthenticatedMetadata) where
  -- The callbacks of a server that is set up with an authorization provider.
  abbrev pub guarded_callbacks :
      ConnectionMetadata → Callbacks (AuthzGssApiServer S) (AuthHandler H) S
  guarded_callbacks meta =
      callbacks (guarded authenticators authorize backend) marshal meta (some authz_gss_api)

  -- `OnAuthGSSAPI` of the handler with the provider.
  abbrev pub guarded_gssapi :
      ConnectionMetadata → S → (Option (GssApi (AuthzGssApiServer S) S) × AuthzGssApiServer S) × S
  guarded_gssapi meta s =
      let (server, s') = on_auth_gssapi no_passthrough authenticators backend meta s in
      ((some authz_gss_api, authz_gssapi server), s')

  -- No provider has answered for GSSAPI, wherever the library gets to.
  Reaches-fresh :
      (meta : ConnectionMetadata) (start gate : Gate (AuthzGssApiServer S) (AuthHandler H) S)
      → start.gss.authz_response ≡ none
      → Reaches (guarded_callbacks meta) start gate
      → gate.gss.authz_response ≡ none
  Reaches-fresh meta start _ fresh at_start = fresh
  Reaches-fresh meta start _ fresh (outside_moves s r) = Reaches-fresh meta start _ fresh r
  Reaches-fresh meta start _ fresh (called {gate} {gate'} client attempt answer r e) =
      callbacks-gss authenticators authorize backend marshal meta client attempt gate gate' answer
        (Reaches-fresh meta start gate fresh r) e

  -- Some attempt was let in on the way from `start`, and these are the metadata in its permissions.
  abbrev pub IsEntered :
      ConnectionMetadata
      → Gate (AuthzGssApiServer S) (AuthHandler H) S
      → ConnectionAuthenticatedMetadata
      → Type 0
  IsEntered meta start authenticated =
      (client : Client) × (attempt : Attempt S) × (gate : Gate (AuthzGssApiServer S) (AuthHandler H)
        S)
      × (text : String) × Reaches (guarded_callbacks meta) start gate
      × IsLetIn authenticators authorize backend marshal meta client attempt gate text
      × (unmarshal text ≡ inr authenticated)

  shake_hands-established :
      (connection_id : String)
      (new_server_conn : NewServerConn (AuthzGssApiServer S) (AuthHandler H) S)
      (meta : ConnectionMetadata) (st st' : Server (AuthzGssApiServer S) (AuthHandler H) S)
      (handler : Option ℕ) (authenticated : ConnectionAuthenticatedMetadata)
      → PassesOn new_server_conn
      → st.gate.gss.authz_response ≡ none
      → shake_hands
          (guarded authenticators authorize backend)
          connection_id
          marshal
          unmarshal
          new_server_conn
          meta
          (some authz_gss_api)
          st
        ≡ returns (established handler authenticated, st')
      → IsEntered meta st.gate authenticated
  unfolding shake_hands
  shake_hands-established connection_id new_server_conn meta st st' handler authenticated passes
        fresh e =
      let cbs = guarded_callbacks meta in
      let (conn, text, gate', shaken, has, reads) =
        after_handshake-established (guarded authenticators authorize backend) connection_id meta
          unmarshal (new_server_conn cbs st.gate) st st' handler authenticated e in
      let (client, attempt, gate, after, err, reached, let_in) =
        passes cbs st.gate gate' conn text shaken has in
      (
        client,
        attempt,
        gate,
        text,
        reached,
        callbacks-IsLetIn authenticators authorize backend marshal meta client attempt gate after
            (record { metadata = text }) err (Reaches-fresh meta st.gate gate fresh reached) let_in,
        reads,
      )

  -- Where an authorization provider is set and nothing is left to the backend, a client gets an SSH
  -- connection only if, at some point of the handshake, an authenticator has found right what the
  -- client showed and the provider has allowed what the authenticator found; the connection's metadata
  -- are what is read in the permissions for that attempt. This holds with GSSAPI set up as well.
  pub handle_connection-IsEntered :
      (connection_id : String)
      (new_server_conn : NewServerConn (AuthzGssApiServer S) (AuthHandler H) S)
      (meta : ConnectionMetadata) (st st' : Server (AuthzGssApiServer S) (AuthHandler H) S)
      (handler : Option ℕ) (authenticated : ConnectionAuthenticatedMetadata)
      → PassesOn new_server_conn
      → handle_connection
          (guarded authenticators authorize backend)
          connection_id
          marshal
          unmarshal
          new_server_conn
          guarded_gssapi
          (inr meta)
          st
        ≡ returns (established handler authenticated, st')
      → (start : Gate (AuthzGssApiServer S) (AuthHandler H) S) × (start.handler ≡ st.gate.handler)
        × (start.outside ≡ (guarded_gssapi meta st.gate.outside).1)
        × IsEntered meta start authenticated
  unfolding handle_connection note_at authz_gssapi
  handle_connection-IsEntered connection_id new_server_conn meta st st' handler authenticated passes
        e =
      (
        _,
        refl,
        refl,
        shake_hands-established connection_id new_server_conn meta _ st' handler authenticated
            passes refl e,
      )
