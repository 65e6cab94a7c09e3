-- ===== src/SshServer/Handshake.antt =====
-- internal/sshserver/serverImpl.go: `handleConnection`, from a new network connection to the SSH
-- connection on it, and the end of that. Log lines are without the labels of their logger.
use Prim.Native.String.{◌++◌ as str_append}
use libcontainerssh.Common.{
  ℕ, ◌-◌, String, Bool, true, List, ◌∷◌, Option, none, some, Call, returns, panics, ◌⊎◌, inl, inr,
}
use libcontainerssh.Message.{
  Message, Level, debug, info, error, new_message, wrap, wrap_user, write_log,
}
use libcontainerssh.Metadata.{ConnectionMetadata, ConnectionAuthenticatedMetadata}
use libcontainerssh.AuthIntegration.Interface.{NetworkConnectionHandler}
use libcontainerssh.SshServer.Authenticators.{Client, Permissions, GssApi, Gate, Attempt, callbacks}
use libcontainerssh.SshServer.Registry.{Registry, register, unregister}

-- The functions that the SSH library is configured with.
abbrev pub Callbacks : Type 0 → Type 0 → Type 0 → Type 0
Callbacks G H S =
    Client
    → Attempt S
    → Gate G H S
    → Option (Call ((Option Permissions × Option Message) × Gate G H S))

-- A connection of the SSH library, known by a number, and the extension of its permissions.
pub record ServerConn : Type 0 where
  pub number : ℕ
  pub extension : Option String

-- What `ssh.NewServerConn` does with the callbacks: an error, or a connection.
abbrev pub NewServerConn : Type 0 → Type 0 → Type 0 → Type 0
NewServerConn G H S = Callbacks G H S → Gate G H S → Call ((Message ⊎ ServerConn) × Gate G H S)

-- The server with one connection: `wg` counts the connections, and `closed` says whether this one's
-- socket has been closed. A new entry of the map of the connections hides an older one of its key.
pub record Server (G H S : Type 0) : Type 0 where
  pub gate : Gate G H S
  pub shutdown_handlers : Registry
  pub client_sockets : List ℕ
  pub conn_map : List (String × ℕ)
  pub wg : ℕ
  pub closed : Bool

-- The connection has ended, or it is established with a handler, which may be nil, and with its metadata.
pub data Progress : Type 0 where
  ended : Progress
  established : Option ℕ → ConnectionAuthenticatedMetadata → Progress

abbrev pub network_id : String → String
network_id connection_id = str_append "network-" connection_id

abbrev pub ssh_id : String → String
ssh_id connection_id = str_append "ssh-" connection_id

unfoldable pub handshake_failed_message : Option Message → Message
unfolding new_message wrap
handshake_failed_message none = new_message "SSH_HANDSHAKE_FAILED" "SSH handshake failed (<nil>)"
handshake_failed_message (some err) = wrap err "SSH_HANDSHAKE_FAILED" "SSH handshake failed"

unfoldable pub backend_rejected_message : Message → Message
unfolding wrap_user
backend_rejected_message err =
    wrap_user err "SSH_BACKEND_REJECTED_HANDSHAKE"
      "Authentication currently unavailable, please try again later."
      "The backend has rejected the user after successful authentication."

module _ {G H S : Type 0} (connection : NetworkConnectionHandler H S) (connection_id : String) where
  unfoldable pub note_at : Level → Message → Server G H S → Server G H S
  note_at level m st = record st { gate = record st.gate { log = write_log level m st.gate.log } }

  unfoldable pub hang_up : Server G H S → Server G H S
  unfolding note_at new_message
  hang_up st =
      let noted = note_at debug (new_message "SSH_DISCONNECTED" "Client disconnected") st in
      let (h, s) = connection.on_disconnect noted.gate.handler noted.gate.outside in
      record noted { gate = record noted.gate { handler = h; outside = s }; wg = st.wg - 1 }

  unfoldable pub abort_cleanup :
      ConnectionMetadata → Option Message → Server G H S → Progress × Server G H S
  unfolding note_at handshake_failed_message unregister hang_up
  abort_cleanup meta err st =
      let noted = note_at info (handshake_failed_message err) st in
      let (h, s) = connection.on_handshake_failed meta err noted.gate.handler noted.gate.outside in
      let told = record noted {
        gate = record noted.gate { handler = h; outside = s };
        shutdown_handlers = unregister (network_id connection_id) noted.shutdown_handlers;
      } in
      (ended, record (hang_up told) { closed = true })

  -- After `OnHandshakeSuccess`, up to the start of the goroutine that waits for the end of the
  -- connection: from there on that goroutine and the registration run side by side.
  unfoldable pub admit :
      ConnectionMetadata
      → ConnectionAuthenticatedMetadata
      → ℕ
      → Option ℕ × Option Message
      → Server G H S
      → Progress × Server G H S
  unfolding note_at backend_rejected_message abort_cleanup register new_message
  admit meta authenticated number (handler, some err) st =
      let rejected = backend_rejected_message err in
      abort_cleanup meta (some rejected) (note_at error rejected st)
  admit meta authenticated number (handler, none) st = (
    established handler authenticated,
    note_at debug (new_message "SSH_HANDSHAKE_SUCCESSFUL" "SSH handshake successful") (record st {
      client_sockets = number ∷ st.client_sockets;
      conn_map = (connection_id, number) ∷ st.conn_map;
    }),
  )

  -- From the metadata in the permissions, which `unmarshal` reads.
  unfoldable pub greet :
      ConnectionMetadata
      → Message ⊎ ConnectionAuthenticatedMetadata
      → ℕ
      → Server G H S
      → Progress × Server G H S
  unfolding abort_cleanup admit
  greet meta (inl err) number st = abort_cleanup meta (some err) st
  greet meta (inr authenticated) number st =
      let ((handler, after, err), h, s) =
        connection.on_handshake_success authenticated st.gate.handler st.gate.outside in
      admit meta authenticated number (handler, err)
        (record st { gate = record st.gate { handler = h; outside = s } })

  -- From the extension of the permissions.
  unfoldable pub read_permissions :
      (String → Message ⊎ ConnectionAuthenticatedMetadata)
      → ConnectionMetadata
      → Option String
      → ℕ
      → Server G H S
      → Progress × Server G H S
  unfolding abort_cleanup greet
  read_permissions unmarshal meta none number st = abort_cleanup meta none st
  read_permissions unmarshal meta (some text) number st = greet meta (unmarshal text) number st

  -- From what `NewServerConn` gives.
  unfoldable pub conclude_handshake :
      (String → Message ⊎ ConnectionAuthenticatedMetadata)
      → ConnectionMetadata
      → Message ⊎ ServerConn
      → Server G H S
      → Progress × Server G H S
  unfolding abort_cleanup read_permissions
  conclude_handshake unmarshal meta (inl err) st = abort_cleanup meta (some err) st
  conclude_handshake unmarshal meta (inr conn) st =
      read_permissions unmarshal meta conn.extension conn.number st

  unfoldable pub after_handshake :
      (String → Message ⊎ ConnectionAuthenticatedMetadata)
      → ConnectionMetadata
      → Call ((Message ⊎ ServerConn) × Gate G H S)
      → Server G H S
      → Call (Progress × Server G H S)
  unfolding conclude_handshake
  after_handshake unmarshal meta panics st = panics
  after_handshake unmarshal meta (returns (result, gate)) st =
      returns (conclude_handshake unmarshal meta result (record st { gate = gate }))

  -- From the GSSAPI server, where there is one.
  unfoldable pub shake_hands :
      (ConnectionAuthenticatedMetadata → Message ⊎ String)
      → (String → Message ⊎ ConnectionAuthenticatedMetadata)
      → NewServerConn G H S
      → ConnectionMetadata
      → Option (GssApi G S)
      → Server G H S
      → Call (Progress × Server G H S)
  unfolding after_handshake callbacks
  shake_hands marshal unmarshal new_server_conn meta server st =
      after_handshake unmarshal meta
        (new_server_conn (callbacks connection marshal meta server) st.gate) st

  -- The goroutine that waits for the end of the connection.
  unfoldable pub finish_connection : Server G H S → Server G H S
  unfolding hang_up note_at unregister new_message
  finish_connection st =
      let noted = note_at debug (new_message "SSH_DISCONNECTED" "Client disconnected") st in
      let free = record noted {
        shutdown_handlers =
            unregister (ssh_id connection_id)
              (unregister (network_id connection_id) noted.shutdown_handlers);
      } in
      let (h, s) = connection.on_disconnect free.gate.handler free.gate.outside in
      record free { gate = record free.gate { handler = h; outside = s }; wg = st.wg - 1 }

  -- The second shutdown handler, which is registered when that goroutine has been started already.
  unfoldable pub register_connection : Server G H S → Server G H S
  unfolding register
  register_connection st = record st {
    shutdown_handlers = register (ssh_id connection_id) st.shutdown_handlers;
  }

  -- `handleConnection`, up to the start of that goroutine where there is one, from what
  -- `OnNetworkConnection` has answered: an error, or the metadata.
  -- `gssapi` is `OnAuthGSSAPI`.
  unfoldable pub handle_connection :
      (ConnectionAuthenticatedMetadata → Message ⊎ String)
      → (String → Message ⊎ ConnectionAuthenticatedMetadata)
      → NewServerConn G H S
      → (ConnectionMetadata → S → (Option (GssApi G S) × G) × S)
      → Message ⊎ ConnectionMetadata
      → Server G H S
      → Call (Progress × Server G H S)
  unfolding note_at register shake_hands new_message
  handle_connection marshal unmarshal new_server_conn gssapi (inl err) st =
      returns (ended, record (note_at info err st) { closed = true; wg = st.wg - 1 })
  handle_connection marshal unmarshal new_server_conn gssapi (inr meta) st =
      let known = note_at debug (new_message "SSH_CONNECTED" "Client connected") (record st {
        shutdown_handlers = register (network_id connection_id) st.shutdown_handlers;
      }) in
      let ((server, g), s) = gssapi meta known.gate.outside in
      shake_hands marshal unmarshal new_server_conn meta server
        (record known { gate = record known.gate { gss = g; outside = s } })
