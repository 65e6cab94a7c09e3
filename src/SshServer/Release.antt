-- ===== src/SshServer/Release.antt =====
-- internal/sshserver/serverImpl.go: what is left of a network connection in the server.
use libcontainerssh.Common.{
  ℕ, ◌+◌, ◌-◌, ◌≡◌, refl, ◌∙◌, ap, String, true, Mem, Option, none, some, arith, Call, returns,
  panics, ◌⊎◌, inl, inr, subst, Option-cases, returns_inj,
}
use libcontainerssh.Message.{Message, error}
use libcontainerssh.Metadata.{
  ConnectionMetadata, ConnectionAuthPendingMetadata, ConnectionAuthenticatedMetadata,
}
use libcontainerssh.AuthIntegration.Interface.{Credentials, NetworkConnectionHandler}
use libcontainerssh.SshServer.Library.{OnlyCalls}
use libcontainerssh.SshServer.Reached.{Reaches-count}
use libcontainerssh.SshServer.Authenticators.{GssApi, Gate}
use libcontainerssh.SshServer.Registry.{
  Registry, register, unregister, unregister-register, unregister_of_not_mem, unregister_both,
}
use libcontainerssh.SshServer.Handshake.{
  ServerConn, NewServerConn, Server, Progress, ended, established, network_id, ssh_id, note_at,
  hang_up, backend_rejected_message, abort_cleanup, admit, greet, read_permissions,
  conclude_handshake, after_handshake, shake_hands, finish_connection, register_connection,
  handle_connection,
}

-- A handler was made for the connection, and is to be told once that it ends.
abbrev pub to_tell : Message ⊎ ConnectionMetadata → ℕ
to_tell (inl err) = 0
to_tell (inr meta) = 1

-- `count` counts the calls of OnDisconnect, which no other method of the handler changes.
module _ {G H S : Type 0} (connection : NetworkConnectionHandler H S) (count : H → ℕ)
    (counts : (h : H) (s : S) → count (connection.on_disconnect h s).0 ≡ count h + 1)
    (failure : (meta : ConnectionMetadata) (reason : Option Message) (h : H) (s : S)
      → count (connection.on_handshake_failed meta reason h s).0 ≡ count h)
    (success : (meta : ConnectionAuthenticatedMetadata) (h : H) (s : S)
      → count (connection.on_handshake_success meta h s).1 ≡ count h)
    (attempts : (credentials : Credentials S) (meta : ConnectionAuthPendingMetadata) (h : H) (s : S)
      → count (connection.on_auth credentials meta h s).1 ≡ count h)
    (connection_id : String) where
  -- A connection that has ended, or that is established and ends later, leaves these behind: the
  -- shutdown handlers, the number of connections, and the calls of OnDisconnect. If an established
  -- connection ends before its second shutdown handler is registered, that handler stays.
  abbrev pub Leaves : Registry → ℕ → ℕ → Progress × Server G H S → Type 0
  Leaves registry n calls (ended, st) =
      (st.shutdown_handlers ≡ registry)
      × (st.wg ≡ n)
      × (count st.gate.handler ≡ calls)
      × (st.closed ≡ true)
  Leaves registry n calls (established handler authenticated, st) =
      let last =
        finish_connection connection connection_id
          (register_connection connection connection_id st) in
      let raced =
        register_connection connection connection_id
          (finish_connection connection connection_id st) in
      (last.shutdown_handlers ≡ registry)
      × (last.wg ≡ n)
      × (count last.gate.handler ≡ calls)
      × (raced.shutdown_handlers ≡ register (ssh_id connection_id) registry)
      × (raced.wg ≡ n)
      × (count raced.gate.handler ≡ calls)

  module _ (callbacks_before : Registry) (fresh : ¬ Mem (network_id connection_id) callbacks_before)
      (fresh_ssh : ¬ Mem (ssh_id connection_id) callbacks_before) where
    -- Before the end of the handshake the connection has its first shutdown handler.
    abbrev IsPending : Server G H S → Type 0
    IsPending st = st.shutdown_handlers ≡ register (network_id connection_id) callbacks_before

    abort_cleanup-Leaves :
        (meta : ConnectionMetadata) (err : Option Message) (st : Server G H S)
        → IsPending st
        → Leaves callbacks_before
            (st.wg - 1)
            (count st.gate.handler + 1)
            (abort_cleanup connection connection_id meta err st)
    unfolding abort_cleanup hang_up note_at
    abort_cleanup-Leaves meta err st pending = (
      ap (unregister (network_id connection_id)) pending
          ∙ unregister-register (network_id connection_id) callbacks_before fresh,
      refl,
      counts _ _ ∙ ap (λ n. n + 1) (failure meta err st.gate.handler st.gate.outside),
      refl,
    )

    admit-Leaves :
        (meta : ConnectionMetadata) (authenticated : ConnectionAuthenticatedMetadata) (number : ℕ)
        (answer : Option ℕ × Option Message) (st : Server G H S)
        → IsPending st
        → Leaves callbacks_before
            (st.wg - 1)
            (count st.gate.handler + 1)
            (admit connection connection_id meta authenticated number answer st)
    unfolding admit finish_connection register_connection note_at
    admit-Leaves meta authenticated number (handler, some err) st pending =
        let rejected = backend_rejected_message err in
        abort_cleanup-Leaves meta (some rejected)
          (note_at connection connection_id error rejected st) pending
    admit-Leaves meta authenticated number (handler, none) st pending = (
      ap
            (λ r.
              unregister (ssh_id connection_id)
                (unregister (network_id connection_id) (register (ssh_id connection_id) r)))
            pending
          ∙ unregister_both (network_id connection_id) (ssh_id connection_id) callbacks_before fresh
              fresh_ssh,
      refl,
      counts _ _,
      ap (register (ssh_id connection_id)) (
          ap (λ r. unregister (ssh_id connection_id) (unregister (network_id connection_id) r))
            pending
          ∙ ap (unregister (ssh_id connection_id))
              (unregister-register (network_id connection_id) callbacks_before fresh)
          ∙ unregister_of_not_mem (ssh_id connection_id) callbacks_before fresh_ssh),
      refl,
      counts _ _,
    )

    greet-Leaves :
        (meta : ConnectionMetadata) (read : Message ⊎ ConnectionAuthenticatedMetadata) (number : ℕ)
        (st : Server G H S)
        → IsPending st
        → Leaves callbacks_before
            (st.wg - 1)
            (count st.gate.handler + 1)
            (greet connection connection_id meta read number st)
    unfolding greet
    greet-Leaves meta (inl err) number st pending = abort_cleanup-Leaves meta (some err) st pending
    greet-Leaves meta (inr authenticated) number st pending =
        let ((handler, after, err), h, s) =
          connection.on_handshake_success authenticated st.gate.handler st.gate.outside in
        subst
          (λ n.
            Leaves callbacks_before (st.wg - 1) (n + 1)
              (greet connection connection_id meta (inr authenticated) number st))
          (success authenticated st.gate.handler st.gate.outside)
          (admit-Leaves meta authenticated number (handler, err)
            (record st { gate = record st.gate { handler = h; outside = s } }) pending)

    conclude_handshake-Leaves :
        (unmarshal : String → Message ⊎ ConnectionAuthenticatedMetadata) (meta : ConnectionMetadata)
        (result : Message ⊎ ServerConn) (st : Server G H S)
        → IsPending st
        → Leaves callbacks_before
            (st.wg - 1)
            (count st.gate.handler + 1)
            (conclude_handshake connection connection_id unmarshal meta result st)
    unfolding conclude_handshake read_permissions
    conclude_handshake-Leaves unmarshal meta (inl err) st pending =
        abort_cleanup-Leaves meta (some err) st pending
    conclude_handshake-Leaves unmarshal meta (inr conn) st pending =
        elim (Option-cases conn.extension) [
          | inl e ↦ rw e (abort_cleanup-Leaves meta none st pending)
          | inr (text, e) ↦ rw e (greet-Leaves meta (unmarshal text) conn.number st pending)
        ]

  after_handshake-Leaves :
      (unmarshal : String → Message ⊎ ConnectionAuthenticatedMetadata) (meta : ConnectionMetadata)
      (shaken : Call ((Message ⊎ ServerConn) × Gate G H S)) (callbacks_before : Registry)
      (st : Server G H S) (p : Progress × Server G H S)
      → ¬ Mem (network_id connection_id) callbacks_before
      → ¬ Mem (ssh_id connection_id) callbacks_before
      → st.shutdown_handlers ≡ register (network_id connection_id) callbacks_before
      → ((result : Message ⊎ ServerConn) (gate : Gate G H S)
          → shaken ≡ returns (result, gate)
          → count gate.handler ≡ count st.gate.handler)
      → after_handshake connection connection_id unmarshal meta shaken st ≡ returns p
      → Leaves callbacks_before (st.wg - 1) (count st.gate.handler + 1) p
  unfolding after_handshake
  after_handshake-Leaves unmarshal meta panics before st p fresh fresh_ssh pending keeps e = cc
  after_handshake-Leaves unmarshal meta (returns (result, gate)) before st p fresh fresh_ssh pending
        keeps e =
      let st' = record st { gate = gate } in
      subst (λ q. Leaves before (st.wg - 1) (count st.gate.handler + 1) q) (returns_inj e)
        (subst
          (λ n.
            Leaves before (st.wg - 1) (n + 1)
              (conclude_handshake connection connection_id unmarshal meta result st'))
          (keeps result gate refl)
          (conclude_handshake-Leaves before fresh fresh_ssh unmarshal meta result st' pending))

  -- Whatever becomes of a network connection whose keys are new, if nothing panics, and if nothing else
  -- changes the shutdown handlers meanwhile, so that those of its channels are not looked at: when the
  -- connection is over, one connection less is counted, and the handler that was made for it, if one
  -- was, has been told of the end exactly once. A connection that does not become an SSH connection
  -- has its socket closed and leaves the shutdown handlers as they were; so does an SSH connection that
  -- ends after its second shutdown handler was registered. One that ends before that leaves exactly
  -- this handler behind.
  pub handle_connection-Leaves :
      (marshal : ConnectionAuthenticatedMetadata → Message ⊎ String)
      (unmarshal : String → Message ⊎ ConnectionAuthenticatedMetadata)
      (new_server_conn : NewServerConn G H S)
      (gssapi : ConnectionMetadata → S → (Option (GssApi G S) × G) × S)
      (answer : Message ⊎ ConnectionMetadata) (st : Server G H S) (p : Progress × Server G H S)
      → OnlyCalls new_server_conn
      → ¬ Mem (network_id connection_id) st.shutdown_handlers
      → ¬ Mem (ssh_id connection_id) st.shutdown_handlers
      → handle_connection connection connection_id marshal unmarshal new_server_conn gssapi answer
          st
        ≡ returns p
      → Leaves st.shutdown_handlers (st.wg - 1) (count st.gate.handler + to_tell answer) p
  unfolding handle_connection shake_hands note_at
  handle_connection-Leaves marshal unmarshal new_server_conn gssapi (inl err) st p calls_only fresh
        fresh_ssh e =
      subst (λ q. Leaves st.shutdown_handlers (st.wg - 1) (count st.gate.handler + 0) q)
        (returns_inj e) (refl, refl, omega arith, refl)
  handle_connection-Leaves marshal unmarshal new_server_conn gssapi (inr meta) st p calls_only fresh
        fresh_ssh e =
      after_handshake-Leaves unmarshal meta _ st.shutdown_handlers _ p fresh fresh_ssh refl
        (λ result gate shaken.
          Reaches-count connection count attempts marshal meta _ _ gate
            (calls_only _ _ gate result shaken))
        e
