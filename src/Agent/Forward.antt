-- ===== src/Agent/Forward.antt =====
-- agentprotocol/server.go: how a forwarding context handles the packets of the other side, and the
-- calls by which connections are opened and the context is ended.
use libcontainerssh.Common.{
  ℕ, ◌+◌, ◌%◌, ◌^◌, ◌==◌, leb, if◌then◌else◌, String, Bool, true, false, List, [], ◌++◌, Option,
  none, some, ◌||◌,
}
use libcontainerssh.Message.{error, info, warning}
use libcontainerssh.Agent.Protocol.{
  Packet, PacketType, packet_data, packet_close_connection, packet_success, packet_error,
  packet_new_connection, packet_no_more_connections, NewConnectionPayload,
}
use libcontainerssh.Agent.State.{
  Connection, waitinit, started, waitclose, ForwardCtx, Outcome, returns, blocks, panics, find,
  store, put, note, close_channel, writing, offering,
}
use libcontainerssh.Agent.Connection.{
  Answer, nil, wrote, fails, write_packet, close_imm_on, reject_on,
}

-- `handler` where `connMapMu` can be taken.
abbrev pub with_map : ForwardCtx → Outcome ForwardCtx → Outcome ForwardCtx
with_map x handler = if x.map_locked then blocks else handler

-- A call whose answer is not used.
abbrev pub dropped : Outcome (Answer × ForwardCtx) → Outcome ForwardCtx
dropped (returns (answer, x)) = returns x
dropped blocks = blocks
dropped panics = panics

-- The pipe fails if an end of it is closed. Otherwise the bytes go into it, and the goroutine waits,
-- with the lock of the connection, until they are read.
abbrev pub deliver : Connection → ℕ → List ℕ → ForwardCtx → ForwardCtx
deliver c k bytes x =
    if c.reader_closed || c.writer_closed
    then note error "SSH_CONNECTED" x
    else record (put k (record c { delivered = c.delivered ++ bytes }) x) { waits = writing k }

unfoldable pub handle_data : Packet → ForwardCtx → Outcome ForwardCtx
handle_data p x = with_map x (elim (find p.connection_id x.conn_map) [
  | none ↦ returns (note info "AGENTPROTO_UNKNOWN_CONNECTION" x)
  | some c ↦ elim c.state [
    | started ↦ returns (deliver c p.connection_id p.payload x)
    | _ ↦ returns (note info "AGENTPROTO_INVALID_STATE" x)
  ]
])

unfoldable pub handle_success : Packet → ForwardCtx → Outcome ForwardCtx
unfolding close_imm_on
handle_success p x = with_map x (elim (find p.connection_id x.conn_map) [
  | none ↦ returns (note info "AGENTPROTO_UNKNOWN_CONNECTION" x)
  | some c ↦ elim c.state [
    | waitinit ↦ returns (put p.connection_id (record c { state = started }) x)
    | waitclose ↦ dropped (close_imm_on c p.connection_id x)
    | _ ↦ returns (note warning "AGENTPROTO_INVALID_STATE" x)
  ]
])

unfoldable pub handle_error : Packet → ForwardCtx → Outcome ForwardCtx
unfolding close_imm_on
handle_error p x = with_map x (elim (find p.connection_id x.conn_map) [
  | none ↦ returns (note info "AGENTPROTO_UNKNOWN_CONNECTION" x)
  | some c ↦ dropped (close_imm_on c p.connection_id (note info "AGENTPROTO_REMOTE_ERROR" x))
])

-- PACKET_NO_MORE_CONNECTIONS.
unfoldable pub handle_no_more : ForwardCtx → Outcome ForwardCtx
unfolding close_channel
handle_no_more x = if x.stopped then returns x else close_channel (record x { stopped = true })

module _ (encode : List Packet → Packet → Option String) where
  -- The answer to a packet that closes a connection.
  confirm_close : ℕ → Outcome (Answer × ForwardCtx) → Outcome ForwardCtx
  unfolding write_packet
  confirm_close id (returns (fails err, x)) =
      returns
        (write_packet encode (record { type = packet_error; connection_id = id; payload = [] }) x).1
  confirm_close id (returns (answer, x)) =
      returns
        (write_packet encode (record { type = packet_success; connection_id = id; payload = [] })
          x).1
  confirm_close id blocks = blocks
  confirm_close id panics = panics

  -- For a connection that is not in the map the call returns with `connMapMu` held.
  unfoldable pub handle_close : Packet → ForwardCtx → Outcome ForwardCtx
  unfolding close_imm_on confirm_close
  handle_close p x = with_map x (elim (find p.connection_id x.conn_map) [
    | none ↦ returns (record (note info "AGENTPROTO_UNKNOWN_CONNECTION" x) { map_locked = true })
    | some c ↦ confirm_close c.id (close_imm_on c p.connection_id x)
  ])

  abbrev pub fresh : ℕ → NewConnectionPayload → Connection
  fresh id details = record {
    state = waitinit;
    initiator = false;
    id = id;
    details = details;
    delivered = [];
    reader_closed = false;
    writer_closed = false;
    has_callback = false;
    closings = 0;
  }

  abbrev pub add_connection : ℕ → Connection → ForwardCtx → ForwardCtx
  add_connection k c x = record x {
    connection_id = k;
    conn_map = store k c x.conn_map;
    wait_group = x.wait_group + 1;
  }

  -- The connection is in the map by now: it is rejected, or the goroutine waits until someone takes it
  -- from the channel. A channel that is closed takes nothing.
  offer : Connection → ForwardCtx → Outcome ForwardCtx
  unfolding reject_on
  offer c x =
      if x.stopped
      then dropped (reject_on encode c c.id (note warning "" x))
      else if x.channel_closed
      then panics
      else returns (record x { waits = offering c.id })

  -- `handleNewConnection` with a payload that could be read.
  unfoldable pub add_new : Packet → NewConnectionPayload → ForwardCtx → Outcome ForwardCtx
  unfolding offer
  add_new p details x = with_map x (elim (find p.connection_id x.conn_map) [
    | some c ↦ returns (note warning "" x)
    | none ↦
        if leb p.connection_id x.connection_id
        then returns (note warning "" x)
        else let c = fresh p.connection_id details in
          let x' =
            if p.connection_id == (x.connection_id + 1) % 2 ^ 64 then x else note warning "" x in
          offer c (add_connection p.connection_id c x')
  ])

  -- `decode_new` is the CBOR decoder of the packet's payload.
  unfoldable pub handle_new_connection :
      (List ℕ → Option NewConnectionPayload) → Packet → ForwardCtx → Outcome ForwardCtx
  unfolding add_new
  handle_new_connection decode_new p x = elim (decode_new p.payload) [
    | none ↦ returns (note error "" x)
    | some details ↦ add_new p details x
  ]

  unfoldable pub handle_packet :
      (List ℕ → Option NewConnectionPayload) → PacketType → Packet → ForwardCtx → Outcome ForwardCtx
  handle_packet decode_new packet_data p x = handle_data p x
  handle_packet decode_new packet_close_connection p x = handle_close p x
  handle_packet decode_new packet_success p x = handle_success p x
  handle_packet decode_new packet_error p x = handle_error p x
  handle_packet decode_new packet_new_connection p x = handle_new_connection decode_new p x
  handle_packet decode_new packet_no_more_connections p x = handle_no_more x
  handle_packet decode_new _ p x = returns (note warning "AGENTPROTO_PACKET_UNKNOWN" x)

  -- What `newConnection` gives back: the connection's key, or an error.
  created : ℕ → Option String × ForwardCtx → Outcome (Answer × ForwardCtx)
  created id (none, x) = returns (wrote id, x)
  created id (some err, x) = returns (fails err, note error "SSH_CONNECTED" x)

  -- `encode_new` is the CBOR encoder of the payload. If the next number is taken, the call returns
  -- with `connMapMu` held. A key is answered as the number of the connection.
  unfoldable pub new_connection :
      (NewConnectionPayload → Option (List ℕ))
      → NewConnectionPayload
      → Bool
      → ForwardCtx
      → Outcome (Answer × ForwardCtx)
  unfolding write_packet created
  new_connection encode_new details has_callback x = elim (encode_new details) [
    | none ↦
        returns (fails "error marshalling new connection payload", note error "SSH_CONNECTED" x)
    | some payload ↦
        if x.map_locked
        then blocks
        else let id = (x.connection_id + 1) % 2 ^ 64 in
          let c = record (fresh id details) { initiator = true; has_callback = has_callback } in
          elim (find id x.conn_map) [
            | some other ↦ returns (
              fails "Connection id already exists, something went terribly wrong",
              record x { connection_id = id; map_locked = true },
            )
            | none ↦ created id (
                write_packet encode
                  (record { type = packet_new_connection; connection_id = id; payload = payload })
                  (add_connection id c x))
          ]
  ]

  then_no_more : Outcome ForwardCtx → Outcome (Answer × ForwardCtx)
  unfolding write_packet
  then_no_more (returns x) =
      let (failed, x') =
        write_packet encode
          (record { type = packet_no_more_connections; connection_id = 0; payload = [] }) x in
      elim failed [ none ↦ returns (nil, x') | some err ↦ returns (fails err, x') ]
  then_no_more blocks = blocks
  then_no_more panics = panics

  -- `NoMoreConnections`.
  unfoldable pub no_more_connections : ForwardCtx → Outcome (Answer × ForwardCtx)
  unfolding close_channel then_no_more
  no_more_connections x = then_no_more (close_channel (record x { stopped = true }))
