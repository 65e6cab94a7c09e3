-- ===== src/Agent/Connection.antt =====
-- agentprotocol/server.go: the methods of `Connection`. Each takes the connection by its key in the
-- context's map, where every connection stands; a key with no connection stands for no object.
use libcontainerssh.Common.{
  ℕ, ◌+◌, if◌then◌else◌, String, true, List, [], ◌∷◌, ◌++◌, length, Option, none, some,
}
use libcontainerssh.Message.{error}
use libcontainerssh.Agent.Protocol.{
  Packet, PacketType, packet_data, packet_close_connection, packet_success, packet_error,
}
use libcontainerssh.Agent.State.{
  Connection, waitinit, started, waitclose, closed, ForwardCtx, Outcome, returns, blocks, panics,
  find, put, note, group_done, is_writing,
}

-- What a method answers: a number of bytes or an error's text.
pub data Answer : Type 0 where
  nil : Answer
  wrote : ℕ → Answer
  fails : String → Answer

abbrev control : PacketType → ℕ → Packet
control type id = record { type = type; connection_id = id; payload = [] }

answered : Outcome ForwardCtx → Outcome (Answer × ForwardCtx)
answered (returns x) = returns (nil, x)
answered blocks = blocks
answered panics = panics

-- `CloseImm`: the callback, both ends of the pipe, and the wait group.
unfoldable pub close_imm_on : Connection → ℕ → ForwardCtx → Outcome (Answer × ForwardCtx)
unfolding answered group_done
close_imm_on c k x =
    let shut = record c {
      state = closed;
      closings = if c.has_callback then c.closings + 1 else c.closings;
      writer_closed = true;
      reader_closed = true;
    } in
    elim c.state [
      | closed ↦ returns (fails "unclosable state", x)
      | _ ↦ answered (group_done (put k shut x))
    ]

-- A method on the connection of a key, which waits for the lock of the connection.
abbrev on_key :
    (Connection → ℕ → ForwardCtx → Outcome (Answer × ForwardCtx))
    → ℕ
    → ForwardCtx
    → Outcome (Answer × ForwardCtx)
on_key method k x = if is_writing k x.waits then blocks else elim (find k x.conn_map) [
  | none ↦ returns (fails "no such connection", x)
  | some c ↦ method c k x
]

unfoldable pub close_imm : ℕ → ForwardCtx → Outcome (Answer × ForwardCtx)
unfolding close_imm_on
close_imm = on_key close_imm_on

-- `encode` is the CBOR encoder on the writer to the other side: with what was sent before, it takes a
-- packet or fails with an error.
module _ (encode : List Packet → Packet → Option String) where
  unfoldable pub write_packet : Packet → ForwardCtx → Option String × ForwardCtx
  write_packet packet x = elim (encode x.sent packet) [
    | some err ↦ (some err, x)
    | none ↦ (none, record x { sent = x.sent ++ (packet ∷ []) })
  ]

  abbrev sends : Packet → ForwardCtx → Outcome (Answer × ForwardCtx)
  sends packet x =
      let (failed, x') = write_packet packet x in
      elim failed [ none ↦ returns (nil, x') | some err ↦ returns (fails err, x') ]

  written : List ℕ → Option String × ForwardCtx → Outcome (Answer × ForwardCtx)
  written bytes (none, x) = returns (wrote (length bytes), x)
  written bytes (some err, x) = returns (fails err, note error "SSH_CONNECTED" x)

  -- In WAITINIT the call waits for another to change the state.
  write_on : Connection → ℕ → List ℕ → ForwardCtx → Outcome (Answer × ForwardCtx)
  unfolding write_packet written
  write_on c k bytes x = elim c.state [
    | waitinit ↦ blocks
    | started ↦
        written bytes
          (write_packet (record { type = packet_data; connection_id = c.id; payload = bytes }) x)
    | waitclose ↦ returns (fails "connection closed", put k (record c { writer_closed = true }) x)
    | closed ↦ returns (fails "connection closed", put k (record c { writer_closed = true }) x)
  ]

  close_on : Connection → ℕ → ForwardCtx → Outcome (Answer × ForwardCtx)
  unfolding write_packet
  close_on c k x = elim c.state [
    | waitinit ↦
        sends (control packet_close_connection c.id) (put k (record c { state = waitclose }) x)
    | started ↦
        sends (control packet_close_connection c.id) (put k (record c { state = waitclose }) x)
    | waitclose ↦ returns (nil, x)
    | closed ↦ returns (nil, x)
  ]

  accept_on : Connection → ℕ → ForwardCtx → Outcome (Answer × ForwardCtx)
  unfolding write_packet
  accept_on c k x =
      if c.initiator
      then returns (fails "cannot accept connection that was initiated locally", x)
      else elim c.state [
        | waitinit ↦ sends (control packet_success c.id) (put k (record c { state = started }) x)
        | _ ↦ returns (fails "invalid state, cannot accept connection", x)
      ]

  -- `Reject` closes the connection's state only.
  unfoldable pub reject_on : Connection → ℕ → ForwardCtx → Outcome (Answer × ForwardCtx)
  unfolding write_packet
  reject_on c k x =
      if c.initiator
      then returns (fails "cannot reject a connection that was initiated locally", x)
      else elim c.state [
        | waitinit ↦ sends (control packet_error c.id) (put k (record c { state = closed }) x)
        | _ ↦ returns (fails "invalid state, cannot accept connection", x)
      ]

  unfoldable pub write : List ℕ → ℕ → ForwardCtx → Outcome (Answer × ForwardCtx)
  unfolding write_on
  write bytes = on_key (λ c k. write_on c k bytes)

  unfoldable pub close : ℕ → ForwardCtx → Outcome (Answer × ForwardCtx)
  unfolding close_on
  close = on_key close_on

  unfoldable pub accept : ℕ → ForwardCtx → Outcome (Answer × ForwardCtx)
  unfolding accept_on
  accept = on_key accept_on

  unfoldable pub reject : ℕ → ForwardCtx → Outcome (Answer × ForwardCtx)
  unfolding reject_on
  reject = on_key reject_on
