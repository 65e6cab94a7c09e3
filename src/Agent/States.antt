-- ===== src/Agent/States.antt =====
-- agentprotocol/server.go: how packets and calls change the connection of a key.
use libcontainerssh.Common.{
  ℕ, ◌+◌, ◌≤◌, ◌≡◌, ◌⊎◌, inl, inr, Bool, List, Option, none, some, arith, Option-cases,
}
use libcontainerssh.Agent.Protocol.{Packet, NewConnectionPayload}
use libcontainerssh.Agent.State.{
  Connection, ConnectionState, waitinit, started, waitclose, closed, ForwardCtx, Outcome, returns,
  blocks, panics, find, store,
}
use libcontainerssh.Agent.Connection.{Answer, write, close, close_imm, accept, reject, close_imm_on}
use libcontainerssh.Agent.Forward.{
  handle_data, handle_success, handle_error, handle_close, handle_new_connection, handle_no_more,
  handle_packet, new_connection, no_more_connections, fresh, add_new,
}
use libcontainerssh.Agent.Run.{
  Op, receives, writes, closes, closes_imm, accepts, rejects, opens, ends, reads, takes_connection,
  read_pipe, take_connection, Codec, step,
}
use libcontainerssh.Agent.Ledger.{find-store, is_open}

-- The order of a connection's life.
abbrev pub rank : ConnectionState → ℕ
rank waitinit = 0
rank started = 1
rank waitclose = 2
rank closed = 3

-- What may become of a connection: its state goes forward only, its number and its side stay, bytes
-- are delivered to it only while it is started, and its callback is called at most once, when it
-- is closed. A connection that is new has not called it.
abbrev pub Evolves : Option Connection → Option Connection → Type 0
Evolves none none = Unit
Evolves none (some d) = d.closings + is_open d.state ≤ 1
Evolves (some c) none = ⊥
Evolves (some c) (some d) =
    (rank c.state ≤ rank d.state)
    × (d.id ≡ c.id)
    × (d.initiator ≡ c.initiator)
    × ((c.state ≡ started) ⊎ (d.delivered ≡ c.delivered))
    × (d.closings + is_open d.state ≤ c.closings + is_open c.state)

-- The same of the connection of key `j` in a call's outcome.
abbrev pub Kept : ℕ → ForwardCtx → ForwardCtx → Type 0
Kept j x x' = Evolves (find j x.conn_map) (find j x'.conn_map)

abbrev Stepped : ℕ → ForwardCtx → Outcome (Answer × ForwardCtx) → Type 0
Stepped j x (returns (answer, x')) = Kept j x x'
Stepped j x blocks = Unit
Stepped j x panics = Unit

abbrev Handled : ℕ → ForwardCtx → Outcome ForwardCtx → Type 0
Handled j x (returns x') = Kept j x x'
Handled j x blocks = Unit
Handled j x panics = Unit

Evolves-refl : (o : Option Connection) → Evolves o o
Evolves-refl o = ground arith

close_imm_on-Stepped :
    (j k : ℕ) (c : Connection) (x : ForwardCtx)
    → find k x.conn_map ≡ some c
    → Stepped j x (close_imm_on c k x)
unfolding close_imm_on
close_imm_on-Stepped j k c x e = grind (arith, find-store)

handle_data-Handled : (j : ℕ) (p : Packet) (x : ForwardCtx) → Handled j x (handle_data p x)
unfolding handle_data
handle_data-Handled j p x = grind (arith, find-store)

handle_success-Handled : (j : ℕ) (p : Packet) (x : ForwardCtx) → Handled j x (handle_success p x)
unfolding handle_success
handle_success-Handled j p x = grind (arith, find-store)

handle_error-Handled : (j : ℕ) (p : Packet) (x : ForwardCtx) → Handled j x (handle_error p x)
unfolding handle_error
handle_error-Handled j p x = grind (arith, find-store)

handle_no_more-Handled : (j : ℕ) (x : ForwardCtx) → Handled j x (handle_no_more x)
unfolding handle_no_more
handle_no_more-Handled j x = ground (arith, Evolves-refl (find j x.conn_map))

module _ (codec : Codec) where
  open codec use {encode, encode_new, decode_new}

  handle_close-Handled :
      (j : ℕ) (p : Packet) (x : ForwardCtx) → Handled j x (handle_close encode p x)
  unfolding handle_close
  handle_close-Handled j p x = grind (arith, find-store)

  add_new-Handled :
      (j : ℕ) (p : Packet) (details : NewConnectionPayload) (x : ForwardCtx)
      → Handled j x (add_new encode p details x)
  unfolding add_new
  add_new-Handled j p details x =
      let c = fresh encode p.connection_id details in
      let m = x.conn_map in
      ground (
        arith,
        find-store p.connection_id p.connection_id c m,
        find-store j p.connection_id c m,
        find-store j p.connection_id (record c { state = closed }) (store p.connection_id c m),
        Evolves-refl (find j m),
      )

  handle_new_connection-Handled :
      (j : ℕ) (p : Packet) (x : ForwardCtx)
      → Handled j x (handle_new_connection encode decode_new p x)
  unfolding handle_new_connection
  handle_new_connection-Handled j p x = elim (Option-cases (decode_new p.payload)) [
    | inl e ↦ rw (e, handle_new_connection) (Evolves-refl (find j x.conn_map))
    | inr (details, e) ↦ rw (e, handle_new_connection) (add_new-Handled j p details x)
  ]

  handle_packet-Handled :
      (j : ℕ) (p : Packet) (x : ForwardCtx)
      → Handled j x (handle_packet encode decode_new p.type p x)
  unfolding handle_packet
  handle_packet-Handled j p x = ground (
    arith,
    handle_data-Handled j p x,
    handle_success-Handled j p x,
    handle_error-Handled j p x,
    handle_close-Handled j p x,
    handle_new_connection-Handled j p x,
    handle_no_more-Handled j x,
    Evolves-refl (find j x.conn_map),
  )

  write-Stepped :
      (j : ℕ) (bytes : List ℕ) (k : ℕ) (x : ForwardCtx) → Stepped j x (write encode bytes k x)
  unfolding write
  write-Stepped j bytes k x = grind (arith, find-store, Evolves-refl)

  close-Stepped : (j : ℕ) (k : ℕ) (x : ForwardCtx) → Stepped j x (close encode k x)
  unfolding close
  close-Stepped j k x = grind (arith, find-store, Evolves-refl)

  close_imm-Stepped : (j : ℕ) (k : ℕ) (x : ForwardCtx) → Stepped j x (close_imm k x)
  unfolding close_imm
  close_imm-Stepped j k x = grind (arith, find-store, Evolves-refl)

  accept-Stepped : (j : ℕ) (k : ℕ) (x : ForwardCtx) → Stepped j x (accept encode k x)
  unfolding accept
  accept-Stepped j k x = grind (arith, find-store, Evolves-refl)

  reject-Stepped : (j : ℕ) (k : ℕ) (x : ForwardCtx) → Stepped j x (reject encode k x)
  unfolding reject
  reject-Stepped j k x = grind (arith, find-store, Evolves-refl)

  new_connection-Stepped :
      (j : ℕ) (details : NewConnectionPayload) (has_callback : Bool) (x : ForwardCtx)
      → Stepped j x (new_connection encode encode_new details has_callback x)
  unfolding new_connection
  new_connection-Stepped j details has_callback x = grind (arith, find-store, Evolves-refl)

  no_more_connections-Stepped :
      (j : ℕ) (x : ForwardCtx) → Stepped j x (no_more_connections encode x)
  unfolding no_more_connections
  no_more_connections-Stepped j x = grind (arith, find-store, Evolves-refl)

  step-Stepped : (j : ℕ) (op : Op) (x : ForwardCtx) → Stepped j x (step codec op x)
  unfolding step read_pipe take_connection
  step-Stepped j (receives p) x = ground (arith, handle_packet-Handled j p x)
  step-Stepped j (writes bytes k) x = write-Stepped j bytes k x
  step-Stepped j (closes k) x = close-Stepped j k x
  step-Stepped j (closes_imm k) x = close_imm-Stepped j k x
  step-Stepped j (accepts k) x = accept-Stepped j k x
  step-Stepped j (rejects k) x = reject-Stepped j k x
  step-Stepped j (opens details has_callback) x = new_connection-Stepped j details has_callback x
  step-Stepped j ends x = no_more_connections-Stepped j x
  step-Stepped j (reads k) x = grind (arith, Evolves-refl)
  step-Stepped j takes_connection x = grind (arith, Evolves-refl)

  -- A packet or a call that returns takes the connection of each key forward only: its state does not
  -- go back, it stays in the map with its number and its side, bytes are delivered to it only if it
  -- was started, and its callback is called at most when it goes from open to closed.
  pub step-Kept :
      (j : ℕ) (op : Op) (x x' : ForwardCtx) (answer : Answer)
      → step codec op x ≡ returns (answer, x')
      → Kept j x x'
  step-Kept j op x x' answer e = rw e at (step-Stepped j op x)
