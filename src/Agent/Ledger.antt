-- ===== src/Agent/Ledger.antt =====
-- The wait group of a forwarding context counts its connections that are not closed.
use libcontainerssh.Common.{
  ℕ, ◌+◌, ◌≤◌, ◌==◌, ◌≡◌, refl, if◌then◌else◌, Bool, true, false, List, [], ◌∷◌, Option, none, some,
  arith,
}
use libcontainerssh.Agent.Protocol.{Packet, NewConnectionPayload}
use libcontainerssh.Agent.State.{
  Connection, ConnectionState, closed, ForwardCtx, Outcome, returns, blocks, panics, find, store,
  is_idle, is_offering,
}
use libcontainerssh.Agent.Connection.{Answer, write, close, close_imm, accept, reject, close_imm_on}
use libcontainerssh.Agent.Forward.{
  handle_data, handle_success, handle_error, handle_close, handle_new_connection, handle_no_more,
  handle_packet, new_connection, no_more_connections,
}
use libcontainerssh.Agent.Run.{
  Op, receives, writes, closes, closes_imm, accepts, rejects, opens, ends, Codec, step, reads,
  takes_connection,
}

pub find-store :
    (j k : ℕ) (c : Connection) (m : List (ℕ × Connection))
    → find j (store k c m) ≡ (if k == j then some c else find j m)
unfolding find store
find-store j k c [] = refl
find-store j k c ((i, d) ∷ m) = ground (arith, find-store j k c m)

-- One for a connection that is not closed.
abbrev pub is_open : ConnectionState → ℕ
is_open closed = 0
is_open _ = 1

abbrev pub opened : List (ℕ × Connection) → ℕ
opened [] = 0
opened ((k, c) ∷ m) = is_open c.state + opened m

abbrev opened_at : Option Connection → ℕ
opened_at none = 0
opened_at (some c) = is_open c.state

-- A write to the map changes the count by the entry that it replaces.
pub opened-store :
    (k : ℕ) (c : Connection) (m : List (ℕ × Connection))
    → opened (store k c m) + opened_at (find k m) ≡ opened m + is_open c.state
unfolding find store
opened-store k c [] = omega arith
opened-store k c ((i, d) ∷ m) = ground (arith, opened-store k c m)

-- The group has a count for each connection that is not closed, and the channel is closed exactly
-- when the context is stopped.
pub record Inv (x : ForwardCtx) : Type 0 where
  pub counted : opened x.conn_map ≤ x.wait_group
  pub channel : x.channel_closed ≡ x.stopped

-- How a call may change the context: the invariant holds after it, and the counts that stand for no
-- open connection do not get fewer.
pub record Kept (x x' : ForwardCtx) : Type 0 where
  pub counted : opened x'.conn_map ≤ x'.wait_group
  pub channel : x'.channel_closed ≡ x'.stopped
  pub surplus : x.wait_group + opened x'.conn_map ≤ x'.wait_group + opened x.conn_map

-- The same of a call's outcome, which is no panic.
abbrev pub Safe : ForwardCtx → Outcome (Answer × ForwardCtx) → Type 0
Safe x (returns (answer, x')) = Kept x x'
Safe x blocks = Unit
Safe x panics = ⊥

abbrev pub SafeSilent : ForwardCtx → Outcome ForwardCtx → Type 0
SafeSilent x (returns x') = Kept x x'
SafeSilent x blocks = Unit
SafeSilent x panics = ⊥

close_imm_on-Safe :
    (c : Connection) (k : ℕ) (x : ForwardCtx)
    → find k x.conn_map ≡ some c
    → Inv x
    → Safe x (close_imm_on c k x)
unfolding close_imm_on
close_imm_on-Safe c k x e v = ground (
  arith,
  opened-store k
      (record c {
        state = closed;
        closings = if c.has_callback then c.closings + 1 else c.closings;
        writer_closed = true;
        reader_closed = true;
      })
      x.conn_map,
)

handle_data-Safe : (p : Packet) (x : ForwardCtx) → Inv x → SafeSilent x (handle_data p x)
unfolding handle_data
handle_data-Safe p x v = grind (arith, opened-store)

handle_success-Safe : (p : Packet) (x : ForwardCtx) → Inv x → SafeSilent x (handle_success p x)
unfolding handle_success
handle_success-Safe p x v = grind (arith, opened-store, close_imm_on-Safe)

handle_error-Safe : (p : Packet) (x : ForwardCtx) → Inv x → SafeSilent x (handle_error p x)
unfolding handle_error
handle_error-Safe p x v = grind (arith, opened-store)

handle_no_more-Safe :
    (x : ForwardCtx) → is_idle x.waits ≡ true → Inv x → SafeSilent x (handle_no_more x)
unfolding handle_no_more
handle_no_more-Safe x w v = ground arith

module _ (codec : Codec) where
  open codec use {encode, encode_new, decode_new}

  handle_close-Safe : (p : Packet) (x : ForwardCtx) → Inv x → SafeSilent x (handle_close encode p x)
  unfolding handle_close
  handle_close-Safe p x v = grind (arith, opened-store)

  handle_new_connection-Safe :
      (p : Packet) (x : ForwardCtx)
      → Inv x
      → SafeSilent x (handle_new_connection encode decode_new p x)
  unfolding handle_new_connection
  handle_new_connection-Safe p x v = grind (arith, opened-store)

  write-Safe : (bytes : List ℕ) (k : ℕ) (x : ForwardCtx) → Inv x → Safe x (write encode bytes k x)
  unfolding write
  write-Safe bytes k x v = grind (arith, opened-store)

  close-Safe : (k : ℕ) (x : ForwardCtx) → Inv x → Safe x (close encode k x)
  unfolding close
  close-Safe k x v = grind (arith, opened-store)

  close_imm-Safe : (k : ℕ) (x : ForwardCtx) → Inv x → Safe x (close_imm k x)
  unfolding close_imm
  close_imm-Safe k x v = grind (arith, opened-store)

  accept-Safe : (k : ℕ) (x : ForwardCtx) → Inv x → Safe x (accept encode k x)
  unfolding accept
  accept-Safe k x v = grind (arith, opened-store)

  reject-Safe : (k : ℕ) (x : ForwardCtx) → Inv x → Safe x (reject encode k x)
  unfolding reject
  reject-Safe k x v = grind (arith, opened-store)

  new_connection-Safe :
      (details : NewConnectionPayload) (has_callback : Bool) (x : ForwardCtx)
      → Inv x
      → Safe x (new_connection encode encode_new details has_callback x)
  unfolding new_connection
  new_connection-Safe details has_callback x v = grind (arith, opened-store)

  no_more_connections-Safe :
      (x : ForwardCtx)
      → Inv x
      → x.stopped ≡ false
      → is_offering x.waits ≡ false
      → Safe x (no_more_connections encode x)
  unfolding no_more_connections
  no_more_connections-Safe x v h w = ground arith

  handle_packet-Safe :
      (p : Packet) (x : ForwardCtx)
      → is_idle x.waits ≡ true
      → Inv x
      → SafeSilent x (handle_packet encode decode_new p.type p x)
  unfolding handle_packet
  handle_packet-Safe p x w v = ground (
    arith,
    handle_data-Safe p x,
    handle_success-Safe p x,
    handle_error-Safe p x,
    handle_close-Safe p x,
    handle_new_connection-Safe p x,
    handle_no_more-Safe x,
  )

  pub step-Safe :
      (op : Op) (x : ForwardCtx)
      → Inv x
      → ((op ≡ ends) → (x.stopped ≡ false) × (is_offering x.waits ≡ false))
      → Safe x (step codec op x)
  unfolding step
  step-Safe (receives p) x v h = ground (arith, handle_packet-Safe p x)
  step-Safe (writes bytes k) x v h = write-Safe bytes k x v
  step-Safe (closes k) x v h = close-Safe k x v
  step-Safe (closes_imm k) x v h = close_imm-Safe k x v
  step-Safe (accepts k) x v h = accept-Safe k x v
  step-Safe (rejects k) x v h = reject-Safe k x v
  step-Safe (opens details has_callback) x v h = new_connection-Safe details has_callback x v
  step-Safe ends x v h = no_more_connections-Safe x v (h refl).0 (h refl).1
  step-Safe (reads k) x v h = ground arith
  step-Safe takes_connection x v h = ground arith

  Kept-trans : (x y z : ForwardCtx) → Kept x y → Kept y z → Kept x z
  Kept-trans x y z k l = ground arith
