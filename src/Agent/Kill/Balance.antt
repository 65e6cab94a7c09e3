-- ===== src/Agent/Kill/Balance.antt =====
-- agentprotocol/server.go: the wait group counts exactly the open connections, as long as none is
-- rejected.
use libcontainerssh.Common.{ℕ, ◌≡◌, refl, Bool, true, false, List, [], ◌∷◌, none, some, arith}
use libcontainerssh.Agent.Protocol.{Packet, packet_new_connection}
use libcontainerssh.Agent.State.{
  Connection, ForwardCtx, Outcome, returns, blocks, panics, find, store, idle, is_idle,
}
use libcontainerssh.Agent.Connection.{Answer, write, close, close_imm, accept, close_imm_on}
use libcontainerssh.Agent.Forward.{
  handle_data, handle_success, handle_error, handle_close, handle_no_more, handle_packet,
}
use libcontainerssh.Agent.Run.{
  Op, receives, writes, closes, closes_imm, accepts, rejects, opens, ends, reads, takes_connection,
  read_pipe, take_connection, Codec, step,
}
use libcontainerssh.Agent.Ledger.{find-store, opened, opened-store}

-- No key has two entries.
abbrev pub IsMap : List (ℕ × Connection) → Type 0
IsMap [] = Unit
IsMap ((k, c) ∷ m) = (find k m ≡ none) × IsMap m

pub store-IsMap :
    (k : ℕ) (c : Connection) (m : List (ℕ × Connection)) → IsMap m → IsMap (store k c m)
unfolding store find
store-IsMap k c [] h = (refl, tt)
store-IsMap k c ((i, d) ∷ m) h = ground (arith, store-IsMap k c m, find-store i k c m)

-- The group counts the open connections, and the channel is closed exactly in a stopped context.
pub record Balanced (x : ForwardCtx) : Type 0 where
  pub counted : x.wait_group ≡ opened x.conn_map
  pub mapped : IsMap x.conn_map
  pub channel : x.channel_closed ≡ x.stopped

abbrev pub Stepped : Outcome (Answer × ForwardCtx) → Type 0
Stepped (returns (answer, x)) = Balanced x
Stepped blocks = Unit
Stepped panics = ⊥

abbrev pub Handled : Outcome ForwardCtx → Type 0
Handled (returns x) = Balanced x
Handled blocks = Unit
Handled panics = ⊥

close_imm_on-Balanced :
    (c : Connection) (k : ℕ) (x : ForwardCtx)
    → find k x.conn_map ≡ some c
    → Balanced x
    → Stepped (close_imm_on c k x)
unfolding close_imm_on
close_imm_on-Balanced c k x e b = grind (arith, opened-store, store-IsMap)

handle_data-Balanced : (p : Packet) (x : ForwardCtx) → Balanced x → Handled (handle_data p x)
unfolding handle_data
handle_data-Balanced p x b = grind (arith, opened-store, store-IsMap)

handle_success-Balanced : (p : Packet) (x : ForwardCtx) → Balanced x → Handled (handle_success p x)
unfolding handle_success
handle_success-Balanced p x b = grind (arith, opened-store, store-IsMap)

handle_error-Balanced : (p : Packet) (x : ForwardCtx) → Balanced x → Handled (handle_error p x)
unfolding handle_error
handle_error-Balanced p x b = grind (arith, opened-store, store-IsMap)

handle_no_more-Balanced :
    (x : ForwardCtx) → is_idle x.waits ≡ true → Balanced x → Handled (handle_no_more x)
unfolding handle_no_more
handle_no_more-Balanced x w b = ground arith

-- A balanced context whose goroutine for packets waits for nothing.
abbrev pub IsReady : ForwardCtx → Type 0
IsReady x = Balanced x × (x.waits ≡ idle)

abbrev pub SteppedReady : Outcome (Answer × ForwardCtx) → Type 0
SteppedReady (returns (answer, x)) = IsReady x
SteppedReady blocks = Unit
SteppedReady panics = ⊥

pub close_imm-IsReady : (k : ℕ) (x : ForwardCtx) → IsReady x → SteppedReady (close_imm k x)
unfolding close_imm
close_imm-IsReady k x b = grind (arith, opened-store, store-IsMap)

pub close_imm-Balanced : (k : ℕ) (x : ForwardCtx) → Balanced x → Stepped (close_imm k x)
unfolding close_imm
close_imm-Balanced k x b = grind (arith, opened-store, store-IsMap)

-- What may happen while a context is ended: anything but a rejection, a new connection from either
-- side, and a second end.
abbrev pub is_quiet : Op → Bool
is_quiet (receives p) = elim p.type [ packet_new_connection ↦ false | _ ↦ true ]
is_quiet (rejects k) = false
is_quiet (opens details has_callback) = false
is_quiet ends = false
is_quiet _ = true

module _ (codec : Codec) where
  open codec use {encode, decode_new}

  handle_close-Balanced :
      (p : Packet) (x : ForwardCtx) → Balanced x → Handled (handle_close encode p x)
  unfolding handle_close
  handle_close-Balanced p x b = grind (arith, opened-store, store-IsMap)

  handle_packet-Balanced :
      (p : Packet) (x : ForwardCtx)
      → is_quiet (receives p) ≡ true
      → is_idle x.waits ≡ true
      → Balanced x
      → Handled (handle_packet encode decode_new p.type p x)
  unfolding handle_packet
  handle_packet-Balanced p x q w b = ground (
    arith,
    handle_data-Balanced p x,
    handle_success-Balanced p x,
    handle_error-Balanced p x,
    handle_close-Balanced p x,
    handle_no_more-Balanced x,
  )

  write-Balanced :
      (bytes : List ℕ) (k : ℕ) (x : ForwardCtx) → Balanced x → Stepped (write encode bytes k x)
  unfolding write
  write-Balanced bytes k x b = grind (arith, opened-store, store-IsMap)

  pub close-Balanced : (k : ℕ) (x : ForwardCtx) → Balanced x → Stepped (close encode k x)
  unfolding close
  close-Balanced k x b = grind (arith, opened-store, store-IsMap)

  pub close-IsReady : (k : ℕ) (x : ForwardCtx) → IsReady x → SteppedReady (close encode k x)
  unfolding close
  close-IsReady k x b = grind (arith, opened-store, store-IsMap)

  accept-Balanced : (k : ℕ) (x : ForwardCtx) → Balanced x → Stepped (accept encode k x)
  unfolding accept
  accept-Balanced k x b = grind (arith, opened-store, store-IsMap)

  pub step-Balanced :
      (op : Op) (x : ForwardCtx) → is_quiet op ≡ true → Balanced x → Stepped (step codec op x)
  unfolding step read_pipe take_connection
  step-Balanced (receives p) x q b = ground (arith, handle_packet-Balanced p x q)
  step-Balanced (writes bytes k) x q b = write-Balanced bytes k x b
  step-Balanced (closes k) x q b = close-Balanced k x b
  step-Balanced (closes_imm k) x q b = close_imm-Balanced k x b
  step-Balanced (accepts k) x q b = accept-Balanced k x b
  step-Balanced (rejects k) x q b = cc
  step-Balanced (opens details has_callback) x q b = cc
  step-Balanced ends x q b = cc
  step-Balanced (reads k) x q b = ground arith
  step-Balanced takes_connection x q b = ground arith
