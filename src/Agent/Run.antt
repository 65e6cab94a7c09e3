-- ===== src/Agent/Run.antt =====
-- agentprotocol/server.go: everything that happens to a forwarding context, one call after the other.
-- Each call runs to its end under the locks that it takes.
use libcontainerssh.Common.{ℕ, ◌==◌, if◌then◌else◌, String, Bool, List, [], ◌∷◌, ◌++◌, Option}
use libcontainerssh.Agent.Protocol.{Packet, NewConnectionPayload}
use libcontainerssh.Agent.State.{
  ForwardCtx, Outcome, returns, blocks, panics, idle, offering, is_idle, is_writing,
}
use libcontainerssh.Agent.Connection.{Answer, nil, write, close, close_imm, accept, reject}
use libcontainerssh.Agent.Forward.{handle_packet, new_connection, no_more_connections}

-- A packet that comes in, a call of the program on a connection or on the context, or that what the
-- goroutine for packets waits for comes about: the pipe of a connection is read, or a connection is
-- taken.
pub data Op : Type 0 where
  receives : Packet → Op
  writes : List ℕ → ℕ → Op
  closes closes_imm accepts rejects : ℕ → Op
  opens : NewConnectionPayload → Bool → Op
  ends : Op
  reads : ℕ → Op
  takes_connection : Op

abbrev pub silent : Outcome ForwardCtx → Outcome (Answer × ForwardCtx)
silent (returns x) = returns (nil, x)
silent blocks = blocks
silent panics = panics

-- `waitGroup.Wait()`.
unfoldable pub wait_finish : ForwardCtx → Outcome ForwardCtx
wait_finish x = if x.wait_group == 0 then returns x else blocks

unfoldable pub read_pipe : ℕ → ForwardCtx → ForwardCtx
read_pipe k x = if is_writing k x.waits then record x { waits = idle } else x

unfoldable pub take_connection : ForwardCtx → ForwardCtx
take_connection x = elim x.waits [
  | offering id ↦ record x { waits = idle; connections = x.connections ++ (id ∷ []) }
  | _ ↦ x
]

-- The CBOR encoder and decoder, which the program takes from a library.
pub record Codec : Type 0 where
  pub encode : List Packet → Packet → Option String
  pub encode_new : NewConnectionPayload → Option (List ℕ)
  pub decode_new : List ℕ → Option NewConnectionPayload

module _ (codec : Codec) where
  open codec use {encode, encode_new, decode_new}

  unfoldable pub step : Op → ForwardCtx → Outcome (Answer × ForwardCtx)
  unfolding read_pipe take_connection
  step (receives p) x =
      if is_idle x.waits then silent (handle_packet encode decode_new p.type p x) else blocks
  step (writes bytes k) x = write encode bytes k x
  step (closes k) x = close encode k x
  step (closes_imm k) x = close_imm k x
  step (accepts k) x = accept encode k x
  step (rejects k) x = reject encode k x
  step (opens details has_callback) x = new_connection encode encode_new details has_callback x
  step ends x = no_more_connections encode x
  step (reads k) x = returns (nil, read_pipe k x)
  step takes_connection x = returns (nil, take_connection x)

  -- A call that waits leaves the context to the others, and where it goes on later it stands later in
  -- the list; a panic ends the program. The lock of the map is never given back once it is lost.
  unfoldable pub run : List Op → ForwardCtx → Outcome ForwardCtx
  run [] x = returns x
  run (op ∷ ops) x = elim (step op x) [
    | returns (answer, x') ↦ run ops x'
    | blocks ↦ run ops x
    | panics ↦ panics
  ]
