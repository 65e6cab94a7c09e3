-- ===== src/Agent/State.antt =====
-- agentprotocol/server.go: the state of a forwarding context and of its connections.
use libcontainerssh.Common.{
  ℕ, zero, suc, ◌==◌, if◌then◌else◌, String, Bool, true, false, ◌||◌, List, [], ◌∷◌, ◌++◌, Option,
  none, some,
}
use libcontainerssh.Message.{Level}
use libcontainerssh.Agent.Protocol.{Packet, NewConnectionPayload}

-- The integer `state` is given these four values only.
pub data ConnectionState : Type 0 where
  waitinit started waitclose closed : ConnectionState

-- `delivered` is what was written to the connection's pipe, oldest byte first; `closings` counts the
-- calls of `closeCallback`, which a connection may have or not.
pub record Connection : Type 0 where
  pub state : ConnectionState
  pub initiator : Bool
  pub id : ℕ
  pub details : NewConnectionPayload
  pub delivered : List ℕ
  pub reader_closed : Bool
  pub writer_closed : Bool
  pub has_callback : Bool
  pub closings : ℕ

-- An entry of the log, by its level and its message's code.
pub record Entry : Type 0 where
  pub level : Level
  pub code : String

-- What the goroutine that handles the packets waits for: nothing, that the pipe of a connection is read,
-- whose lock it holds meanwhile, or that a new connection is taken from `connectionChannel`.
pub data Waiting : Type 0 where
  idle : Waiting
  writing offering : ℕ → Waiting

-- `connections` is what was taken from `connectionChannel`, and `map_locked` says that `connMapMu` is
-- held by a call that has returned.
pub record ForwardCtx : Type 0 where
  pub stopped : Bool
  pub channel_closed : Bool
  pub connections : List ℕ
  pub connection_id : ℕ
  pub map_locked : Bool
  pub conn_map : List (ℕ × Connection)
  pub sent : List Packet
  pub wait_group : ℕ
  pub waits : Waiting
  pub log : List Entry

-- How a call ends: it returns, it waits on a lock or for another call, or it panics.
pub data Outcome {ℓ} (A : Type ℓ) : Type ℓ where
  returns : A → Outcome A
  blocks : Outcome A
  panics : Outcome A

-- The Go map, first entry first.
unfoldable pub find : ℕ → List (ℕ × Connection) → Option Connection
find k [] = none
find k ((j, c) ∷ m) = if j == k then some c else find k m

unfoldable pub store : ℕ → Connection → List (ℕ × Connection) → List (ℕ × Connection)
store k c [] = (k, c) ∷ []
store k c ((j, d) ∷ m) = if j == k then (k, c) ∷ m else (j, d) ∷ store k c m

abbrev pub put : ℕ → Connection → ForwardCtx → ForwardCtx
put k c x = record x { conn_map = store k c x.conn_map }

abbrev pub note : Level → String → ForwardCtx → ForwardCtx
note level code x = record x { log = x.log ++ (record { level = level; code = code } ∷ []) }

-- `waitGroup.Done()`, which panics below zero.
unfoldable pub group_done : ForwardCtx → Outcome ForwardCtx
group_done x = elim x.wait_group [ zero ↦ panics | suc n ↦ returns (record x { wait_group = n }) ]

abbrev pub is_idle : Waiting → Bool
is_idle idle = true
is_idle _ = false

abbrev pub is_writing : ℕ → Waiting → Bool
is_writing k (writing j) = j == k
is_writing k _ = false

abbrev pub is_offering : Waiting → Bool
is_offering (offering id) = true
is_offering _ = false

-- `close(c.connectionChannel)`, which panics the second time, and while a send waits.
unfoldable pub close_channel : ForwardCtx → Outcome ForwardCtx
close_channel x =
    if x.channel_closed || is_offering x.waits
    then panics
    else returns (record x { channel_closed = true })
