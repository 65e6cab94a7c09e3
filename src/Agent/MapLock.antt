-- ===== src/Agent/MapLock.antt =====
-- agentprotocol/server.go: the lock on the map of connections.
use libcontainerssh.Common.{
  ℕ, ◌≡◌, refl, ◌⊎◌, inl, inr, Bool, true, false, List, [], ◌∷◌, none, arith,
}
use libcontainerssh.Agent.Protocol.{
  Packet, PacketType, packet_data, packet_success, packet_error, packet_close_connection,
}
use libcontainerssh.Agent.State.{ForwardCtx, Outcome, returns, blocks, panics, find, is_idle}
use libcontainerssh.Agent.Connection.{Answer, write, close, close_imm, accept, reject}
use libcontainerssh.Agent.Forward.{
  handle_data, handle_success, handle_error, handle_close, handle_new_connection, handle_no_more,
  handle_packet, new_connection, no_more_connections,
}
use libcontainerssh.Agent.Run.{Op, receives, closes_imm, Codec, step, run}

-- The packets that are about a connection.
abbrev pub is_about_connection : PacketType → Bool
is_about_connection packet_data = true
is_about_connection packet_success = true
is_about_connection packet_error = true
is_about_connection packet_close_connection = true
is_about_connection _ = false

-- An outcome that leaves the lock as it is now held.
abbrev Stuck : Outcome (Answer × ForwardCtx) → Type 0
Stuck (returns (answer, y)) = y.map_locked ≡ true
Stuck blocks = Unit
Stuck panics = Unit

abbrev RanStuck : Outcome ForwardCtx → Type 0
RanStuck (returns y) = y.map_locked ≡ true
RanStuck blocks = ⊥
RanStuck panics = Unit

abbrev Locks : Outcome (Answer × ForwardCtx) → Type 0
Locks (returns (answer, y)) = y.map_locked ≡ true
Locks blocks = ⊥
Locks panics = ⊥

module _ (codec : Codec) where
  open codec use {encode, encode_new, decode_new}

  handle_packet-Stuck :
      (p : Packet) (x : ForwardCtx) → x.map_locked ≡ true → Stuck (step codec (receives p) x)
  unfolding step handle_packet handle_data handle_success handle_error handle_close
      handle_new_connection handle_no_more
  handle_packet-Stuck p x h = ground arith

  close_imm-Stuck : (k : ℕ) (x : ForwardCtx) → x.map_locked ≡ true → Stuck (close_imm k x)
  unfolding close_imm
  close_imm-Stuck k x h = ground arith

  step-Stuck : (op : Op) (x : ForwardCtx) → x.map_locked ≡ true → Stuck (step codec op x)
  unfolding step write close accept reject new_connection no_more_connections
  step-Stuck (receives p) x h = handle_packet-Stuck p x h
  step-Stuck (closes_imm k) x h = close_imm-Stuck k x h
  step-Stuck _ x h = ground arith

  run-step-Stuck :
      (op : Op) (ops : List Op) (x : ForwardCtx) (o : Outcome (Answer × ForwardCtx))
      → step codec op x ≡ o
      → Stuck o
      → x.map_locked ≡ true
      → ((y : ForwardCtx) → y.map_locked ≡ true → RanStuck (run codec ops y))
      → RanStuck (run codec (op ∷ ops) x)
  unfolding run
  run-step-Stuck op ops x (returns (answer, y)) e s h rest = rw (e, run) (rest y s)
  run-step-Stuck op ops x blocks e s h rest = rw (e, run) (rest x h)
  run-step-Stuck op ops x panics e s h rest = rw (e, run) tt

  run-Stuck : (ops : List Op) (x : ForwardCtx) → x.map_locked ≡ true → RanStuck (run codec ops x)
  unfolding run
  run-Stuck [] x h = h
  run-Stuck (op ∷ ops) x h =
      run-step-Stuck op ops x (step codec op x) refl (step-Stuck op x h) h (run-Stuck ops)

  locked_blocks :
      (q : Packet) (x : ForwardCtx)
      → is_about_connection q.type ≡ true
      → x.map_locked ≡ true
      → step codec (receives q) x ≡ blocks
  unfolding step handle_packet handle_data handle_success handle_error handle_close
  locked_blocks q x a h = ground arith

  first_close :
      (p : Packet) (x : ForwardCtx)
      → p.type ≡ packet_close_connection
      → find p.connection_id x.conn_map ≡ none
      → x.map_locked ≡ false
      → is_idle x.waits ≡ true
      → Locks (step codec (receives p) x)
  unfolding step handle_packet handle_close
  first_close p x t e h w = ground arith

  after_lock :
      (op : Op) (ops : List Op) (x : ForwardCtx) (o : Outcome (Answer × ForwardCtx))
      → step codec op x ≡ o
      → Locks o
      → RanStuck (run codec (op ∷ ops) x)
  unfolding run
  after_lock op ops x (returns (answer, y)) e l = rw (e, run) (run-Stuck ops y l)
  after_lock op ops x blocks e l = absurd l
  after_lock op ops x panics e l = absurd l

  -- A packet that closes a connection which the context does not know, and that is handled since the
  -- goroutine for packets waits for nothing, leaves the map's lock held:
  -- whatever comes after it, the program panics or is in a state where every further packet about a
  -- connection waits for ever.
  pub close_unknown_blocks :
      (p : Packet) (ops : List Op) (x : ForwardCtx)
      → p.type ≡ packet_close_connection
      → find p.connection_id x.conn_map ≡ none
      → x.map_locked ≡ false
      → is_idle x.waits ≡ true
      → (run codec (receives p ∷ ops) x ≡ panics)
        ⊎ ((y : ForwardCtx) × (run codec (receives p ∷ ops) x ≡ returns y)
            × ((q : Packet)
                → is_about_connection q.type ≡ true
                → step codec (receives q) y ≡ blocks))
  close_unknown_blocks p ops x t e h w =
      stuck (run codec (receives p ∷ ops) x) refl
        (after_lock (receives p) ops x _ refl (first_close p x t e h w))
    where
      stuck :
          (o : Outcome ForwardCtx)
          → run codec (receives p ∷ ops) x ≡ o
          → RanStuck o
          → (run codec (receives p ∷ ops) x ≡ panics)
            ⊎ ((y : ForwardCtx) × (run codec (receives p ∷ ops) x ≡ returns y)
                × ((q : Packet)
                    → is_about_connection q.type ≡ true
                    → step codec (receives q) y ≡ blocks))
      stuck (returns y) g l = inr (y, g, λ q a. locked_blocks q y a l)
      stuck blocks g l = absurd l
      stuck panics g l = inl g
