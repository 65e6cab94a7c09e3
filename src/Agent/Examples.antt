-- ===== src/Agent/Examples.antt =====
-- agentprotocol: the theorems at concrete contexts and packets, and runs of the handlers.
use libcontainerssh.Common.{
  ℕ, ◌≡◌, refl, ◌⊎◌, String, true, false, List, [], ◌∷◌, Option, none, some, arith, length,
}
use libcontainerssh.Agent.Protocol.{
  Packet, PacketType, packet_success, packet_data, packet_close_connection, SetupPacket,
  NewConnectionPayload,
}
use libcontainerssh.Agent.State.{
  Outcome, Connection, waitinit, started, ForwardCtx, returns, blocks, panics, find, store, idle,
}
use libcontainerssh.Agent.Connection.{close, nil, write_packet, accept, write}
use libcontainerssh.Agent.Forward.{
  handle_packet, handle_data, handle_close, handle_success, no_more_connections,
}
use libcontainerssh.Agent.Kill.{◌>>=◌, kill_begin, kill_timeout, for_each}
use libcontainerssh.Agent.Kill.Finish.{kill_finishes}
use libcontainerssh.Agent.Run.{
  reads, read_pipe, Op, receives, writes, accepts, rejects, Codec, step, run, wait_finish,
}
use libcontainerssh.Agent.Ledger.{opened, Inv}
use libcontainerssh.Agent.WaitGroup.{run-Inv, reject_hangs}
use libcontainerssh.Agent.States.{Kept, step-Kept}
use libcontainerssh.Agent.MapLock.{is_about_connection, close_unknown_blocks}
use libcontainerssh.Agent.Handshake.{
  runs, new_forward_ctx, start_client, start_reverse_forwarding_client, start_agrees, hello,
  welcome, reverse_setup,
}

abbrev target : NewConnectionPayload
target = record {
  protocol = "tcp";
  connected_address = "localhost";
  connected_port = 8080;
  originator_address = "client";
  originator_port = 40000;
}

-- A codec that writes everything, and reads every new connection as one to the target.
abbrev codec : Codec
codec = record {
  encode = λ sent packet. none;
  encode_new = λ details. some [];
  decode_new = λ bytes. some target;
}

abbrev waiting : Connection
waiting = record {
  state = waitinit;
  initiator = false;
  id = 1;
  details = target;
  delivered = [];
  reader_closed = false;
  writer_closed = false;
  has_callback = false;
  closings = 0;
}

-- One connection of the other side waits for an answer.
abbrev pending : ForwardCtx
pending = record {
  stopped = false;
  channel_closed = false;
  connections = 1 ∷ [];
  connection_id = 1;
  map_locked = false;
  conn_map = (1, waiting) ∷ [];
  sent = [];
  wait_group = 1;
  waits = idle;
  log = [];
}

abbrev packet : PacketType → ℕ → List ℕ → Packet
packet type id payload = record { type = type; connection_id = id; payload = payload }

abbrev talk : List Op
talk =
    accepts 1
    ∷ receives (packet packet_data 1 (72 ∷ 105 ∷ []))
    ∷ reads 1
    ∷ writes (111 ∷ 107 ∷ []) 1
    ∷ receives (packet packet_close_connection 1 [])
    ∷ []

pending-Inv : Inv pending
pending-Inv = record { counted = omega arith; channel = refl }

run-Inv_example : (x' : ForwardCtx) × (run codec talk pending ≡ returns x') × Inv x'
run-Inv_example =
    run-Inv codec talk pending ((λ e. cc), ((λ e. cc), ((λ e. cc), ((λ e. cc), ((λ e. cc), tt)))))
      pending-Inv

reject_hangs_example :
    (run codec (rejects 1 ∷ []) pending ≡ panics)
    ⊎ ((y : ForwardCtx) × (run codec (rejects 1 ∷ []) pending ≡ returns y)
        × (wait_finish y ≡ blocks))
unfolding find
reject_hangs_example = reject_hangs codec 1 waiting pending [] pending-Inv refl refl refl refl

kill_finishes_example :
    (y : ForwardCtx) × ((kill_begin codec.encode pending
        >>= run codec (receives (packet packet_success 1 []) ∷ [])
        >>= kill_timeout
        >>= wait_finish)
      ≡ returns y)
    × (opened y.conn_map ≡ 0)
unfolding find kill_begin for_each run step no_more_connections close handle_packet handle_success
    store
kill_finishes_example =
    kill_finishes codec (receives (packet packet_success 1 []) ∷ []) pending
      (record { counted = refl; mapped = (refl, tt); channel = refl }) refl (refl, tt) refl

abbrev accepted : ForwardCtx
accepted = record pending {
  conn_map = (1, record waiting { state = started }) ∷ [];
  sent = packet packet_success 1 [] ∷ [];
}

step-Kept_example : Kept 1 pending accepted
unfolding step accept write_packet find store
step-Kept_example = step-Kept codec 1 (accepts 1) pending accepted nil refl

close_unknown_blocks_example :
    (run codec (receives (packet packet_close_connection 9 []) ∷ talk) pending ≡ panics)
    ⊎ ((y : ForwardCtx) × (run codec (receives (packet packet_close_connection 9 []) ∷ talk) pending
          ≡ returns y)
        × ((q : Packet) → is_about_connection q.type ≡ true → step codec (receives q) y ≡ blocks))
unfolding find
close_unknown_blocks_example =
    close_unknown_blocks codec (packet packet_close_connection 9 []) talk pending refl refl refl
      refl

-- What is left in the wait group, and how many packets were sent.
abbrev left : Outcome ForwardCtx → Option (ℕ × ℕ)
left (returns x) = some (x.wait_group, length x.sent)
left blocks = none
left panics = none

-- The conversation of `talk` brings two bytes in, and closes the connection and its group.
talk-run : left (run codec talk pending) ≡ some (0, 3)
unfolding run step read_pipe accept write handle_packet handle_data handle_close find store
talk-run = refl

abbrev setup : SetupPacket
setup = reverse_setup "0.0.0.0" 22 false

abbrev writes_all : List Packet → Packet → Option String
writes_all sent p = none

start_agrees_example :
    ((start_reverse_forwarding_client writes_all
        (λ s. some (1 ∷ []))
        setup
        (some welcome)
        new_forward_ctx).0
      ≡ runs setup)
    × ((start_reverse_forwarding_client writes_all
          (λ s. some (1 ∷ []))
          setup
          (some welcome)
          new_forward_ctx).1.sent
        ≡ hello (1 ∷ []) ∷ [])
    × ((start_client writes_all (λ bytes. some setup) (some (hello (1 ∷ []))) new_forward_ctx).0
        ≡ runs setup)
    × ((start_client writes_all
          (λ bytes. some setup)
          (some (hello (1 ∷ [])))
          new_forward_ctx).1.sent
        ≡ welcome ∷ [])
start_agrees_example =
    start_agrees writes_all writes_all (λ s. some (1 ∷ [])) (λ bytes. some setup) setup (1 ∷ [])
      refl refl refl refl
