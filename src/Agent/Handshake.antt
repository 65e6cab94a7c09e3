-- ===== src/Agent/Handshake.antt =====
-- agentprotocol/server.go: how the two sides start a context.
use libcontainerssh.Common.{ℕ, ◌≡◌, String, Bool, false, List, [], ◌∷◌, Option, none, some, arith}
use libcontainerssh.Message.{error, warning}
use libcontainerssh.Agent.Protocol.{
  Packet, packet_setup, packet_success, packet_error, SetupPacket, type_x11, type_port_forward,
  type_port_dial,
}
use libcontainerssh.Agent.State.{ForwardCtx, note, idle}
use libcontainerssh.Agent.Connection.{write_packet}

-- What a start gives back: the setup of the context, on which the packets are handled from then on, or
-- an error.
pub data Started : Type 0 where
  runs : SetupPacket → Started
  failed : String → Started

-- `NewForwardCtx` and `init`: nothing is sent, and there are no connections.
unfoldable pub init : ForwardCtx → ForwardCtx
init x = record x { conn_map = []; connections = []; channel_closed = false }

unfoldable pub new_forward_ctx : ForwardCtx
new_forward_ctx = record {
  stopped = false;
  channel_closed = false;
  connections = [];
  connection_id = 0;
  map_locked = false;
  conn_map = [];
  sent = [];
  wait_group = 0;
  waits = idle;
  log = [];
}

abbrev dial : SetupPacket
dial = record {
  connection_type = type_port_dial;
  bind_host = "";
  bind_port = 0;
  protocol = "";
  screen = "";
  single_connection = false;
  auth_protocol = "";
  auth_cookie = "";
}

-- `encode` and the packet that comes in first stand for the CBOR encoder and decoder on the two
-- streams: `none` is a packet that cannot be read. The setup has an encoder and a decoder too.
module _ (encode : List Packet → Packet → Option String) where
  -- The agent's side.
  confirmed : SetupPacket → Option String × ForwardCtx → Started × ForwardCtx
  confirmed setup (none, x) = (runs setup, x)
  confirmed setup (some err, x) = (failed err, note error "AGENTPROTO_WRITE_FAILED" x)

  expect_setup : (List ℕ → Option SetupPacket) → Packet → ForwardCtx → Started × ForwardCtx
  unfolding confirmed write_packet
  expect_setup decode_setup p x = elim p.type [
    | packet_setup ↦ elim (decode_setup p.payload) [
      | none ↦ (failed "invalid setup packet", note error "AGENTPROTO_DECODE_FAILED" x)
      | some setup ↦ confirmed setup (
          write_packet encode (record { type = packet_success; connection_id = 0; payload = [] }) x)
    ]
    | _ ↦ (
      failed "invalid packet type, expecting PACKET_SETUP",
      note warning "AGENTPROTO_PACKET_INVALID" x,
    )
  ]

  unfoldable pub start_client :
      (List ℕ → Option SetupPacket) → Option Packet → ForwardCtx → Started × ForwardCtx
  unfolding init expect_setup
  start_client decode_setup first x = elim first [
    | none ↦ (failed "cannot decode packet", note warning "" (init x))
    | some p ↦ expect_setup decode_setup p (init x)
  ]

  -- The answer to the setup packet.
  response : SetupPacket → Option Packet → ForwardCtx → Started × ForwardCtx
  response setup none x = (failed "cannot decode packet", x)
  response setup (some p) x = elim p.type [
    | packet_success ↦ (runs setup, x)
    | packet_error ↦ (failed "received error packet from client", x)
    | _ ↦ (failed "received invalid packet from client", x)
  ]

  sent_setup : SetupPacket → Option Packet → Option String × ForwardCtx → Started × ForwardCtx
  unfolding response
  sent_setup setup first (some err, x) = (failed err, x)
  sent_setup setup first (none, x) = response setup first x

  -- The server's side: `startReverseForwardingClient`, and `StartServerForward` with its setup.
  unfoldable pub start_reverse_forwarding_client :
      (SetupPacket → Option (List ℕ))
      → SetupPacket
      → Option Packet
      → ForwardCtx
      → Started × ForwardCtx
  unfolding init sent_setup write_packet
  start_reverse_forwarding_client encode_setup setup first x = elim (encode_setup setup) [
    | none ↦ (failed "cannot marshal setup packet", note error "AGENTPROTO_DECODE_FAILED" (init x))
    | some payload ↦ sent_setup setup first (
        write_packet encode (record { type = packet_setup; connection_id = 0; payload = payload })
          (init x))
  ]

  unfoldable pub start_server_forward :
      (SetupPacket → Option (List ℕ)) → Option Packet → ForwardCtx → Started × ForwardCtx
  unfolding start_reverse_forwarding_client
  start_server_forward encode_setup = start_reverse_forwarding_client encode_setup dial

abbrev pub x11_setup : Bool → String → String → String → SetupPacket
x11_setup single_connection screen auth_protocol auth_cookie = record {
  connection_type = type_x11;
  bind_host = "";
  bind_port = 0;
  protocol = "tcp";
  screen = screen;
  single_connection = single_connection;
  auth_protocol = auth_protocol;
  auth_cookie = auth_cookie;
}

abbrev pub reverse_setup : String → ℕ → Bool → SetupPacket
reverse_setup bind_host bind_port single_connection = record {
  connection_type = type_port_forward;
  bind_host = bind_host;
  bind_port = bind_port;
  protocol = "tcp";
  screen = "";
  single_connection = single_connection;
  auth_protocol = "";
  auth_cookie = "";
}

abbrev pub reverse_unix_setup : String → Bool → SetupPacket
reverse_unix_setup path single_connection = record (reverse_setup path 0 single_connection) {
  protocol = "unix";
}

abbrev pub hello : List ℕ → Packet
hello payload = record { type = packet_setup; connection_id = 0; payload = payload }

abbrev pub welcome : Packet
welcome = record { type = packet_success; connection_id = 0; payload = [] }

-- The two sides together: the setup that the server sends is what the agent reads, and the agent's
-- answer is what the server reads. If setups can be read back from what they are written as, and the
-- two writers take the packets, then both sides start, and with the same setup.
pub start_agrees :
    (encode encode' : List Packet → Packet → Option String)
    (encode_setup : SetupPacket → Option (List ℕ)) (decode_setup : List ℕ → Option SetupPacket)
    (setup : SetupPacket) (payload : List ℕ)
    → encode_setup setup ≡ some payload
    → decode_setup payload ≡ some setup
    → encode [] (hello payload) ≡ none
    → encode' [] welcome ≡ none
    → let server =
        start_reverse_forwarding_client encode encode_setup setup (some welcome) new_forward_ctx in
      let agent = start_client encode' decode_setup (some (hello payload)) new_forward_ctx in
      (server.0 ≡ runs setup)
      × (server.1.sent ≡ hello payload ∷ [])
      × (agent.0 ≡ runs setup)
      × (agent.1.sent ≡ welcome ∷ [])
unfolding start_client start_reverse_forwarding_client new_forward_ctx
start_agrees encode encode' encode_setup decode_setup setup payload e d h w = ground arith
