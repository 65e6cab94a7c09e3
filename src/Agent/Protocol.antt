-- ===== src/Agent/Protocol.antt =====
-- agentprotocol/protocol.go: the packets that the server and the agent in a container exchange.
use libcontainerssh.Common.{ℕ, String, Bool, List}

-- `Type int`: the seven that the protocol names, and any other number.
pub data PacketType : Type 0 where
  packet_setup packet_success packet_error packet_data : PacketType
  packet_new_connection packet_close_connection packet_no_more_connections : PacketType
  packet_unknown : ℕ → PacketType

pub record Packet : Type 0 where
  pub type : PacketType
  pub connection_id : ℕ  -- uint64
  pub payload : List ℕ

pub data ConnectionType : Type 0 where
  type_x11 type_port_forward type_port_dial type_socket_forward type_socket_dial : ConnectionType

pub record SetupPacket : Type 0 where
  pub connection_type : ConnectionType
  pub bind_host : String
  pub bind_port : ℕ
  pub protocol : String
  pub screen : String
  pub single_connection : Bool
  pub auth_protocol : String
  pub auth_cookie : String

pub record NewConnectionPayload : Type 0 where
  pub protocol : String
  pub connected_address : String
  pub connected_port : ℕ
  pub originator_address : String
  pub originator_port : ℕ
