-- ===== src/SshServer/Payloads.antt =====
-- internal/ssh and internal/sshserver/serverImpl.go: the requests of a client and what they carry.
use libcontainerssh.Common.{
  ℕ, String, str_eq, if◌then◌else◌, Bool, List, [], ◌∷◌, Option, none, some,
}
use libcontainerssh.Message.{Message}

-- What the server reads of a request of the SSH library.
pub record Request : Type 0 where
  pub type : String
  pub want_reply : Bool
  pub payload : List ℕ

-- An answer to a request: what `Reply` of the SSH library is given.
pub record Reply : Type 0 where
  pub success : Bool
  pub message : String

-- The request types that the server knows, on channels and on the connection.
pub data RequestType : Type 0 where
  env_type pty_type shell_type exec_type subsystem_type window_type : RequestType
  signal_type x11_type : RequestType
  reverse_forward_type cancel_reverse_forward_type stream_local_forward_type : RequestType
  cancel_stream_local_forward_type unknown_type : RequestType

unfoldable pub request_type : String → RequestType
request_type t =
    if str_eq t "env"
    then env_type
    else if str_eq t "pty-req"
    then pty_type
    else if str_eq t "shell"
    then shell_type
    else if str_eq t "exec"
    then exec_type
    else if str_eq t "subsystem"
    then subsystem_type
    else if str_eq t "window-change"
    then window_type
    else if str_eq t "signal"
    then signal_type
    else if str_eq t "x11-req"
    then x11_type
    else if str_eq t "tcpip-forward"
    then reverse_forward_type
    else if str_eq t "cancel-tcpip-forward"
    then cancel_reverse_forward_type
    else if str_eq t "streamlocal-forward@openssh.com"
    then stream_local_forward_type
    else if str_eq t "cancel-streamlocal-forward@openssh.com"
    then cancel_stream_local_forward_type
    else unknown_type

pub record EnvRequestPayload : Type 0 where
  pub name : String
  pub value : String

pub record PtyRequestPayload : Type 0 where
  pub term : String
  pub columns : ℕ
  pub rows : ℕ
  pub width : ℕ
  pub height : ℕ
  pub mode_list : List ℕ

pub record ExecRequestPayload : Type 0 where
  pub exec : String

pub record SubsystemRequestPayload : Type 0 where
  pub subsystem : String

pub record WindowRequestPayload : Type 0 where
  pub columns : ℕ
  pub rows : ℕ
  pub width : ℕ
  pub height : ℕ

pub record SignalRequestPayload : Type 0 where
  pub signal : String

pub record X11RequestPayload : Type 0 where
  pub single_connection : Bool
  pub protocol : String
  pub cookie : String
  pub screen : ℕ

pub record ForwardTcpIpRequestPayload : Type 0 where
  pub address : String
  pub port : ℕ

pub record StreamLocalForwardRequestPayload : Type 0 where
  pub socket_path : String

pub record ForwardTcpChannelOpenPayload : Type 0 where
  pub connected_address : String
  pub connected_port : ℕ
  pub originator_address : String
  pub originator_port : ℕ

pub record DirectStreamLocalChannelOpenPayload : Type 0 where
  pub socket_path : String
  pub reserved1 : String
  pub reserved2 : ℕ

-- The payload of a request on a session channel, and that of a global request.
pub data ChannelPayload : Type 0 where
  env : EnvRequestPayload → ChannelPayload
  pty : PtyRequestPayload → ChannelPayload
  shell : ChannelPayload
  exec : ExecRequestPayload → ChannelPayload
  subsystem : SubsystemRequestPayload → ChannelPayload
  window : WindowRequestPayload → ChannelPayload
  signal : SignalRequestPayload → ChannelPayload
  x11 : X11RequestPayload → ChannelPayload

pub data GlobalPayload : Type 0 where
  reverse_forward cancel_reverse_forward : ForwardTcpIpRequestPayload → GlobalPayload
  stream_local_forward : StreamLocalForwardRequestPayload → GlobalPayload
  cancel_stream_local_forward : StreamLocalForwardRequestPayload → GlobalPayload

-- `ssh.Unmarshal` into each of the types: the payload, and an error or none.
pub record Unmarshal : Type 0 where
  pub read_env : List ℕ → EnvRequestPayload × Option Message
  pub read_pty : List ℕ → PtyRequestPayload × Option Message
  pub read_shell : List ℕ → Option Message
  pub read_exec : List ℕ → ExecRequestPayload × Option Message
  pub read_subsystem : List ℕ → SubsystemRequestPayload × Option Message
  pub read_window : List ℕ → WindowRequestPayload × Option Message
  pub read_signal : List ℕ → SignalRequestPayload × Option Message
  pub read_x11 : List ℕ → X11RequestPayload × Option Message
  pub read_forward : List ℕ → ForwardTcpIpRequestPayload × Option Message
  pub read_stream_local : List ℕ → StreamLocalForwardRequestPayload × Option Message
  pub read_tcp_channel : List ℕ → ForwardTcpChannelOpenPayload × Option Message
  pub read_stream_channel : List ℕ → DirectStreamLocalChannelOpenPayload × Option Message

abbrev decoded {ℓ κ} :
    {A : Type ℓ} {B : Type κ} → (A → B) → A × Option Message → Option (B × Option Message)
decoded f (payload, failed) = some (f payload, failed)

module _ (ssh : Unmarshal) where
  -- A shell request may come without a payload.
  unfoldable pub unmarshal_shell : List ℕ → Option Message
  unmarshal_shell [] = none
  unmarshal_shell (byte ∷ bytes) = ssh.read_shell (byte ∷ bytes)

  -- `none` is the nil payload of a type that the server does not know here.
  unfoldable pub unmarshal_channel_request_payload :
      Request → Option (ChannelPayload × Option Message)
  unfolding request_type unmarshal_shell
  unmarshal_channel_request_payload request = elim (request_type request.type) [
    | env_type ↦ decoded env (ssh.read_env request.payload)
    | pty_type ↦ decoded pty (ssh.read_pty request.payload)
    | shell_type ↦ some (shell, unmarshal_shell request.payload)
    | exec_type ↦ decoded exec (ssh.read_exec request.payload)
    | subsystem_type ↦ decoded subsystem (ssh.read_subsystem request.payload)
    | window_type ↦ decoded window (ssh.read_window request.payload)
    | signal_type ↦ decoded signal (ssh.read_signal request.payload)
    | x11_type ↦ decoded x11 (ssh.read_x11 request.payload)
    | _ ↦ none
  ]

  unfoldable pub unmarshal_global_request_payload :
      Request → Option (GlobalPayload × Option Message)
  unfolding request_type
  unmarshal_global_request_payload request = elim (request_type request.type) [
    | reverse_forward_type ↦ decoded reverse_forward (ssh.read_forward request.payload)
    | cancel_reverse_forward_type ↦
        decoded cancel_reverse_forward (ssh.read_forward request.payload)
    | stream_local_forward_type ↦
        decoded stream_local_forward (ssh.read_stream_local request.payload)
    | cancel_stream_local_forward_type ↦
        decoded cancel_stream_local_forward (ssh.read_stream_local request.payload)
    | _ ↦ none
  ]
