-- ===== src/SshServer/Channels.antt =====
-- internal/sshserver/serverImpl.go: how the channels that a client asks for are opened. Each is opened
-- by a goroutine of its own, which first asks the handler and then follows what it has answered; the
-- steps of the loop and of the goroutines come in any order.
use Prim.Native.String.{◌++◌ as str_append}
use libcontainerssh.Common.{
  ℕ, zero, suc, String, str_eq, Bool, true, false, ◌||◌, if◌then◌else◌, List, [], ◌∷◌, ◌++◌, Option,
  none, some,
}
use libcontainerssh.Message.{
  Message, Level, RejectionReason, unknown_channel_type, resource_shortage, prohibited, plain,
  wrapping, rejection, err_too_many_sessions, foreign, debug, warning, Log, new_message, wrap,
  label, write_log,
}
use libcontainerssh.Security.Connection.{
  ConnectionBackend, ConnectionRequest, Response, refused, on_session_channel,
  on_tcp_forward_channel, on_direct_stream_local, on_unsupported_channel,
}
use libcontainerssh.SshServer.Payloads.{Unmarshal}
use libcontainerssh.SshServer.Registry.{Registry, register, unregister}

-- What the server reads of a channel that is asked for.
pub record NewChannel : Type 0 where
  pub channel_type : String
  pub extra_data : List ℕ

-- The calls of the library that answer the request for a channel, with the channel's number.
pub data ChannelAnswer : Type 0 where
  accept_channel : ℕ → ChannelAnswer
  turn_down : ℕ → RejectionReason → String → ChannelAnswer

-- The state of the handler, the answers, the keys of the shutdown handlers, and the log.
pub record Hub (S : Type 0) : Type 0 where
  pub handler : S
  pub answers : List ChannelAnswer
  pub shutdown_handlers : Registry
  pub log : Log

-- A goroutine whose handler has answered: `kind` begins the key of the shutdown handler, and the two
-- texts are those of a rejection and of a failure to accept the channel.
pub record Opening : Type 0 where
  pub kind : String
  pub rejected_text : String
  pub failed_text : String
  pub id : ℕ
  pub channel_type : String
  pub answer : Response

-- What may come next: the loop takes a channel, with the number that it reads for it, or the goroutine
-- at a place goes on, among those that have not asked the handler and among those that have.
pub data Turn : Type 0 where
  takes : ℕ → NewChannel → Turn
  asks : ℕ → Turn
  concludes : ℕ → Turn

-- The goroutines that have not asked the handler, those that have, and the state.
pub record Lobby (S : Type 0) : Type 0 where
  pub started : List (ℕ × NewChannel)
  pub asked : List Opening
  pub hub : Hub S

-- The element at a place, with the others.
unfoldable pub pick {ℓ} : {A : Type ℓ} → ℕ → List A → Option (A × List A)
pick n [] = none
pick zero (x ∷ xs) = some (x, xs)
pick (suc n) (x ∷ xs) = elim (pick n xs) [ none ↦ none | some p ↦ some (p.0, x ∷ p.1) ]

-- The types of channels for which the loop starts a goroutine.
abbrev pub has_goroutine : NewChannel → Bool
has_goroutine channel =
    str_eq channel.channel_type "session"
    || str_eq channel.channel_type "direct-tcpip"
    || str_eq channel.channel_type "direct-streamlocal@openssh.com"

-- `Reason` and `UserMessage` of a rejection. No other message is one.
unfoldable pub reason_of : Message → RejectionReason
reason_of (rejection reason b) = reason
reason_of (err_too_many_sessions labels) = resource_shortage
reason_of _ = prohibited

unfoldable pub user_text : Message → String
user_text (plain b) = b.user_message
user_text (wrapping b cause) = b.user_message
user_text (rejection reason b) = b.user_message
user_text (err_too_many_sessions labels) = "Too many sessions."
user_text (foreign text) = text

-- `digits` is the text of a number; the two functions are the errors, if there are any, of accepting
-- and of turning down a channel.
module _ {S : Type 0} (ssh : Unmarshal) (digits : ℕ → String)
    (accept_error reject_error : ℕ → Option Message) (handler : ConnectionBackend S)
    (connection_id : String) where
  unfoldable pub note_in : Level → Message → Hub S → Hub S
  note_in level m hub = record hub { log = write_log level m hub.log }

  unfoldable pub respond : ChannelAnswer → Hub S → Hub S
  respond answer hub = record hub { answers = hub.answers ++ (answer ∷ []) }

  unfoldable pub turned_down : ℕ → String → String → Message → Hub S → Hub S
  unfolding note_in respond label wrap reason_of user_text
  turned_down id channel_type text rejected hub =
      let noted =
        note_in debug (label "type" channel_type (wrap rejected "SSH_NEW_CHANNEL_REJECTED" text))
          hub in
      let sent = respond (turn_down id (reason_of rejected) (user_text rejected)) noted in
      elim (reject_error id) [
        | none ↦ sent
        | some err ↦
            note_in debug
              (wrap err "SSH_REPLY_SEND_FAILED" "Failed to send reply to channel request") sent
      ]

  unfoldable pub channel_key : String → ℕ → String
  channel_key kind id = str_append kind (str_append connection_id (str_append "-" (digits id)))

  -- After the handler has answered.
  unfoldable pub conclude_opening : String → String → String → ℕ → String → Response → Hub S → Hub S
  unfolding turned_down register unregister channel_key note_in respond wrap label new_message
  conclude_opening kind rejected_text failed_text id channel_type (refused rejected) hub =
      turned_down id channel_type rejected_text rejected hub
  conclude_opening kind rejected_text failed_text id channel_type answer hub =
      let ready =
        respond (accept_channel id) (record hub {
          shutdown_handlers = register (channel_key kind id) hub.shutdown_handlers;
        }) in
      elim (accept_error id) [
        | none ↦
            note_in debug
              (label "type" channel_type (new_message "SSH_NEW_CHANNEL" "New SSH channel")) ready
        | some err ↦
            let noted = note_in debug (wrap err "SSH_REPLY_SEND_FAILED" failed_text) ready in
            record noted {
              shutdown_handlers = unregister (channel_key kind id) noted.shutdown_handlers;
            }
      ]

  -- The handler is asked.
  unfoldable pub ask_handler :
      String → String → String → ℕ → String → ConnectionRequest → Hub S → Option Opening × Hub S
  ask_handler kind rejected_text failed_text id channel_type request hub =
      let (answer, s) = handler request hub.handler in
      (
        some (record {
          kind = kind;
          rejected_text = rejected_text;
          failed_text = failed_text;
          id = id;
          channel_type = channel_type;
          answer = answer;
        }),
        record hub { handler = s },
      )

  unfoldable pub handle_session_channel : ℕ → NewChannel → Hub S → Option Opening × Hub S
  unfolding ask_handler
  handle_session_channel id channel hub =
      ask_handler "session-" "New SSH channel rejected" "failed to accept session channel" id
        channel.channel_type (on_session_channel id channel.extra_data) hub

  -- A payload that cannot be decoded is logged, and nothing else is done.
  unfoldable pub undecoded : Message → Hub S → Option Opening × Hub S
  unfolding note_in wrap
  undecoded err hub = (
    none,
    note_in warning
        (wrap err "SSH_NEW_CHANNEL_REJECTED" "Failed to decode new forwarding channel payload") hub,
  )

  unfoldable pub if_decoded :
      Option Message → (Hub S → Option Opening × Hub S) → Hub S → Option Opening × Hub S
  unfolding undecoded
  if_decoded none next hub = next hub
  if_decoded (some err) next hub = undecoded err hub

  unfoldable pub handle_direct_forwarding_channel : ℕ → NewChannel → Hub S → Option Opening × Hub S
  unfolding ask_handler if_decoded
  handle_direct_forwarding_channel id channel hub =
      let (payload, failed) = ssh.read_tcp_channel channel.extra_data in
      if_decoded failed
        (ask_handler "direct-tcpip-" "New forwarding channel rejected"
          "failed to accept forwarding channel" id channel.channel_type
          (on_tcp_forward_channel id payload.connected_address payload.connected_port
            payload.originator_address payload.originator_port))
        hub

  unfoldable pub handle_direct_stream_local_channel :
      ℕ → NewChannel → Hub S → Option Opening × Hub S
  unfolding ask_handler if_decoded
  handle_direct_stream_local_channel id channel hub =
      let (payload, failed) = ssh.read_stream_channel channel.extra_data in
      if_decoded failed
        (ask_handler "direct-tcpip-" "New streamlocal forwarding channel rejected"
          "failed to streamlocal forwarding channel" id channel.channel_type
          (on_direct_stream_local id payload.socket_path))
        hub

  unfoldable pub handle_unsupported_channel : ℕ → NewChannel → Hub S → Hub S
  unfolding note_in respond label new_message
  handle_unsupported_channel id channel hub =
      let noted =
        note_in debug
          (label "type" channel.channel_type
            (new_message "SSH_UNSUPPORTED_CHANNEL_TYPE" "Unsupported channel type requested"))
          hub in
      let (answer, s) =
        handler (on_unsupported_channel id channel.channel_type channel.extra_data) noted.handler in
      respond (turn_down id unknown_channel_type "unsupported channel type")
        (record noted { handler = s })

  -- What a goroutine does up to the handler's answer.
  unfoldable pub handle_channel : ℕ → NewChannel → Hub S → Option Opening × Hub S
  unfolding handle_session_channel handle_direct_forwarding_channel
      handle_direct_stream_local_channel
  handle_channel id channel hub =
      if str_eq channel.channel_type "session"
      then handle_session_channel id channel hub
      else if str_eq channel.channel_type "direct-tcpip"
      then handle_direct_forwarding_channel id channel hub
      else handle_direct_stream_local_channel id channel hub

  -- A goroutine that has answered nothing yet goes on with its opening, or is over.
  unfoldable pub go_on : List (ℕ × NewChannel) → List Opening → Option Opening × Hub S → Lobby S
  go_on started asked (none, hub) = record { started = started; asked = asked; hub = hub }
  go_on started asked (some opening, hub) = record {
    started = started;
    asked = asked ++ (opening ∷ []);
    hub = hub;
  }

  -- The loop's part: a goroutine is started, or the channel is turned down at once.
  unfoldable pub take_channel : ℕ → NewChannel → Bool → Lobby S → Lobby S
  unfolding handle_unsupported_channel
  take_channel id channel true l = record l { started = l.started ++ ((id, channel) ∷ []) }
  take_channel id channel false l = record l { hub = handle_unsupported_channel id channel l.hub }

  unfoldable pub ask_picked : Option ((ℕ × NewChannel) × List (ℕ × NewChannel)) → Lobby S → Lobby S
  unfolding handle_channel go_on
  ask_picked none l = l
  ask_picked (some ((id, channel), others)) l =
      go_on others l.asked (handle_channel id channel l.hub)

  unfoldable pub conclude_picked : Option (Opening × List Opening) → Lobby S → Lobby S
  unfolding conclude_opening
  conclude_picked none l = l
  conclude_picked (some (o, others)) l = record l {
    asked = others;
    hub = conclude_opening o.kind o.rejected_text o.failed_text o.id o.channel_type o.answer l.hub;
  }

  unfoldable pub turn : Turn → Lobby S → Lobby S
  unfolding take_channel ask_picked conclude_picked pick
  turn (takes id channel) l = take_channel id channel (has_goroutine channel) l
  turn (asks n) l = ask_picked (pick n l.started) l
  turn (concludes n) l = conclude_picked (pick n l.asked) l

  -- `handleChannels` with its goroutines.
  unfoldable pub handle_channels : List Turn → Lobby S → Lobby S
  unfolding turn
  handle_channels [] l = l
  handle_channels (t ∷ turns) l = handle_channels turns (turn t l)
