-- ===== src/SshServer/Examples.antt =====
-- internal/sshserver: the theorems on requests, questions, channels and keepalives, at concrete ones.
use mathlib.Core.List.{not-mem-nil}
use libcontainerssh.Common.{
  ℕ, ◌+◌, ◌≤◌, ◌≡◌, refl, ◌==◌, if◌then◌else◌, String, pos, true, false, List, [], ◌∷◌, ◌++◌, All,
  Option, none, some,
}
use libcontainerssh.Message.{Message, Log, foreign}
use libcontainerssh.AuthIntegration.Interface.{KeyboardInteractiveQuestion}
use libcontainerssh.AuthIntegration.Questions.{lookup, get_id, adapt}
use libcontainerssh.Security.Config.{unconfigured, enable, filter, disable, SecurityConfig}
use libcontainerssh.Security.Backend.{Backend, World, SessionRequest, on_env}
use libcontainerssh.Security.Connection.{ConnectionBackend, ConnectionRequest, done}
use libcontainerssh.Security.Policy.{contains}
use libcontainerssh.Security.Validate.{validate}
use libcontainerssh.Security.Session.{session_handler}
use libcontainerssh.Security.Rules.{IsAllowed, contains-ne-Mem}
use libcontainerssh.SshServer.Payloads.{
  Request, Reply, Unmarshal, env, unmarshal_channel_request_payload,
}
use libcontainerssh.SshServer.Reply.{Session, find_connection}
use libcontainerssh.SshServer.Reply.Answers.{failure_reply, success_reply}
use libcontainerssh.SshServer.Requests.{handle_channel_request, handle_requests}
use libcontainerssh.SshServer.Calls.{
  calls, after_calls, handle_requests-calls, handle_requests-keeps,
}
use libcontainerssh.SshServer.Replies.{answers, handle_requests-replies}
use libcontainerssh.SshServer.Refusals.{handle_channel_request-refuses}
use libcontainerssh.SshServer.Global.{handle_global_requests}
use libcontainerssh.SshServer.GlobalCalls.{perform_all, handle_global_requests-performs}
use libcontainerssh.SshServer.Authenticators.{Prompt, challenge_wrapper}
use libcontainerssh.SshServer.Keyboard.{adapt-challenge_wrapper}
use libcontainerssh.SshServer.ChannelWrapper.{
  ChannelWrapper, Method, Failure, Sent, send_exit_status, send_exit_signal, do_close, run_all,
  exit_status, close,
}
use libcontainerssh.SshServer.Exit.{count, is_status, is_signal, IsTidy, run_all-sent}
use libcontainerssh.SshServer.Channels.{
  NewChannel, Lobby, Turn, takes, asks, concludes, handle_channels,
}
use libcontainerssh.SshServer.Openings.{
  answers_for, still_owed, asks_for, total, handle_channels-answers,
}

-- A library that reads one value of each type, and no signal at all.
abbrev reader : Unmarshal
reader = record {
  read_env = λ bytes. (record { name = "LD_PRELOAD"; value = "x" }, none);
  read_pty = λ bytes. (
    record { term = "xterm"; columns = 80; rows = 25; width = 0; height = 0; mode_list = [] },
    none,
  );
  read_shell = λ bytes. none;
  read_exec = λ bytes. (record { exec = "date" }, none);
  read_subsystem = λ bytes. (record { subsystem = "sftp" }, none);
  read_window = λ bytes. (record { columns = 80; rows = 25; width = 0; height = 0 }, none);
  read_signal = λ bytes. (record { signal = "" }, some (foreign "short"));
  read_x11 = λ bytes.
      (record { single_connection = true; protocol = "p"; cookie = "c"; screen = 0 }, none);
  read_forward = λ bytes. (record { address = "localhost"; port = 8080 }, none);
  read_stream_local = λ bytes. (record { socket_path = "/tmp/s" }, none);
  read_tcp_channel = λ bytes. (
    record {
      connected_address = "db";
      connected_port = 5432;
      originator_address = "client";
      originator_port = 40000;
    },
    none,
  );
  read_stream_channel =
      λ bytes. (record { socket_path = "/tmp/s"; reserved1 = ""; reserved2 = 0 }, none);
}

abbrev sends_all : List Reply → Reply → Option Message
sends_all sent answer = none

-- A backend that takes everything and keeps what it was asked for, newest first.
abbrev collector : Backend (List SessionRequest)
collector request s = (none, request ∷ s)

abbrev asked : String → Request
asked name = record { type = name; want_reply = true; payload = 1 ∷ [] }

abbrev opened : {A : Type 0} → A → Session A
opened s = record { handler = s; replies = []; log = []; conn_map = ("0123", 1) ∷ [] }

abbrev talk : List Request
talk = asked "env" ∷ asked "exec" ∷ asked "signal" ∷ asked "x11-req" ∷ asked "nonsense" ∷ []

handle_requests-calls_example :
    (handle_requests reader sends_all collector "0123" 0 talk (opened [])).handler
    ≡ after_calls collector (calls reader "0123" (("0123", 1) ∷ []) 0 talk) []
handle_requests-calls_example =
    handle_requests-calls reader sends_all collector "0123" 0 talk (opened [])

handle_requests-replies_example :
    (handle_requests reader sends_all collector "0123" 0 talk (opened [])).replies
    ≡ [] ++ answers collector reader "0123" (("0123", 1) ∷ []) 0 talk []
handle_requests-replies_example =
    handle_requests-replies reader sends_all collector (λ sent answer. refl) "0123" 0 talk
      (opened [])

-- What is answered: two successes, a payload that cannot be read, a success, an unknown type.
answers-talk :
    answers collector reader "0123" (("0123", 1) ∷ []) 0 talk []
    ≡ success_reply
      ∷ success_reply
      ∷ failure_reply "failed to unmarshal payload"
      ∷ success_reply
      ∷ failure_reply "unsupported request type: nonsense"
      ∷ []
unfolding answers unmarshal_channel_request_payload find_connection
answers-talk = refl

-- Variables of one name and commands of one name are allowed.
abbrev guarded_config : SecurityConfig
guarded_config = record {
  default_mode = unconfigured;
  force_command = "";
  env = record { mode = filter; allow = "TERM" ∷ []; deny = [] };
  command = record { mode = filter; allow = "date" ∷ [] };
  shell = record { mode = disable };
  subsystem = record { mode = enable; allow = []; deny = "sftp" ∷ [] };
  forwarding = record {
    reverse_forwarding_mode = disable;
    forwarding_mode = disable;
    socket_forwarding_mode = disable;
    socket_listen_mode = disable;
    x11_forwarding_mode = disable;
  };
  tty = record { mode = unconfigured };
  signal = record { mode = enable; allow = []; deny = [] };
  max_sessions = pos 2;
}

abbrev secured : World (List SessionRequest)
secured = record { backend = []; log = [] }

handle_requests-keeps_example :
    All
      (IsAllowed guarded_config)
      (handle_requests reader sends_all
        (session_handler guarded_config collector)
        "0123"
        0
        talk
        (opened secured)).handler.backend
unfolding validate
handle_requests-keeps_example =
    handle_requests-keeps guarded_config collector (All (IsAllowed guarded_config))
      (λ request s allowed p. (allowed, p)) reader sends_all "0123" talk (opened secured) refl tt

handle_channel_request-refuses_example :
    let st' =
      handle_channel_request reader sends_all
        (session_handler guarded_config collector)
        "0123"
        4
        (asked "env")
        (opened secured) in
    (st'.handler.backend ≡ []) × ((text : String) × (st'.replies ≡ [] ++ (failure_reply text ∷ [])))
unfolding validate contains unmarshal_channel_request_payload
handle_channel_request-refuses_example =
    handle_channel_request-refuses guarded_config collector reader sends_all (λ sent answer. refl)
      "0123" 4 (asked "env") (env (record { name = "LD_PRELOAD"; value = "x" }))
      (on_env 4 "LD_PRELOAD" "x") (opened secured) refl refl refl
      (λ m. contains-ne-Mem ("TERM" ∷ []) "LD_PRELOAD" refl m.0)
      (λ d. contains-ne-Mem ("TERM" ∷ []) "LD_PRELOAD" refl d.0) refl

abbrev listener : ConnectionBackend (List ConnectionRequest)
listener request s = (done, request ∷ s)

-- Two requests have read the same number.
abbrev global_talk : List (ℕ × Request)
global_talk =
    (5, asked "keepalive@openssh.com") ∷ (8, asked "tcpip-forward") ∷ (8, asked "nonsense") ∷ []

handle_global_requests-performs_example :
    let st' = handle_global_requests reader sends_all listener "0123" global_talk (opened []) in
    let (answers, s) = perform_all listener reader "0123" (("0123", 1) ∷ []) global_talk [] in
    (st'.handler ≡ s) × (st'.replies ≡ [] ++ answers)
handle_global_requests-performs_example =
    handle_global_requests-performs reader sends_all (λ sent answer. refl) listener "0123"
      global_talk (opened [])

abbrev token : KeyboardInteractiveQuestion
token = record { id = "token"; question = "Token?"; echo_response = false }

abbrev pin : KeyboardInteractiveQuestion
pin = record { id = "pin"; question = "PIN?"; echo_response = false }

-- A client that types the same two answers whatever it is asked.
abbrev typist : Prompt ℕ
typist user instruction texts echos s = (("123456" ∷ "0000" ∷ [], none), s + 1)

adapt-challenge_wrapper_example :
    let ((answers, failed), s'') =
      adapt (challenge_wrapper typist "foo") "Log in" ((token ∷ []) ++ (pin ∷ [])) 0 in
    (lookup "pin" answers ≡ some "0000") × (failed ≡ none) × (s'' ≡ 1)
unfolding get_id
adapt-challenge_wrapper_example =
    adapt-challenge_wrapper typist "foo" "Log in" (token ∷ []) [] pin 0 1 ("123456" ∷ []) [] "0000"
      refl refl (λ e. cc) (λ q m. absurd (not-mem-nil m))

abbrev digit : ℕ → String
digit n = "0"

abbrev quiet_library : List Sent → Sent → Option Failure
quiet_library sent message = none

abbrev new_wrapper : ChannelWrapper
new_wrapper = record {
  channel = true;
  exit_sent = false;
  exit_signal_sent = false;
  closed_write = false;
  closed = false;
  sent = [];
  log = [];
}

abbrev methods : List Method
methods =
    send_exit_status 1 ∷ send_exit_status 2 ∷ do_close ∷ send_exit_signal "KILL" false "" "" ∷ []

abbrev worn_wrapper : Log → ChannelWrapper
worn_wrapper log = record {
  channel = true;
  exit_sent = true;
  exit_signal_sent = false;
  closed_write = false;
  closed = true;
  sent = exit_status 1 ∷ close ∷ [];
  log = log;
}

run_all-sent_example :
    (count is_status (exit_status 1 ∷ close ∷ []) ≤ 1)
    × (count is_signal (exit_status 1 ∷ close ∷ []) ≤ 1)
    × IsTidy false (exit_status 1 ∷ close ∷ [])
unfolding run_all
run_all-sent_example =
    run_all-sent digit quiet_library methods new_wrapper (worn_wrapper _) refl refl refl refl

-- Every keepalive but the second is missed.
abbrev heard_once : ℕ → Option Message
heard_once n = if n == 1 then none else some (foreign "EOF")

-- A library that cannot read what a forwarded TCP channel carries.
abbrev blind : Unmarshal
blind = record reader {
  read_tcp_channel = λ bytes. ((reader.read_tcp_channel bytes).0, some (foreign "short"));
}

abbrev no_error : ℕ → Option Message
no_error id = none

abbrev new_channel : String → NewChannel
new_channel name = record { channel_type = name; extra_data = [] }

abbrev quiet_lobby : Lobby (List ConnectionRequest)
quiet_lobby = record {
  started = [];
  asked = [];
  hub = record { handler = []; answers = []; shutdown_handlers = []; log = [] };
}

-- The second channel is not answered, and the third is answered before the first, whose number it has.
abbrev turns : List Turn
turns =
    takes 7 (new_channel "session")
    ∷ takes 8 (new_channel "direct-tcpip")
    ∷ asks 1
    ∷ takes 7 (new_channel "x11")
    ∷ asks 0
    ∷ concludes 0
    ∷ []

abbrev opened_lobby : Lobby (List ConnectionRequest)
opened_lobby = handle_channels blind digit no_error no_error listener "0123" turns quiet_lobby

handle_channels-answers_example :
    answers_for 7 opened_lobby.hub + still_owed 7 blind opened_lobby
    ≡ answers_for 7 quiet_lobby.hub
      + still_owed 7 blind quiet_lobby
      + total (asks_for 7 blind) turns
handle_channels-answers_example =
    handle_channels-answers 7 blind digit no_error no_error listener "0123" turns quiet_lobby

-- The channels with this number have two answers, and the other has none.
answers_given :
    (answers_for 7 opened_lobby.hub ≡ 2)
    × (still_owed 7 blind opened_lobby ≡ 0)
    × (answers_for 8 opened_lobby.hub ≡ 0)
unfolding total handle_channels
answers_given = (refl, refl, refl)
