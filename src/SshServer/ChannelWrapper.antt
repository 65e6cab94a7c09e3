-- ===== src/SshServer/ChannelWrapper.antt =====
-- internal/sshserver/channelWrapper.go: how a program's output and its end get to the client.
use Prim.Native.String.{◌++◌ as str_append}
use libcontainerssh.Common.{
  ℕ, String, if◌then◌else◌, Bool, true, ◌||◌, List, [], ◌∷◌, ◌++◌, Option, some, Call, returns,
  panics, and_then,
}
use libcontainerssh.Message.{Message, Log, debug, label, new_message, wrap, write_log}

-- What goes out on the channel, to the library.
pub data Sent : Type 0 where
  exit_status : ℕ → Sent
  exit_signal : String → Bool → String → String → Sent
  close_write : Sent
  close : Sent

-- Which error a call of the library gives, if it gives one: the end of the file, or another.
pub data Failure : Type 0 where
  eof : Failure
  failed : Message → Failure

-- Whether the channel is there, the flags, what has gone out on it, and the log.
pub record ChannelWrapper : Type 0 where
  pub channel : Bool
  pub exit_sent : Bool
  pub exit_signal_sent : Bool
  pub closed_write : Bool
  pub closed : Bool
  pub sent : List Sent
  pub log : Log

-- The methods, with their arguments.
pub data Method : Type 0 where
  send_exit_status : ℕ → Method
  send_exit_signal : String → Bool → String → String → Method
  do_close_write do_close on_close : Method

-- `digits` is the text of a number, and `library` is the error, if there is one, of sending a message
-- after those that have gone out. What CloseWrite and Close answer is the library's error.
module _ (digits : ℕ → String) (library : List Sent → Sent → Option Failure) where
  unfoldable pub complain : Option Failure → ChannelWrapper → ChannelWrapper
  unfolding wrap
  complain (some (failed err)) c = record c {
    log =
        write_log debug (wrap err "SSH_EXIT_CODE_FAILED" "Failed to send exit status to client")
          c.log;
  }
  complain _ c = c

  unfoldable pub send : Sent → ChannelWrapper → ChannelWrapper
  send message c = record c { sent = c.sent ++ (message ∷ []) }

  unfoldable pub note_exit : ℕ → ChannelWrapper → ChannelWrapper
  unfolding new_message label
  note_exit exit_code c = record c {
    log =
        write_log debug
          (label "exitCode" (digits exit_code)
            (new_message "SSH_EXIT" (str_append "Program exited with status " (digits exit_code))))
          c.log;
  }

  unfoldable pub note_signal : String → Bool → ChannelWrapper → ChannelWrapper
  unfolding new_message label
  note_signal signal core_dumped c = record c {
    log =
        write_log debug
          (label "coreDumped" (if core_dumped then "true" else "false") (
            label "signal" signal
              (new_message "SSH_EXIT_SIGNAL" (str_append "Program exited with signal " signal))))
          c.log;
  }

  unfoldable pub exit_status_open : ℕ → ChannelWrapper → ChannelWrapper
  unfolding complain send note_exit
  exit_status_open exit_code c =
      let noted = note_exit exit_code c in
      if c.exit_sent || c.closed
      then noted
      else complain (library c.sent (exit_status exit_code))
          (send (exit_status exit_code) (record noted { exit_sent = true }))

  unfoldable pub exit_signal_open :
      String → Bool → String → String → ChannelWrapper → ChannelWrapper
  unfolding complain send note_signal
  exit_signal_open signal core_dumped error_message language_tag c =
      let noted = note_signal signal core_dumped c in
      let message = exit_signal signal core_dumped error_message language_tag in
      if c.exit_signal_sent || c.closed
      then noted
      else complain (library c.sent message)
          (send message (record noted { exit_signal_sent = true }))

  -- The flag `closedWrite` is read, and never set.
  unfoldable pub close_write_open : ChannelWrapper → ChannelWrapper
  unfolding send
  close_write_open c = if c.closed || c.closed_write then c else send close_write c

  unfoldable pub run_open : Method → ChannelWrapper → ChannelWrapper
  unfolding exit_status_open exit_signal_open close_write_open send
  run_open (send_exit_status exit_code) c = exit_status_open exit_code c
  run_open (send_exit_signal signal core_dumped error_message language_tag) c =
      exit_signal_open signal core_dumped error_message language_tag c
  run_open do_close_write c = close_write_open c
  run_open do_close c = send close (record c { closed = true })
  run_open on_close c = record c { closed = true }

  -- Without a channel every method but `onClose` panics.
  unfoldable pub run : Method → ChannelWrapper → Call ChannelWrapper
  unfolding run_open
  run on_close c = returns (run_open on_close c)
  run method c = if c.channel then returns (run_open method c) else panics

  unfoldable pub run_all : List Method → ChannelWrapper → Call ChannelWrapper
  unfolding run
  run_all [] c = returns c
  run_all (method ∷ methods) c = and_then (run method c) (run_all methods)
