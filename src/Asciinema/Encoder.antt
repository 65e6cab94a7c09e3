-- ===== src/Asciinema/Encoder.antt =====
-- internal/auditlog/codec/asciinema/encoder.go and format.go: from audit messages to the lines of a
-- recording.
use Prim.Native.Nat.{◌/◌}
use Prim.Native.String.{◌++◌ as str_append}
use libcontainerssh.Common.{
  ℕ, ◌+◌, ◌-◌, ℤ, pos, negsuc, leb, if◌then◌else◌, String, Bool, true, false, List, [], ◌∷◌, ◌++◌,
  Option, none, some,
}
use libcontainerssh.Message.{Labels, set_label, Log, Message, error, write_log, wrap}

pub record Header : Type 0 where
  pub version : ℕ
  pub width : ℕ
  pub height : ℕ
  pub timestamp : ℕ
  pub command : String
  pub title : String
  pub env : Labels

-- The time is in nanoseconds, which the source divides to seconds as a float; a frame that the
-- encoder makes is of the type for output.
pub record Frame : Type 0 where
  pub time : ℤ
  pub content : List ℕ

pub data Line : Type 0 where
  header_line : Header → Line
  frame_line : Frame → Line

pub data Stream : Type 0 where
  stdin stdout stderr : Stream

-- The messages that the encoder looks at, each with what it reads of its payload, and the others.
pub data Payload : Type 0 where
  connect : String → Payload
  auth_password_successful auth_pub_key_successful handshake_successful : String → Payload
  set_env : String → String → Payload
  pty : String → ℕ → ℕ → Payload
  exec : String → Payload
  shell subsystem : Payload
  io : Stream → List ℕ → Payload
  other_payload : Payload

-- A timestamp is a number of nanoseconds that is not negative.
pub record AuditMessage : Type 0 where
  pub timestamp : ℕ
  pub payload : Payload

-- What `SetMetadata` is given: the start in seconds, the address, the country and the user.
pub record Metadata : Type 0 where
  pub start_time : ℕ
  pub source_ip : String
  pub country : String
  pub username : Option String

-- The variables of `Encode`, and what the storage was given.
pub record Encoding : Type 0 where
  pub start_time : ℕ
  pub header : Header
  pub header_written : Bool
  pub ip : String
  pub username : Option String
  pub lines : List Line
  pub metadata : List Metadata
  pub closed : ℕ
  pub log : Log

unfoldable pub initial : Encoding
initial = record {
  start_time = 0;
  header = record {
    version = 2;
    width = 80;
    height = 25;
    timestamp = 0;
    command = "";
    title = "";
    env = [];
  };
  header_written = false;
  ip = "";
  username = none;
  lines = [];
  metadata = [];
  closed = 0;
  log = [];
}

-- The difference of two timestamps.
abbrev pub elapsed : ℕ → ℕ → ℤ
elapsed time start = if leb start time then pos (time - start) else negsuc (start - time - 1)

abbrev pub is_output : Stream → Bool
is_output stdin = false
is_output _ = true

-- `lookup` finds the country of an address; `marshal` is the JSON encoder's error on a line, and
-- `write` that of the storage, which has taken some lines, on the next one.
module _ (lookup : String → String) (marshal : Line → Option String)
    (write : List Line → Line → Option String) where
  unfoldable pub write_line : Line → Encoding → Option String × Encoding
  write_line line e = elim (write e.lines line) [
    | some err ↦ (some err, e)
    | none ↦ (none, record e { lines = e.lines ++ (line ∷ []) })
  ]

  unfoldable pub send_header : Header → Encoding → Option String × Encoding
  unfolding write_line
  send_header header e = elim (marshal (header_line header)) [
    | some err ↦ (some err, e)
    | none ↦ write_line (header_line header) e
  ]

  unfoldable pub frame_error : Option String × Encoding → Option String × Encoding
  frame_error (none, e) = (none, e)
  frame_error (some err, e) =
      (some (str_append "failed to write Asciicast frame (" (str_append err ")")), e)

  unfoldable pub send_frame : Frame → Encoding → Option String × Encoding
  unfolding write_line frame_error
  send_frame frame e = elim (marshal (frame_line frame)) [
    | some err ↦ (some (str_append "failed to marshal Asciicast frame (" (str_append err ")")), e)
    | none ↦ frame_error (write_line (frame_line frame) e)
  ]

  unfoldable pub header_sent : Option String × Encoding → Option String × Encoding
  header_sent (none, e) = (none, record e { header_written = true })
  header_sent (some err, e) = (some err, e)

  unfoldable pub handle_run : String → Encoding → Option String × Encoding
  unfolding send_header header_sent
  handle_run program e =
      if e.header_written
      then (none, e)
      else let header = record e.header { command = program } in
        header_sent (send_header header (record e { header = header }))

  -- The rest of `handleIO`, once the header is written.
  unfoldable pub output : ℕ → Stream → List ℕ → Option String × Encoding → Option String × Encoding
  unfolding send_frame
  output timestamp stream content (some err, e) = (some err, e)
  output timestamp stream content (none, e) =
      if is_output stream
      then send_frame (record { time = elapsed timestamp e.start_time; content = content }) e
      else (none, e)

  unfoldable pub handle_io : ℕ → Stream → List ℕ → Encoding → Option String × Encoding
  unfolding handle_run output
  handle_io timestamp stream content e = output timestamp stream content (handle_run "/bin/sh" e)

  unfoldable pub set_metadata :
      String → Option String → String → Encoding → Option String × Encoding
  set_metadata ip username country e = (
    none,
    record e {
      ip = ip;
      username = username;
      metadata =
          e.metadata
          ++ (record {
            start_time = e.start_time / 1000000000;
            source_ip = ip;
            country = country;
            username = username;
          }
              ∷ []);
    },
  )

  -- The country is looked up before the message is handled.
  unfoldable pub encode_message : AuditMessage → Encoding → Option String × Encoding
  unfolding handle_run handle_io set_metadata set_label
  encode_message msg e = elim msg.payload [
    | connect remote_addr ↦ set_metadata remote_addr e.username (lookup e.ip) (record e {
      start_time = msg.timestamp;
      header = record e.header { timestamp = msg.timestamp / 1000000000 };
    })
    | auth_password_successful name ↦ set_metadata e.ip (some name) (lookup e.ip) e
    | auth_pub_key_successful name ↦ set_metadata e.ip (some name) (lookup e.ip) e
    | handshake_successful name ↦ set_metadata e.ip (some name) (lookup e.ip) e
    | set_env name value ↦
        (none, record e { header = record e.header { env = set_label name value e.header.env } })
    | pty term columns rows ↦ (
      none,
      record e {
        header = record e.header {
          env = set_label "TERM" term e.header.env;
          width = columns;
          height = rows;
        };
      },
    )
    | exec program ↦ handle_run program e
    | shell ↦ handle_run "/bin/sh" e
    | subsystem ↦ handle_run "/bin/sh" e
    | io stream content ↦ handle_io msg.timestamp stream content e
    | other_payload ↦ (none, e)
  ]

  -- The loop, up to the end of the messages or the first error.
  unfoldable pub encode_messages :
      List AuditMessage → Option String × Encoding → Option String × Encoding
  unfolding encode_message
  encode_messages msgs (some err, e) = (some err, e)
  encode_messages [] (none, e) = (none, e)
  encode_messages (msg ∷ msgs) (none, e) = encode_messages msgs (encode_message msg e)

  module _ (close : List Line → Option Message) where
    -- Closing the storage, at each of the three ways out; an error of that is logged.
    unfoldable pub close_storage : Encoding → Encoding
    unfolding wrap
    close_storage e = record e {
      closed = e.closed + 1;
      log = elim (close e.lines) [
        | none ↦ e.log
        | some err ↦
            write_log error
              (wrap err "AUDIT_STORAGE_CLOSE_FAILED" "failed to close audit log storage writer")
              e.log
      ];
    }

    -- The last way out.
    unfoldable pub finished : Encoding → Option String × Encoding
    unfolding close_storage
    finished e = (none, close_storage e)

    -- After a header that was written behind the loop.
    unfoldable pub after_header : Option String × Encoding → Option String × Encoding
    unfolding close_storage finished
    after_header (some err, e) = (some err, close_storage e)
    after_header (none, e) = finished e

    -- After the loop, which an error has ended or the end of the messages.
    unfoldable pub after_messages : Option String × Encoding → Option String × Encoding
    unfolding close_storage finished after_header send_header
    after_messages (some err, e) = (some err, close_storage e)
    after_messages (none, e) =
        if e.header_written then finished e else after_header (send_header e.header e)

    -- `Encode` on the messages that come before the channel is closed.
    unfoldable pub encode : List AuditMessage → Option String × Encoding
    unfolding encode_messages after_messages initial
    encode msgs = after_messages (encode_messages msgs (none, initial))
