-- ===== src/Asciinema/Closing.antt =====
-- internal/auditlog/codec/asciinema/encoder.go: the storage of a recording is closed.
use libcontainerssh.Common.{
  ℕ, ◌≡◌, refl, ◌∙◌, String, Bool, true, false, if◌then◌else◌, List, [], ◌∷◌, Option, none, some,
  arith,
}
use libcontainerssh.Message.{Message, Log, error, wrap, write_log}
use libcontainerssh.Asciinema.Encoder.{
  Line, Stream, Payload, connect, io, AuditMessage, Encoding, initial, auth_password_successful,
  auth_pub_key_successful, handshake_successful, set_env, pty, exec, shell, subsystem,
  other_payload, write_line, send_header, send_frame, frame_error, header_sent, handle_run, output,
  handle_io, set_metadata, encode_message, encode_messages, close_storage, finished, after_header,
  after_messages, encode,
}

-- How often the storage was closed, and what was logged.
abbrev storage : Encoding → ℕ × Log
storage e = (e.closed, e.log)

module _ (lookup : String → String) (marshal : Line → Option String)
    (write : List Line → Line → Option String) where
  handle_run-untouched :
      (program : String) (e : Encoding)
      → storage (handle_run lookup marshal write program e).1 ≡ storage e
  unfolding handle_run send_header write_line header_sent
  handle_run-untouched program e = ground arith

  output-untouched :
      (timestamp : ℕ) (stream : Stream) (content : List ℕ) (r : Option String × Encoding)
      → storage (output lookup marshal write timestamp stream content r).1 ≡ storage r.1
  unfolding output send_frame write_line frame_error
  output-untouched timestamp stream content (none, e) = ground arith
  output-untouched timestamp stream content (some err, e) = refl

  encode_message-untouched :
      (timestamp : ℕ) (payload : Payload) (e : Encoding)
      → let msg : AuditMessage = record { timestamp = timestamp; payload = payload } in
        storage (encode_message lookup marshal write msg e).1 ≡ storage e
  unfolding encode_message handle_io set_metadata
  encode_message-untouched t (io stream content) e =
      output-untouched t stream content (handle_run lookup marshal write "/bin/sh" e)
      ∙ handle_run-untouched "/bin/sh" e
  encode_message-untouched t (exec program) e = handle_run-untouched program e
  encode_message-untouched t shell e = handle_run-untouched "/bin/sh" e
  encode_message-untouched t subsystem e = handle_run-untouched "/bin/sh" e
  encode_message-untouched t (connect a) e = refl
  encode_message-untouched t (auth_password_successful u) e = refl
  encode_message-untouched t (auth_pub_key_successful u) e = refl
  encode_message-untouched t (handshake_successful u) e = refl
  encode_message-untouched t (set_env n v) e = refl
  encode_message-untouched t (pty n c r) e = refl
  encode_message-untouched t other_payload e = refl

  encode_messages-untouched :
      (msgs : List AuditMessage) (r : Option String × Encoding)
      → storage (encode_messages lookup marshal write msgs r).1 ≡ storage r.1
  unfolding encode_messages
  encode_messages-untouched msgs (some err, e) = refl
  encode_messages-untouched [] (none, e) = refl
  encode_messages-untouched (msg ∷ msgs) (none, e) =
      encode_messages-untouched msgs (encode_message lookup marshal write msg e)
      ∙ encode_message-untouched msg.timestamp msg.payload e

  send_header-untouched :
      (e : Encoding) → storage (send_header lookup marshal write e.header e).1 ≡ storage e
  unfolding send_header write_line
  send_header-untouched e = ground arith

  -- The log after the storage was closed.
  abbrev pub closing_log : Option Message → Log
  closing_log none = []
  closing_log (some err) =
      write_log error
        (wrap err "AUDIT_STORAGE_CLOSE_FAILED" "failed to close audit log storage writer") []

  module _ (close : List Line → Option Message) where
    -- The storage is closed once, and nothing is logged but that.
    abbrev IsClosedOnce : Encoding → Type 0
    IsClosedOnce e = (e.closed ≡ 1) × (e.log ≡ closing_log (close e.lines))

    close_storage-IsClosedOnce :
        (e : Encoding)
        → storage e ≡ (0, [])
        → IsClosedOnce (close_storage lookup marshal write close e)
    unfolding close_storage
    close_storage-IsClosedOnce e h = ground arith

    after_header-IsClosedOnce :
        (r : Option String × Encoding)
        → storage r.1 ≡ (0, [])
        → IsClosedOnce (after_header lookup marshal write close r).1
    unfolding after_header finished
    after_header-IsClosedOnce (some err, e) h = close_storage-IsClosedOnce e h
    after_header-IsClosedOnce (none, e) h = close_storage-IsClosedOnce e h

    after_messages-IsClosedOnce :
        (r : Option String × Encoding)
        → storage r.1 ≡ (0, [])
        → IsClosedOnce (after_messages lookup marshal write close r).1
    unfolding after_messages finished
    after_messages-IsClosedOnce (some err, e) h = close_storage-IsClosedOnce e h
    after_messages-IsClosedOnce (none, e) h = go e.header_written
      where
        go :
            (written : Bool)
            → IsClosedOnce
                (if written
                  then finished lookup marshal write close e
                  else after_header lookup marshal write close
                      (send_header lookup marshal write e.header e)).1
        go true = close_storage-IsClosedOnce e h
        go false =
            after_header-IsClosedOnce (send_header lookup marshal write e.header e)
              (send_header-untouched e ∙ h)

    -- On each of its ways out, whatever the messages are and whatever fails, Encode has closed the
    -- storage exactly once, and it has logged nothing but an error of that, which the storage gave
    -- when it had every line.
    pub encode_closes :
        (msgs : List AuditMessage)
        → ((encode lookup marshal write close msgs).1.closed ≡ 1)
          × ((encode lookup marshal write close msgs).1.log
              ≡ closing_log (close (encode lookup marshal write close msgs).1.lines))
    unfolding encode initial
    encode_closes msgs =
        after_messages-IsClosedOnce (encode_messages lookup marshal write msgs (none, initial))
          (encode_messages-untouched msgs (none, initial))
