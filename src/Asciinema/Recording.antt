-- ===== src/Asciinema/Recording.antt =====
-- internal/auditlog/codec/asciinema/encoder.go: what a recording consists of.
use Prim.Native.Nat.{◌/◌}
use mathlib.Core.List.{append_assoc, append-nil}
use libcontainerssh.Common.{
  ℕ, ◌≡◌, refl, ◌∙◌, ap, sym, subst, ◌⊎◌, inl, inr, if◌then◌else◌, String, true, false, List, [],
  ◌∷◌, ◌++◌, Option, none, some, arith,
}
use libcontainerssh.Message.{Message}
use libcontainerssh.Asciinema.Encoder.{
  Header, Frame, Line, header_line, frame_line, Stream, stdin, stdout, stderr, Payload, connect, io,
  AuditMessage, Encoding, initial, elapsed, is_output, auth_password_successful,
  auth_pub_key_successful, handshake_successful, set_env, pty, exec, shell, subsystem,
  other_payload, write_line, send_header, send_frame, frame_error, header_sent, handle_run, output,
  handle_io, set_metadata, encode_message, encode_messages, close_storage, finished, after_header,
  after_messages, encode,
}

-- The frame of a message, with the start of the connection as it was before.
abbrev pub frames_of : ℕ → AuditMessage → List Line
frames_of start msg = elim msg.payload [
  | io stream content ↦
      if is_output stream
      then frame_line (record { time = elapsed msg.timestamp start; content = content }) ∷ []
      else []
  | _ ↦ []
]

-- The start of the connection after a message.
abbrev pub start_after : ℕ → AuditMessage → ℕ
start_after start msg = elim msg.payload [ connect remote_addr ↦ msg.timestamp | _ ↦ start ]

-- The frames of all messages.
abbrev pub frames : ℕ → List AuditMessage → List Line
frames start [] = []
frames start (msg ∷ msgs) = frames_of start msg ++ frames (start_after start msg) msgs

-- The header is written, and these frames after it; or neither is.
abbrev Wrote : List Line → Encoding → Type 0
Wrote fs e =
    ((e.header_written ≡ true) × ((h : Header) × (e.lines ≡ header_line h ∷ fs)))
    ⊎ ((e.header_written ≡ false) × (e.lines ≡ []) × (fs ≡ []))

-- The same of a result, if it is no error, with the start of the connection.
abbrev Writes : List Line → ℕ → Option String × Encoding → Type 0
Writes fs start (failed, e) = failed ≡ none → Wrote fs e × (e.start_time ≡ start)

module _ (lookup : String → String) (marshal : Line → Option String)
    (write : List Line → Line → Option String) where
  send_header-lines :
      (header : Header) (e : Encoding)
      → (send_header lookup marshal write header e).0 ≡ none
      → (send_header lookup marshal write header e).1
        ≡ record e { lines = e.lines ++ (header_line header ∷ []) }
  unfolding send_header write_line
  send_header-lines header e fine = ground arith

  handle_run-Writes :
      (program : String) (fs : List Line) (e : Encoding)
      → Wrote fs e
      → (handle_run lookup marshal write program e).0 ≡ none
      → ((h : Header) × ((handle_run lookup marshal write program e).1.lines ≡ header_line h ∷ fs))
        × ((handle_run lookup marshal write program e).1.header_written ≡ true)
        × ((handle_run lookup marshal write program e).1.start_time ≡ e.start_time)
  unfolding handle_run send_header write_line header_sent
  handle_run-Writes program fs e (inl (written, (h, is))) fine =
      ((h, ground arith), ground arith, ground arith)
  handle_run-Writes program fs e (inr (unwritten, empty, nothing)) fine =
      ((record e.header { command = program }, ground arith), ground arith, ground arith)

  frame_error-fine :
      (r : Option String × Encoding)
      → (frame_error lookup marshal write r).0 ≡ none
      → frame_error lookup marshal write r ≡ r
  unfolding frame_error
  frame_error-fine (none, e) fine = refl
  frame_error-fine (some err, e) fine = cc

  send_frame-lines :
      (frame : Frame) (e : Encoding)
      → (send_frame lookup marshal write frame e).0 ≡ none
      → (send_frame lookup marshal write frame e).1
        ≡ record e { lines = e.lines ++ (frame_line frame ∷ []) }
  unfolding send_frame write_line frame_error
  send_frame-lines frame e fine = ground arith

  -- A result that is no error has the header written, and these frames after it.
  abbrev Begun : List Line → ℕ → Option String × Encoding → Type 0
  Begun fs start (failed, e) =
      failed ≡ none
      → ((h : Header) × (e.lines ≡ header_line h ∷ fs))
        × (e.header_written ≡ true)
        × (e.start_time ≡ start)

  send_frame-Writes :
      (frame : Frame) (fs : List Line) (e : Encoding)
      → Begun fs e.start_time (none, e)
      → Writes
          (fs ++ (frame_line frame ∷ []))
          e.start_time
          (send_frame lookup marshal write frame e)
  send_frame-Writes frame fs e begun fine =
      let ((h, is), written, same) = begun refl in
      subst (λ x. Wrote (fs ++ (frame_line frame ∷ [])) x × (x.start_time ≡ e.start_time))
        (sym (send_frame-lines frame e fine))
        (inl (written, (h, ap (λ ls. ls ++ (frame_line frame ∷ [])) is)), refl)

  -- The same frame where the start of the connection is known by another name.
  emit-Writes :
      (timestamp start : ℕ) (content : List ℕ) (fs : List Line) (e : Encoding)
      → Begun fs start (none, e)
      → let frame : ℕ → Frame = λ t. record { time = elapsed timestamp t; content = content } in
        Writes
          (fs ++ (frame_line (frame start) ∷ []))
          start
          (send_frame lookup marshal write (frame e.start_time) e)
  emit-Writes timestamp start content fs e begun =
      let frame : ℕ → Frame = λ t. record { time = elapsed timestamp t; content = content } in
      let (lines, written, same) = begun refl in
      subst
        (λ t.
          Writes (fs ++ (frame_line (frame t) ∷ [])) t
            (send_frame lookup marshal write (frame e.start_time) e))
        same (send_frame-Writes (frame e.start_time) fs e (λ fine. (lines, written, refl)))

  output-Writes :
      (timestamp start : ℕ) (stream : Stream) (content : List ℕ) (fs : List Line)
      (r : Option String × Encoding)
      → Begun fs start r
      → Writes
          (fs ++ frames_of start (record { timestamp = timestamp; payload = io stream content }))
          start
          (output lookup marshal write timestamp stream content r)
  unfolding output
  output-Writes timestamp start stream content fs (some err, e) begun fine = cc
  output-Writes timestamp start stdin content fs (none, e) begun fine =
      let ((h, is), written, same) = begun refl in
      (inl (written, (h, is ∙ ap (◌∷◌ (header_line h)) (sym (append-nil fs)))), same)
  output-Writes timestamp start stdout content fs (none, e) begun fine =
      emit-Writes timestamp start content fs e begun fine
  output-Writes timestamp start stderr content fs (none, e) begun fine =
      emit-Writes timestamp start content fs e begun fine

  -- Nothing is added to the frames.
  unchanged : (fs : List Line) (e : Encoding) → Wrote fs e → Wrote (fs ++ []) e
  unchanged fs e wrote = subst (λ gs. Wrote gs e) (sym (append-nil fs)) wrote

  run-Writes :
      (program : String) (fs : List Line) (e : Encoding)
      → Wrote fs e
      → Writes (fs ++ []) e.start_time (handle_run lookup marshal write program e)
  run-Writes program fs e wrote fine =
      let (lines, written, same) = handle_run-Writes program fs e wrote fine in
      (unchanged fs (handle_run lookup marshal write program e).1 (inl (written, lines)), same)

  encode_message-Writes :
      (timestamp : ℕ) (payload : Payload) (fs : List Line) (e : Encoding)
      → Wrote fs e
      → let msg : AuditMessage = record { timestamp = timestamp; payload = payload } in
        Writes
          (fs ++ frames_of e.start_time msg)
          (start_after e.start_time msg)
          (encode_message lookup marshal write msg e)
  unfolding encode_message handle_io set_metadata
  encode_message-Writes t (io stream content) fs e wrote fine =
      output-Writes t e.start_time stream content fs (handle_run lookup marshal write "/bin/sh" e)
        (handle_run-Writes "/bin/sh" fs e wrote) fine
  encode_message-Writes t (exec program) fs e wrote fine = run-Writes program fs e wrote fine
  encode_message-Writes t shell fs e wrote fine = run-Writes "/bin/sh" fs e wrote fine
  encode_message-Writes t subsystem fs e wrote fine = run-Writes "/bin/sh" fs e wrote fine
  encode_message-Writes t (connect a) fs e wrote fine = (unchanged fs e wrote, refl)
  encode_message-Writes t (auth_password_successful u) fs e wrote fine =
      (unchanged fs e wrote, refl)
  encode_message-Writes t (auth_pub_key_successful u) fs e wrote fine = (unchanged fs e wrote, refl)
  encode_message-Writes t (handshake_successful u) fs e wrote fine = (unchanged fs e wrote, refl)
  encode_message-Writes t (set_env n v) fs e wrote fine = (unchanged fs e wrote, refl)
  encode_message-Writes t (pty n c r) fs e wrote fine = (unchanged fs e wrote, refl)
  encode_message-Writes t other_payload fs e wrote fine = (unchanged fs e wrote, refl)

  encode_messages-Wrote :
      (msgs : List AuditMessage) (fs : List Line) (start : ℕ) (r : Option String × Encoding)
      → Writes fs start r
      → (encode_messages lookup marshal write msgs r).0 ≡ none
      → Wrote (fs ++ frames start msgs) (encode_messages lookup marshal write msgs r).1
  unfolding encode_messages
  encode_messages-Wrote msgs fs start (some err, e) writes fine = cc
  encode_messages-Wrote [] fs start (none, e) writes fine = unchanged fs e (writes refl).0
  encode_messages-Wrote (msg ∷ msgs) fs start (none, e) writes fine =
      let (wrote, same) = writes refl in
      let one = encode_message-Writes msg.timestamp msg.payload fs e wrote in
      subst
        (λ gs.
          Wrote gs
            (encode_messages lookup marshal write msgs
              (encode_message lookup marshal write msg e)).1)
        (append_assoc fs (frames_of start msg) (frames (start_after start msg) msgs))
        (encode_messages-Wrote msgs (fs ++ frames_of start msg) (start_after start msg)
          (encode_message lookup marshal write msg e)
          (subst
            (λ t.
              Writes (fs ++ frames_of t msg) (start_after t msg)
                (encode_message lookup marshal write msg e))
            same one)
          fine)

  module _ (close : List Line → Option Message) where
    after_messages-lines :
        (fs : List Line) (r : Option String × Encoding)
        → (r.0 ≡ none → Wrote fs r.1)
        → (after_messages lookup marshal write close r).0 ≡ none
        → (h : Header) × ((after_messages lookup marshal write close r).1.lines
            ≡ header_line h ∷ fs)
    unfolding after_messages after_header finished close_storage send_header write_line
    after_messages-lines fs (some err, e) wrote fine = cc
    after_messages-lines fs (none, e) wrote fine = elim (wrote refl) [
      | inl w ↦ (w.1.0, ground arith)
      | inr w ↦ (e.header, ground arith)
    ]

    -- A recording that comes to its end without an error is a header and then one frame for each
    -- piece of output, in the order of the messages, with the time since the last message that the
    -- connection began; there is a header even if there was no message.
    pub encode_records :
        (msgs : List AuditMessage)
        → (encode lookup marshal write close msgs).0 ≡ none
        → (h : Header) × ((encode lookup marshal write close msgs).1.lines
            ≡ header_line h ∷ frames 0 msgs)
    unfolding encode initial
    encode_records msgs fine =
        after_messages-lines (frames 0 msgs)
          (encode_messages lookup marshal write msgs (none, initial))
          (encode_messages-Wrote msgs [] 0 (none, initial)
            (λ none_yet. (inr (refl, refl, refl), refl)))
          fine

  -- Of the metadata that a connection and then a login hand to the storage, the first have the country
  -- of the empty address, whatever the client's address is, and the second that of the client.
  pub encode_messages-metadata :
      (opened logged_in : ℕ) (remote_addr user : String)
      → let told =
          (encode_messages lookup marshal write
            (record { timestamp = opened; payload = connect remote_addr }
              ∷ record { timestamp = logged_in; payload = handshake_successful user }
              ∷ [])
            (none, initial)).1.metadata in
        let begun = opened / 1000000000 in
        told
        ≡ record {
          start_time = begun;
          source_ip = remote_addr;
          country = lookup "";
          username = none;
        }
          ∷ record {
            start_time = begun;
            source_ip = remote_addr;
            country = lookup remote_addr;
            username = some user;
          }
          ∷ []
  unfolding encode_messages encode_message set_metadata initial
  encode_messages-metadata opened logged_in remote_addr user = refl
