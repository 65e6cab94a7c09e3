-- ===== src/Security/Sessions.antt =====
-- internal/security: the session channels of one connection, opened by the connection's handler and
-- served, until they are closed, by the session handlers.
use libcontainerssh.Common.{ℕ, ◌+◌, ◌^◌, ◌≤◌, ◌<◌, ◌≡◌, pos, List, [], ◌∷◌, arith}
use libcontainerssh.Message.{err_too_many_sessions}
use libcontainerssh.Security.Config.{SecurityConfig}
use libcontainerssh.Security.Backend.{Backend, SessionRequest}
use libcontainerssh.Security.Session.{session_handler}
use libcontainerssh.Security.Connection.{
  ConnectionBackend, ConnectionRequest, Connection, Response, on_session_channel, channel, refused,
  open_session, connection_handler, open_tcp_forward, request_tcp_reverse_forward,
  open_stream_local, request_stream_local,
}

-- What happens on a connection: a request to it, or one on a session channel that is open.
pub data Event : Type 0 where
  to_connection : ConnectionRequest → Event
  to_session : ℕ → SessionRequest → Event

abbrev pub granted : ConnectionRequest → Response → ℕ
granted (on_session_channel id extra) (channel opened) = 1
granted _ _ = 0

module _ {S : Type 0} (config : SecurityConfig) (backend : ConnectionBackend S)
    (sessions : ℕ → Backend S) where
  -- A session handler works on the backend's channel and the logger that it shares with the
  -- connection; it holds the connection as a field, and does nothing with it.
  on_session : ℕ → SessionRequest → Connection S → Connection S
  on_session n request c =
      let w =
        (session_handler config (sessions n) request
          (record { backend = c.backend; log = c.log })).1 in
      record c { backend = w.backend; log = w.log }

  unfoldable pub run : List Event → Connection S → Connection S
  unfolding on_session
  run [] c = c
  run (to_connection request ∷ events) c =
      run events (connection_handler config backend request c).1
  run (to_session n request ∷ events) c = run events (on_session n request c)

  -- How many requests for a session channel are granted along the way.
  unfoldable pub grants : List Event → Connection S → ℕ
  unfolding on_session
  grants [] c = 0
  grants (to_connection request ∷ events) c =
      let (answer, c') = connection_handler config backend request c in
      granted request answer + grants events c'
  grants (to_session n request ∷ events) c = grants events (on_session n request c)

  -- A request raises the count by one where it is granted, if that keeps it within the limit.
  connection_handler-count :
      (max_sessions : ℕ) (request : ConnectionRequest) (c : Connection S)
      → config.max_sessions ≡ pos max_sessions
      → max_sessions < 2 ^ 64
      → c.session_count ≤ max_sessions
      → let (answer, c') = connection_handler config backend request c in
        (c'.session_count ≡ c.session_count + granted request answer)
        × (c'.session_count ≤ max_sessions)
  unfolding connection_handler open_session open_tcp_forward request_tcp_reverse_forward
      open_stream_local request_stream_local
  connection_handler-count m (on_session_channel id extra) c limit small h = ground arith
  connection_handler-count m _ c limit small h = ground arith

  -- Under a limit of `max_sessions`, the sessions that are granted over any sequence of events, and
  -- those counted before it, are never more than the limit. The limit is below 2 ^ 64, and the count
  -- does not exceed it at first.
  pub grants-le :
      (max_sessions : ℕ) (events : List Event) (c : Connection S)
      → config.max_sessions ≡ pos max_sessions
      → max_sessions < 2 ^ 64
      → c.session_count ≤ max_sessions
      → c.session_count + grants events c ≤ max_sessions
  unfolding grants on_session
  grants-le m [] c limit small h = omega arith
  grants-le m (to_connection request ∷ events) c limit small h =
      let (counted, within) = connection_handler-count m request c limit small h in
      omega (
        arith,
        grants-le m events (connection_handler config backend request c).1 limit small within,
      )
  grants-le m (to_session n request ∷ events) c limit small h =
      grants-le m events (on_session n request c) limit small h

  run-full :
      (max_sessions : ℕ) (events : List Event) (c : Connection S)
      → config.max_sessions ≡ pos max_sessions
      → max_sessions < 2 ^ 64
      → c.session_count ≡ max_sessions
      → (run events c).session_count ≡ max_sessions
  unfolding run on_session
  run-full m [] c limit small h = h
  run-full m (to_connection request ∷ events) c limit small h =
      let (counted, within) = connection_handler-count m request c limit small (omega arith) in
      run-full m events (connection_handler config backend request c).1 limit small (omega arith)
  run-full m (to_session n request ∷ events) c limit small h =
      run-full m events (on_session n request c) limit small h

  -- Once the count has reached the limit, every later request for a session channel is refused with
  -- `ErrTooManySessions` and does not reach the backend, whatever happens on the connection in
  -- between: closing a session channel does not make room for another.
  pub open_session-full :
      (max_sessions : ℕ) (events : List Event) (c : Connection S) (id : ℕ) (extra : List ℕ)
      → config.max_sessions ≡ pos max_sessions
      → max_sessions < 2 ^ 64
      → c.session_count ≡ max_sessions
      → let (answer, c') =
          connection_handler config backend (on_session_channel id extra) (run events c) in
        (answer ≡ refused (err_too_many_sessions [])) × (c'.backend ≡ (run events c).backend)
  unfolding connection_handler open_session
  open_session-full m events c id extra limit small h =
      ground (arith, run-full m events c limit small h)
