-- ===== src/Security/Backend.antt =====
-- internal/security/handler_session.go: the interface that the security layer offers and that it
-- takes from the backend, and the two ways in which it answers a request.
use libcontainerssh.Common.{ℕ, String, Bool, List, Option, some}
use libcontainerssh.Message.{Message, Log, Level, write_log}

-- The methods of `sshserver.SessionChannelHandler` with their arguments. The first number is the
-- request's id; the handler of an X11 request's reverse connections is known by a number.
pub data SessionRequest : Type 0 where
  on_close : SessionRequest
  on_shutdown : SessionRequest
  on_unsupported_channel_request : ℕ → String → List ℕ → SessionRequest
  on_failed_decode_channel_request : ℕ → String → List ℕ → Message → SessionRequest
  on_env : ℕ → String → String → SessionRequest
  on_pty : ℕ → String → ℕ → ℕ → ℕ → ℕ → List ℕ → SessionRequest
  on_exec : ℕ → String → SessionRequest
  on_shell : ℕ → SessionRequest
  on_subsystem : ℕ → String → SessionRequest
  on_signal : ℕ → String → SessionRequest
  on_window : ℕ → ℕ → ℕ → ℕ → ℕ → SessionRequest
  on_x11 : ℕ → Bool → String → String → ℕ → ℕ → SessionRequest

-- The backend, which the security layer takes as an interface: its state, and what each method does
-- to it and answers. A method with no result answers `none`.
abbrev pub Backend : Type 0 → Type 0
Backend S = SessionRequest → S → Option Message × S

pub record World (S : Type 0) : Type 0 where
  pub backend : S
  pub log : Log

module _ {S : Type 0} where
  -- Log an error and answer with it.
  unfoldable pub reject : Level → Message → World S → Option Message × World S
  reject level m w = (some m, record w { log = write_log level m w.log })

  -- Answer with what the backend answers.
  unfoldable pub forward : Backend S → SessionRequest → World S → Option Message × World S
  forward backend request w =
      let (answer, s) = backend request w.backend in (answer, record w { backend = s })
