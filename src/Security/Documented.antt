-- ===== src/Security/Documented.antt =====
-- The policies as config/security.go documents them, in its comments on the settings, and where the
-- handlers keep to them.
use mathlib.Core.List.{not-mem-nil}
use libcontainerssh.Common.{ℕ, String, ◌≡◌, ◌↔◌, true, List, [], Mem, none, arith, subst, sym}
use libcontainerssh.Security.Config.{
  SecurityExecutionPolicy, unconfigured, enable, filter, disable, other, SecurityConfig,
}
use libcontainerssh.Security.Backend.{
  Backend, World, SessionRequest, on_close, on_shutdown, on_unsupported_channel_request,
  on_failed_decode_channel_request, on_env, on_pty, on_exec, on_shell, on_subsystem, on_signal,
  on_window, on_x11, forward,
}
use libcontainerssh.Security.Command.{
  force, after_set_env, set_env_and_force, run_subsystem, on_subsystem_request,
}
use libcontainerssh.Security.Session.{on_env_request, on_signal_request, session_handler}
use libcontainerssh.Security.Rules.{effective, get_policy-effective, Permits, IsPermitted}
use libcontainerssh.Security.Validate.{validate}
use libcontainerssh.Security.Decisions.{
  has_answer, refusal_code, IsRefused, session_handler-forward, session_handler-IsRefused,
}

-- The deny list is for every mode but `disable`, the allow list for `filter`.
abbrev pub DocumentedPermits : SecurityExecutionPolicy → List String → List String → String → Type 0
DocumentedPermits disable allow deny item = ⊥
DocumentedPermits filter allow deny item = Mem item allow × ¬ Mem item deny
DocumentedPermits _ allow deny item = ¬ Mem item deny

-- What the client may ask for: each kind of request has settings of its own. Where there are no
-- lists, they are empty.
abbrev pub IsDocumented : SecurityConfig → SessionRequest → Type 0
IsDocumented c (on_env id name value) =
    DocumentedPermits (effective c.env.mode c.default_mode) c.env.allow c.env.deny name
IsDocumented c (on_pty id term columns rows width height modes) =
    DocumentedPermits (effective c.tty.mode c.default_mode) [] [] ""
IsDocumented c (on_exec id program) =
    DocumentedPermits (effective c.command.mode c.default_mode) c.command.allow [] program
IsDocumented c (on_shell id) = DocumentedPermits (effective c.shell.mode c.default_mode) [] [] ""
IsDocumented c (on_subsystem id subsystem) =
    DocumentedPermits (effective c.subsystem.mode c.default_mode) c.subsystem.allow c.subsystem.deny
      subsystem
IsDocumented c (on_signal id signal) =
    DocumentedPermits (effective c.signal.mode c.default_mode) c.signal.allow c.signal.deny signal
IsDocumented c (on_x11 id single protocol cookie screen reverse) =
    DocumentedPermits (effective c.forwarding.x11_forwarding_mode c.default_mode) [] [] ""
IsDocumented c _ = Unit

-- The two lists do not both hold an item.
abbrev pub IsClear : List String → List String → String → Type 0
IsClear allow deny item = ¬ (Mem item allow × Mem item deny)

-- Where the code keeps to what is documented: what is asked for is not both allowed and denied, and
-- for a signal the shell has the mode of the signals.
abbrev pub KeepsTo : SecurityConfig → SessionRequest → Type 0
KeepsTo c (on_env id name value) = IsClear c.env.allow c.env.deny name
KeepsTo c (on_subsystem id subsystem) = IsClear c.subsystem.allow c.subsystem.deny subsystem
KeepsTo c (on_signal id signal) =
    (effective c.signal.mode c.default_mode ≡ effective c.shell.mode c.default_mode)
    × IsClear c.signal.allow c.signal.deny signal
KeepsTo c _ = Unit

Permits-iff :
    (mode : SecurityExecutionPolicy) (allow deny : List String) (item : String)
    → IsClear allow deny item
    → DocumentedPermits mode allow deny item ↔ Permits mode allow deny item
Permits-iff disable allow deny item clear = ((λ d. d), (λ p. p))
Permits-iff filter allow deny item clear = ((λ d. d.0), (λ m. (m, (λ d. clear (m, d)))))
Permits-iff enable allow deny item clear = ((λ d. d), (λ p. p))
Permits-iff unconfigured allow deny item clear = ((λ d. d), (λ p. p))
Permits-iff (other text) allow deny item clear = ((λ d. d), (λ p. p))

no_lists :
    (mode : SecurityExecutionPolicy) → DocumentedPermits mode [] [] "" ↔ Permits mode [] [] ""
no_lists mode = Permits-iff mode [] [] "" (λ p. not-mem-nil p.0)

IsDocumented-iff :
    (c : SecurityConfig) (request : SessionRequest)
    → KeepsTo c request
    → IsDocumented c request ↔ IsPermitted c request
IsDocumented-iff c (on_env id name value) k = Permits-iff _ c.env.allow c.env.deny name k
IsDocumented-iff c (on_pty id term columns rows width height modes) k = no_lists _
IsDocumented-iff c (on_exec id program) k =
    Permits-iff _ c.command.allow [] program (λ p. not-mem-nil p.1)
IsDocumented-iff c (on_shell id) k = no_lists _
IsDocumented-iff c (on_subsystem id subsystem) k =
    Permits-iff _ c.subsystem.allow c.subsystem.deny subsystem k
IsDocumented-iff c (on_signal id signal) k =
    subst
      (λ mode.
        DocumentedPermits mode c.signal.allow c.signal.deny signal
        ↔ Permits (effective c.shell.mode c.default_mode) c.signal.allow c.signal.deny signal)
      (sym k.0) (Permits-iff _ c.signal.allow c.signal.deny signal k.1)
IsDocumented-iff c (on_x11 id single protocol cookie screen reverse) k = no_lists _
IsDocumented-iff c on_close k = ((λ d. d), (λ p. p))
IsDocumented-iff c on_shutdown k = ((λ d. d), (λ p. p))
IsDocumented-iff c (on_unsupported_channel_request id type payload) k = ((λ d. d), (λ p. p))
IsDocumented-iff c (on_failed_decode_channel_request id type payload reason) k =
    ((λ d. d), (λ p. p))
IsDocumented-iff c (on_window id columns rows width height) k = ((λ d. d), (λ p. p))

module _ {S : Type 0} (config : SecurityConfig) (backend : Backend S) where
  -- Under a configuration that passes its check and forces no command, a request that has an answer
  -- and that the documentation of the settings permits gets exactly what the backend does and
  -- answers. What is asked for must not be both on the allow list and on the deny list, and for a
  -- signal the shell must have the mode of the signals: there the code departs from the
  -- documentation.
  pub permitted_is_served :
      (request : SessionRequest) (w : World S)
      → validate config ≡ none
      → config.force_command ≡ ""
      → has_answer request ≡ true
      → KeepsTo config request
      → IsDocumented config request
      → session_handler config backend request w ≡ forward backend request w
  permitted_is_served request w valid free h keeps d =
      session_handler-forward config backend request w valid free h
        ((IsDocumented-iff config request keeps).0 d)

  -- Under a configuration that passes its check, a request that the documentation of the settings
  -- does not permit is refused: the answer is an error with the code of the request's kind, which is
  -- logged at the debug level, and the backend is not called. This holds with a forced command too.
  -- What is asked for must not be both on the allow list and on the deny list, and for a signal the
  -- shell must have the mode of the signals.
  pub unpermitted-IsRefused :
      (request : SessionRequest) (w : World S)
      → validate config ≡ none
      → KeepsTo config request
      → ¬ IsDocumented config request
      → IsRefused (refusal_code request) w (session_handler config backend request w)
  unpermitted-IsRefused request w valid keeps n =
      session_handler-IsRefused config backend request w valid
        (λ p. n ((IsDocumented-iff config request keeps).1 p))

  -- In the mode filter the deny list has no part in what becomes of a request to set a variable, to
  -- start a subsystem or to send a signal, although it is documented for every mode but disable: with
  -- any two deny lists the handler gives the same answer and leaves the same state.
  pub deny_ignored_in_filter :
      (deny : List String) (id : ℕ) (item value : String) (w : World S)
      → effective config.env.mode config.default_mode ≡ filter
      → effective config.subsystem.mode config.default_mode ≡ filter
      → effective config.shell.mode config.default_mode ≡ filter
      → let changed = record config {
        env = record (config.env) { deny = deny };
        subsystem = record (config.subsystem) { deny = deny };
        signal = record (config.signal) { deny = deny };
      } in
        (session_handler changed backend (on_env id item value) w
          ≡ session_handler config backend (on_env id item value) w)
        × (session_handler changed backend (on_subsystem id item) w
            ≡ session_handler config backend (on_subsystem id item) w)
        × (session_handler changed backend (on_signal id item) w
            ≡ session_handler config backend (on_signal id item) w)
  unfolding session_handler on_env_request on_subsystem_request on_signal_request run_subsystem
      set_env_and_force force after_set_env
  deny_ignored_in_filter deny id item value w env subsystem signal =
      let changed = record config {
        env = record (config.env) { deny = deny };
        subsystem = record (config.subsystem) { deny = deny };
        signal = record (config.signal) { deny = deny };
      } in
      (
        ground (
          arith,
          get_policy-effective config config.env.mode,
          get_policy-effective changed config.env.mode,
        ),
        ground (
          arith,
          get_policy-effective config config.subsystem.mode,
          get_policy-effective changed config.subsystem.mode,
        ),
        ground (
          arith,
          get_policy-effective config config.shell.mode,
          get_policy-effective changed config.shell.mode,
        ),
      )
