-- ===== src/Security/Rules.antt =====
-- The rules that the handlers of internal/security apply, apart from the handlers: which request of a
-- client is permitted, and which call of the backend is allowed. Documented.antt says how they differ
-- from the comments in config/security.go.
use mathlib.Core.List.{mem-cons, mem-cons_of_mem, not-mem-nil}
use mathlib.Core.Logic.Or
use mathlib.Core.HLevel.{⊥_prop}
use libcontainerssh.Common.{
  String, str_eq, eq_iff, ◌≡◌, sym, ◌≢◌, ◌⊎◌, inl, inr, true, false, Bool, Bool-cases, List, [],
  ◌∷◌, Mem, arith, none,
}
use libcontainerssh.Security.Config.{
  SecurityExecutionPolicy, unconfigured, enable, filter, disable, other, SecurityConfig,
}
use libcontainerssh.Security.Policy.{get_policy, contains}
use libcontainerssh.Security.Backend.{
  SessionRequest, on_env, on_pty, on_exec, on_shell, on_subsystem, on_signal, on_x11,
}
use libcontainerssh.Security.Command.{original_command}
use libcontainerssh.Security.Validate.{validate}

-- A mode that is not configured is the default's, and a default that is not configured is `enable`.
abbrev pub effective : SecurityExecutionPolicy → SecurityExecutionPolicy → SecurityExecutionPolicy
effective unconfigured unconfigured = enable
effective unconfigured default = default
effective mode default = mode

-- `disable` permits nothing, `filter` what the allow list holds, and the rest what the deny list
-- does not hold.
abbrev pub Permits : SecurityExecutionPolicy → List String → List String → String → Type 0
Permits disable allow deny item = ⊥
Permits filter allow deny item = Mem item allow
Permits _ allow deny item = ¬ Mem item deny

-- What the client may ask for, as the handlers decide it. A request that has no lists is permitted by an empty allow list and an
-- empty deny list. A signal goes by the mode of the shell.
abbrev pub IsPermitted : SecurityConfig → SessionRequest → Type 0
IsPermitted c (on_env id name value) =
    Permits (effective c.env.mode c.default_mode) c.env.allow c.env.deny name
IsPermitted c (on_pty id term columns rows width height modes) =
    Permits (effective c.tty.mode c.default_mode) [] [] ""
IsPermitted c (on_exec id program) =
    Permits (effective c.command.mode c.default_mode) c.command.allow [] program
IsPermitted c (on_shell id) = Permits (effective c.shell.mode c.default_mode) [] [] ""
IsPermitted c (on_subsystem id subsystem) =
    Permits (effective c.subsystem.mode c.default_mode) c.subsystem.allow c.subsystem.deny subsystem
IsPermitted c (on_signal id signal) =
    Permits (effective c.shell.mode c.default_mode) c.signal.allow c.signal.deny signal
IsPermitted c (on_x11 id single protocol cookie screen reverse) =
    Permits (effective c.forwarding.x11_forwarding_mode c.default_mode) [] [] ""
IsPermitted c _ = Unit

-- What may reach the backend: with a forced command there is no shell, no subsystem and no program
-- but that one, and the client's command comes as a variable.
abbrev pub IsAllowed : SecurityConfig → SessionRequest → Type 0
IsAllowed c (on_env id name value) =
    IsPermitted c (on_env id name value) ⊎ ((c.force_command ≢ "") × (name ≡ original_command))
IsAllowed c (on_exec id program) =
    ((c.force_command ≡ "") × IsPermitted c (on_exec id program))
    ⊎ ((c.force_command ≢ "") × (program ≡ c.force_command))
IsAllowed c (on_shell id) = (c.force_command ≡ "") × IsPermitted c (on_shell id)
IsAllowed c (on_subsystem id subsystem) =
    (c.force_command ≡ "") × IsPermitted c (on_subsystem id subsystem)
IsAllowed c request = IsPermitted c request

pub get_policy-effective :
    (c : SecurityConfig) (mode : SecurityExecutionPolicy)
    → get_policy c mode ≡ effective mode c.default_mode
unfolding get_policy
get_policy-effective c mode = ground arith

-- The loop finds exactly the members.
pub contains-Mem :
    (items : List String) (item : String) → contains items item ≡ true → Mem item items
unfolding contains
contains-Mem [] item h = cc
contains-Mem (x ∷ items) item h = elim (Bool-cases (str_eq x item)) [
  | inl e ↦ mem-cons.1 (Or.inl (sym ((eq_iff x item).0 e)))
  | inr e ↦ mem-cons_of_mem x (contains-Mem items item (rw e at h))
]

pub contains-ne-Mem :
    (items : List String) (item : String) → contains items item ≡ false → ¬ Mem item items
unfolding contains
contains-ne-Mem [] item h m = not-mem-nil m
contains-ne-Mem (x ∷ items) item h m = elim (Bool-cases (str_eq x item)) [
  | inl e ↦ cc (rw e at h)
  | inr e ↦
      Or.elim ⊥_prop (mem-cons.0 m) (λ q. cc (e, (eq_iff x item).1 (sym q)))
        (contains-ne-Mem items item (rw e at h))
]

pub not-mem-nil_text : (item : String) → ¬ Mem item []
not-mem-nil_text item m = not-mem-nil m

abbrev pub is_other : SecurityExecutionPolicy → Bool
is_other (other text) = true
is_other _ = false

-- A checked configuration has one of the four modes for subsystems.
pub validate-subsystem :
    (c : SecurityConfig)
    → validate c ≡ none
    → is_other (effective c.subsystem.mode c.default_mode) ≡ false
unfolding validate
validate-subsystem c h = ground arith
