-- ===== src/SshServer/Registry.antt =====
-- internal/sshserver/shutdownRegistry.go: the handlers that are told of a shutdown, by their keys.
use libcontainerssh.Common.{
  ◌≡◌, refl, ◌≢◌, ap, String, str_eq, eq_iff, if◌then◌else◌, List, [], ◌∷◌, Mem, arith, Bool-cases,
  inl, inr, ◌∙◌,
}
use mathlib.Core.List.{mem-cons_self, mem-cons_of_mem}

-- The keys of the map.
abbrev pub Registry : Type 0
Registry = List String

unfoldable pub register : String → Registry → Registry
register key [] = key ∷ []
register key (k ∷ callbacks) = if str_eq k key then k ∷ callbacks else k ∷ register key callbacks

unfoldable pub unregister : String → Registry → Registry
unregister key [] = []
unregister key (k ∷ callbacks) =
    let rest = unregister key callbacks in if str_eq k key then rest else k ∷ rest

pub unregister_of_not_mem :
    (key : String) (callbacks : Registry)
    → ¬ Mem key callbacks
    → unregister key callbacks ≡ callbacks
unfolding unregister
unregister_of_not_mem key [] h = refl
unregister_of_not_mem key (k ∷ callbacks) h =
    let other : k ≢ key = λ e. h (rw e mem-cons_self) in
    grind (arith, eq_iff, unregister_of_not_mem key callbacks (λ m. h (mem-cons_of_mem k m)))

-- What is registered under a new key and then taken away leaves no trace.
pub unregister-register :
    (key : String) (callbacks : Registry)
    → ¬ Mem key callbacks
    → unregister key (register key callbacks) ≡ callbacks
unfolding unregister register
unregister-register key [] h = grind (arith, eq_iff)
unregister-register key (k ∷ callbacks) h =
    let other : k ≢ key = λ e. h (rw e mem-cons_self) in
    grind (arith, eq_iff, unregister-register key callbacks (λ m. h (mem-cons_of_mem k m)))

unregister-register_of_ne :
    (key other : String) (callbacks : Registry)
    → other ≢ key
    → unregister key (register other callbacks) ≡ register other (unregister key callbacks)
unfolding unregister register
unregister-register_of_ne key other [] h = grind (arith, eq_iff)
unregister-register_of_ne key other (k ∷ callbacks) h =
    grind (arith, eq_iff, unregister-register_of_ne key other callbacks h)

unregister-register-again :
    (key : String) (callbacks : Registry)
    → unregister key (register key callbacks) ≡ unregister key callbacks
unfolding unregister register
unregister-register-again key [] = grind (arith, eq_iff)
unregister-register-again key (k ∷ callbacks) =
    grind (arith, eq_iff, unregister-register-again key callbacks)

-- Two keys that are new, which may be the same, leave no trace either.
pub unregister_both :
    (first second : String) (callbacks : Registry)
    → ¬ Mem first callbacks
    → ¬ Mem second callbacks
    → unregister second (unregister first (register second (register first callbacks))) ≡ callbacks
unregister_both first second callbacks h k = elim (Bool-cases (str_eq second first)) [
  | inl e ↦
      let same : second ≡ first = (eq_iff second first).0 e in
      rw same (
        ap (unregister first) (unregister-register-again first (register first callbacks))
        ∙ ap (unregister first) (unregister-register first callbacks h)
        ∙ unregister_of_not_mem first callbacks h)
  | inr e ↦
      let other : second ≢ first = grind (arith, eq_iff) in
      ap (unregister second)
        (unregister-register_of_ne first second (register first callbacks) other)
      ∙ ap (λ r. unregister second (register second r)) (unregister-register first callbacks h)
      ∙ unregister-register second callbacks k
]
