-- ===== src/Common/Calls.antt =====
-- What comes of a call in the source.

use mathlib.Core.Path.{◌≡◌, ap}

-- A call returns, or panics.
pub data Call {ℓ} (A : Type ℓ) : Type ℓ where
  returns : A → Call A
  panics : Call A

pub returns_inj {ℓ} : {A : Type ℓ} {a b : A} → returns a ≡ returns b → a ≡ b
returns_inj {a = a} e = ap (λ c. elim c [ returns x ↦ x | panics ↦ a ]) e

-- What follows a call, unless it panics.
abbrev pub and_then {ℓ κ} : {A : Type ℓ} {B : Type κ} → Call A → (A → Call B) → Call B
and_then (returns a) next = next a
and_then panics next = panics
