-- ===== src/Exec.antt =====
-- Methods that change an object's state and may throw. What was written before a throw stays
-- written, so the state comes back beside the exception too. A `fault` is undefined behaviour in
-- the source (a null pointer read, an index out of range) or a failed `assert`; `endless` is a loop
-- that has used the rounds that it was given.
pub mod Keeps
pub mod Returns
use ava_hotstuff.Prelude.{◌≡◌, refl, Bool, true, false, Option, none, some}

-- The exceptions that the modelled code throws.
pub data Error : Type 0 where
  block_not_delivered qc_not_fetched safety_breached empty_parents not_above_vheight : Error
  cert_mismatch : Error

pub data Outcome (S A : Type 0) : Type 0 where
  returns : A → S → Outcome S A
  throws : Error → S → Outcome S A
  fault : Outcome S A
  endless : Outcome S A

abbrev pub Exec : Type 0 → Type 0 → Type 0
Exec S A = S → Outcome S A

module _ {S A : Type 0} where
  unfoldable pub pure : A → Exec S A
  pure a s = returns a s

  unfoldable pub throw : Error → Exec S A
  throw e s = throws e s

  unfoldable pub crash : Exec S A
  crash s = fault

  unfoldable pub stuck : Exec S A
  stuck s = endless

  unfoldable pub gets : (S → A) → Exec S A
  gets f s = returns (f s) s

  -- Changes the state by a function that has a result.
  unfoldable pub run : (S → A × S) → Exec S A
  run f s = let (a, s') = f s in returns a s'

module _ {S : Type 0} where
  unfoldable pub modify : (S → S) → Exec S (Unit {0})
  modify f s = returns tt (f s)

module _ {S A B : Type 0} where
  abbrev pub continue : Outcome S A → (A → Exec S B) → Outcome S B
  continue (returns a s) k = k a s
  continue (throws e s) k = throws e s
  continue fault k = fault
  continue endless k = endless

  infixl 5 ◌>>=◌ ◌>>◌
  unfoldable pub ◌>>=◌ : Exec S A → (A → Exec S B) → Exec S B
  unfolding pure throw crash stuck gets run modify
  ◌>>=◌ m k s = continue (m s) k

  abbrev pub ◌>>◌ : Exec S A → Exec S B → Exec S B
  m >> n = m >>= λ _. n

-- The state that an outcome leaves.
abbrev pub left_by : {S A : Type 0} → Outcome S A → Option S
left_by (returns a s) = some s
left_by (throws e s) = some s
left_by fault = none
left_by endless = none

-- An action on a part of the state.
module _ {S N : Type 0} (get : S → N) (put : N → S → S) where
  abbrev pub zoomed : {A : Type 0} → S → Outcome N A → Outcome S A
  zoomed s (returns a n) = returns a (put n s)
  zoomed s (throws e n) = throws e (put n s)
  zoomed s fault = fault
  zoomed s endless = endless

  unfoldable pub zoom : {A : Type 0} → Exec N A → Exec S A
  zoom m s = zoomed s (m (get s))
