-- ===== src/Prelude/Outcome.antt =====
-- The outcome of a run of the program.

-- `null_deref` is a call through a null pointer. `out_of_fuel` has no counterpart in the program:
-- a loop of the model was given too few rounds.
pub data Run {ℓ} (A : Type ℓ) : Type ℓ where
  ok : A → Run A
  null_deref out_of_fuel : Run A

infixl 5 ◌>>=◌
abbrev pub ◌>>=◌ {ℓ κ} : {A : Type ℓ} {B : Type κ} → Run A → (A → Run B) → Run B
ok a >>= f = f a
null_deref >>= f = null_deref
out_of_fuel >>= f = out_of_fuel
