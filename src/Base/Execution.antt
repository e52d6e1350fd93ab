-- ===== src/Base/Execution.antt =====
-- The outcome of C code that may read or write through NULL, break an `assert`, or loop on.

pub data Outcome {ℓ} (A : Type ℓ) : Type ℓ where
  ok : A → Outcome A
  fault : Outcome A
  out_of_fuel : Outcome A

-- Runs `f` on the result, if there is one.
abbrev pub and_then {ℓ κ} : {A : Type ℓ} {B : Type κ} → Outcome A → (A → Outcome B) → Outcome B
and_then (ok a) f = f a
and_then fault f = fault
and_then out_of_fuel f = out_of_fuel
