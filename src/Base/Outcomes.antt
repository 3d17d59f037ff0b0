-- ===== src/Base/Outcomes.antt =====
-- What a run of C code comes to: a value, or the fault that ends it.
use mathlib.Core.Path.{◌≡◌}
use mathlib.Core.Bool.{Bool, true, false}

-- `exits` is `BUG_ON` or a call of `exit`; the others are uses that C leaves undefined.
pub data Fault : Type 0 where
  exits null_pointer out_of_bounds undefined : Fault

pub data Outcome {ℓ} (A : Type ℓ) : Type ℓ where
  ok : A → Outcome A
  fail : Fault → Outcome A

-- Goes on if the test holds.
abbrev pub require : Bool → Fault → Outcome (Unit {0})
require false fault = fail fault
require true fault = ok tt

infixl 5 ◌>>=◌
abbrev pub ◌>>=◌ {ℓ κ} :
    {A : Type ℓ} {B : Type κ} (run : Outcome A) (next : A → Outcome B) → Outcome B
fail fault >>= next = fail fault
ok value >>= next = next value

-- A test in front of a run.
infixl 5 ◌>>◌
abbrev pub ◌>>◌ {κ} : {B : Type κ} (test : Outcome (Unit {0})) (next : Outcome B) → Outcome B
test >> next = test >>= λ passed. next

-- Two results of one run are the same.
pub same_result {ℓ} : {A : Type ℓ} {r : Outcome A} {a b : A} → r ≡ ok a → r ≡ ok b → a ≡ b
same_result h k = cc
