-- ===== src/Base/Runs.antt =====
-- What holds of the value of a run, if it has one.
use mathlib.Core.Path.{◌≡◌}
use mathlib.Core.Bool.{Bool, true, false}
use omnixtend_c.Base.Tests.{if◌then◌else◌}
use omnixtend_c.Base.Outcomes.{Outcome, ok, fail, Fault, require, ◌>>=◌, ◌>>◌}

abbrev pub Ensures {ℓ κ} : {A : Type ℓ} → (A → Type κ) → Outcome A → Type κ
Ensures P (ok a) = P a
Ensures P (fail fault) = Unit

module _ {ℓ κ μ ν} {A : Type ℓ} {B : Type κ} (P : A → Type μ) (Q : B → Type ν) where
  pub Ensures-bind :
      (m : Outcome A) (f : A → Outcome B)
      → Ensures P m
      → ((a : A) → P a → Ensures Q (f a))
      → Ensures Q (m >>= f)
  Ensures-bind (ok a) f h k = k a h
  Ensures-bind (fail fault) f h k = tt

module _ {ℓ κ ν} {A : Type ℓ} {B : Type κ} (Q : B → Type ν) where
  -- A run of which nothing needs to be known.
  pub Ensures-skip :
      (m : Outcome A) (f : A → Outcome B) → ((a : A) → Ensures Q (f a)) → Ensures Q (m >>= f)
  Ensures-skip (ok a) f k = k a
  Ensures-skip (fail fault) f k = tt

module _ {κ ν} {B : Type κ} (Q : B → Type ν) where
  pub Ensures-require :
      (b : Bool) (fault : Fault) (m : Outcome B) → Ensures Q m → Ensures Q (require b fault >> m)
  Ensures-require true fault m h = h
  Ensures-require false fault m h = tt

  pub Ensures-if :
      (b : Bool) (m n : Outcome B) → Ensures Q m → Ensures Q n → Ensures Q (if b then m else n)
  Ensures-if true m n h k = h
  Ensures-if false m n h k = k

  pub Ensures-elim :
      (b : Bool) (m n : Outcome B)
      → Ensures Q m
      → Ensures Q n
      → Ensures Q (elim b [ true ↦ m | false ↦ n ])
  Ensures-elim true m n h k = h
  Ensures-elim false m n h k = k

  pub Ensures-ok : {m : Outcome B} {b : B} → Ensures Q m → m ≡ ok b → Q b
  Ensures-ok h e = rw e at h
