-- ===== src/Base/Bits.antt =====
-- Masks with ones at the low end.
use Prim.Native.Nat.{
  ℕ, zero, suc, ◌+◌, ◌-◌, ◌*◌, ◌/◌, ◌%◌, ◌^◌, ◌≤◌, ◌<◌, min, bit_and, digits, bit_and-bitwise,
}
use mathlib.Core.Path.{◌≡◌, sym, ap, ◌∙◌}
use native.Mathlib.Nat.{div-div-eq-div-mul, div-add-mod, mul_comm, mod-eq_of_lt}
use native.Mathlib.Omega.{arith}

-- `k` ones, and the power of two above them
ones : ℕ → ℕ
ones zero = 0
ones (suc k) = ones k * 2 + 1

pow2 : ℕ → ℕ
pow2 zero = 1
pow2 (suc k) = pow2 k * 2

pow2_pos : (k : ℕ) → 0 < pow2 k
unfolding pow2
pow2_pos zero = omega arith
pow2_pos (suc k) = omega (arith, pow2_pos k)

mod-double : (a m : ℕ) → 0 < m → a % (m * 2) ≡ (a / 2 % m) * 2 + a % 2
mod-double a m h = omega (
  arith,
  div-div-eq-div-mul a 2 m,
  mul_comm 2 m,
  ap (λ (t : ℕ). m * (a / t)) (mul_comm 2 m),
  ap (λ (t : ℕ). m * t) (div-div-eq-div-mul a 2 m),
  div-add-mod a (m * 2),
  div-add-mod (a / 2) m,
)

-- Digit by digit, with fuel for all digits of `a`.
mask_digits : (k fuel a : ℕ) → a ≤ fuel → digits (λ t. zero) min fuel a (ones k) ≡ a % pow2 k
unfolding ones pow2
mask_digits k zero zero h = sym (mod-eq_of_lt {n = 0} {m = pow2 k} (pow2_pos k))
mask_digits k (suc fuel) zero h = sym (mod-eq_of_lt {n = 0} {m = pow2 k} (pow2_pos k))
mask_digits k zero (suc a) h = absurd (omega arith)
mask_digits zero (suc fuel) (suc a) h =
    omega (arith, mask_digits zero fuel (suc a / 2) (omega arith))
mask_digits (suc k) (suc fuel) (suc a) h =
    let halved : (ones k * 2 + 1) / 2 ≡ ones k = omega arith in
    omega (
      arith,
      ap (digits (λ t. zero) min fuel (suc a / 2)) halved,
      mask_digits k fuel (suc a / 2) (omega arith),
      mod-double (suc a) (pow2 k) (pow2_pos k),
    )

bit_and-ones : (k a : ℕ) → bit_and a (ones k) ≡ a % pow2 k
bit_and-ones k a = bit_and-bitwise a (ones k) ∙ mask_digits k a a (omega arith)

-- A mask of 22 ones keeps the remainder by 2 ^ 22.
pub bit_and-mod_22 : (a : ℕ) → bit_and a (2 ^ 22 - 1) ≡ a % 2 ^ 22
unfolding ones pow2
bit_and-mod_22 a = bit_and-ones 22 a
