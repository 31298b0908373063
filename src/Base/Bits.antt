-- ===== src/Base/Bits.antt =====
-- `x & (2 ^ k - 1)` keeps the `k` lowest bits of `x`. The tactics know nothing of `bit_and` at
-- variables, so the law is proved from the digits that the native operation stands for.
pub mod Clear
use Prim.Native.Nat.{bit_and, digits, bit_and-bitwise}
use native.Mathlib.Nat.{pow-suc, pow-succ', div-add-mod, div-div-eq-div-mul}
use mpmc_with_memory_managem.Base.{
  ℕ, zero, suc, ◌+◌, ◌-◌, ◌*◌, ◌/◌, ◌%◌, ◌^◌, ◌≤◌, ◌<◌, ◌≡◌, refl, ap, arith, min,
}

-- The digits of `a & b`, on fuel.
abbrev both : ℕ → ℕ → ℕ → ℕ
both f a b = digits (λ _. zero) min f a b

both_fuel : (f g a b : ℕ) → a ≤ f → a ≤ g → both f a b ≡ both g a b
both_fuel zero zero a b p q = refl
both_fuel zero (suc g) zero b p q = refl
both_fuel zero (suc g) (suc a) b p q = absurd (omega arith)
both_fuel (suc f) zero zero b p q = refl
both_fuel (suc f) zero (suc a) b p q = absurd (omega arith)
both_fuel (suc f) (suc g) zero b p q = refl
both_fuel (suc f) (suc g) (suc a) b p q =
    omega (arith, both_fuel f g (suc a / 2) (b / 2) (omega arith) (omega arith))

bit_and-zero_left : (b : ℕ) → bit_and 0 b ≡ 0
bit_and-zero_left b = bit_and-bitwise 0 b

-- One binary digit of `a & b`.
pub bit_and-digit : (a b : ℕ) → bit_and a b ≡ bit_and (a / 2) (b / 2) * 2 + min (a % 2) (b % 2)
bit_and-digit zero b = omega (arith, bit_and-zero_left b, bit_and-zero_left (b / 2))
bit_and-digit (suc a) b = omega (
  arith,
  bit_and-bitwise (suc a) b,
  bit_and-bitwise (suc a / 2) (b / 2),
  both_fuel a (suc a / 2) (suc a / 2) (b / 2) (omega arith) (omega arith),
)

bit_and-zero_fuel : (f a : ℕ) → a ≤ f → bit_and a 0 ≡ 0
bit_and-zero_fuel f zero h = bit_and-zero_left 0
bit_and-zero_fuel zero (suc a) h = absurd (omega arith)
bit_and-zero_fuel (suc f) (suc a) h =
    omega (arith, bit_and-digit (suc a) 0, bit_and-zero_fuel f (suc a / 2) (omega arith))

pub bit_and-zero : (a : ℕ) → bit_and a 0 ≡ 0
bit_and-zero a = bit_and-zero_fuel a a (omega arith)

pub pow_pos : (k : ℕ) → 0 < 2 ^ k
pow_pos zero = omega arith
pow_pos (suc k) = omega (arith, pow_pos k, pow-suc 2 k)

halves_mod : (x p : ℕ) → 0 < p → x / 2 % p * 2 + x % 2 ≡ x % (2 * p)
halves_mod x p h = omega (
  arith,
  div-add-mod x (2 * p),
  div-add-mod (x / 2) p,
  ap (λ (t : ℕ). p * t) (div-div-eq-div-mul x 2 p),
)

double_mask_suc : (k : ℕ) → (2 ^ suc k - 1) / 2 ≡ 2 ^ k - 1
double_mask_suc k = omega (arith, pow-suc 2 k, pow_pos k)

pub bit_and-mask : (k x : ℕ) → bit_and x (2 ^ k - 1) ≡ x % 2 ^ k
bit_and-mask zero x = omega (arith, bit_and-zero x)
bit_and-mask (suc k) x = omega (
  arith,
  pow-suc 2 k,
  pow_pos k,
  bit_and-digit x (2 ^ suc k - 1),
  ap (λ (t : ℕ). bit_and (x / 2) t) (double_mask_suc k),
  bit_and-mask k (x / 2),
  ap (λ (t : ℕ). x % t) (pow-succ' 2 k),
  halves_mod x (2 ^ k) (pow_pos k),
)
