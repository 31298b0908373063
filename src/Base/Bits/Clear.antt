-- ===== src/Base/Bits/Clear.antt =====
-- `x & ~(2 ^ k - 1)` clears the `k` lowest bits of `x`.
use Prim.Native.Nat.{bit_and}
use native.Mathlib.Nat.{pow-suc, pow-succ', div-div-eq-div-mul, mul_assoc, mod-eq_of_lt}
use mpmc_with_memory_managem.Base.{
  ℕ, zero, suc, ◌+◌, ◌-◌, ◌*◌, ◌/◌, ◌%◌, ◌^◌, ◌≤◌, ◌<◌, ◌≡◌, sym, ap, ◌∙◌, arith,
}
use mpmc_with_memory_managem.Base.Bits.{bit_and-digit, bit_and-mask}

pub pow_le : (k d : ℕ) → 2 ^ k ≤ 2 ^ (k + d)
pow_le k zero = omega (arith, ap (λ (t : ℕ). 2 ^ t) (k_zero k))
  where
    k_zero : (k : ℕ) → k + 0 ≡ k
    k_zero k = omega arith
pow_le k (suc d) = omega (
  arith,
  pow_le k d,
  pow-suc 2 (k + d),
  ap (λ (t : ℕ). 2 ^ t) (let e : k + suc d ≡ suc (k + d) = omega arith in e),
)

-- With `k` of `k + d` bits clear in the mask.
pub bit_and-clear :
    (k d x : ℕ) → x < 2 ^ (k + d) → bit_and x (2 ^ (k + d) - 2 ^ k) ≡ x / 2 ^ k * 2 ^ k
bit_and-clear zero d x h =
    let e : 0 + d ≡ d = omega arith in
    let small : x < 2 ^ d = rw e at h in rw e (bit_and-mask d x ∙ mod-eq_of_lt small ∙ omega arith)
bit_and-clear (suc k) d x h =
    let e : suc k + d ≡ suc (k + d) = omega arith in
    let double : 2 ^ (suc k + d) ≡ 2 ^ (k + d) * 2 = ap (λ (t : ℕ). 2 ^ t) e ∙ pow-suc 2 (k + d) in
    let half : (2 ^ (suc k + d) - 2 ^ suc k) / 2 ≡ 2 ^ (k + d) - 2 ^ k =
      omega (arith, double, pow-suc 2 k) in
    let even : (2 ^ (suc k + d) - 2 ^ suc k) % 2 ≡ 0 =
      omega (arith, double, pow-suc 2 k, pow_le k d) in
    let ih = bit_and-clear k d (x / 2) (omega (arith, h, double)) in
    let both : x / 2 / 2 ^ k ≡ x / 2 ^ suc k =
      div-div-eq-div-mul x 2 (2 ^ k) ∙ ap (λ (t : ℕ). x / t) (sym (pow-succ' 2 k)) in
    let wide : x / 2 ^ suc k * 2 ^ suc k ≡ x / 2 ^ suc k * 2 ^ k * 2 =
      ap (λ (t : ℕ). x / 2 ^ suc k * t) (pow-suc 2 k) ∙ sym (mul_assoc (x / 2 ^ suc k) (2 ^ k) 2) in
    omega (
      arith,
      bit_and-digit x (2 ^ (suc k + d) - 2 ^ suc k),
      ap (λ (t : ℕ). bit_and (x / 2) t) half,
      even,
      ih,
      ap (λ (t : ℕ). t * 2 ^ k) both,
      wide,
    )
