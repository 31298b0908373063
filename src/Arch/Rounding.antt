-- ===== src/Arch/Rounding.antt =====
-- What `round_up` computes with its mask.
use native.Mathlib.Nat.{pow-suc, mul-mod_left, div-mul-le_self, lt-div-mul-add}
use mpmc_with_memory_managem.Base.{
  ℕ, suc, ◌+◌, ◌-◌, ◌*◌, ◌/◌, ◌%◌, ◌^◌, ◌≤◌, ◌<◌, ◌≡◌, ap, ◌∙◌, arith,
}
use mpmc_with_memory_managem.Base.Bits.{pow_pos}
use mpmc_with_memory_managem.Base.Bits.Clear.{bit_and-clear, pow_le}
use mpmc_with_memory_managem.Arch.{round_up}

pub pow_lt : (k : ℕ) → k < 64 → 2 ^ k < 2 ^ 64
pow_lt k h =
    let e : suc k + (63 - k) ≡ 64 = omega arith in
    omega (arith, pow_le (suc k) (63 - k), ap (λ (t : ℕ). 2 ^ t) e, pow-suc 2 k, pow_pos k)

round_up_eq :
    (value k : ℕ)
    → k < 64
    → value + 2 ^ k ≤ 2 ^ 64
    → round_up value (2 ^ k) ≡ (value + 2 ^ k - 1) / 2 ^ k * 2 ^ k
round_up_eq value k h l =
    let small = pow_lt k h in
    let positive = pow_pos k in
    let e : k + (64 - k) ≡ 64 = omega arith in
    let width : 2 ^ (k + (64 - k)) ≡ 2 ^ 64 = ap (λ (t : ℕ). 2 ^ t) e in
    let sum : (value + 2 ^ k + 2 ^ 64 - 1) % 2 ^ 64 ≡ value + 2 ^ k - 1 = omega arith in
    let mask : 2 ^ 64 - 1 - (2 ^ k + 2 ^ 64 - 1) % 2 ^ 64 ≡ 2 ^ (k + (64 - k)) - 2 ^ k =
      omega arith in
    rw (sum, mask) (bit_and-clear k (64 - k) (value + 2 ^ k - 1) (omega arith))

-- For a power of two and no overflow, `round_up` is the least multiple that is not smaller.
pub round_up_lem :
    (value k : ℕ)
    → k < 64
    → value + 2 ^ k ≤ 2 ^ 64
    → (round_up value (2 ^ k) % 2 ^ k ≡ 0)
      × (value ≤ round_up value (2 ^ k))
      × (round_up value (2 ^ k) < value + 2 ^ k)
round_up_lem value k h l =
    let e = round_up_eq value k h l in
    let positive = pow_pos k in
    (
      ap (λ (t : ℕ). t % 2 ^ k) e ∙ mul-mod_left ((value + 2 ^ k - 1) / 2 ^ k) (2 ^ k),
      omega (arith, e, lt-div-mul-add {a = value + 2 ^ k - 1} positive),
      omega (arith, e, div-mul-le_self (value + 2 ^ k - 1) (2 ^ k)),
    )
