-- ===== src/Trading/Producer/Exponent.antt =====
-- The decimal exponent of a price or a size.
use native.Mathlib.Nat.{div-div-eq-div-mul, mul_assoc, pow-suc, pow-succ'}
use mpmc_with_memory_managem.Base.{
  ℕ, zero, suc, ◌-◌, ◌*◌, ◌/◌, ◌%◌, ◌^◌, ◌<◌, ◌≤◌, ◌≡◌, refl, sym, ap, ◌∙◌, arith, true, false, ltb,
  ◌==◌,
}
use mpmc_with_memory_managem.Base.Int.{ℤ, pos, sub_ℕ, ◌*ℤ◌}
use mpmc_with_memory_managem.Trading.Int32.{wrap64, quot}
use mpmc_with_memory_managem.Trading.Producer.{scale_up, scale_down, apply_exponent}

wrap64_pos : (n : ℕ) → n < 2 ^ 63 → wrap64 (pos n) ≡ pos n
wrap64_pos n h = ground arith

pos-mul : (a b : ℕ) → pos a *ℤ pos b ≡ pos (a * b)
unfolding ◌*ℤ◌
pos-mul a b = ground arith

power-suc : (e : ℕ) → 10 ^ suc e ≡ 10 * 10 ^ e
power-suc e = pow-succ' 10 e

regroup : (m e : ℕ) → m * 10 ^ suc e ≡ m * 10 ^ e * 10
regroup m e = ap (λ d. m * d) (pow-suc 10 e) ∙ sym (mul_assoc m (10 ^ e) 10)

regroup_front : (m e : ℕ) → m * 10 ^ suc e ≡ m * 10 * 10 ^ e
regroup_front m e = ap (λ d. m * d) (power-suc e) ∙ sym (mul_assoc m 10 (10 ^ e))

le-power : (m e : ℕ) → m ≤ m * 10 ^ e
le-power m zero = omega arith
le-power m (suc e) = let one = le-power m e in let next = regroup m e in omega arith

scale_up_lem : (e m : ℕ) → m * 10 ^ e < 2 ^ 63 → scale_up e (pos m) ≡ pos (m * 10 ^ e)
unfolding scale_up
scale_up_lem zero m h = ap pos (omega arith)
scale_up_lem (suc e) m h =
    let small : m * 10 * 10 ^ e < 2 ^ 63 = rw (regroup_front m e) at h in
    let one : m * 10 < 2 ^ 63 = let l = le-power (m * 10) e in omega arith in
    rw (pos-mul m 10, wrap64_pos (m * 10) one, regroup_front m e) (scale_up_lem e (m * 10) small)

scale_down_lem : (e m : ℕ) → scale_down e (pos m) ≡ pos (m / 10 ^ e)
unfolding scale_down
scale_down_lem zero m = ap pos (omega arith)
scale_down_lem (suc e) m =
    scale_down_lem e (m / 10)
    ∙ ap pos (div-div-eq-div-mul m 10 (10 ^ e) ∙ ap (λ d. m / d) (sym (power-suc e)))

wrap64-minus : (n : ℕ) → n < 2 ^ 63 → wrap64 (sub_ℕ 0 n) ≡ sub_ℕ 0 n
wrap64-minus n h = ground arith

minus-mul : (a b : ℕ) → sub_ℕ 0 a *ℤ pos b ≡ sub_ℕ 0 (a * b)
unfolding ◌*ℤ◌
minus-mul zero b = ground arith
minus-mul (suc a) b = ground arith

quot-minus : (n : ℕ) → quot (sub_ℕ 0 n) 10 ≡ sub_ℕ 0 (n / 10)
quot-minus n = ground arith

scale_up-minus : (e m : ℕ) → m * 10 ^ e < 2 ^ 63 → scale_up e (sub_ℕ 0 m) ≡ sub_ℕ 0 (m * 10 ^ e)
unfolding scale_up
scale_up-minus zero m h = ap (sub_ℕ 0) (omega arith)
scale_up-minus (suc e) m h =
    let small : m * 10 * 10 ^ e < 2 ^ 63 = rw (regroup_front m e) at h in
    let one : m * 10 < 2 ^ 63 = let l = le-power (m * 10) e in omega arith in
    ap (λ a. scale_up e (wrap64 a)) (minus-mul m 10)
    ∙ ap (scale_up e) (wrap64-minus (m * 10) one)
    ∙ scale_up-minus e (m * 10) small
    ∙ ap (sub_ℕ 0) (sym (regroup_front m e))

scale_down-minus : (e m : ℕ) → scale_down e (sub_ℕ 0 m) ≡ sub_ℕ 0 (m / 10 ^ e)
unfolding scale_down
scale_down-minus zero m = ap (sub_ℕ 0) (omega arith)
scale_down-minus (suc e) m =
    ap (scale_down e) (quot-minus m)
    ∙ scale_down-minus e (m / 10)
    ∙ ap (sub_ℕ 0) (div-div-eq-div-mul m 10 (10 ^ e) ∙ ap (λ d. m / d) (sym (power-suc e)))

apply_exponent-scale_up : (a : ℤ) (e : ℕ) → e < 2 ^ 7 → apply_exponent a e ≡ scale_up e a
unfolding apply_exponent scale_up
apply_exponent-scale_up a zero h = refl
apply_exponent-scale_up a (suc e) h =
    let some_digits : (suc e == 0) ≡ false = ground arith in
    let small : ltb (suc e) (2 ^ 7) ≡ true = ground arith in rw (some_digits, small) refl

apply_exponent-scale_down :
    (a : ℤ) (e : ℕ) → e < 2 ^ 7 → apply_exponent a ((2 ^ 8 - e) % 2 ^ 8) ≡ scale_down e a
unfolding apply_exponent scale_down
apply_exponent-scale_down a zero h = refl
apply_exponent-scale_down a (suc e) h =
    let wrapped : (2 ^ 8 - suc e) % 2 ^ 8 ≡ 2 ^ 8 - suc e = ground arith in
    let nonzero : (2 ^ 8 - suc e == 0) ≡ false = ground arith in
    let negative : ltb (2 ^ 8 - suc e) (2 ^ 7) ≡ false = ground arith in
    let size : 2 ^ 8 - (2 ^ 8 - suc e) ≡ suc e = omega arith in
    rw (wrapped, nonzero, negative, size) refl

-- For the magnitude of a mantissa and a number of digits below 128 whose product of magnitude and
-- power of ten does not overflow, and for either sign of the mantissa: `apply_exponent` multiplies
-- by that power, and divides by it, rounding toward zero, when the exponent is the pattern of the
-- negated number.
pub apply_exponent_lem :
    (m e : ℕ)
    → e < 2 ^ 7
    → m * 10 ^ e < 2 ^ 63
    → let minus_e = (2 ^ 8 - e) % 2 ^ 8 in
      (apply_exponent (pos m) e ≡ pos (m * 10 ^ e))
      × (apply_exponent (sub_ℕ 0 m) e ≡ sub_ℕ 0 (m * 10 ^ e))
      × (apply_exponent (pos m) minus_e ≡ pos (m / 10 ^ e))
      × (apply_exponent (sub_ℕ 0 m) minus_e ≡ sub_ℕ 0 (m / 10 ^ e))
apply_exponent_lem m e h k = (
  apply_exponent-scale_up (pos m) e h ∙ scale_up_lem e m k,
  apply_exponent-scale_up (sub_ℕ 0 m) e h ∙ scale_up-minus e m k,
  apply_exponent-scale_down (pos m) e h ∙ scale_down_lem e m,
  apply_exponent-scale_down (sub_ℕ 0 m) e h ∙ scale_down-minus e m,
)
