-- ===== src/Base/Sum.antt =====
-- Weighted sums over a list.
use mpmc_with_memory_managem.Base.{
  ℕ, zero, suc, ◌+◌, ◌≤◌, ◌<◌, ◌≡◌, ◌≢◌, refl, arith, List, [], ◌∷◌, ◌++◌, length, get_or, set,
  take,
}

module _ {ℓ} {A : Type ℓ} (w : A → ℕ) where
  unfoldable pub total : List A → ℕ
  total [] = 0
  total (x ∷ xs) = w x + total xs

  pub total-nil : total [] ≡ 0
  unfolding total
  total-nil = refl

  pub total-set :
      (xs : List A) (i : ℕ) (v d : A)
      → i < length xs
      → total (set xs i v) + w (get_or xs i d) ≡ total xs + w v
  unfolding total
  total-set [] i v d h = absurd (omega arith)
  total-set (x ∷ xs) zero v d h = omega arith
  total-set (x ∷ xs) (suc i) v d h = omega (arith, total-set xs i v d (omega arith))

  pub total-append : (xs ys : List A) → total (xs ++ ys) ≡ total xs + total ys
  unfolding total
  total-append [] ys = omega arith
  total-append (x ∷ xs) ys = omega (arith, total-append xs ys)

  pub le-total : (xs : List A) (i : ℕ) (d : A) → i < length xs → w (get_or xs i d) ≤ total xs
  unfolding total
  le-total [] i d h = absurd (omega arith)
  le-total (x ∷ xs) zero d h = omega arith
  le-total (x ∷ xs) (suc i) d h = omega (arith, le-total xs i d (omega arith))

  -- Two places weigh no more than the whole.
  pub add-le-total :
      (xs : List A) (i j : ℕ) (d : A)
      → i < length xs
      → j < length xs
      → i ≢ j
      → w (get_or xs i d) + w (get_or xs j d) ≤ total xs
  unfolding total
  add-le-total [] i j d h k ne = absurd (omega arith)
  add-le-total (x ∷ xs) zero zero d h k ne = absurd (ne refl)
  add-le-total (x ∷ xs) zero (suc j) d h k ne = omega (arith, le-total xs j d (omega arith))
  add-le-total (x ∷ xs) (suc i) zero d h k ne = omega (arith, le-total xs i d (omega arith))
  add-le-total (x ∷ xs) (suc i) (suc j) d h k ne =
      omega (arith, add-le-total xs i j d (omega arith) (omega arith) (λ e. ne (omega arith)))

  pub total-eq-zero :
      (xs : List A) (d : A) → ((i : ℕ) → i < length xs → w (get_or xs i d) ≡ 0) → total xs ≡ 0
  unfolding total
  total-eq-zero [] d h = refl
  total-eq-zero (x ∷ xs) d h =
      omega (arith, h 0 (omega arith), total-eq-zero xs d (λ i l. h (suc i) (omega arith)))

  pub total_one : (x : A) → total (x ∷ []) ≡ w x
  unfolding total
  total_one x = omega arith

  -- All but the last.
  pub total-take_last :
      (n : ℕ) (xs : List A) (d : A)
      → length xs ≡ suc n
      → total (take n xs) + w (get_or xs n d) ≡ total xs
  unfolding total
  total-take_last n [] d h = absurd (omega arith)
  total-take_last zero (x ∷ []) d h = omega arith
  total-take_last zero (x ∷ y ∷ xs) d h = absurd (omega arith)
  total-take_last (suc n) (x ∷ xs) d h = omega (arith, total-take_last n xs d (omega arith))
