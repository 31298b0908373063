-- ===== src/Pool/Acquire.antt =====
-- What `acquire` returns, and which slot it takes.
use mpmc_with_memory_managem.Base.{
  Bool-cases, ◌&&◌, not, ◌==◌, ℕ, zero, suc, ◌+◌, ◌<◌, ◌≡◌, ◌≢◌, refl, arith, get_or, set, length,
  ◌⊎◌, inl, inr, Bool, true, false, List, [], ◌∷◌, Option, none, some,
}
use mpmc_with_memory_managem.Pool.{
  TaggedPool, Slot, slot_init, capacity, address_of, taken, acquire_from, acquire,
}
use mpmc_with_memory_managem.Pool.Slots.{IsMapped, state}

-- Slot `j` of the list is in use, or its compare-exchange (number `i + j`) fails spuriously.
abbrev pub Passed : (ℕ → Bool) → ℕ → List Slot → ℕ → Type 0
Passed spurious i ss j = ((get_or ss j slot_init).state ≢ 0) ⊎ (spurious (i + j) ≡ true)

abbrev Result : (ℕ → Bool) → ℕ → List Slot → Option (ℕ × List Slot) → Type 0
Result spurious i ss r =
    ((r ≡ none) × ((j : ℕ) → j < length ss → Passed spurious i ss j))
    ⊎ ((k : ℕ) × (k < length ss)
        × ((get_or ss k slot_init).state ≡ 0)
        × (spurious (i + k) ≡ false)
        × ((j : ℕ) → j < k → Passed spurious i ss j)
        × (r ≡ some (i + k, set ss k taken)))

shift :
    (spurious : ℕ → Bool) (i j : ℕ) {b : Bool} → spurious (i + 1 + j) ≡ b → spurious (i + suc j) ≡ b
shift spurious i j h = let e : i + 1 + j ≡ i + suc j = omega arith in rw e at h

-- What the first slot and the later ones say together.
cons-Passed :
    (spurious : ℕ → Bool) (i n : ℕ) (s : Slot) (ss : List Slot)
    → (s.state == 0 && not (spurious i)) ≡ false
    → ((j : ℕ) → j < n → Passed spurious (i + 1) ss j)
    → (j : ℕ) → j < suc n
    → Passed spurious i (s ∷ ss) j
cons-Passed spurious i n s ss busy later zero h =
    let e : i + 0 ≡ i = omega arith in rw e (ground arith)
cons-Passed spurious i n s ss busy later (suc j) h = elim (later j (omega arith)) [
  | inl used ↦ inl used
  | inr failed ↦ inr (shift spurious i j failed)
]

acquire_from_lem :
    (spurious : ℕ → Bool) (i : ℕ) (ss : List Slot)
    → Result spurious i ss (acquire_from spurious i ss)
unfolding acquire_from
acquire_from_lem spurious i [] = inl (refl, λ j h. absurd (omega arith))
acquire_from_lem spurious i (s ∷ ss) = elim (Bool-cases (s.state == 0 && not (spurious i))) [
  | inl free ↦
      let e : i + 0 ≡ i = omega arith in
      inr (
        0,
        omega arith,
        ground arith,
        rw e (ground arith),
        (λ j h. absurd (omega arith)),
        rw (free, e),
      )
  | inr busy ↦ elim (acquire_from_lem spurious (i + 1) ss) [
    | inl (e, all) ↦ inl (rw (busy, e), cons-Passed spurious i (length ss) s ss busy all)
    | inr (k, h, free, ready, before, e) ↦ inr (
      suc k,
      omega arith,
      free,
      shift spurious i k ready,
      cons-Passed spurious i k s ss busy before,
      (let n : i + 1 + k ≡ i + suc k = omega arith in rw (busy, e, n)),
    )
  ]
]

-- Slot `j` of the pool is in use, or its compare-exchange fails spuriously.
abbrev pub IsBusy : (ℕ → Bool) → TaggedPool → ℕ → Type 0
IsBusy spurious p j = (state p j ≢ 0) ⊎ (spurious j ≡ true)

to-IsBusy :
    (spurious : ℕ → Bool) (p : TaggedPool) (j : ℕ)
    → Passed spurious 0 p.slots j
    → IsBusy spurious p j
to-IsBusy spurious p j h = let e : 0 + j ≡ j = omega arith in rw e at h

-- The two ways in which `acquire` ends.
pub data Acquires (spurious : ℕ → Bool) (p : TaggedPool) : ℕ × TaggedPool → Type 0 where
  fails : ((j : ℕ) → j < capacity p → IsBusy spurious p j) → Acquires spurious p (0, p)
  takes :
      (k : ℕ)
      → k < capacity p
      → state p k ≡ 0
      → spurious k ≡ false
      → ((j : ℕ) → j < k → IsBusy spurious p j)
      → Acquires spurious p (address_of p k, record p { slots = set p.slots k taken })

-- `acquire` fails exactly when every slot is in use or its weak compare-exchange fails spuriously,
-- and then leaves the pool as it was; otherwise it takes the first slot that is neither, resets
-- that one and touches no other.
pub acquire_lem : (spurious : ℕ → Bool) (p : TaggedPool) → Acquires spurious p (acquire spurious p)
unfolding acquire
acquire_lem spurious p = elim (acquire_from_lem spurious 0 p.slots) [
  | inl (e, all) ↦ rw (e, acquire) (fails (λ j h. to-IsBusy spurious p j (all j h)))
  | inr (k, h, free, ready, before, e) ↦
      let z : 0 + k ≡ k = omega arith in
      rw (e, z, acquire)
        (takes k h free (rw z at ready) (λ j l. to-IsBusy spurious p j (before j l)))
]

takes_some :
    (spurious : ℕ → Bool) (p : TaggedPool) (j : ℕ) {r : ℕ × TaggedPool}
    → IsMapped p
    → j < capacity p
    → state p j ≡ 0
    → spurious j ≡ false
    → Acquires spurious p r
    → 0 < r.0
takes_some spurious p j m h free ready (fails all) = elim (all j h) [
  | inl used ↦ absurd (used free)
  | inr failed ↦ cc
]
takes_some spurious p j m h free ready (takes k _ _ _ _) = omega arith

-- In a mapped pool where some slot is free and its compare-exchange does not fail spuriously,
-- `acquire` does not return null.
pub acquire_finds :
    (spurious : ℕ → Bool) (p : TaggedPool) (j : ℕ)
    → IsMapped p
    → j < capacity p
    → state p j ≡ 0
    → spurious j ≡ false
    → 0 < (acquire spurious p).0
acquire_finds spurious p j m h free ready =
    takes_some spurious p j m h free ready (acquire_lem spurious p)
