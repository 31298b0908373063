-- ===== src/Os/Regions.antt =====
-- A region owns its mapping: it is unmapped once, by whoever has it last.
use mpmc_with_memory_managem.Base.{
  ℕ, ◌≡◌, ◌≢◌, refl, arith, true, false, inl, inr, Bool-cases, List, ◌∷◌, ◌==◌,
}
use mpmc_with_memory_managem.Base.Sum.{total}
use mpmc_with_memory_managem.Os.{Call, Region, region_init, release, move_assign}
use mpmc_with_memory_managem.Os.Ledger.{holds, Accounts}

-- A null region holds no mapping at an address that is not null.
null_holds : (a n : ℕ) (r : Region) → a ≢ 0 → (r.base == 0) ≡ true → holds a n r ≡ 0
null_holds a n r real null = ground (arith, real, null)

pub release-Accounts :
    (r : Region) (calls : List Call) (regions : List Region)
    → Accounts calls (r ∷ regions)
    → Accounts (release r calls).1 regions
unfolding release Accounts total
release-Accounts r calls regions h = elim (Bool-cases (r.base == 0)) [
  | inl null ↦ rw null (λ a n real. omega (arith, h a n real, null_holds a n r real null))
  | inr real ↦ rw real (λ a n x. omega (arith, h a n x))
]

released-null : (r : Region) (calls : List Call) → (release r calls).0.base ≡ 0
unfolding release
released-null r calls = ground arith

release-release :
    (r : Region) (calls : List Call)
    → release (release r calls).0 (release r calls).1 ≡ release r calls
unfolding release
release-release r calls = elim (Bool-cases (r.base == 0)) [
  | inl null ↦ rw (null, null)
  | inr real ↦ rw real
]

-- A released region holds nothing, its mapping is accounted for, and a second release does nothing.
pub release_lem :
    (r : Region) (calls : List Call) (regions : List Region)
    → Accounts calls (r ∷ regions)
    → Accounts (release r calls).1 regions
      × ((release r calls).0.base ≡ 0)
      × (release (release r calls).0 (release r calls).1 ≡ release r calls)
release_lem r calls regions h =
    (release-Accounts r calls regions h, released-null r calls, release-release r calls)

with_null :
    (r : Region) (calls : List Call) (regions : List Region)
    → Accounts calls (r ∷ regions)
    → Accounts calls (r ∷ region_init ∷ regions)
unfolding Accounts total
with_null r calls regions h a n real =
    omega (arith, h a n real, null_holds a n region_init real refl)

-- Moving a region into another keeps each mapping in one region, and empties the source.
pub move_assign_lem :
    (self other : Region) (calls : List Call) (regions : List Region)
    → Accounts calls (self ∷ other ∷ regions)
    → let (self', other', calls') = move_assign false self other calls in
      Accounts calls' (self' ∷ other' ∷ regions) × (self' ≡ other) × (other' ≡ region_init)
unfolding move_assign
move_assign_lem self other calls regions h =
    (with_null other _ regions (release-Accounts self calls (other ∷ regions) h), refl, refl)

pub Accounts-swap :
    (r s : Region) (calls : List Call) (regions : List Region)
    → Accounts calls (r ∷ s ∷ regions)
    → Accounts calls (s ∷ r ∷ regions)
unfolding Accounts total
Accounts-swap r s calls regions h a n real = omega (arith, h a n real)
