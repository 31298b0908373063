-- ===== src/Os/Ledger.antt =====
-- The account of the mappings: what was mapped and not unmapped is what some region holds.
use mpmc_with_memory_managem.Base.{
  ℕ, ◌+◌, ◌≡◌, ◌≢◌, arith, Bool, not, ◌&&◌, true, false, inl, inr, Bool-cases, Option, none, some,
  List, ◌∷◌, ◌==◌, if◌then◌else◌,
}
use mpmc_with_memory_managem.Base.Sum.{total}
use mpmc_with_memory_managem.Arch.{Target}
use mpmc_with_memory_managem.Os.{
  Call, mmap, madvise, mlock, munmap, dont_dump, huge_page, Kernel, Region, has_flag, locked,
  huge_page_hint, prepare, retried, mapped, map_pages, no_power, map_impl,
}

-- Whether this is the mapping of `n` bytes at `a`.
abbrev pub at : ℕ → ℕ → ℕ → ℕ → ℕ
at a n base bytes = if base == a && bytes == n then 1 else 0

abbrev pub maps : ℕ → ℕ → Call → ℕ
maps a n (mmap bytes shared huge (some base)) = at a n base bytes
maps a n _ = 0

abbrev pub unmaps : ℕ → ℕ → Call → ℕ
unmaps a n (munmap base bytes) = at a n base bytes
unmaps a n _ = 0

abbrev pub holds : ℕ → ℕ → Region → ℕ
holds a n r = at a n r.base r.mapped_bytes

-- At every address but null.
unfoldable pub Accounts : List Call → List Region → Type 0
Accounts calls regions =
    (a n : ℕ)
    → a ≢ 0
    → total (maps a n) calls ≡ total (unmaps a n) calls + total (holds a n) regions

-- The regions, and the one that is returned, if any.
abbrev pub with_result : Option Region → List Region → List Region
with_result none regions = regions
with_result (some r) regions = r ∷ regions

module _ (k : Kernel) (regions : List Region) where
  -- As long as the mapping at `base` is not in a region.
  Pending : ℕ → ℕ → List Call → Type 0
  Pending base bytes calls = Accounts calls (record { base = base; mapped_bytes = bytes } ∷ regions)

  advised-Pending :
      (flags bytes base : ℕ) (calls : List Call)
      → Pending base bytes calls
      → Pending base bytes (
          madvise base bytes dont_dump
          ∷ (if has_flag flags huge_page_hint then madvise base bytes huge_page ∷ calls else calls))
  unfolding Pending Accounts total
  advised-Pending flags bytes base calls h a n real =
      elim (Bool-cases (has_flag flags huge_page_hint)) [
        | inl e ↦ rw e (omega (arith, h a n real))
        | inr e ↦ rw e (omega (arith, h a n real))
      ]

  locked-Accounts :
      (ok : Bool) (bytes base : ℕ) (calls : List Call)
      → Pending base bytes calls
      → let region : Region = record { base = base; mapped_bytes = bytes } in
        let r : Option Region × List Call =
          if ok
          then (some region, mlock base bytes true ∷ calls)
          else (none, munmap base bytes ∷ mlock base bytes false ∷ calls) in
        Accounts r.1 (with_result r.0 regions)
  unfolding Pending Accounts total
  locked-Accounts true bytes base calls h a n real = omega (arith, h a n real)
  locked-Accounts false bytes base calls h a n real = omega (arith, h a n real)

  prepare-Accounts :
      (flags bytes base : ℕ) (calls : List Call)
      → Pending base bytes calls
      → let r = prepare k flags bytes base calls in Accounts r.1 (with_result r.0 regions)
  unfolding prepare Pending
  prepare-Accounts flags bytes base calls h =
      let advised = advised-Pending flags bytes base calls h in
      elim (Bool-cases (not (has_flag flags locked))) [
        | inl e ↦ rw (e, prepare) advised
        | inr e ↦ rw (e, prepare) (locked-Accounts _ bytes base _ advised)
      ]

  retried-Accounts :
      (shared huge : Bool) (flags bytes : ℕ) (calls : List Call)
      → Accounts calls regions
      → (answer : Option ℕ)
      → let r = retried k flags bytes answer (mmap bytes shared huge answer ∷ calls) in
        Accounts r.1 (with_result r.0 regions)
  unfolding retried Pending Accounts total
  retried-Accounts shared huge flags bytes calls h none = λ a n real. omega (arith, h a n real)
  retried-Accounts shared huge flags bytes calls h (some base) =
      prepare-Accounts flags bytes base _ (λ a n real. omega (arith, h a n real))

  mapped-Accounts :
      (shared huge : Bool) (flags bytes : ℕ) (calls : List Call)
      → Accounts calls regions
      → (answer : Option ℕ)
      → let r = mapped k huge flags bytes shared answer (mmap bytes shared huge answer ∷ calls) in
        Accounts r.1 (with_result r.0 regions)
  unfolding mapped Pending Accounts total
  mapped-Accounts shared false flags bytes calls h none = λ a n real. omega (arith, h a n real)
  mapped-Accounts shared true flags bytes calls h none =
      retried-Accounts shared false flags bytes _ (λ a n real. omega (arith, h a n real)) _
  mapped-Accounts shared huge flags bytes calls h (some base) =
      prepare-Accounts flags bytes base _ (λ a n real. omega (arith, h a n real))

  -- Whatever the kernel answers: if each mapping that is not unmapped is in one of the given
  -- regions, then this holds after `map_impl`, with the region that it returns, if any; so a failed
  -- lock, or a refused huge page, leaks none.
  pub map_impl-Accounts :
      (target : Target) (bytes alignment flags : ℕ) (shared : Bool) (calls : List Call)
      → Accounts calls regions
      → let r = map_impl k target bytes alignment flags shared calls in
        Accounts r.1 (with_result r.0 regions)
  unfolding map_impl map_pages
  map_impl-Accounts target bytes alignment flags shared calls h = elim (Bool-cases (bytes == 0)) [
    | inl e ↦ rw (e, map_impl) h
    | inr e ↦ elim (Bool-cases (no_power alignment)) [
      | inl f ↦ rw (e, f, map_impl) h
      | inr f ↦
          rw (e, f, map_impl)
            (mapped-Accounts shared (has_flag flags huge_page_hint) flags _ calls h _)
    ]
  ]
