-- ===== src/Os.antt =====
-- src/os_memory.cpp and include/mem/os_memory.hpp, as built for Linux: mappings that the process
-- asks of the kernel, and the `Region` that owns one. What the kernel answers is a parameter that may
-- depend on all calls so far, the last one first.
pub mod Ledger
pub mod Regions
pub mod Mapping
pub mod Paging
mod Tests
use Prim.Native.Nat.{bit_and, bit_or}
use mpmc_with_memory_managem.Base.{
  ℕ, ◌+◌, ◌-◌, ◌%◌, ◌^◌, Bool, not, ◌||◌, true, false, Option, none, some, List, ◌∷◌, ◌==◌,
  if◌then◌else◌,
}
use mpmc_with_memory_managem.Arch.{Target, page_size, round_up}

-- `MapFlags` is its bits.
abbrev pub locked : ℕ
locked = 1

abbrev pub huge_page_hint : ℕ
huge_page_hint = 2

-- `operator|`
abbrev pub both_flags : ℕ → ℕ → ℕ
both_flags lhs rhs = bit_or lhs rhs

abbrev pub has_flag : ℕ → ℕ → Bool
has_flag flags flag = bit_and flags flag == flag

pub data Advice : Type 0 where
  huge_page dont_dump : Advice

-- The calls of the kernel, with its answer: the base or `none` for `MAP_FAILED`, and whether `mlock`
-- returned 0.
pub data Call : Type 0 where
  mmap : (bytes : ℕ) (shared huge : Bool) → Option ℕ → Call
  madvise : (base bytes : ℕ) → Advice → Call
  mlock : (base bytes : ℕ) → Bool → Call
  munmap : (base bytes : ℕ) → Call

pub record Kernel : Type 0 where
  pub maps : List Call → (bytes : ℕ) → (shared huge : Bool) → Option ℕ
  pub locks : List Call → (base bytes : ℕ) → Bool

pub record Region : Type 0 where
  pub base : ℕ
  pub mapped_bytes : ℕ

abbrev pub region_init : Region
region_init = record { base = 0; mapped_bytes = 0 }

-- `Region::release`, and the destructor
unfoldable pub release : Region → List Call → Region × List Call
release r calls =
    if r.base == 0 then (r, calls) else (region_init, munmap r.base r.mapped_bytes ∷ calls)

-- `operator=(Region &&)` of two regions, which are one object if `same`: the two afterwards.
unfoldable pub move_assign : Bool → Region → Region → List Call → Region × Region × List Call
unfolding release
move_assign true self other calls = (self, other, calls)
move_assign false self other calls =
    let (freed, calls') = release self calls in
    (record { base = other.base; mapped_bytes = other.mapped_bytes }, region_init, calls')

-- `alignment & (alignment - 1)`
abbrev pub no_power : ℕ → Bool
no_power alignment =
    alignment == 0 || not (bit_and alignment ((alignment + 2 ^ 64 - 1) % 2 ^ 64) == 0)

module _ (k : Kernel) where
  -- `map_impl` from the advice on; `none` is `std::abort`.
  unfoldable pub prepare : ℕ → ℕ → ℕ → List Call → Option Region × List Call
  prepare flags mapped_bytes base calls =
      let advised =
        madvise base mapped_bytes dont_dump
        ∷ (if has_flag flags huge_page_hint
            then madvise base mapped_bytes huge_page ∷ calls
            else calls) in
      let region : Region = record { base = base; mapped_bytes = mapped_bytes } in
      let ok = k.locks advised base mapped_bytes in
      if not (has_flag flags locked)
      then (some region, advised)
      else if ok
      then (some region, mlock base mapped_bytes true ∷ advised)
      else (none, munmap base mapped_bytes ∷ mlock base mapped_bytes false ∷ advised)

  -- The second `mmap`, without the huge pages, given its answer.
  unfoldable pub retried : ℕ → ℕ → Option ℕ → List Call → Option Region × List Call
  unfolding prepare
  retried flags mapped_bytes none calls = (none, calls)
  retried flags mapped_bytes (some base) calls = prepare flags mapped_bytes base calls

  -- The first `mmap`, given its answer.
  unfoldable pub mapped : Bool → ℕ → ℕ → Bool → Option ℕ → List Call → Option Region × List Call
  unfolding retried prepare
  mapped huge flags mapped_bytes shared (some base) calls = prepare flags mapped_bytes base calls
  mapped false flags mapped_bytes shared none calls = (none, calls)
  mapped true flags mapped_bytes shared none calls =
      let answer = k.maps calls mapped_bytes shared false in
      retried flags mapped_bytes answer (mmap mapped_bytes shared false answer ∷ calls)

  -- `map_impl` from the first `mmap` on.
  unfoldable pub map_pages : ℕ → ℕ → Bool → List Call → Option Region × List Call
  unfolding mapped
  map_pages flags mapped_bytes shared calls =
      let huge = has_flag flags huge_page_hint in
      let answer = k.maps calls mapped_bytes shared huge in
      mapped huge flags mapped_bytes shared answer (mmap mapped_bytes shared huge answer ∷ calls)

  unfoldable pub map_impl : Target → ℕ → ℕ → ℕ → Bool → List Call → Option Region × List Call
  unfolding map_pages
  map_impl target bytes alignment flags shared calls =
      if bytes == 0
      then (none, calls)
      else if no_power alignment
      then (none, calls)
      else map_pages flags (round_up (round_up bytes alignment) (page_size target)) shared calls

  unfoldable pub map : Target → ℕ → ℕ → ℕ → List Call → Option Region × List Call
  unfolding map_impl
  map target bytes alignment flags calls = map_impl target bytes alignment flags false calls

  unfoldable pub map_shared : Target → ℕ → ℕ → ℕ → List Call → Option Region × List Call
  unfolding map_impl
  map_shared target bytes alignment flags calls = map_impl target bytes alignment flags true calls
