-- ===== src/Os/Mapping.antt =====
-- The mapping that `map_impl` returns.
use Prim.Native.Nat.{bit_and}
use native.Mathlib.Nat.{mod_self}
use mpmc_with_memory_managem.Base.{
  ℕ, ◌+◌, ◌-◌, ◌%◌, ◌^◌, ◌≤◌, ◌<◌, ◌≡◌, ◌≢◌, refl, ap, ◌∙◌, arith, Bool, not, true, false, inl, inr,
  Bool-cases, Option, none, some, List, ◌==◌, if◌then◌else◌,
}
use mpmc_with_memory_managem.Base.Bits.{bit_and-mask, pow_pos}
use mpmc_with_memory_managem.Arch.{Target, x86_64, arm64, page_size, round_up}
use mpmc_with_memory_managem.Arch.Rounding.{round_up_lem, pow_lt}
use mpmc_with_memory_managem.Trading.Ledger.{Each}
use mpmc_with_memory_managem.Os.{
  Call, Kernel, Region, has_flag, locked, huge_page_hint, prepare, retried, mapped, map_pages,
  no_power, map_impl,
}

-- What POSIX says of an anonymous mapping that succeeds: it starts at a page, and not at null.
pub record IsPosix (target : Target) (k : Kernel) : Type 0 where
  pub real :
      (calls : List Call) (bytes base : ℕ) (shared huge : Bool)
      → k.maps calls bytes shared huge ≡ some base
      → base ≢ 0
  pub page :
      (calls : List Call) (bytes base : ℕ) (shared huge : Bool)
      → k.maps calls bytes shared huge ≡ some base
      → base % page_size target ≡ 0

abbrev pub page_bits : Target → ℕ
page_bits x86_64 = 12
page_bits arm64 = 14

page_size_eq : (target : Target) → page_size target ≡ 2 ^ page_bits target
unfolding page_size
page_size_eq x86_64 = refl
page_size_eq arm64 = refl

-- A region that can be used as `bytes` bytes.
pub record IsMapping (target : Target) (bytes bits : ℕ) (r : Region) : Type 0 where
  pub real : r.base ≢ 0
  pub page : r.base % page_size target ≡ 0
  pub whole_pages : r.mapped_bytes % page_size target ≡ 0
  pub enough : bytes ≤ r.mapped_bytes
  pub tight : r.mapped_bytes < bytes + 2 ^ bits + page_size target

power_passes : (bits : ℕ) → bits < 64 → no_power (2 ^ bits) ≡ false
power_passes bits h =
    let small = pow_lt bits h in
    let positive = pow_pos bits in
    let less : (2 ^ bits + 2 ^ 64 - 1) % 2 ^ 64 ≡ 2 ^ bits - 1 = omega arith in
    let clear : bit_and (2 ^ bits) ((2 ^ bits + 2 ^ 64 - 1) % 2 ^ 64) ≡ 0 =
      ap (bit_and (2 ^ bits)) less ∙ bit_and-mask bits (2 ^ bits) ∙ mod_self (2 ^ bits) in
    rw clear (ground arith)

page_bits_lt : (target : Target) → page_bits target < 64
page_bits_lt x86_64 = omega arith
page_bits_lt arm64 = omega arith

-- Rounded to the alignment, and then to pages.
rounded :
    (target : Target) (bytes bits : ℕ)
    → bits < 64
    → bytes + 2 ^ bits + page_size target ≤ 2 ^ 64
    → let mapped_bytes = round_up (round_up bytes (2 ^ bits)) (page_size target) in
      (mapped_bytes % page_size target ≡ 0)
      × (bytes ≤ mapped_bytes)
      × (mapped_bytes < bytes + 2 ^ bits + page_size target)
rounded target bytes bits h room =
    let e = page_size_eq target in
    let (divides, up, below) = round_up_lem bytes bits h (omega arith) in
    let (whole, more, over) =
      round_up_lem (round_up bytes (2 ^ bits)) (page_bits target) (page_bits_lt target)
        (omega (arith, e, below, room)) in
    rw e (whole, omega (arith, up, more), omega (arith, below, over))

module _ (k : Kernel) (P : Region → Type 0) where
  locked-Each :
      (ok : Bool) (bytes base : ℕ) (kept lost : List Call)
      → P (record { base = base; mapped_bytes = bytes })
      → let region : Region = record { base = base; mapped_bytes = bytes } in
        let r : Option Region × List Call = if ok then (some region, kept) else (none, lost) in
        Each P r.0
  locked-Each true bytes base kept lost h = h
  locked-Each false bytes base kept lost h = tt

  prepare-Each :
      (flags bytes base : ℕ) (calls : List Call)
      → P (record { base = base; mapped_bytes = bytes })
      → Each P (prepare k flags bytes base calls).0
  unfolding prepare
  prepare-Each flags bytes base calls h = elim (Bool-cases (not (has_flag flags locked))) [
    | inl e ↦ rw e h
    | inr e ↦ rw e (locked-Each (k.locks _ base bytes) bytes base _ _ h)
  ]

  retried-Each :
      (flags bytes : ℕ) (calls : List Call) (answer : Option ℕ)
      → ((base : ℕ) → answer ≡ some base → P (record { base = base; mapped_bytes = bytes }))
      → Each P (retried k flags bytes answer calls).0
  unfolding retried
  retried-Each flags bytes calls none h = tt
  retried-Each flags bytes calls (some base) h = prepare-Each flags bytes base calls (h base refl)

  mapped-Each :
      (huge : Bool) (flags bytes : ℕ) (shared : Bool) (calls : List Call) (answer : Option ℕ)
      → ((base : ℕ) → answer ≡ some base → P (record { base = base; mapped_bytes = bytes }))
      → ((base : ℕ)
          → k.maps calls bytes shared false ≡ some base
          → P (record { base = base; mapped_bytes = bytes }))
      → Each P (mapped k huge flags bytes shared answer calls).0
  unfolding mapped
  mapped-Each huge flags bytes shared calls (some base) h g =
      prepare-Each flags bytes base calls (h base refl)
  mapped-Each false flags bytes shared calls none h g = tt
  mapped-Each true flags bytes shared calls none h g = retried-Each flags bytes _ _ g

-- Given a kernel that maps at page boundaries and never at null, a positive size and an alignment 2
-- ^ k that do not overflow together with a page: a region that `map_impl` returns starts at a page
-- boundary, not at null, and is a whole number of pages, no fewer bytes than asked for, and fewer
-- than these, the alignment and a page together.
pub map_impl_lem :
    (target : Target) (k : Kernel) (bytes bits flags : ℕ) (shared : Bool) (calls : List Call)
    → IsPosix target k
    → 0 < bytes
    → bits < 64
    → bytes + 2 ^ bits + page_size target ≤ 2 ^ 64
    → Each (IsMapping target bytes bits) (map_impl k target bytes (2 ^ bits) flags shared calls).0
unfolding map_impl map_pages
map_impl_lem target k bytes bits flags shared calls posix some_bytes h room =
    let positive : (bytes == 0) ≡ false = ground arith in
    rw (positive, power_passes bits h, map_impl)
      (mapped-Each k (IsMapping target bytes bits) (has_flag flags huge_page_hint) flags _ shared _
        _ (λ base e. mapping base (posix.real _ _ base _ _ e) (posix.page _ _ base _ _ e))
        (λ base e. mapping base (posix.real _ _ base _ _ e) (posix.page _ _ base _ _ e)))
  where
    aligned : ℕ
    aligned = round_up bytes (2 ^ bits)

    mapping :
        (base : ℕ)
        → base ≢ 0
        → base % page_size target ≡ 0
        → IsMapping target bytes bits
            (record { base = base; mapped_bytes = round_up aligned (page_size target) })
    mapping base real page =
        let (whole, enough, tight) = rounded target bytes bits h room in
        record { real = real; page = page; whole_pages = whole; enough = enough; tight = tight }
