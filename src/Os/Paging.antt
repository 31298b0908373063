-- ===== src/Os/Paging.antt =====
-- A kernel that hands out pages at 0x7f0000000000 and refuses huge ones.
use mpmc_with_memory_managem.Base.{ℕ, ◌≡◌, refl, arith, Bool, true, false, Option, none, some, []}
use mpmc_with_memory_managem.Base.Sum.{total}
use mpmc_with_memory_managem.Arch.{x86_64, page_size}
use mpmc_with_memory_managem.Os.{Kernel}
use mpmc_with_memory_managem.Os.Ledger.{Accounts}
use mpmc_with_memory_managem.Os.Mapping.{IsPosix}

abbrev pub pages : ℕ
pages = 0x7f0000000000

abbrev pub answers : Bool → Option ℕ
answers true = none
answers false = some pages

abbrev pub kernel : Kernel
kernel = record { maps = λ calls bytes shared huge. answers huge; locks = λ calls base bytes. true }

answered : (huge : Bool) (base : ℕ) → answers huge ≡ some base → pages ≡ base
answered true base e = absurd cc
answered false base e = cc

pub kernel-IsPosix : IsPosix x86_64 kernel
unfolding page_size
kernel-IsPosix = record {
  real = λ calls bytes base shared huge e.
      λ z. absurd (let at = answered huge base e in omega (arith, at, z));
  page = λ calls bytes base shared huge e. let at = answered huge base e in omega (arith, at);
}

pub nothing-Accounts : Accounts [] []
unfolding Accounts total
nothing-Accounts a n real = refl
