-- ===== src/Os/Tests.antt =====
-- Mappings from the kernel of Os/Paging.
use mpmc_with_memory_managem.Base.{◌^◌, arith, true, false, some, List, [], ◌∷◌}
use mpmc_with_memory_managem.Base.Sum.{total}
use mpmc_with_memory_managem.Arch.{x86_64, page_size}
use mpmc_with_memory_managem.Trading.Ledger.{Each}
use mpmc_with_memory_managem.Os.{Call, mmap, Region, region_init, map_impl}
use mpmc_with_memory_managem.Os.Ledger.{Accounts, with_result, map_impl-Accounts}
use mpmc_with_memory_managem.Os.Mapping.{IsMapping, map_impl_lem}
use mpmc_with_memory_managem.Os.Paging.{pages, kernel, kernel-IsPosix, nothing-Accounts}

map_impl-Accounts_example :
    let r = map_impl kernel x86_64 3264 64 3 true [] in Accounts r.1 (with_result r.0 [])
map_impl-Accounts_example = map_impl-Accounts kernel [] x86_64 3264 64 3 true [] nothing-Accounts

map_impl_lem_example :
    Each (IsMapping x86_64 3264 6) (map_impl kernel x86_64 3264 (2 ^ 6) 3 true []).0
unfolding page_size
map_impl_lem_example =
    map_impl_lem x86_64 kernel 3264 6 3 true [] kernel-IsPosix (omega arith) (omega arith)
      (omega arith)

abbrev region : Region
region = record { base = pages; mapped_bytes = 4096 }

abbrev mapped : List Call
mapped = mmap 4096 true false (some pages) ∷ []

mapped-Accounts : Accounts mapped (region ∷ [])
unfolding Accounts total
mapped-Accounts a n real = omega arith

moved-Accounts : Accounts mapped (region_init ∷ region ∷ [])
unfolding Accounts total
moved-Accounts a n real = ground (arith, real)
