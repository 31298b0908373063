-- ===== src/Arch.antt =====
-- include/core/arch.hpp, for x86_64 and arm64. `std::size_t` has 64 bits.
pub mod Rounding
use Prim.Native.Nat.{bit_and}
use mpmc_with_memory_managem.Base.{ℕ, ◌+◌, ◌-◌, ◌%◌, ◌^◌}

abbrev pub cache_line_size : ℕ
cache_line_size = 64

pub data Target : Type 0 where
  x86_64 arm64 : Target

-- arm64 on Linux or macOS; other systems have 4096 there too.
unfoldable pub page_size : Target → ℕ
page_size x86_64 = 4096
page_size arm64 = 16384

abbrev pub huge_page_size : ℕ
huge_page_size = 2097152

-- `(value + align - 1) & ~(align - 1)`
abbrev pub round_up : ℕ → ℕ → ℕ
round_up value align =
    bit_and ((value + align + 2 ^ 64 - 1) % 2 ^ 64) (2 ^ 64 - 1 - (align + 2 ^ 64 - 1) % 2 ^ 64)
