-- ===== src/Trading/Int32.antt =====
-- `std::int32_t` and `std::int64_t`, stored as their two's complement patterns. An overflow, which
-- the standard leaves undefined, wraps here.
use mpmc_with_memory_managem.Base.{ℕ, suc, ◌-◌, ◌/◌, ◌%◌, ◌^◌, Bool, not, ltb, if◌then◌else◌}
use mpmc_with_memory_managem.Base.Int.{ℤ, pos, negsuc, sub_ℕ, ltb_ℤ}

abbrev pub to_int32 : ℕ → ℤ
to_int32 n = if ltb n (2 ^ 31) then pos n else negsuc (2 ^ 32 - 1 - n)

abbrev pub of_int32 : ℤ → ℕ
of_int32 (pos n) = n % 2 ^ 32
of_int32 (negsuc n) = 2 ^ 32 - 1 - n % 2 ^ 32

abbrev pub wrap32 : ℤ → ℤ
wrap32 a = to_int32 (of_int32 a)

-- `/` rounds to zero; the divisor is positive.
abbrev pub quot : ℤ → ℕ → ℤ
quot (pos n) d = pos (n / d)
quot (negsuc n) d = sub_ℕ 0 (suc n / d)

abbrev pub leb_ℤ : ℤ → ℤ → Bool
leb_ℤ a b = not (ltb_ℤ b a)

abbrev pub to_int64 : ℕ → ℤ
to_int64 n = if ltb n (2 ^ 63) then pos n else negsuc (2 ^ 64 - 1 - n)

abbrev pub of_int64 : ℤ → ℕ
of_int64 (pos n) = n % 2 ^ 64
of_int64 (negsuc n) = 2 ^ 64 - 1 - n % 2 ^ 64

abbrev pub wrap64 : ℤ → ℤ
wrap64 a = to_int64 (of_int64 a)
