-- ===== src/Trading/Format.antt =====
-- What include/trading uses of the C library and of the language's conversions, and
-- `format_ouch_token` of include/trading/gateway.hpp. A character is its code.
use mpmc_with_memory_managem.Base.{
  ℕ, zero, suc, ◌+◌, ◌-◌, ◌*◌, ◌/◌, ◌%◌, ◌^◌, ◌||◌, ◌&&◌, List, [], ◌∷◌, ◌++◌, length, take, drop,
  replicate, ltb, ◌==◌, if◌then◌else◌,
}

-- The last `fuel` digits of `n`, before `acc`.
unfoldable pub decimal_onto : ℕ → ℕ → List ℕ → List ℕ
decimal_onto zero n acc = acc
decimal_onto (suc fuel) n acc =
    let rest = decimal_onto fuel (n / 10) ((0x30 + n % 10) ∷ acc) in
    if ltb n 10 then (0x30 + n) ∷ acc else rest

-- `%u`: a 32-bit number has at most 10 digits.
unfoldable pub decimal : ℕ → List ℕ
unfolding decimal_onto
decimal n = decimal_onto 10 n []

-- `std::snprintf(out, sizeof(out), ...)` of this text.
unfoldable pub print_into : List ℕ → List ℕ → List ℕ
print_into text out =
    let printed = take (length out - 1) text in printed ++ (0 ∷ drop (length printed + 1) out)

-- `strnlen(str, sizeof(str))`
unfoldable pub strnlen : List ℕ → ℕ
strnlen [] = 0
strnlen (c ∷ str) = if c == 0 then 0 else suc (strnlen str)

-- `std::memcpy(out, str, n)`
abbrev pub copy_chars : ℕ → List ℕ → List ℕ → List ℕ
copy_chars n str out = take n str ++ drop n out

-- Fourteen '0', and the digits over the last of them.
unfoldable pub format_ouch_token : ℕ → List ℕ
unfolding decimal
format_ouch_token token = let tmp = decimal token in replicate (14 - length tmp) 0x30 ++ take 14 tmp

-- The exponent of the leading bit.
unfoldable pub log2_below : ℕ → ℕ → ℕ
log2_below zero n = 0
log2_below (suc e) n = let rest = log2_below e n in if ltb n (2 ^ suc e) then rest else suc e

-- `static_cast<double>` of a 64-bit number: its IEEE pattern, rounded to nearest, ties to even.
unfoldable pub double_of : ℕ → ℕ
unfolding log2_below
double_of zero = 0
double_of n =
    let e = log2_below 63 n in
    let unit = 2 ^ (e - 52) in
    let q = n * 2 ^ (52 - e) / unit in
    let r = n * 2 ^ (52 - e) % unit in
    let up = ltb unit (2 * r) || (2 * r == unit) && (q % 2 == 1) && ltb 1 unit in
    (1023 + e) * 2 ^ 52 + (q - 2 ^ 52) + (if up then 1 else 0)
