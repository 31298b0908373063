-- ===== src/Codec.antt =====
-- src/lz4_codec.cpp (include/codec/lz4_codec.hpp). The two functions of the LZ4 library are
-- parameters: from the source, its size and the capacity, both as `int`, to the return code and the
-- bytes that stand at the destination afterwards.
pub mod RoundTrip
pub mod Copy
use mpmc_with_memory_managem.Base.{
  ℕ, zero, suc, ◌%◌, ◌^◌, Bool, ◌||◌, true, false, Option, none, some, List, length, take, ◌==◌,
  if◌then◌else◌,
}
use mpmc_with_memory_managem.Base.Int.{ℤ, pos, negsuc}
use mpmc_with_memory_managem.Trading.Int32.{to_int32}

abbrev pub Call : Type 0
Call = List ℕ → ℤ → ℤ → ℤ × List ℕ

-- What a call that returned true has stored: `output_len`, and the bytes at `output`.
pub record Output : Type 0 where
  pub len : ℕ
  pub bytes : List ℕ

-- `static_cast<int>` of a `std::size_t`.
abbrev pub to_int : ℕ → ℤ
to_int n = to_int32 (n % 2 ^ 32)

-- `rc < 0` is the failure of the decompressor.
abbrev pub decoded_bytes : ℤ × List ℕ → Option Output
decoded_bytes (pos n, bytes) = some (record { len = n; bytes = bytes })
decoded_bytes (negsuc n, bytes) = none

-- `rc <= 0` is the failure of the compressor.
abbrev pub encoded_bytes : ℤ × List ℕ → Option Output
encoded_bytes (pos zero, bytes) = none
encoded_bytes (pos (suc n), bytes) = some (record { len = suc n; bytes = bytes })
encoded_bytes (negsuc n, bytes) = none

-- `none` for `nullptr` and for false; `has_output` tells whether `output` is not null.
unfoldable pub decompress : Call → Option (List ℕ) → Bool → ℕ → Option Output
decompress lz4_decompress_safe none has_output output_capacity = none
decompress lz4_decompress_safe (some input) false output_capacity = none
decompress lz4_decompress_safe (some input) true output_capacity =
    if length input == 0 || output_capacity == 0
    then none
    else decoded_bytes (lz4_decompress_safe input (to_int (length input)) (to_int output_capacity))

unfoldable pub compress : Call → Option (List ℕ) → Bool → ℕ → Option Output
compress lz4_compress_default none has_output output_capacity = none
compress lz4_compress_default (some input) false output_capacity = none
compress lz4_compress_default (some input) true output_capacity =
    if length input == 0 || output_capacity == 0
    then none
    else encoded_bytes (lz4_compress_default input (to_int (length input)) (to_int output_capacity))

-- The decoder that include/feed/feed_reader.hpp calls: the `output_len` bytes at its buffer.
unfoldable pub decoder : Call → List ℕ → ℕ → Option (List ℕ)
unfolding decompress
decoder lz4_decompress_safe input capacity =
    elim (decompress lz4_decompress_safe (some input) true capacity) [
      | none ↦ none
      | some out ↦ some (take out.len out.bytes)
    ]
