-- ===== src/Codec/RoundTrip.antt =====
-- What the codec compresses, it decompresses to the source, given what LZ4 documents.
use mpmc_with_memory_managem.Base.{
  ℕ, zero, suc, ◌^◌, ◌≤◌, ◌<◌, ◌≡◌, ◌≢◌, refl, sym, ap, ◌∙◌, arith, true, false, ◌||◌, inl, inr,
  Bool-cases, none, some, List, ◌++◌, length, take, take_all, ◌==◌,
}
use mpmc_with_memory_managem.Base.Int.{ℤ, pos, negsuc}
use mpmc_with_memory_managem.Codec.{Call, Output, to_int, encoded_bytes, compress, decoder}

-- What the LZ4 library documents of the two calls: what is compressed into the destination fits
-- there, and decompresses to the source wherever the source fits.
pub record IsLz4 (lz4_compress_default lz4_decompress_safe : Call) : Type 0 where
  pub fits :
      (source : List ℕ) (capacity n : ℕ) (out : List ℕ)
      → lz4_compress_default source (pos (length source)) (pos capacity) ≡ (pos (suc n), out)
      → suc n ≤ capacity
  pub written :
      (source : List ℕ) (capacity n : ℕ) (out : List ℕ)
      → lz4_compress_default source (pos (length source)) (pos capacity) ≡ (pos (suc n), out)
      → length (take (suc n) out) ≡ suc n
  pub inverse :
      (source : List ℕ) (capacity n : ℕ) (out : List ℕ)
      → lz4_compress_default source (pos (length source)) (pos capacity) ≡ (pos (suc n), out)
      → (room : ℕ) → length source ≤ room
      → (rest : List ℕ) × (lz4_decompress_safe (take (suc n) out) (pos (suc n)) (pos room)
          ≡ (pos (length source), source ++ rest))

to_int_small : (n : ℕ) → n < 2 ^ 31 → to_int n ≡ pos n
to_int_small n h = ground arith

encoded_success :
    (r : ℤ × List ℕ) (o : Output)
    → encoded_bytes r ≡ some o
    → (n : ℕ) × (o.len ≡ suc n) × (r ≡ (pos (suc n), o.bytes))
encoded_success (pos zero, bytes) o e = absurd cc
encoded_success (pos (suc n), bytes) o e = (n, ground arith, ground arith)
encoded_success (negsuc n, bytes) o e = absurd cc

decoded :
    (lz4_decompress_safe : Call) (source rest packed : List ℕ) (room n : ℕ)
    → length source ≢ 0
    → room < 2 ^ 31
    → length source ≤ room
    → suc n < 2 ^ 31
    → length packed ≡ suc n
    → lz4_decompress_safe packed (pos (suc n)) (pos room) ≡ (pos (length source), source ++ rest)
    → decoder lz4_decompress_safe packed room ≡ some source
unfolding decoder
decoded lz4_decompress_safe source rest packed room n real roomy enough small size back =
    let guard : (length packed == 0 || room == 0) ≡ false = ground arith in
    let len : to_int (length packed) ≡ pos (suc n) = ap to_int size ∙ to_int_small (suc n) small in
    rw (guard, decoder, len, to_int_small room roomy, back)
      (ap some (take_all source rest (length source) refl))

module _ {lz4_compress_default lz4_decompress_safe : Call}
    (lz4 : IsLz4 lz4_compress_default lz4_decompress_safe) where
  pub compressed :
      (source : List ℕ) (capacity : ℕ) (o : Output)
      → length source < 2 ^ 31
      → capacity < 2 ^ 31
      → compress lz4_compress_default (some source) true capacity ≡ some o
      → (length source ≢ 0)
        × (n : ℕ) × (o.len ≡ suc n)
        × (lz4_compress_default source (pos (length source)) (pos capacity)
            ≡ (pos (suc n), o.bytes))
  unfolding compress
  compressed source capacity o small fits e =
      elim (Bool-cases (length source == 0 || capacity == 0)) [
        | inl null ↦ let failed : none ≡ some o = rw null at e in absurd cc
        | inr real ↦
            let call = to_int_small (length source) small in
            let room = to_int_small capacity fits in
            let e' : encoded_bytes
                  (lz4_compress_default source (pos (length source)) (pos capacity))
                ≡ some o =
              rw (real, call, room) at e in
            let (n, len, done) =
              encoded_success (lz4_compress_default source (pos (length source)) (pos capacity)) o
                e' in
            (ground (arith, real), n, len, done)
      ]

  -- What `compress` has stored of a source is no longer than the capacity, and the reader's decoder
  -- makes it the source again.
  pub decoder-compress :
      (source : List ℕ) (capacity room : ℕ) (o : Output)
      → length source < 2 ^ 31
      → capacity < 2 ^ 31
      → room < 2 ^ 31
      → length source ≤ room
      → compress lz4_compress_default (some source) true capacity ≡ some o
      → (o.len ≤ capacity)
        × (length (take o.len o.bytes) ≡ o.len)
        × (decoder lz4_decompress_safe (take o.len o.bytes) room ≡ some source)
  decoder-compress source capacity room o small fits roomy enough e =
      let (real, n, len, done) = compressed source capacity o small fits e in
      let within = lz4.fits source capacity n o.bytes done in
      let size = lz4.written source capacity n o.bytes done in
      let (rest, back) = lz4.inverse source capacity n o.bytes done room enough in
      let there : take o.len o.bytes ≡ take (suc n) o.bytes = ap (λ k. take k o.bytes) len in
      (
        omega (arith, len, within),
        ap length there ∙ size ∙ sym len,
        ap (λ xs. decoder lz4_decompress_safe xs room) there
            ∙ decoded lz4_decompress_safe source rest (take (suc n) o.bytes) room n real roomy
                enough (omega arith) size back,
      )
