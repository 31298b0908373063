-- ===== src/Feed/Compressed.antt =====
-- A frame that the program compresses before it publishes it, as src/main.cpp does.
use mpmc_with_memory_managem.Base.{
  ℕ, ◌%◌, ◌^◌, ◌≤◌, ◌≡◌, ◌≢◌, refl, sym, ap, ◌∙◌, arith, true, false, ◌||◌, some, List, length,
  take, ltb, ◌==◌,
}
use mpmc_with_memory_managem.Proto.Frame.{frame_capacity}
use mpmc_with_memory_managem.Codec.{Call, Output, compress, decoder}
use mpmc_with_memory_managem.Codec.RoundTrip.{IsLz4, compressed, decoder-compress}
use mpmc_with_memory_managem.Feed.Inlet.{
  SharedInlet, mtbt, lz4_compressed, slot_count, published_slot, publish,
}
use mpmc_with_memory_managem.Feed.Publish.{publish_lem}
use mpmc_with_memory_managem.Feed.Handoff.{Frame}
use mpmc_with_memory_managem.Feed.Handoff.Members.{delivery, handed, whole-handed}

module _ {lz4_compress_default lz4_decompress_safe : Call}
    (lz4 : IsLz4 lz4_compress_default lz4_decompress_safe) where
  delivered :
      (f : Frame) (source : List ℕ)
      → f.kind ≡ mtbt
      → f.flags ≡ lz4_compressed
      → f.uncompressed_len ≡ length source
      → length f.bytes ≢ 0
      → length source ≢ 0
      → length source ≤ frame_capacity
      → decoder lz4_decompress_safe f.bytes frame_capacity ≡ some source
      → delivery (decoder lz4_decompress_safe) f ≡ some (mtbt, source)
  delivered f source k fl raw stored real fits back =
      let some_bytes : (length f.bytes == 0) ≡ false = ground arith in
      let in_range : (length source == 0 || ltb frame_capacity (length source)) ≡ false =
        ground arith in
      let same_length : (length source == length source) ≡ true = ground arith in
      rw (k, fl, some_bytes, raw, in_range, back, k, raw, same_length)

  -- Given an LZ4 library whose decompressor undoes its compressor: a payload of at most one frame
  -- that `compress` accepts, published as a compressed MTBT frame with its own length, is what the
  -- reader hands to the MTBT ingestion.
  pub compressed_frame_read :
      (source : List ℕ) (o : Output) (inlet : SharedInlet)
      → length source ≤ frame_capacity
      → length inlet.slots ≡ slot_count
      → compress lz4_compress_default (some source) true frame_capacity ≡ some o
      → handed (decoder lz4_decompress_safe) (
          published_slot (
            publish mtbt lz4_compressed (some (take o.len o.bytes)) (length source % 2 ^ 32) inlet))
        ≡ some (mtbt, source)
  compressed_frame_read source o inlet fits two e =
      let (real, n, len, done) =
        compressed lz4 source frame_capacity o (omega (arith, fits)) (omega arith) e in
      let (within, size, back) =
        decoder-compress lz4 source frame_capacity frame_capacity o (omega (arith, fits))
          (omega arith) (omega arith) fits e in
      let packed : List ℕ = take o.len o.bytes in
      let room : length packed ≤ frame_capacity = omega (arith, size, within) in
      let f : Frame = record {
        kind = mtbt;
        flags = lz4_compressed;
        bytes = packed;
        uncompressed_len = length source % 2 ^ 32;
      } in
      let inlet' : SharedInlet =
        publish mtbt lz4_compressed (some packed) (length source % 2 ^ 32) inlet in
      let shown =
        (publish_lem mtbt lz4_compressed packed (length source % 2 ^ 32) inlet room two).0 in
      whole-handed (decoder lz4_decompress_safe) f (published_slot inlet') room (
        ap (λ n. take n (published_slot inlet').payload) (sym shown.len) ∙ shown.payload,
        (
          shown.raw_len,
          (shown.len ∙ omega (arith, room), (shown.flags_of, (shown.kind_of, (shown.magic, tt)))),
        ),
      )
      ∙ delivered f source refl refl (omega (arith, fits))
          (λ z. absurd (omega (arith, z, size, len))) real fits back
