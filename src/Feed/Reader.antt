-- ===== src/Feed/Reader.antt =====
-- `Reader` of include/feed/feed_reader.hpp: one turn of the loop of `run`. `hft::lz4::decompress`,
-- which calls the LZ4 library, is a parameter: the bytes that it decodes within a capacity, `none`
-- for false.
use mathlib.Core.Option
use mpmc_with_memory_managem.Base.{
  ℕ, Bool, not, ◌&&◌, ◌||◌, true, false, Option, none, some, List, length, take, ltb, ◌==◌,
  if◌then◌else◌,
}
use mpmc_with_memory_managem.Proto.Frame.{frame_capacity}
use mpmc_with_memory_managem.Feed.Inlet.{
  FeedKind, no_feed, itch, mtbt, mcx, FrameSlot, SharedInlet, frame_magic, lz4_compressed, has_flag,
  published_slot,
}
use mpmc_with_memory_managem.Feed.Ingress.{
  Store, ingest_itch_frame, ingest_mtbt_frame, ingest_mcx_tob_frame,
}

pub record Reader : Type 0 where
  pub inlet : SharedInlet
  pub store : Store
  pub last_sequence : ℕ

abbrev pub is_mtbt : FeedKind → Bool
is_mtbt mtbt = true
is_mtbt _ = false

-- `last_sequence_ = sequence; inlet_->processed.store(sequence)`
abbrev pub processed_up_to : Reader → Reader
processed_up_to r = record r {
  inlet = record (r.inlet) { processed = r.inlet.sequence };
  last_sequence = r.inlet.sequence;
}

module _ (busy spurious : ℕ → Bool) (fuel turns : ℕ) where
  -- The store after ingestion, `none` where a loop did not end within its fuel.
  unfoldable pub ingest : FeedKind → List ℕ → Store → Option Store
  unfolding ingest_itch_frame ingest_mtbt_frame ingest_mcx_tob_frame
  ingest itch frame s = elim (ingest_itch_frame busy spurious fuel (some frame) s) [
    | none ↦ none
    | some r ↦ r.1
  ]
  ingest mtbt frame s = elim (ingest_mtbt_frame busy spurious fuel turns (some frame) s) [
    | none ↦ none
    | some r ↦ r.1
  ]
  ingest mcx frame s = (ingest_mcx_tob_frame busy spurious fuel (some frame) s).1
  ingest no_feed frame s = some s

module _ (decompress : List ℕ → ℕ → Option (List ℕ)) where
  -- The bytes to ingest, `none` where the turn drops the frame.
  unfoldable pub frame_of : FrameSlot → Option (List ℕ)
  frame_of slot =
      let stored = take slot.payload_len slot.payload in
      if not (slot.magic == frame_magic)
      then none
      else if slot.payload_len == 0 || ltb frame_capacity slot.payload_len
      then none
      else if not (is_mtbt slot.kind && has_flag slot.flags lz4_compressed)
      then some stored
      else if slot.uncompressed_len == 0 || ltb frame_capacity slot.uncompressed_len
      then none
      else elim (decompress stored frame_capacity) [
        | none ↦ none
        | some decoded ↦ if length decoded == slot.uncompressed_len then some decoded else none
      ]

  module _ (busy spurious : ℕ → Bool) (fuel turns : ℕ) where
    unfoldable pub turn : Reader → Option Reader
    unfolding frame_of ingest published_slot
    turn r =
        let slot = published_slot r.inlet in
        if r.inlet.sequence == r.last_sequence then some r else elim (frame_of slot) [
          | none ↦ some (processed_up_to r)
          | some frame ↦
              Option.map (λ s. processed_up_to (record r { store = s }))
                (ingest busy spurious fuel turns slot.kind frame r.store)
        ]
