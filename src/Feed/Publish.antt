-- ===== src/Feed/Publish.antt =====
-- What a reader finds after `publish`, and what it may still be reading.
use mpmc_with_memory_managem.Base.{
  ℕ, ◌+◌, ◌-◌, ◌%◌, ◌^◌, ◌≤◌, ◌≡◌, ◌≢◌, refl, ◌∙◌, arith, false, some, List, ◌++◌, length, get_or,
  get_or-set_self, get_or-set_ne, length-set, take, drop, take_all, ltb,
}
use mpmc_with_memory_managem.Proto.Frame.{frame_capacity}
use mpmc_with_memory_managem.Feed.Inlet.{
  FeedKind, FrameSlot, SharedInlet, slot_count, frame_slot_init, frame_magic, published_slot,
  publish,
}

-- What `publish` puts into a slot.
pub record IsFrame (kind : FeedKind) (flags : ℕ) (bytes : List ℕ) (uncompressed_len : ℕ)
    (slot : FrameSlot) : Type 0 where
  pub magic : slot.magic ≡ frame_magic
  pub kind_of : slot.kind ≡ kind
  pub flags_of : slot.flags ≡ flags
  pub raw_len : slot.uncompressed_len ≡ uncompressed_len
  pub len : slot.payload_len ≡ length bytes
  pub payload : take slot.payload_len slot.payload ≡ bytes

-- After `publish` of a payload that fits, the published slot holds the payload with its kind, flags
-- and lengths, the slot that readers had been shown is unchanged and no longer the published one,
-- and the sequence is one more.
pub publish_lem :
    (kind : FeedKind) (flags : ℕ) (bytes : List ℕ) (uncompressed_len : ℕ) (inlet : SharedInlet)
    → length bytes ≤ frame_capacity
    → length inlet.slots ≡ slot_count
    → let inlet' = publish kind flags (some bytes) uncompressed_len inlet in
      IsFrame kind flags bytes uncompressed_len (published_slot inlet')
      × (get_or inlet'.slots (inlet.published % slot_count) frame_slot_init ≡ published_slot inlet)
      × (inlet'.published % slot_count ≢ inlet.published % slot_count)
      × (inlet'.sequence ≡ (inlet.sequence + 1) % 2 ^ 64)
      × (length inlet'.slots ≡ slot_count)
unfolding publish published_slot
publish_lem kind flags bytes uncompressed_len inlet h two =
    rw
      (
        fits,
        same_place,
        get_or-set_self inlet.slots write new frame_slot_init (omega arith),
        get_or-set_ne inlet.slots write (inlet.published % slot_count) new frame_slot_init other,
      )
      (
        record {
          magic = refl;
          kind_of = refl;
          flags_of = refl;
          raw_len = refl;
          len = whole;
          payload = rw whole (take_all bytes _ (length bytes) refl);
        },
        refl,
        other,
        refl,
        length-set inlet.slots write new ∙ two,
      )
  where
    write : ℕ
    write = 1 - inlet.published % slot_count

    new : FrameSlot
    new = record {
      magic = frame_magic;
      payload_len = length bytes % 2 ^ 32;
      kind = kind;
      flags = flags;
      uncompressed_len = uncompressed_len;
      reserved = 0;
      payload = bytes ++ drop (length bytes) (get_or inlet.slots write frame_slot_init).payload;
    }

    fits : ltb frame_capacity (length bytes) ≡ false
    fits = ground arith

    other : write ≢ inlet.published % slot_count
    other = λ e. absurd (omega (arith, e))

    same_place : write % slot_count ≡ write
    same_place = omega arith

    whole : length bytes % 2 ^ 32 ≡ length bytes
    whole = omega arith
