-- ===== src/Feed/Inlet.antt =====
-- include/feed/shared_inlet.hpp. Its one writer is `publish`; a call is one step here.
use Prim.Native.Nat.{bit_and}
use mpmc_with_memory_managem.Base.{
  ℕ, ◌+◌, ◌-◌, ◌%◌, ◌^◌, Bool, Option, none, some, List, ◌++◌, length, get_or, set, drop, replicate,
  ltb, ◌==◌, if◌then◌else◌,
}
use mpmc_with_memory_managem.Proto.Frame.{frame_capacity}

pub data FeedKind : Type 0 where
  no_feed itch mtbt mcx : FeedKind

-- `InletFlags` is its bits.
abbrev pub lz4_compressed : ℕ
lz4_compressed = 1

abbrev pub has_flag : ℕ → ℕ → Bool
has_flag flags flag = bit_and flags flag == flag

abbrev pub frame_magic : ℕ
frame_magic = 0x48465449

pub record FrameSlot : Type 0 where
  pub magic : ℕ
  pub payload_len : ℕ
  pub kind : FeedKind
  pub flags : ℕ
  pub uncompressed_len : ℕ
  pub reserved : ℕ
  pub payload : List ℕ

pub record SharedInlet : Type 0 where
  pub sequence : ℕ
  pub processed : ℕ
  pub published : ℕ
  pub slots : List FrameSlot

abbrev pub slot_count : ℕ
slot_count = 2

unfoldable pub frame_slot_init : FrameSlot
frame_slot_init = record {
  magic = frame_magic;
  payload_len = 0;
  kind = no_feed;
  flags = 0;
  uncompressed_len = 0;
  reserved = 0;
  payload = replicate frame_capacity 0;
}

unfoldable pub shared_inlet_init : SharedInlet
unfolding frame_slot_init
shared_inlet_init = record {
  sequence = 0;
  processed = 0;
  published = 0;
  slots = replicate slot_count frame_slot_init;
}

unfoldable pub published_slot : SharedInlet → FrameSlot
unfolding frame_slot_init
published_slot inlet = get_or inlet.slots (inlet.published % slot_count) frame_slot_init

-- The payload is the `len` bytes behind a pointer, `none` for `nullptr`.
unfoldable pub publish : FeedKind → ℕ → Option (List ℕ) → ℕ → SharedInlet → SharedInlet
unfolding frame_slot_init
publish kind flags none uncompressed_len inlet = inlet
publish kind flags (some bytes) uncompressed_len inlet =
    let write = 1 - inlet.published % slot_count in
    let slot = get_or inlet.slots write frame_slot_init in
    if ltb frame_capacity (length bytes) then inlet else record inlet {
      slots = set inlet.slots write (record {
        magic = frame_magic;
        payload_len = length bytes % 2 ^ 32;
        kind = kind;
        flags = flags;
        uncompressed_len = uncompressed_len;
        reserved = 0;
        payload = bytes ++ drop (length bytes) slot.payload;
      });
      published = write;
      sequence = (inlet.sequence + 1) % 2 ^ 64;
    }
