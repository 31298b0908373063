-- ===== src/Feed/Handoff.antt =====
-- One writer and one reader of a shared inlet (include/feed/shared_inlet.hpp and feed_reader.hpp),
-- an access at a time. The writer calls `publish`, loads `sequence` and calls
-- `wait_until_processed`, as `MulticastHub::publish_datagram` and `publish_and_wait` of src/main.cpp
-- do. Each member of a slot is a plain access of its own, the payload one. The reader fetches
-- `uncompressed_len` of every frame, which the code does only for a compressed one. It ingests a frame
-- in one step, which is possible only if the ingestion returns.
pub mod Members
mod Invariant
pub mod Fifo
pub mod Progress
pub mod Hang
mod Tests
use mpmc_with_memory_managem.Base.{
  ℕ, zero, suc, ◌+◌, ◌-◌, ◌%◌, ◌^◌, ◌≤◌, ◌<◌, ◌≡◌, ◌≢◌, ◌⊎◌, Bool, true, false, not, ◌&&◌, ◌||◌,
  Option, none, some, List, [], ◌∷◌, ◌++◌, length, get_or, set, drop, ltb, ◌==◌,
}
use mpmc_with_memory_managem.Proto.Frame.{frame_capacity}
use mpmc_with_memory_managem.Feed.Inlet.{
  FeedKind, FrameSlot, SharedInlet, shared_inlet_init, frame_slot_init, frame_magic, slot_count,
  has_flag, lz4_compressed,
}
use mpmc_with_memory_managem.Feed.Ingress.{Store}
use mpmc_with_memory_managem.Feed.Reader.{is_mtbt, frame_of, ingest}

-- The arguments of a `publish` that is not refused.
pub record Frame : Type 0 where
  pub kind : FeedKind
  pub flags : ℕ
  pub bytes : List ℕ
  pub uncompressed_len : ℕ

-- The members in the order in which `publish` writes them.
unfoldable pub write_member : ℕ → Frame → FrameSlot → FrameSlot
write_member zero f s = record s { magic = frame_magic }
write_member (suc zero) f s = record s { kind = f.kind }
write_member (suc (suc zero)) f s = record s { flags = f.flags }
write_member (suc (suc (suc zero))) f s = record s { payload_len = length f.bytes % 2 ^ 32 }
write_member (suc (suc (suc (suc zero)))) f s = record s { uncompressed_len = f.uncompressed_len }
write_member (suc (suc (suc (suc (suc zero))))) f s = record s { reserved = 0 }
write_member (suc (suc (suc (suc (suc (suc zero)))))) f s = record s {
  payload = f.bytes ++ drop (length f.bytes) s.payload;
}
write_member _ f s = s

abbrev pub members_written : ℕ
members_written = 7

-- The members in the order in which the reader fetches them, into what it has fetched so far.
unfoldable pub fetch_member : ℕ → FrameSlot → FrameSlot → FrameSlot
fetch_member zero s got = record got { magic = s.magic }
fetch_member (suc zero) s got = record got { kind = s.kind }
fetch_member (suc (suc zero)) s got = record got { flags = s.flags }
fetch_member (suc (suc (suc zero))) s got = record got { payload_len = s.payload_len }
fetch_member (suc (suc (suc (suc zero)))) s got = record got {
  uncompressed_len = s.uncompressed_len;
}
fetch_member (suc (suc (suc (suc (suc zero))))) s got = record got { payload = s.payload }
fetch_member _ s got = got

abbrev pub members_fetched : ℕ
members_fetched = 6

pub data Writer : Type 0 where
  idle : Writer
  filling : Frame → (write members : ℕ) → Writer  -- in `publish`, `members` written
  shown : Frame → Writer  -- `published` stored
  called : Writer  -- `publish` has returned
  waiting : (sequence : ℕ) → Writer

pub data Fetcher : Type 0 where
  top : Fetcher  -- head of the loop in `run`
  loaded : (sequence : ℕ) → Fetcher
  fetching : (sequence index members : ℕ) → FrameSlot → Fetcher
  ingesting : (sequence : ℕ) → FrameSlot → (bytes : List ℕ) → Fetcher
  storing : (sequence : ℕ) → Fetcher  -- before the store of `processed`

-- `sent` lists the frames counted by `sequence`, `taken` what the reader has fetched of each frame
-- that it is done with: the two are no part of the program.
pub record System : Type 0 where
  pub inlet : SharedInlet
  pub writer : Writer
  pub reader : Fetcher
  pub last_sequence : ℕ
  pub running : Bool
  pub store : Store
  pub sent : List Frame
  pub taken : List FrameSlot

-- Whether the frame is dropped once `k` members are fetched, before the next one is.
unfoldable pub rejected : ℕ → FrameSlot → Bool
rejected (suc zero) got = not (got.magic == frame_magic)
rejected (suc (suc (suc (suc zero)))) got =
    got.payload_len == 0 || ltb frame_capacity got.payload_len
rejected (suc (suc (suc (suc (suc zero))))) got =
    (is_mtbt got.kind && has_flag got.flags lz4_compressed)
    && (got.uncompressed_len == 0 || ltb frame_capacity got.uncompressed_len)
rejected _ got = false

-- A new inlet, and a reader started on it.
unfoldable pub init : Store → System
unfolding shared_inlet_init
init store = record {
  inlet = shared_inlet_init;
  writer = idle;
  reader = top;
  last_sequence = 0;
  store = store;
  running = true;
  sent = [];
  taken = [];
}

module _ (decompress : List ℕ → ℕ → Option (List ℕ)) where
  -- The writer's steps, then the reader's, then `stop` of the reader, then what other threads do to
  -- the pool and the queue. `ingested` is possible only if the ingestion returns for some outcomes of
  -- the compare-exchanges and some number of attempts; it is one step.
  pub data Step (s : System) : System → Type 0 where
    refuse : s.writer ≡ idle → Step s (record s { writer = called })
    begin :
        (f : Frame)
        → s.writer ≡ idle
        → length f.bytes ≤ frame_capacity
        → Step s (record s { writer = filling f (1 - s.inlet.published % slot_count) 0 })
    write :
        {f : Frame} {w k : ℕ}
        → s.writer ≡ filling f w k
        → k < members_written
        → Step s (record s {
          inlet = record (s.inlet) {
            slots = set s.inlet.slots w (write_member k f (get_or s.inlet.slots w frame_slot_init));
          };
          writer = filling f w (suc k);
        })
    show :
        {f : Frame} {w k : ℕ}
        → s.writer ≡ filling f w k
        → k ≡ members_written
        → Step s (record s { inlet = record (s.inlet) { published = w }; writer = shown f })
    count :
        {f : Frame}
        → s.writer ≡ shown f
        → Step s (record s {
          inlet = record (s.inlet) { sequence = (s.inlet.sequence + 1) % 2 ^ 64 };
          writer = called;
          sent = s.sent ++ f ∷ [];
        })
    ask : s.writer ≡ called → Step s (record s { writer = waiting s.inlet.sequence })
    spin : {q : ℕ} → s.writer ≡ waiting q → s.inlet.processed < q → Step s s
    done :
        {q : ℕ} → s.writer ≡ waiting q → q ≤ s.inlet.processed → Step s (record s { writer = idle })
    load :
        s.reader ≡ top → s.running ≡ true → Step s (record s { reader = loaded s.inlet.sequence })
    same : {q : ℕ} → s.reader ≡ loaded q → q ≡ s.last_sequence → Step s (record s { reader = top })
    choose :
        {q : ℕ} (got : FrameSlot)
        → s.reader ≡ loaded q
        → q ≢ s.last_sequence
        → Step s (record s { reader = fetching q (s.inlet.published % slot_count) 0 got })
    fetch :
        {q i k : ℕ} {got : FrameSlot}
        → s.reader ≡ fetching q i k got
        → k < members_fetched
        → rejected k got ≡ false
        → Step s (record s {
          reader =
              fetching q i (suc k) (fetch_member k (get_or s.inlet.slots i frame_slot_init) got);
        })
    reject :
        {q i k : ℕ} {got : FrameSlot}
        → s.reader ≡ fetching q i k got
        → rejected k got ≡ true
        → Step s (record s { reader = storing q; last_sequence = q; taken = s.taken ++ got ∷ [] })
    discard :
        {q i k : ℕ} {got : FrameSlot}
        → s.reader ≡ fetching q i k got
        → k ≡ members_fetched
        → frame_of decompress got ≡ none
        → Step s (record s { reader = storing q; last_sequence = q; taken = s.taken ++ got ∷ [] })
    hand_on :
        {q i k : ℕ} {got : FrameSlot} {bytes : List ℕ}
        → s.reader ≡ fetching q i k got
        → k ≡ members_fetched
        → frame_of decompress got ≡ some bytes
        → Step s (record s { reader = ingesting q got bytes })
    ingested :
        (busy spurious : ℕ → Bool) (fuel turns : ℕ) {q : ℕ} {got : FrameSlot} {bytes : List ℕ}
        {store : Store}
        → s.reader ≡ ingesting q got bytes
        → ingest busy spurious fuel turns got.kind bytes s.store ≡ some store
        → Step s (record s {
          reader = storing q;
          last_sequence = q;
          store = store;
          taken = s.taken ++ got ∷ [];
        })
    acknowledge :
        {q : ℕ}
        → s.reader ≡ storing q
        → Step s (record s { inlet = record (s.inlet) { processed = q }; reader = top })
    stop : Step s (record s { running = false })
    elsewhere : (store : Store) → Step s (record s { store = store })

  pub data Reach (s : System) : System → Type 0 where
    here : Reach s s
    next : {t u : System} → Reach s t → Step t u → Reach s u
