-- ===== src/Feed/Handoff/Invariant.antt =====
-- Which of the two is at the inlet: the reader looks into a slot only while the writer waits.
mod Filling
mod Outstanding
pub mod Steps
use mathlib.Core.Path.{subst}
use mathlib.Core.List.{map-append}
use mpmc_with_memory_managem.Base.{
  ℕ, zero, suc, ◌+◌, ◌-◌, ◌%◌, ◌^◌, ◌≤◌, ◌<◌, ◌≡◌, ◌≢◌, ◌⊎◌, inl, inr, sym, ap, ◌∙◌, refl, arith,
  Bool, Option, some, List, [], ◌∷◌, ◌++◌, length, length-append, length-set, get_or,
  get_or-set_self, get_or-set_ne, set, map,
}
use mpmc_with_memory_managem.Proto.Frame.{frame_capacity}
use mpmc_with_memory_managem.Feed.Inlet.{
  FeedKind, FrameSlot, SharedInlet, shared_inlet_init, slot_count, frame_slot_init,
}
use mpmc_with_memory_managem.Feed.Handoff.{
  Frame, Writer, idle, filling, shown, called, waiting, Fetcher, top, loaded, fetching, ingesting,
  storing, System, members_written, members_fetched,
}
use mpmc_with_memory_managem.Feed.Reader.{frame_of}
use mpmc_with_memory_managem.Feed.Handoff.Members.{
  Holds, Holds-write_member, Fetched, Fetched-fetch_member, delivery, handed,
}

-- What the writer may be at while nothing is outstanding, with `n` frames sent.
abbrev pub Writes : SharedInlet → ℕ → Writer → Type 0
Writes inlet n idle = Unit
Writes inlet n (filling f w k) =
    (w ≡ 1 - inlet.published % slot_count)
    × Holds k f (get_or inlet.slots w frame_slot_init)
    × (length f.bytes ≤ frame_capacity)
Writes inlet n (shown f) =
    Holds members_written f (get_or inlet.slots (inlet.published % slot_count) frame_slot_init)
    × (length f.bytes ≤ frame_capacity)
Writes inlet n called = Unit
Writes inlet n (waiting q) = q ≡ n

-- The writer waits, or is about to, for the `n`-th frame.
abbrev pub Waits : ℕ → Writer → Type 0
Waits n called = Unit
Waits n (waiting q) = q ≡ n
Waits n _ = ⊥

-- The reader is at rest, and has seen `n` frames at most.
abbrev pub Rests : ℕ → Fetcher → Type 0
Rests n top = Unit
Rests n (loaded q) = q ≡ n
Rests n _ = ⊥

-- The reader has not finished the frame `f`, which `m` frames precede.
abbrev pub Reads : (List ℕ → ℕ → Option (List ℕ)) → SharedInlet → ℕ → Frame → Fetcher → Type 0
Reads decompress inlet m f top = Unit
Reads decompress inlet m f (loaded q) = (q ≡ m) ⊎ (q ≡ suc m)
Reads decompress inlet m f (fetching q i k got) =
    (q ≡ suc m) × (i ≡ inlet.published % slot_count) × (k ≤ members_fetched) × Fetched k f got
Reads decompress inlet m f (ingesting q got bytes) =
    (q ≡ suc m) × Fetched members_fetched f got × (frame_of decompress got ≡ some bytes)
Reads decompress inlet m f (storing q) = ⊥

abbrev pub Stores : ℕ → Fetcher → Type 0
Stores n (storing q) = q ≡ n
Stores n _ = ⊥

module _ (decompress : List ℕ → ℕ → Option (List ℕ)) where
  -- The reader has taken these frames, in this order, each as it was sent.
  abbrev pub Took : System → List Frame → Type 0
  Took s fs = map (handed decompress) s.taken ≡ map (delivery decompress) fs

  -- All frames are taken and acknowledged.
  pub record Settled (s : System) : Type 0 where
    pub sequence : s.inlet.sequence ≡ length s.sent
    pub processed : s.inlet.processed ≡ length s.sent
    pub last : s.last_sequence ≡ length s.sent
    pub writes : Writes s.inlet (length s.sent) s.writer
    pub rests : Rests (length s.sent) s.reader
    pub took : Took s s.sent

  -- The last frame is not taken.
  pub record Fresh (s : System) : Type 0 where
    pub before : List Frame
    pub frame : Frame
    pub sent : s.sent ≡ before ++ frame ∷ []
    pub fits : length frame.bytes ≤ frame_capacity
    pub sequence : s.inlet.sequence ≡ suc (length before)
    pub processed : s.inlet.processed ≡ length before
    pub last : s.last_sequence ≡ length before
    pub waits : Waits (suc (length before)) s.writer
    pub held :
        Holds members_written frame
          (get_or s.inlet.slots (s.inlet.published % slot_count) frame_slot_init)
    pub reads : Reads decompress s.inlet (length before) frame s.reader
    pub took : Took s before

  -- The last frame is taken, and not acknowledged.
  pub record Taken (s : System) : Type 0 where
    pub sequence : s.inlet.sequence ≡ length s.sent
    pub processed : suc s.inlet.processed ≡ length s.sent
    pub last : s.last_sequence ≡ length s.sent
    pub waits : Waits (length s.sent) s.writer
    pub stores : Stores (length s.sent) s.reader
    pub took : Took s s.sent

  pub data Phase (s : System) : Type 0 where
    settled : Settled s → Phase s
    fresh : Fresh s → Phase s
    taken : Taken s → Phase s

  pub record Inv (s : System) : Type 0 where
    pub two : length s.inlet.slots ≡ slot_count
    pub phase : Phase s
