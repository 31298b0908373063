-- ===== src/Feed/Handoff/Fifo.antt =====
-- The reader gets every frame once, in order and whole.
use mathlib.Core.Path.{subst}
use mathlib.Core.List.{append-nil}
use mpmc_with_memory_managem.Base.{
  ℕ, suc, ◌^◌, ◌≤◌, ◌<◌, ◌≡◌, refl, sym, ap, ◌∙◌, arith, Option, List, [], ◌∷◌, ◌++◌, length,
  length-append, get_or, map,
}
use mpmc_with_memory_managem.Feed.Inlet.{FrameSlot, frame_slot_init}
use mpmc_with_memory_managem.Feed.Ingress.{Store}
use mpmc_with_memory_managem.Feed.Handoff.{
  Frame, idle, fetching, System, Reach, init, members_written,
}
use mpmc_with_memory_managem.Feed.Handoff.Members.{Holds, Fetched, delivery, handed}
use mpmc_with_memory_managem.Feed.Handoff.Invariant.{
  Waits, Rests, Reads, Stores, Took, Phase, settled, fresh, taken,
}
use mpmc_with_memory_managem.Feed.Handoff.Invariant.Steps.{Reach-Inv}

-- The reader is at the last frame, which its slot holds and of which it has `k` members.
pub record IsWhole (s : System) (i k : ℕ) (got : FrameSlot) : Type 0 where
  pub before : List Frame
  pub frame : Frame
  pub last : s.sent ≡ before ++ frame ∷ []
  pub held : Holds members_written frame (get_or s.inlet.slots i frame_slot_init)
  pub fetched : Fetched k frame got

module _ (decompress : List ℕ → ℕ → Option (List ℕ)) where
  looking :
      {s : System} {q i k : ℕ} {got : FrameSlot}
      → Phase decompress s
      → s.reader ≡ fetching q i k got
      → Waits (length s.sent) s.writer × IsWhole s i k got
  looking {s} (settled h) e = absurd (subst (Rests (length s.sent)) e h.rests)
  looking {s} {k = k} {got = got} (fresh h) e =
      let (number, place, within, fetched) =
        subst (Reads decompress s.inlet (length h.before) h.frame) e h.reads in
      let count : suc (length h.before) ≡ length s.sent =
        omega (arith, length-append h.before (h.frame ∷ [])) ∙ sym (ap length h.sent) in
      (
        subst (λ n. Waits n s.writer) count h.waits,
        record {
          before = h.before;
          frame = h.frame;
          last = h.sent;
          held =
              subst (λ j. Holds members_written h.frame (get_or s.inlet.slots j frame_slot_init))
                (sym place) h.held;
          fetched = fetched;
        },
      )
  looking {s} (taken h) e = absurd (subst (Stores (length s.sent)) e h.stores)

  prefixed :
      {s : System}
      → Phase decompress s
      → (before late : List Frame) × (s.sent ≡ before ++ late)
        × (length late ≤ 1)
        × Took decompress s before
        × (s.writer ≡ idle → late ≡ [])
  prefixed {s} (settled h) = (s.sent, [], sym (append-nil s.sent), omega arith, h.took, λ e. refl)
  prefixed {s} (fresh h) = (
    h.before,
    h.frame ∷ [],
    h.sent,
    omega arith,
    h.took,
    λ e. absurd (subst (Waits (suc (length h.before))) e h.waits),
  )
  prefixed {s} (taken h) = (s.sent, [], sym (append-nil s.sent), omega arith, h.took, λ e. refl)

-- In every state that a writer and a reader of a new inlet can reach, one access at a time, after
-- fewer than 2 ^ 64 frames: what the reader made of the frames that it is done with is, in order,
-- what is to be made of the frames that were sent, the last at most missing; and none is missing
-- when the writer is not in a `publish` or a wait.
pub fifo_lem :
    (decompress : List ℕ → ℕ → Option (List ℕ)) (store : Store) {s : System}
    → Reach decompress (init store) s
    → length s.sent < 2 ^ 64
    → (before late : List Frame) × (s.sent ≡ before ++ late)
      × (length late ≤ 1)
      × (map (handed decompress) s.taken ≡ map (delivery decompress) before)
      × (s.writer ≡ idle → late ≡ [])
fifo_lem decompress store r small = prefixed decompress (Reach-Inv decompress store r small).phase

-- In every state that a writer and a reader of a new inlet can reach, one access at a time, after
-- fewer than 2 ^ 64 frames: while the reader fetches members of a slot, the writer has returned
-- from `publish` and does no more than wait, the slot holds the whole last frame, and the members
-- fetched are those of that frame.
pub no_torn_frame :
    (decompress : List ℕ → ℕ → Option (List ℕ)) (store : Store) {s : System} {q i k : ℕ}
    {got : FrameSlot}
    → Reach decompress (init store) s
    → length s.sent < 2 ^ 64
    → s.reader ≡ fetching q i k got
    → Waits (length s.sent) s.writer × IsWhole s i k got
no_torn_frame decompress store r small e =
    looking decompress (Reach-Inv decompress store r small).phase e
