-- ===== src/Feed/Handoff/Hang.antt =====
-- A writer waits for ever once the reader has been stopped.
use mathlib.Core.Path.{subst}
use mpmc_with_memory_managem.Base.{
  List, Option, ℕ, zero, suc, ◌≤◌, ◌<◌, ◌≡◌, refl, sym, ap, ◌∙◌, arith, false, [], ◌∷◌, ◌++◌,
  length,
}
use mpmc_with_memory_managem.Proto.Frame.{frame_capacity}
use mpmc_with_memory_managem.Feed.Inlet.{shared_inlet_init}
use mpmc_with_memory_managem.Feed.Ingress.{Store}
use mpmc_with_memory_managem.Feed.Handoff.{
  Frame, Writer, filling, waiting, Fetcher, top, System, Step, refuse, begin, write, show, count,
  ask, spin, done, load, same, choose, fetch, reject, discard, hand_on, ingested, elsewhere,
  acknowledge, stop, members_written, Reach, here, next, init,
}

-- The reader has left its loop, and the writer waits for more than it has acknowledged.
record IsStuck (q : ℕ) (s : System) : Type 0 where
  waits : s.writer ≡ waiting q
  left : s.reader ≡ top
  stopped : s.running ≡ false
  unserved : s.inlet.processed < q

abbrev IsWaiting : ℕ → Writer → Type 0
IsWaiting q (waiting r) = r ≡ q
IsWaiting q _ = ⊥

abbrev IsTop : Fetcher → Type 0
IsTop top = Unit
IsTop _ = ⊥

module _ (decompress : List ℕ → ℕ → Option (List ℕ)) where
  Step-IsStuck : {q : ℕ} {s t : System} → Step decompress s t → IsStuck q s → IsStuck q t
  Step-IsStuck {q} (refuse e) h = absurd (subst (IsWaiting q) (sym h.waits ∙ e) refl)
  Step-IsStuck {q} (begin f e l) h = absurd (subst (IsWaiting q) (sym h.waits ∙ e) refl)
  Step-IsStuck {q} (write e l) h = absurd (subst (IsWaiting q) (sym h.waits ∙ e) refl)
  Step-IsStuck {q} (show e l) h = absurd (subst (IsWaiting q) (sym h.waits ∙ e) refl)
  Step-IsStuck {q} (count e) h = absurd (subst (IsWaiting q) (sym h.waits ∙ e) refl)
  Step-IsStuck {q} (ask e) h = absurd (subst (IsWaiting q) (sym h.waits ∙ e) refl)
  Step-IsStuck (spin e l) h = h
  Step-IsStuck {q} (done e l) h =
      let number = subst (IsWaiting q) (sym h.waits ∙ e) refl in
      absurd (omega (arith, number, l, h.unserved))
  Step-IsStuck (load e r) h = absurd cc
  Step-IsStuck (same e n) h = absurd (subst IsTop (sym h.left ∙ e) tt)
  Step-IsStuck (choose got e n) h = absurd (subst IsTop (sym h.left ∙ e) tt)
  Step-IsStuck (fetch e l r) h = absurd (subst IsTop (sym h.left ∙ e) tt)
  Step-IsStuck (reject e r) h = absurd (subst IsTop (sym h.left ∙ e) tt)
  Step-IsStuck (discard e l r) h = absurd (subst IsTop (sym h.left ∙ e) tt)
  Step-IsStuck (hand_on e l r) h = absurd (subst IsTop (sym h.left ∙ e) tt)
  Step-IsStuck (ingested busy spurious fuel turns e r) h = absurd (subst IsTop (sym h.left ∙ e) tt)
  Step-IsStuck (elsewhere store) h = record {
    waits = h.waits;
    left = h.left;
    stopped = h.stopped;
    unserved = h.unserved;
  }
  Step-IsStuck (acknowledge e) h = absurd (subst IsTop (sym h.left ∙ e) tt)
  Step-IsStuck stop h = record {
    waits = h.waits;
    left = h.left;
    stopped = refl;
    unserved = h.unserved;
  }

  Reach-IsStuck : {q : ℕ} {s t : System} → Reach decompress s t → IsStuck q s → IsStuck q t
  Reach-IsStuck here h = h
  Reach-IsStuck (next r st) h = Step-IsStuck st (Reach-IsStuck r h)

-- The state in which `k` members of the first frame are written.
record IsFilled (f : Frame) (k : ℕ) (s : System) : Type 0 where
  writing : s.writer ≡ filling f 1 k
  reader : s.reader ≡ top
  sequence : s.inlet.sequence ≡ 0
  processed : s.inlet.processed ≡ 0
  sent : s.sent ≡ []

module _ (decompress : List ℕ → ℕ → Option (List ℕ)) (store : Store) where
  filled :
      (f : Frame) (k : ℕ)
      → length f.bytes ≤ frame_capacity
      → k ≤ members_written
      → (s : System) × Reach decompress (init store) s × IsFilled f k s
  unfolding init shared_inlet_init
  filled f zero fits l = (
    record (init store) { writer = filling f 1 0 },
    next here (begin f refl fits),
    record { writing = refl; reader = refl; sequence = refl; processed = refl; sent = refl },
  )
  filled f (suc k) fits l =
      let (s, r, h) = filled f k fits (omega arith) in
      (
        _,
        next r (write h.writing (omega arith)),
        record {
          writing = refl;
          reader = h.reader;
          sequence = h.sequence;
          processed = h.processed;
          sent = h.sent;
        },
      )

-- For any frame that fits, a writer and a reader of a new inlet can reach a state, that frame sent
-- and the reader stopped, from which on the writer waits in every state that they can reach.
pub stopped_reader_hangs :
    (decompress : List ℕ → ℕ → Option (List ℕ)) (store : Store) (f : Frame)
    → length f.bytes ≤ frame_capacity
    → (s : System) × Reach decompress (init store) s
      × (s.sent ≡ f ∷ [])
      × ((t : System) → Reach decompress s t → t.writer ≡ waiting 1)
stopped_reader_hangs decompress store f fits =
    let (s, r, h) = filled decompress store f members_written fits (omega arith) in
    (
      _,
      next (next (next (next r (show h.writing refl)) (count refl)) (ask refl)) stop,
      ap (λ fs. fs ++ f ∷ []) h.sent,
      λ t u.
          (Reach-IsStuck decompress u (record {
            waits = ap waiting (omega (arith, h.sequence));
            left = h.reader;
            stopped = refl;
            unserved = omega (arith, h.processed);
          })).waits,
    )
