-- ===== src/Feed/Handoff/Tests.antt =====
-- One frame on its way from the writer to the reader.
use mathlib.Core.Path.{subst}
use mpmc_with_memory_managem.Base.{
  ap, some, get_or, length-append, ℕ, ◌≤◌, ◌≡◌, refl, arith, true, List, [], ◌∷◌, ◌++◌, length, map,
  Option, none, Bool, false,
}
use mpmc_with_memory_managem.Feed.Inlet.{
  FeedKind, FrameSlot, shared_inlet_init, frame_slot_init, itch,
}
use mpmc_with_memory_managem.Pool.{slot_init}
use mpmc_with_memory_managem.Feed.Ingress.{Store}
use mpmc_with_memory_managem.Feed.Reader.{ingest}
use mpmc_with_memory_managem.Feed.Handoff.{
  Frame, idle, called, waiting, top, fetching, System, begin, write, show, count, ask, load, choose,
  write_member, Reach, here, next, init,
}
use mpmc_with_memory_managem.Feed.Handoff.Invariant.{Waits}
use mpmc_with_memory_managem.Feed.Handoff.Members.{handed, delivery}
use mpmc_with_memory_managem.Feed.Handoff.Fifo.{IsWhole, fifo_lem, no_torn_frame}
use mpmc_with_memory_managem.Feed.Handoff.Progress.{IsIngestible, wait_can_end}
use mpmc_with_memory_managem.Feed.Handoff.Hang.{stopped_reader_hangs}

-- A decoder that never succeeds.
abbrev no_decoder : List ℕ → ℕ → Option (List ℕ)
no_decoder input capacity = none

abbrev steady : ℕ → Bool
steady n = false

abbrev frame : Frame
frame = record { kind = itch; flags = 0; bytes = 0 ∷ 1 ∷ 65 ∷ []; uncompressed_len = 0 }

abbrev written : FrameSlot
written = write_member 6 frame (
    write_member 5 frame (
      write_member 4 frame (
        write_member 3 frame
          (write_member 2 frame (write_member 1 frame (write_member 0 frame frame_slot_init))))))

abbrev store : Store
store = record {
  pool = record { base = 384; slots = slot_init ∷ slot_init ∷ [] };
  queue = record { ring = 0 ∷ 0 ∷ []; post_cursor = 0; pop_cursor = 0 };
}

abbrev sent_one : System
sent_one = record {
  inlet = record {
    sequence = 1;
    processed = 0;
    published = 1;
    slots = frame_slot_init ∷ written ∷ [];
  };
  writer = called;
  reader = top;
  last_sequence = 0;
  running = true;
  store = store;
  sent = frame ∷ [];
  taken = [];
}

sent_one-Reach : Reach no_decoder (init store) sent_one
unfolding init shared_inlet_init
sent_one-Reach =
    next
      (next
        (next
          (next
            (next
              (next
                (next
                  (next
                    (next (next here (begin frame refl (omega arith))) (write refl (omega arith)))
                    (write refl (omega arith)))
                  (write refl (omega arith)))
                (write refl (omega arith)))
              (write refl (omega arith)))
            (write refl (omega arith)))
          (write refl (omega arith)))
        (show refl refl))
      (count refl)

abbrev looking : System
looking = record sent_one { reader = fetching 1 1 0 frame_slot_init }

no_torn_frame_example : Waits 1 called × IsWhole looking 1 0 frame_slot_init
no_torn_frame_example =
    no_torn_frame no_decoder store {s = looking}
      (next (next sent_one-Reach (load refl refl))
        (choose frame_slot_init refl (λ e. absurd (omega (arith, e)))))
      (omega arith) refl

fifo_lem_example :
    (before late : List Frame) × (frame ∷ [] ≡ before ++ late)
    × (length late ≤ 1)
    × (map (handed no_decoder) sent_one.taken ≡ map (delivery no_decoder) before)
    × (called ≡ idle → late ≡ [])
fifo_lem_example = fifo_lem no_decoder store {s = sent_one} sent_one-Reach (omega arith)

-- The message is too short for an order, so that its ingestion returns and keeps nothing.
itch_ingested : ingest steady steady 1 1 itch frame.bytes store ≡ some store
unfolding ingest
itch_ingested = refl

frame-IsIngestible : IsIngestible no_decoder frame store
frame-IsIngestible kind bytes e =
    subst
      (λ (p : FeedKind × List ℕ).
        (busy spurious : ℕ → Bool) × (fuel turns : ℕ) × (store' : Store) × (ingest busy spurious
            fuel turns p.0 p.1 store
          ≡ some store'))
      (ap (λ (o : Option (FeedKind × List ℕ)). elim o [ none ↦ (itch, []) | some p ↦ p ]) e)
      (steady, steady, 1, 1, store, itch_ingested)

sent_one-IsIngestible :
    (before : List Frame) (f : Frame)
    → frame ∷ [] ≡ before ++ f ∷ []
    → IsIngestible no_decoder f store
sent_one-IsIngestible [] f e =
    subst (λ f. IsIngestible no_decoder f store) (ap (λ fs. get_or fs 0 frame) e) frame-IsIngestible
sent_one-IsIngestible (x ∷ before) f e =
    absurd (omega (arith, ap (λ fs. length fs) e, length-append before (f ∷ [])))

wait_can_end_example :
    (t : System) × Reach no_decoder (record sent_one { writer = waiting 1 }) t
    × (t.writer ≡ idle)
    × (t.sent ≡ frame ∷ [])
wait_can_end_example =
    wait_can_end no_decoder store {s = record sent_one { writer = waiting 1 }}
      (next sent_one-Reach (ask refl)) (omega arith) refl refl sent_one-IsIngestible

stopped_reader_hangs_example :
    (s : System) × Reach no_decoder (init store) s
    × (s.sent ≡ frame ∷ [])
    × ((t : System) → Reach no_decoder s t → t.writer ≡ waiting 1)
stopped_reader_hangs_example = stopped_reader_hangs no_decoder store frame (omega arith)
