-- ===== src/Feed/Handoff/Invariant/Filling.antt =====
-- The writer writes, or nothing is outstanding.
use mathlib.Core.Path.{subst}
use mpmc_with_memory_managem.Base.{
  List, Option, ℕ, suc, ◌+◌, ◌-◌, ◌%◌, ◌^◌, ◌<◌, ◌≡◌, inl, sym, ◌∙◌, refl, arith, [], ◌∷◌, ◌++◌,
  length, length-append, get_or, get_or-set_self, set,
}
use mpmc_with_memory_managem.Feed.Inlet.{SharedInlet, slot_count, frame_slot_init}
use mpmc_with_memory_managem.Feed.Handoff.{
  Frame, Writer, idle, filling, shown, called, waiting, Fetcher, top, loaded, fetching, ingesting,
  storing, System, Step, refuse, begin, write, show, count, ask, spin, done, load, same, choose,
  fetch, reject, discard, hand_on, ingested, elsewhere, acknowledge, stop, members_written,
  write_member,
}
use mpmc_with_memory_managem.Feed.Handoff.Members.{Holds, Holds-write_member}
use mpmc_with_memory_managem.Feed.Handoff.Invariant.{
  Writes, Rests, Reads, Settled, Fresh, Phase, settled, fresh,
}

module _ (decompress : List ℕ → ℕ → Option (List ℕ)) where
  pub Rests-Reads :
      (inlet : SharedInlet) (n : ℕ) (f : Frame) (r : Fetcher)
      → Rests n r
      → Reads decompress inlet n f r
  Rests-Reads inlet n f top h = tt
  Rests-Reads inlet n f (loaded q) h = inl h
  Rests-Reads inlet n f (fetching q i k got) h = absurd h
  Rests-Reads inlet n f (ingesting q got bytes) h = absurd h
  Rests-Reads inlet n f (storing q) h = absurd h

  begun :
      {s : System} {f : Frame} {w k : ℕ}
      → length s.inlet.slots ≡ slot_count
      → Settled decompress s
      → s.writer ≡ filling f w k
      → k < members_written
      → Settled decompress (record s {
        inlet = record (s.inlet) {
          slots = set s.inlet.slots w (write_member k f (get_or s.inlet.slots w frame_slot_init));
        };
        writer = filling f w (suc k);
      })
  begun {s} {f} {w} {k} two h e l =
      let (place, holds, fits) = subst (Writes s.inlet (length s.sent)) e h.writes in
      record {
        sequence = h.sequence;
        processed = h.processed;
        last = h.last;
        rests = h.rests;
        took = h.took;
        writes = (
          place,
          subst (Holds (suc k) f)
              (sym (
                get_or-set_self s.inlet.slots w
                  (write_member k f (get_or s.inlet.slots w frame_slot_init)) frame_slot_init
                  (omega (arith, place, two))))
              (Holds-write_member k f (get_or s.inlet.slots w frame_slot_init) l holds),
          fits,
        );
      }

  shown_whole :
      {s : System} {f : Frame} {w k : ℕ}
      → Settled decompress s
      → s.writer ≡ filling f w k
      → k ≡ members_written
      → Settled decompress
          (record s { inlet = record (s.inlet) { published = w }; writer = shown f })
  shown_whole {s} {f} {w} {k} h e l =
      let (place, holds, fits) = subst (Writes s.inlet (length s.sent)) e h.writes in
      let same_place : w ≡ w % slot_count = omega (arith, place) in
      record {
        sequence = h.sequence;
        processed = h.processed;
        last = h.last;
        rests = h.rests;
        took = h.took;
        writes = (
          subst (λ i. Holds members_written f (get_or s.inlet.slots i frame_slot_init)) same_place
              (subst (λ j. Holds j f (get_or s.inlet.slots w frame_slot_init)) l holds),
          fits,
        );
      }

  counted :
      {s : System} {f : Frame}
      → Settled decompress s
      → s.writer ≡ shown f
      → length (s.sent ++ f ∷ []) < 2 ^ 64
      → Fresh decompress (record s {
        inlet = record (s.inlet) { sequence = (s.inlet.sequence + 1) % 2 ^ 64 };
        writer = called;
        sent = s.sent ++ f ∷ [];
      })
  counted {s} {f} h e small =
      let (holds, fits) = subst (Writes s.inlet (length s.sent)) e h.writes in
      record {
        before = s.sent;
        frame = f;
        sent = refl;
        fits = fits;
        sequence = omega (arith, h.sequence, small, length-append s.sent (f ∷ []));
        processed = h.processed;
        last = h.last;
        waits = tt;
        held = holds;
        reads = Rests-Reads s.inlet (length s.sent) f s.reader h.rests;
        took = h.took;
      }

  with_writer :
      {s : System} (w : Writer)
      → Settled decompress s
      → Writes s.inlet (length s.sent) w
      → Settled decompress (record s { writer = w })
  with_writer w h k = record {
    sequence = h.sequence;
    processed = h.processed;
    last = h.last;
    writes = k;
    rests = h.rests;
    took = h.took;
  }

  with_reader :
      {s : System} (r : Fetcher)
      → Settled decompress s
      → Rests (length s.sent) r
      → Settled decompress (record s { reader = r })
  with_reader r h k = record {
    sequence = h.sequence;
    processed = h.processed;
    last = h.last;
    writes = h.writes;
    rests = k;
    took = h.took;
  }

  pub settled-Phase :
      {s t : System}
      → length s.inlet.slots ≡ slot_count
      → Settled decompress s
      → Step decompress s t
      → length t.sent < 2 ^ 64
      → Phase decompress t
  settled-Phase two h (refuse e) small = settled (with_writer called h tt)
  settled-Phase {s} two h (begin f e l) small =
      settled (with_writer (filling f (1 - s.inlet.published % slot_count) 0) h (refl, tt, l))
  settled-Phase two h (write e l) small = settled (begun two h e l)
  settled-Phase two h (show e l) small = settled (shown_whole h e l)
  settled-Phase two h (count e) small = fresh (counted h e small)
  settled-Phase {s} two h (ask e) small =
      settled (with_writer (waiting s.inlet.sequence) h h.sequence)
  settled-Phase two h (spin e l) small = settled h
  settled-Phase two h (done e l) small = settled (with_writer idle h tt)
  settled-Phase {s} two h (load e r) small =
      settled (with_reader (loaded s.inlet.sequence) h h.sequence)
  settled-Phase two h (same e q) small = settled (with_reader top h tt)
  settled-Phase {s} two h (choose got e ne) small =
      absurd (ne (subst (Rests (length s.sent)) e h.rests ∙ sym h.last))
  settled-Phase {s} two h (fetch e l r) small = absurd (subst (Rests (length s.sent)) e h.rests)
  settled-Phase {s} two h (reject e r) small = absurd (subst (Rests (length s.sent)) e h.rests)
  settled-Phase {s} two h (discard e l r) small = absurd (subst (Rests (length s.sent)) e h.rests)
  settled-Phase {s} two h (hand_on e l r) small = absurd (subst (Rests (length s.sent)) e h.rests)
  settled-Phase {s} two h (ingested busy spurious fuel turns e r) small =
      absurd (subst (Rests (length s.sent)) e h.rests)
  settled-Phase {s} two h (acknowledge e) small = absurd (subst (Rests (length s.sent)) e h.rests)
  settled-Phase two h stop small = settled (record {
    sequence = h.sequence;
    processed = h.processed;
    last = h.last;
    writes = h.writes;
    rests = h.rests;
    took = h.took;
  })
  settled-Phase two h (elsewhere store) small = settled (record {
    sequence = h.sequence;
    processed = h.processed;
    last = h.last;
    writes = h.writes;
    rests = h.rests;
    took = h.took;
  })
