-- ===== src/Feed/Handoff/Invariant/Outstanding.antt =====
-- A frame is sent, and the reader has not done with it.
use mathlib.Core.Path.{subst}
use mathlib.Core.List.{map-append}
use mpmc_with_memory_managem.Base.{
  List, Option, ℕ, suc, ◌%◌, ◌≡◌, inl, inr, sym, ap, ◌∙◌, refl, arith, [], ◌∷◌, ◌++◌, length,
  length-append, get_or, map,
}
use mpmc_with_memory_managem.Feed.Inlet.{FrameSlot, slot_count, frame_slot_init}
use mpmc_with_memory_managem.Feed.Handoff.{
  Writer, waiting, Fetcher, top, loaded, fetching, ingesting, storing, System, Step, refuse, begin,
  write, show, count, ask, spin, done, load, same, choose, fetch, reject, discard, hand_on,
  ingested, elsewhere, acknowledge, stop, members_written, fetch_member,
}
use mpmc_with_memory_managem.Feed.Handoff.Members.{
  Holds, Fetched, Fetched-fetch_member, handed, delivery, whole-handed, rejected-handed,
}
use mpmc_with_memory_managem.Feed.Ingress.{Store}
use mpmc_with_memory_managem.Feed.Handoff.Invariant.{
  Waits, Reads, Fresh, Taken, Phase, fresh, taken,
}

module _ (decompress : List ℕ → ℕ → Option (List ℕ)) where
  -- The reader is done with what it fetched, which is what was sent.
  done_with :
      {s : System} {q : ℕ} (got : FrameSlot) (store : Store)
      → (h : Fresh decompress s) → q ≡ suc (length h.before)
      → handed decompress got ≡ delivery decompress h.frame
      → Taken decompress (record s {
        reader = storing q;
        last_sequence = q;
        store = store;
        taken = s.taken ++ got ∷ [];
      })
  done_with {s} {q} got store h number agrees =
      let count : length s.sent ≡ suc (length h.before) =
        ap length h.sent ∙ omega (arith, length-append h.before (h.frame ∷ [])) in
      record {
        sequence = h.sequence ∙ sym count;
        processed = ap suc h.processed ∙ sym count;
        last = number ∙ sym count;
        waits = subst (λ n. Waits n s.writer) (sym count) h.waits;
        stores = number ∙ sym count;
        took =
            map-append (handed decompress) s.taken (got ∷ [])
            ∙ rw h.took (
                rw agrees (
                  sym (
                    ap (map (delivery decompress)) h.sent
                    ∙ map-append (delivery decompress) h.before (h.frame ∷ []))));
      }

  number_and_members :
      {s : System} {q i k : ℕ} {got : FrameSlot}
      → (h : Fresh decompress s) → s.reader ≡ fetching q i k got
      → (q ≡ suc (length h.before)) × Fetched k h.frame got
  number_and_members {s} h e =
      let (number, place, within, fetched) =
        subst (Reads decompress s.inlet (length h.before) h.frame) e h.reads in
      (number, fetched)

  fresh_writer :
      {s : System} (w : Writer)
      → (h : Fresh decompress s) → Waits (suc (length h.before)) w
      → Fresh decompress (record s { writer = w })
  fresh_writer w h k = record {
    before = h.before;
    frame = h.frame;
    sent = h.sent;
    fits = h.fits;
    sequence = h.sequence;
    processed = h.processed;
    last = h.last;
    waits = k;
    held = h.held;
    reads = h.reads;
    took = h.took;
  }

  fresh_reader :
      {s : System} (r : Fetcher)
      → (h : Fresh decompress s) → Reads decompress s.inlet (length h.before) h.frame r
      → Fresh decompress (record s { reader = r })
  fresh_reader r h k = record {
    before = h.before;
    frame = h.frame;
    sent = h.sent;
    fits = h.fits;
    sequence = h.sequence;
    processed = h.processed;
    last = h.last;
    waits = h.waits;
    held = h.held;
    reads = k;
    took = h.took;
  }

  pub fresh-Phase : {s t : System} → Fresh decompress s → Step decompress s t → Phase decompress t
  fresh-Phase {s} h (refuse e) = absurd (subst (Waits (suc (length h.before))) e h.waits)
  fresh-Phase {s} h (begin f e l) = absurd (subst (Waits (suc (length h.before))) e h.waits)
  fresh-Phase {s} h (write e l) = absurd (subst (Waits (suc (length h.before))) e h.waits)
  fresh-Phase {s} h (show e l) = absurd (subst (Waits (suc (length h.before))) e h.waits)
  fresh-Phase {s} h (count e) = absurd (subst (Waits (suc (length h.before))) e h.waits)
  fresh-Phase {s} h (ask e) = fresh (fresh_writer (waiting s.inlet.sequence) h h.sequence)
  fresh-Phase h (spin e l) = fresh h
  fresh-Phase {s} h (done e l) =
      let number = subst (Waits (suc (length h.before))) e h.waits in
      absurd (omega (arith, number, l, h.processed))
  fresh-Phase {s} h (load e r) = fresh (fresh_reader (loaded s.inlet.sequence) h (inr h.sequence))
  fresh-Phase h (same e q) = fresh (fresh_reader top h tt)
  fresh-Phase {s} h (choose got e ne) =
      elim (subst (Reads decompress s.inlet (length h.before) h.frame) e h.reads) [
        | inl old ↦ absurd (ne (old ∙ sym h.last))
        | inr new ↦ fresh (
            fresh_reader (fetching _ (s.inlet.published % slot_count) 0 got) h
              (new, refl, omega arith, tt))
      ]
  fresh-Phase {s} h (fetch {q = q} {i = i} {k = k} {got = got} e l r) =
      let (number, place, within, fetched) =
        subst (Reads decompress s.inlet (length h.before) h.frame) e h.reads in
      fresh (
        fresh_reader
          (fetching q i (suc k) (fetch_member k (get_or s.inlet.slots i frame_slot_init) got)) h
          (
            number,
            place,
            omega (arith, l),
            Fetched-fetch_member k h.frame (get_or s.inlet.slots i frame_slot_init) got l
                (subst (λ j. Holds members_written h.frame (get_or s.inlet.slots j frame_slot_init))
                  (sym place) h.held)
                fetched,
          ))
  fresh-Phase {s} h (reject {k = k} {got = got} e r) =
      let (number, fetched) = number_and_members h e in
      taken
        (done_with got s.store h number (rejected-handed decompress h.frame k got h.fits fetched r))
  fresh-Phase {s} h (discard {got = got} e l r) =
      let (number, fetched) = number_and_members h e in
      taken (
        done_with got s.store h number (
          whole-handed decompress h.frame got h.fits
            (subst (λ j. Fetched j h.frame got) l fetched)))
  fresh-Phase h (hand_on {q = q} {got = got} {bytes = bytes} e l r) =
      let (number, fetched) = number_and_members h e in
      fresh (
        fresh_reader (ingesting q got bytes) h
          (number, subst (λ j. Fetched j h.frame got) l fetched, r))
  fresh-Phase {s} h (ingested busy spurious fuel turns {got = got} {store = store} e r) =
      let (number, fetched, decoded) =
        subst (Reads decompress s.inlet (length h.before) h.frame) e h.reads in
      taken (done_with got store h number (whole-handed decompress h.frame got h.fits fetched))
  fresh-Phase {s} h (acknowledge e) =
      absurd (subst (Reads decompress s.inlet (length h.before) h.frame) e h.reads)
  fresh-Phase h stop = fresh (record {
    before = h.before;
    frame = h.frame;
    sent = h.sent;
    fits = h.fits;
    sequence = h.sequence;
    processed = h.processed;
    last = h.last;
    waits = h.waits;
    held = h.held;
    reads = h.reads;
    took = h.took;
  })
  fresh-Phase h (elsewhere store) = fresh (record {
    before = h.before;
    frame = h.frame;
    sent = h.sent;
    fits = h.fits;
    sequence = h.sequence;
    processed = h.processed;
    last = h.last;
    waits = h.waits;
    held = h.held;
    reads = h.reads;
    took = h.took;
  })
