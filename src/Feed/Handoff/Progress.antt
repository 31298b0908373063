-- ===== src/Feed/Handoff/Progress.antt =====
-- While the reader runs and the ingestion of the frame returns, the writer's wait can end.
use mathlib.Core.Path.{subst}
use mpmc_with_memory_managem.Base.{
  ℕ, zero, suc, ◌+◌, ◌-◌, ◌%◌, ◌^◌, ◌≤◌, ◌<◌, ◌≡◌, ◌≢◌, refl, sym, ap, ◌∙◌, arith, inl, inr, Bool,
  true, Bool-cases, Option, none, some, List, [], ◌∷◌, ◌++◌, length, get_or,
}
use mathlib.Core.Option
use mpmc_with_memory_managem.Proto.Frame.{frame_capacity}
use mpmc_with_memory_managem.Feed.Inlet.{
  FeedKind, SharedInlet, slot_count, FrameSlot, frame_slot_init,
}
use mpmc_with_memory_managem.Feed.Ingress.{Store}
use mpmc_with_memory_managem.Feed.Reader.{frame_of, ingest}
use mpmc_with_memory_managem.Feed.Handoff.{
  Frame, idle, waiting, Fetcher, top, loaded, fetching, ingesting, storing, System, members_written,
  members_fetched, rejected, Step, done, load, same, choose, fetch, reject, discard, hand_on,
  ingested, acknowledge, Reach, here, next, init,
}
use mpmc_with_memory_managem.Feed.Handoff.Members.{
  Holds, Fetched, Fetched-fetch_member, delivery, whole-handed,
}
use mpmc_with_memory_managem.Feed.Handoff.Invariant.{
  Writes, Waits, Reads, Stores, Fresh, Taken, Phase, settled, fresh, taken,
}
use mpmc_with_memory_managem.Feed.Handoff.Invariant.Steps.{Reach-Inv}

-- The ingestion of what is to be made of the frame returns, if there is anything to ingest.
abbrev pub IsIngestible : (List ℕ → ℕ → Option (List ℕ)) → Frame → Store → Type 0
IsIngestible decompress f store =
    (kind : FeedKind) (bytes : List ℕ)
    → delivery decompress f ≡ some (kind, bytes)
    → (busy spurious : ℕ → Bool) × (fuel turns : ℕ) × (store' : Store) × (ingest busy spurious fuel
          turns kind bytes store
        ≡ some store')

module _ (decompress : List ℕ → ℕ → Option (List ℕ)) where
  first_step : {s t u : System} → Step decompress s t → Reach decompress t u → Reach decompress s u
  first_step st here = next here st
  first_step st (next r last) = next (first_step st r) last

  -- The writer is free again, and what was sent is what was sent.
  record Ends (s : System) : Type 0 where
    end : System
    reach : Reach decompress s end
    free : end.writer ≡ idle
    sent : end.sent ≡ s.sent

  after : {s t : System} → Step decompress s t → t.sent ≡ s.sent → Ends t → Ends s
  after st same_sent e = record {
    end = e.end;
    reach = first_step st e.reach;
    free = e.free;
    sent = e.sent ∙ same_sent;
  }

  served : {s : System} {q : ℕ} → s.writer ≡ waiting q → q ≤ s.inlet.processed → Ends s
  served {s} e l = record {
    end = record s { writer = idle };
    reach = next here (done e l);
    free = refl;
    sent = refl;
  }

  stored : {s : System} {q n : ℕ} → s.writer ≡ waiting q → s.reader ≡ storing n → q ≤ n → Ends s
  stored e r l = after (acknowledge r) refl (served e l)

  -- The published slot holds the frame, which can be ingested.
  record Serves (f : Frame) (inlet : SharedInlet) (store : Store) : Type 0 where
    fits : length f.bytes ≤ frame_capacity
    held :
        Holds members_written f (get_or inlet.slots (inlet.published % slot_count) frame_slot_init)
    ingestible : IsIngestible decompress f store

  ingest_on :
      {s : System} {q : ℕ} {got : FrameSlot} {bytes : List ℕ} (f : Frame)
      → Serves f s.inlet s.store
      → s.writer ≡ waiting q
      → s.reader ≡ ingesting q got bytes
      → Fetched members_fetched f got
      → frame_of decompress got ≡ some bytes
      → Ends s
  ingest_on {got = got} {bytes = bytes} f h e r fetched decoded =
      let (busy, spurious, fuel, turns, store, returned) = h.ingestible got.kind bytes (
        sym (whole-handed decompress f got h.fits fetched)
        ∙ ap (Option.map (λ bytes. (got.kind, bytes))) decoded) in
      after (ingested busy spurious fuel turns r returned) refl (stored e refl (omega arith))

  decode_on :
      {s : System} {q i k : ℕ} {got : FrameSlot} (f : Frame)
      → Serves f s.inlet s.store
      → s.writer ≡ waiting q
      → s.reader ≡ fetching q i k got
      → k ≡ members_fetched
      → Fetched k f got
      → (o : Option (List ℕ)) → frame_of decompress got ≡ o
      → Ends s
  decode_on f h e r all fetched none d = after (discard r all d) refl (stored e refl (omega arith))
  decode_on {got = got} f h e r all fetched (some bytes) d =
      after (hand_on r all d) refl
        (ingest_on f h e refl (subst (λ j. Fetched j f got) all fetched) d)

  read_on :
      (left : ℕ) {s : System} {q i k : ℕ} {got : FrameSlot} (f : Frame)
      → Serves f s.inlet s.store
      → s.writer ≡ waiting q
      → s.reader ≡ fetching q i k got
      → i ≡ s.inlet.published % slot_count
      → k + left ≡ members_fetched
      → Fetched k f got
      → Ends s
  read_on zero {got = got} f h e r place all fetched =
      decode_on f h e r (omega arith) fetched (frame_of decompress got) refl
  read_on (suc left) {s} {i = i} {k = k} {got = got} f h e r place all fetched =
      elim (Bool-cases (rejected k got)) [
        | inl bad ↦ after (reject r bad) refl (stored e refl (omega arith))
        | inr good ↦ after (fetch r (omega arith) good) refl (
            read_on left f h e refl place (omega arith) (
              Fetched-fetch_member k f (get_or s.inlet.slots i frame_slot_init) got (omega arith)
                (subst (λ j. Holds members_written f (get_or s.inlet.slots j frame_slot_init))
                  (sym place) h.held)
                fetched))
      ]

  chosen :
      {s : System} {q n : ℕ} (f : Frame)
      → Serves f s.inlet s.store
      → s.writer ≡ waiting q
      → n ≡ q
      → s.reader ≡ loaded n
      → n ≢ s.last_sequence
      → Ends s
  chosen f h e same_number r new =
      after (choose frame_slot_init (r ∙ ap loaded same_number) (λ x. new (same_number ∙ x))) refl
        (read_on 6 f h e refl refl refl tt)

  from_top :
      {s : System} {q : ℕ} (f : Frame)
      → Serves f s.inlet s.store
      → s.writer ≡ waiting q
      → s.running ≡ true
      → s.inlet.sequence ≡ q
      → q ≢ s.last_sequence
      → s.reader ≡ top
      → Ends s
  from_top f h e on number new r =
      after (load r on) refl (chosen f h e number refl (λ x. new (sym number ∙ x)))

  module _ {s : System} {q : ℕ} (e : s.writer ≡ waiting q) (on : s.running ≡ true)
      (ingestible : (before : List Frame) (f : Frame)
        → s.sent ≡ before ++ f ∷ []
        → IsIngestible decompress f s.store) where
    serves : (h : Fresh decompress s) → Serves h.frame s.inlet s.store
    serves h = record {
      fits = h.fits;
      held = h.held;
      ingestible = ingestible h.before h.frame h.sent;
    }

    not_taken : (h : Fresh decompress s) (r : Fetcher) → s.reader ≡ r → Ends s
    not_taken h top k =
        let number : q ≡ suc (length h.before) = subst (Waits (suc (length h.before))) e h.waits in
        from_top h.frame (serves h) e on (h.sequence ∙ sym number)
          (λ x. absurd (omega (arith, x, number, h.last))) k
    not_taken h (loaded n) k =
        let number : q ≡ suc (length h.before) = subst (Waits (suc (length h.before))) e h.waits in
        elim (subst (Reads decompress s.inlet (length h.before) h.frame) k h.reads) [
          | inl old ↦ after (same k (old ∙ sym h.last)) refl (
              from_top h.frame (serves h) e on (h.sequence ∙ sym number)
                (λ x. absurd (omega (arith, x, number, h.last))) refl)
          | inr new ↦
              chosen h.frame (serves h) e (new ∙ sym number) k
                (λ x. absurd (omega (arith, x, new, h.last)))
        ]
    not_taken h (fetching n i m got) k =
        let (number, place, within, fetched) =
          subst (Reads decompress s.inlet (length h.before) h.frame) k h.reads in
        let n_q : n ≡ q = number ∙ sym (subst (Waits (suc (length h.before))) e h.waits) in
        read_on (members_fetched - m) h.frame (serves h) e (k ∙ ap (λ x. fetching x i m got) n_q)
          place (omega (arith, within)) fetched
    not_taken h (ingesting n got bytes) k =
        let (number, fetched, decoded) =
          subst (Reads decompress s.inlet (length h.before) h.frame) k h.reads in
        let n_q : n ≡ q = number ∙ sym (subst (Waits (suc (length h.before))) e h.waits) in
        ingest_on h.frame (serves h) e (k ∙ ap (λ x. ingesting x got bytes) n_q) fetched decoded
    not_taken h (storing n) k =
        absurd (subst (Reads decompress s.inlet (length h.before) h.frame) k h.reads)

    not_acknowledged : (h : Taken decompress s) (r : Fetcher) → s.reader ≡ r → Ends s
    not_acknowledged h (storing n) k =
        let number = subst (Waits (length s.sent)) e h.waits in
        let stored_number = subst (Stores (length s.sent)) k h.stores in
        stored e k (omega (arith, number, stored_number))
    not_acknowledged h top k = absurd (subst (Stores (length s.sent)) k h.stores)
    not_acknowledged h (loaded n) k = absurd (subst (Stores (length s.sent)) k h.stores)
    not_acknowledged h (ingesting n got bytes) k =
        absurd (subst (Stores (length s.sent)) k h.stores)
    not_acknowledged h (fetching n i m got) k = absurd (subst (Stores (length s.sent)) k h.stores)

    ending : Phase decompress s → Ends s
    ending (settled h) =
        let number = subst (Writes s.inlet (length s.sent)) e h.writes in
        served e (omega (arith, number, h.processed))
    ending (fresh h) = not_taken h s.reader refl
    ending (taken h) = not_acknowledged h s.reader refl

-- In every state that a writer and a reader of a new inlet can reach, after fewer than 2 ^ 64
-- frames: if the writer waits, the reader has not been stopped, and the ingestion of what is to be
-- made of the last frame, if anything, returns from the present pool and queue for some outcomes of
-- the compare-exchanges and some number of attempts, then some steps lead to the end of the wait,
-- with no further frame sent.
pub wait_can_end :
    (decompress : List ℕ → ℕ → Option (List ℕ)) (store : Store) {s : System} {q : ℕ}
    → Reach decompress (init store) s
    → length s.sent < 2 ^ 64
    → s.writer ≡ waiting q
    → s.running ≡ true
    → ((before : List Frame) (f : Frame)
        → s.sent ≡ before ++ f ∷ []
        → IsIngestible decompress f s.store)
    → (t : System) × Reach decompress s t × (t.writer ≡ idle) × (t.sent ≡ s.sent)
wait_can_end decompress store r small e on ingestible =
    let w = ending decompress e on ingestible (Reach-Inv decompress store r small).phase in
    (w.end, w.reach, w.free, w.sent)
