-- ===== src/Feed/Handoff/Invariant/Steps.antt =====
-- Every reachable state is in one of the three phases.
use mathlib.Core.Path.{subst}
use mpmc_with_memory_managem.Base.{
  List, Option, ℕ, ◌^◌, ◌≤◌, ◌<◌, ◌≡◌, ◌∙◌, refl, arith, [], ◌∷◌, length, length-append, length-set,
}
use mpmc_with_memory_managem.Feed.Inlet.{SharedInlet, shared_inlet_init, slot_count}
use mpmc_with_memory_managem.Feed.Ingress.{Store}
use mpmc_with_memory_managem.Feed.Handoff.{
  Writer, idle, filling, shown, called, waiting, top, storing, System, Step, refuse, begin, write,
  show, count, ask, spin, done, load, same, choose, fetch, reject, discard, hand_on, ingested,
  elsewhere, acknowledge, stop, init, Reach, here, next,
}
use mpmc_with_memory_managem.Feed.Handoff.Invariant.{
  Writes, Waits, Stores, Settled, Taken, Phase, settled, fresh, taken, Inv,
}
use mpmc_with_memory_managem.Feed.Handoff.Invariant.Filling.{settled-Phase}
use mpmc_with_memory_managem.Feed.Handoff.Invariant.Outstanding.{fresh-Phase}

module _ (decompress : List ℕ → ℕ → Option (List ℕ)) where
  waits-Writes : (inlet : SharedInlet) (n : ℕ) (w : Writer) → Waits n w → Writes inlet n w
  waits-Writes inlet n called h = tt
  waits-Writes inlet n (waiting q) h = h
  waits-Writes inlet n idle h = absurd h
  waits-Writes inlet n (filling f w k) h = absurd h
  waits-Writes inlet n (shown f) h = absurd h

  init-Inv : (store : Store) → Inv decompress (init store)
  unfolding init shared_inlet_init
  init-Inv store = record {
    two = refl;
    phase = settled (record {
      sequence = refl;
      processed = refl;
      last = refl;
      writes = tt;
      rests = tt;
      took = refl;
    });
  }

  acknowledged :
      {s : System} {q : ℕ}
      → Taken decompress s
      → s.reader ≡ storing q
      → Settled decompress (record s { inlet = record (s.inlet) { processed = q }; reader = top })
  acknowledged {s} {q} h e = record {
    sequence = h.sequence;
    processed = subst (Stores (length s.sent)) e h.stores;
    last = h.last;
    writes = waits-Writes (record (s.inlet) { processed = q }) (length s.sent) s.writer h.waits;
    rests = tt;
    took = h.took;
  }

  Taken-writer :
      {s : System} (w : Writer)
      → Taken decompress s
      → Waits (length s.sent) w
      → Taken decompress (record s { writer = w })
  Taken-writer w h k = record {
    sequence = h.sequence;
    processed = h.processed;
    last = h.last;
    waits = k;
    stores = h.stores;
    took = h.took;
  }

  taken-Phase : {s t : System} → Taken decompress s → Step decompress s t → Phase decompress t
  taken-Phase {s} h (refuse e) = absurd (subst (Waits (length s.sent)) e h.waits)
  taken-Phase {s} h (begin f e l) = absurd (subst (Waits (length s.sent)) e h.waits)
  taken-Phase {s} h (write e l) = absurd (subst (Waits (length s.sent)) e h.waits)
  taken-Phase {s} h (show e l) = absurd (subst (Waits (length s.sent)) e h.waits)
  taken-Phase {s} h (count e) = absurd (subst (Waits (length s.sent)) e h.waits)
  taken-Phase {s} h (ask e) = taken (Taken-writer (waiting s.inlet.sequence) h h.sequence)
  taken-Phase h (spin e l) = taken h
  taken-Phase {s} h (done e l) =
      let number = subst (Waits (length s.sent)) e h.waits in
      absurd (omega (arith, number, l, h.processed))
  taken-Phase {s} h (load e r) = absurd (subst (Stores (length s.sent)) e h.stores)
  taken-Phase {s} h (same e q) = absurd (subst (Stores (length s.sent)) e h.stores)
  taken-Phase {s} h (choose got e ne) = absurd (subst (Stores (length s.sent)) e h.stores)
  taken-Phase {s} h (fetch e l r) = absurd (subst (Stores (length s.sent)) e h.stores)
  taken-Phase {s} h (reject e r) = absurd (subst (Stores (length s.sent)) e h.stores)
  taken-Phase {s} h (discard e l r) = absurd (subst (Stores (length s.sent)) e h.stores)
  taken-Phase {s} h (hand_on e l r) = absurd (subst (Stores (length s.sent)) e h.stores)
  taken-Phase {s} h (ingested busy spurious fuel turns e r) =
      absurd (subst (Stores (length s.sent)) e h.stores)
  taken-Phase h (acknowledge e) = settled (acknowledged h e)
  taken-Phase h stop = taken (record {
    sequence = h.sequence;
    processed = h.processed;
    last = h.last;
    waits = h.waits;
    stores = h.stores;
    took = h.took;
  })
  taken-Phase h (elsewhere store) = taken (record {
    sequence = h.sequence;
    processed = h.processed;
    last = h.last;
    waits = h.waits;
    stores = h.stores;
    took = h.took;
  })

-- No step changes the number of slots, or takes a frame back.
Step-keeps :
    {decompress : List ℕ → ℕ → Option (List ℕ)} {s t : System}
    → Step decompress s t
    → (length t.inlet.slots ≡ length s.inlet.slots) × (length s.sent ≤ length t.sent)
Step-keeps {s} (count {f = f} e) = (refl, omega (arith, length-append s.sent (f ∷ [])))
Step-keeps {s} (write {f = f} {w = w} {k = k} e l) = (length-set s.inlet.slots w _, omega arith)
Step-keeps (refuse e) = (refl, omega arith)
Step-keeps (begin f e l) = (refl, omega arith)
Step-keeps (show e l) = (refl, omega arith)
Step-keeps (ask e) = (refl, omega arith)
Step-keeps (spin e l) = (refl, omega arith)
Step-keeps (done e l) = (refl, omega arith)
Step-keeps (load e r) = (refl, omega arith)
Step-keeps (same e q) = (refl, omega arith)
Step-keeps (choose got e ne) = (refl, omega arith)
Step-keeps (fetch e l r) = (refl, omega arith)
Step-keeps (reject e r) = (refl, omega arith)
Step-keeps (discard e l r) = (refl, omega arith)
Step-keeps (hand_on e l r) = (refl, omega arith)
Step-keeps (ingested busy spurious fuel turns e r) = (refl, omega arith)
Step-keeps (elsewhere store) = (refl, omega arith)
Step-keeps (acknowledge e) = (refl, omega arith)
Step-keeps stop = (refl, omega arith)

module _ (decompress : List ℕ → ℕ → Option (List ℕ)) where
  Step-Phase :
      {s t : System}
      → length s.inlet.slots ≡ slot_count
      → Phase decompress s
      → Step decompress s t
      → length t.sent < 2 ^ 64
      → Phase decompress t
  Step-Phase two (settled h) st small = settled-Phase decompress two h st small
  Step-Phase two (fresh h) st small = fresh-Phase decompress h st
  Step-Phase two (taken h) st small = taken-Phase decompress h st

  pub Reach-Inv :
      (store : Store) {s : System}
      → Reach decompress (init store) s
      → length s.sent < 2 ^ 64
      → Inv decompress s
  Reach-Inv store here small = init-Inv decompress store
  Reach-Inv store (next r st) small =
      let (kept, grown) = Step-keeps st in
      let before = Reach-Inv store r (omega (arith, grown, small)) in
      record { two = kept ∙ before.two; phase = Step-Phase before.two before.phase st small }
