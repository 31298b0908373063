-- ===== src/Feed/Multicast/Served.antt =====
-- A round of the hub's loop: what it receives is published, counted and acknowledged.
use mathlib.Core.Option
use mathlib.Core.Path.{subst}
use mpmc_with_memory_managem.Base.{
  ℕ, zero, suc, ◌+◌, ◌%◌, ◌^◌, ◌≤◌, ◌≢◌, ◌<◌, ◌≡◌, refl, sym, ap, ◌∙◌, arith, inl, inr, Bool-cases,
  Option, none, some, List, length, get_or, ltb,
}
use mpmc_with_memory_managem.Proto.Frame.{frame_capacity}
use mpmc_with_memory_managem.Trading.Ledger.{Each, Each-map}
use mpmc_with_memory_managem.Net.{Network}
use mpmc_with_memory_managem.Feed.Inlet.{
  SharedInlet, frame_slot_init, publish, published_slot, slot_count,
}
use mpmc_with_memory_managem.Feed.Publish.{IsFrame, publish_lem}
use mpmc_with_memory_managem.Feed.Multicast.{
  MulticastChannel, MulticastHub, counted, kind_of, wait_until_processed, publish_to,
  publish_datagram,
}

-- The other threads do no more to the inlet than store `processed`.
pub record IsReader (moves : ℕ → SharedInlet → SharedInlet) : Type 0 where
  pub slots : (n : ℕ) (inlet : SharedInlet) → (moves n inlet).slots ≡ inlet.slots
  pub published : (n : ℕ) (inlet : SharedInlet) → (moves n inlet).published ≡ inlet.published
  pub sequence : (n : ℕ) (inlet : SharedInlet) → (moves n inlet).sequence ≡ inlet.sequence

-- What the other threads have done after `k` loads, from the `n`-th on.
unfoldable pub moved : (ℕ → SharedInlet → SharedInlet) → (n k : ℕ) → SharedInlet → SharedInlet
moved moves n zero inlet = inlet
moved moves n (suc k) inlet = moved moves (n + 1) k (moves n inlet)

-- The wait ends if they have processed the frame by one of the loads.
wait_returns :
    (moves : ℕ → SharedInlet → SharedInlet) (k fuel n sequence : ℕ) (inlet : SharedInlet)
    → k < fuel
    → sequence ≤ (moved moves n k inlet).processed
    → wait_until_processed moves fuel n sequence inlet ≢ none
unfolding wait_until_processed moved
wait_returns moves k zero n sequence inlet h seen = absurd omega (arith, h)
wait_returns moves zero (suc fuel) n sequence inlet h seen =
    elim (Bool-cases (ltb inlet.processed sequence)) [
      | inr e ↦ rw e (λ z. absurd cc)
      | inl e ↦ absurd ground (arith, e, seen)
    ]
wait_returns moves (suc k) (suc fuel) n sequence inlet h seen =
    elim (Bool-cases (ltb inlet.processed sequence)) [
      | inr e ↦ rw e (λ z. absurd cc)
      | inl e ↦
          rw e (wait_returns moves k fuel (n + 1) sequence (moves n inlet) (omega (arith, h)) seen)
    ]

map_some : {A B : Type 0} → (f : A → B) (o : Option A) → o ≢ none → Option.map f o ≢ none
map_some f none h = λ z. h refl
map_some f (some x) h = λ z. absurd cc

-- What is left after a wait.
record IsWaited (sequence : ℕ) (inlet inlet' : SharedInlet) : Type 0 where
  processed : sequence ≤ inlet'.processed
  slots : inlet'.slots ≡ inlet.slots
  published : inlet'.published ≡ inlet.published
  kept : inlet'.sequence ≡ inlet.sequence

module _ {moves : ℕ → SharedInlet → SharedInlet} (reader : IsReader moves) where
  waited :
      (fuel n sequence : ℕ) (inlet : SharedInlet)
      → Each (IsWaited sequence inlet) (wait_until_processed moves fuel n sequence inlet)
  unfolding wait_until_processed
  waited zero n sequence inlet = tt
  waited (suc fuel) n sequence inlet = elim (Bool-cases (ltb inlet.processed sequence)) [
    | inr e ↦
        rw e (record { processed = ground (arith, e); slots = refl; published = refl; kept = refl })
    | inl e ↦ rw e (
        through (wait_until_processed moves fuel (n + 1) sequence (moves n inlet))
          (waited fuel (n + 1) sequence (moves n inlet)))
  ]
    where
      through :
          (o : Option SharedInlet)
          → Each (IsWaited sequence (moves n inlet)) o
          → Each (IsWaited sequence inlet) o
      through none w = tt
      through (some inlet') w = record {
        processed = w.processed;
        slots = w.slots ∙ reader.slots n inlet;
        published = w.published ∙ reader.published n inlet;
        kept = w.kept ∙ reader.sequence n inlet;
      }

same_slot :
    (inlet inlet' : SharedInlet)
    → inlet'.slots ≡ inlet.slots
    → inlet'.published ≡ inlet.published
    → published_slot inlet ≡ published_slot inlet'
unfolding published_slot
same_slot inlet inlet' s p =
    ap (λ i. get_or inlet.slots (i % slot_count) frame_slot_init) (sym p)
    ∙ ap (λ xs. get_or xs (inlet'.published % slot_count) frame_slot_init) (sym s)

-- What a published datagram leaves of the hub.
pub record IsDelivered (channel : MulticastChannel) (bytes : List ℕ) (inlet : SharedInlet)
    (hub hub' : MulticastHub) : Type 0 where
  pub inlet' : SharedInlet
  pub there : hub'.inlet ≡ some inlet'
  pub shown : IsFrame (kind_of channel) 0 bytes 0 (published_slot inlet')
  pub sequence : inlet'.sequence ≡ (inlet.sequence + 1) % 2 ^ 64
  pub acknowledged : inlet'.sequence ≤ inlet'.processed
  pub two : length inlet'.slots ≡ slot_count
  pub counters : record hub' { inlet = none } ≡ record (counted channel hub) { inlet = none }

module _ {moves : ℕ → SharedInlet → SharedInlet} (reader : IsReader moves) (net : Network)
    (fuel : ℕ) where
  module _ (channel : MulticastChannel) (bytes : List ℕ) (inlet : SharedInlet) (hub : MulticastHub)
      (fits : length bytes ≤ frame_capacity) (two : length inlet.slots ≡ slot_count) where
    delivered :
        (o : Option SharedInlet)
        → let inlet' = publish (kind_of channel) 0 (some bytes) 0 inlet in
          Each (IsWaited inlet'.sequence inlet') o
          → Each
              (λ served.
                IsDelivered channel bytes inlet hub
                  (record (counted channel hub) { inlet = some served }))
              o
    delivered none w = tt
    delivered (some served) w =
        let inlet' = publish (kind_of channel) 0 (some bytes) 0 inlet in
        let (shown, old, other, sequence, size) =
          publish_lem (kind_of channel) 0 bytes 0 inlet fits two in
        record {
          inlet' = served;
          there = refl;
          shown =
              subst (IsFrame (kind_of channel) 0 bytes 0)
                (same_slot inlet' served w.slots w.published) shown;
          sequence = w.kept ∙ sequence;
          acknowledged = omega (arith, w.processed, w.kept);
          two = ap length w.slots ∙ size;
          counters = refl;
        }

    published :
        (k : ℕ)
        → k < fuel
        → let inlet' = publish (kind_of channel) 0 (some bytes) 0 inlet in
          inlet'.sequence ≤ (moved moves 0 k inlet').processed
          → (publish_to net moves fuel channel bytes hub inlet ≢ none)
            × Each
                (IsDelivered channel bytes inlet hub)
                (publish_to net moves fuel channel bytes hub inlet)
    unfolding publish_to
    published k h seen =
        let inlet' = publish (kind_of channel) 0 (some bytes) 0 inlet in
        let wait = wait_until_processed moves fuel 0 inlet'.sequence inlet' in
        (
          map_some _ wait (wait_returns moves k fuel 0 inlet'.sequence inlet' h seen),
          Each-map (IsDelivered channel bytes inlet hub) _ wait
              (delivered wait (waited reader fuel 0 inlet'.sequence inlet')),
        )

  -- A datagram that fits, while other threads only store `processed` and have stored enough by some
  -- load within the fuel: `publish_datagram` returns, the published slot holds the datagram under
  -- the kind of its channel, the sequence is one more and has been processed, and of the counters
  -- only that of the channel is one more.
  pub publish_datagram_lem :
      (channel : MulticastChannel) (bytes : List ℕ) (inlet : SharedInlet) (hub : MulticastHub)
      (k : ℕ)
      → hub.inlet ≡ some inlet
      → length bytes ≤ frame_capacity
      → length inlet.slots ≡ slot_count
      → k < fuel
      → let inlet' = publish (kind_of channel) 0 (some bytes) 0 inlet in
        inlet'.sequence ≤ (moved moves 0 k inlet').processed
        → let r = publish_datagram net moves fuel channel bytes hub in
          (r ≢ none) × Each (IsDelivered channel bytes inlet hub) r
  unfolding publish_datagram
  publish_datagram_lem channel bytes inlet hub k there fits two h seen =
      subst
        (λ o.
          let r : Option MulticastHub = elim o [
            | none ↦ none
            | some inlet ↦ publish_to net moves fuel channel bytes hub inlet
          ] in
          (r ≢ none) × Each (IsDelivered channel bytes inlet hub) r)
        (sym there) (published channel bytes inlet hub fits two k h seen)
