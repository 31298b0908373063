-- ===== src/Runtime/Moves.antt =====
-- One step of one worker moves a message from one owner to another, or leaves it where it is.
use Prim.Native.Nat.{bit_and}
use native.Mathlib.Nat.{mod-lt}
use mpmc_with_memory_managem.Base.{
  ℕ, zero, suc, ◌+◌, ◌%◌, ◌^◌, ◌<◌, ◌≡◌, ◌≢◌, refl, arith, All, Bool, inl, inr, get_or, set,
  length-set, length-modify, modify-set, ◌==◌, ltb, not, ◌&&◌, Bool-cases,
}
use mpmc_with_memory_managem.Base.Sum.{total-set}
use mpmc_with_memory_managem.Proto.Message.{TaggedMessage}
use mpmc_with_memory_managem.Pool.Release.{release-address_of}
use mpmc_with_memory_managem.Pool.{
  TaggedPool, Slot, sizeof_slot, slot_init, address_of, set_message, release,
}
use mpmc_with_memory_managem.Pool
use mpmc_with_memory_managem.Pool.Slots.{IsMapped}
use mpmc_with_memory_managem.Ring.{Mpmc, mask}
use mpmc_with_memory_managem.Ring
use mpmc_with_memory_managem.Ring.Probe.{IsSized, positive, bit_and-mask_of}
use mpmc_with_memory_managem.Runtime.{
  Shared, Pc, producing, scanning, filling, posting, placing, placed, consuming, probing, advancing,
  releasing, released, finished, advance, scan, place, probe_at,
}
use mpmc_with_memory_managem.Runtime.Counts.{
  same, in_ring, holds, acquired, acquired-set, acquired_slot, acquired-set_message,
  All-set_message, IsState, All-set,
}

-- What a worker's local variables satisfy, for a ring of `n` slots.
abbrev pub IsLocal : ℕ → Pc → Type 0
IsLocal n (filling left sequence message) = message ≢ 0
IsLocal n (posting left message) = message ≢ 0
IsLocal n (placing left message slot) = (message ≢ 0) × (slot < n)
IsLocal n (advancing left message idx) = message ≢ 0
IsLocal n (releasing left message) = message ≢ 0
IsLocal n _ = Unit

pub record IsShared (s : Shared) : Type 0 where
  pub mapped : IsMapped s.pool
  pub sized : IsSized s.queue.ring
  pub states : All IsState s.pool.slots

-- The account of the message at `a`.
abbrev pub account : Shared → ℕ → ℕ
account s a = acquired s.pool.base s.pool.slots a

-- What a step from `s` and `pc` to `r` keeps.
pub record Keeps (s : Shared) (pc : Pc) (r : Shared × Pc) : Type 0 where
  pub base_kept : r.0.pool.base ≡ s.pool.base
  pub pool_kept : Pool.capacity r.0.pool ≡ Pool.capacity s.pool
  pub ring_kept : Ring.capacity r.0.queue ≡ Ring.capacity s.queue
  pub states : All IsState r.0.pool.slots
  pub local : IsLocal (Ring.capacity s.queue) r.1
  pub balance :
      (a : ℕ)
      → a ≢ 0
      → in_ring a r.0.queue.ring + holds a r.1 + account s a
        ≡ in_ring a s.queue.ring + holds a pc + account r.0 a

module _ (spurious : Bool) {s : Shared} (ok : IsShared s) where
  abbrev n : ℕ
  n = Ring.capacity s.queue

  -- A step that changes neither a state byte nor a slot of the ring, nor what the worker owns.
  Keeps-places :
      (pc pc' : Pc) (post pop pushed popped next : ℕ)
      → IsLocal n pc'
      → ((a : ℕ) → holds a pc' ≡ holds a pc)
      → Keeps s pc (
        record {
          pool = s.pool;
          queue = record { ring = s.queue.ring; post_cursor = post; pop_cursor = pop };
          pushed = pushed;
          popped = popped;
          next_sequence = next;
        },
        pc',
      )
  Keeps-places pc pc' post pop pushed popped next h e = record {
    base_kept = refl;
    pool_kept = refl;
    ring_kept = refl;
    states = ok.states;
    local = h;
    balance = λ a real. omega (arith, e a);
  }

  moves_nothing :
      {pc pc' : Pc} → IsLocal n pc' → ((a : ℕ) → holds a pc' ≡ holds a pc) → Keeps s pc (s, pc')
  moves_nothing {pc} {pc'} h e = Keeps-places pc pc' _ _ _ _ _ h e

  scan_takes :
      (left sequence i : ℕ)
      → i < Pool.capacity s.pool
      → (get_or s.pool.slots i slot_init).state ≡ 0
      → Keeps s (scanning left sequence i) (
        record s { pool = record (s.pool) { slots = set s.pool.slots i Pool.taken } },
        filling left sequence (address_of s.pool i),
      )
  scan_takes left sequence i h free = record {
    base_kept = refl;
    pool_kept = length-set s.pool.slots i Pool.taken;
    ring_kept = refl;
    states = All-set s.pool.slots i Pool.taken ok.states (omega arith);
    local = (let positive_base = ok.mapped.not_null in omega arith);
    balance =
        λ a real. ground (arith, free, acquired-set s.pool.base s.pool.slots i Pool.taken a h);
  }

  scan-Keeps :
      (left sequence i : ℕ) → Keeps s (scanning left sequence i) (scan spurious s left sequence i)
  unfolding scan
  scan-Keeps left sequence i = elim (Bool-cases (ltb i (Pool.capacity s.pool))) [
    | inr out ↦ rw out (moves_nothing tt (λ a. refl))
    | inl h ↦ elim (Bool-cases ((get_or s.pool.slots i slot_init).state == 0 && not spurious)) [
      | inl free ↦ rw (h, free) (scan_takes left sequence i (ground arith) (ground arith))
      | inr busy ↦ rw (h, busy) (moves_nothing tt (λ a. refl))
    ]
  ]

  place_fills :
      (left message slot : ℕ)
      → slot < n
      → get_or s.queue.ring slot 0 ≡ 0
      → Keeps s (placing left message slot) (
        record s { queue = record (s.queue) { ring = set s.queue.ring slot message } },
        placed left,
      )
  place_fills left message slot h empty = record {
    base_kept = refl;
    pool_kept = refl;
    ring_kept = length-set s.queue.ring slot message;
    states = ok.states;
    local = tt;
    balance =
        λ a real. ground (arith, empty, real, total-set (same a) s.queue.ring slot message 0 h);
  }

  place-Keeps :
      (left message slot : ℕ)
      → message ≢ 0
      → slot < n
      → Keeps s (placing left message slot) (place spurious s left message slot)
  unfolding place
  place-Keeps left message slot real h =
      elim (Bool-cases (get_or s.queue.ring slot 0 == 0 && not spurious)) [
        | inl free ↦ rw free (place_fills left message slot h (ground arith))
        | inr busy ↦
            rw (busy, bit_and-mask_of ok.sized (slot + 1))
              (moves_nothing (real, mod-lt (slot + 1) (positive ok.sized)) (λ a. refl))
      ]

  -- The exchange of `try_pop`: the worker gets what the slot held.
  exchanges :
      (left cursor probe idx : ℕ) (pc' : Pc)
      → idx < n
      → IsLocal n pc'
      → ((a : ℕ) → a ≢ 0 → holds a pc' ≡ same a (get_or s.queue.ring idx 0))
      → Keeps s
          (probing left cursor probe)
          (record s { queue = record (s.queue) { ring = set s.queue.ring idx 0 } }, pc')
  exchanges left cursor probe idx pc' h loc e = record {
    base_kept = refl;
    pool_kept = refl;
    ring_kept = length-set s.queue.ring idx 0;
    states = ok.states;
    local = loc;
    balance = λ a real. ground (arith, real, e a real, total-set (same a) s.queue.ring idx 0 0 h);
  }

  probe_at-Keeps :
      (left cursor probe : ℕ)
      → Keeps s (probing left cursor probe) (probe_at spurious s left cursor probe)
  unfolding probe_at
  probe_at-Keeps left cursor probe = elim (Bool-cases (ltb probe n)) [
    | inr out ↦ rw out (moves_nothing tt (λ a. refl))
    | inl h ↦ elim (Bool-cases (get_or s.queue.ring idx 0 == 0)) [
      | inl empty ↦
          rw (h, empty)
            (exchanges left cursor probe idx (probing left cursor (probe + 1)) idx-lt tt
              (λ a real. ground (arith, real)))
      | inr full ↦
          rw (h, full)
            (exchanges left cursor probe idx (advancing left (get_or s.queue.ring idx 0) idx) idx-lt
              (λ e. ground (arith, e)) (λ a real. refl))
    ]
  ]
    where
      idx : ℕ
      idx = bit_and ((cursor + probe) % 2 ^ 32) (mask s.queue.ring)

      idx-lt : idx < n
      idx-lt =
          rw (bit_and-mask_of ok.sized ((cursor + probe) % 2 ^ 32)) (mod-lt _ (positive ok.sized))

  fills :
      (left message : ℕ) (pc : Pc) (m : TaggedMessage)
      → message ≢ 0
      → ((a : ℕ) → holds a pc ≡ same a message)
      → Keeps s pc (record s { pool = set_message s.pool message m }, posting left message)
  unfolding set_message
  fills left message pc m real e = record {
    base_kept = refl;
    pool_kept = length-modify _ _ s.pool.slots;
    ring_kept = refl;
    states = All-set_message s.pool.slots _ m ok.states;
    local = real;
    balance = λ a r. omega (arith, e a, acquired-set_message s.pool.base s.pool.slots _ m a);
  }

  -- The owner's `release` frees the slot.
  releases :
      (left message : ℕ)
      → message ≢ 0
      → account s message ≡ 1
      → Keeps s (releasing left message) (record s { pool = release s.pool message }, released left)
  releases left message real one =
      let (k, h, at, used) = acquired_slot s.pool.base s.pool.slots message (omega arith) in
      let freed = release-address_of s.pool k ok.mapped h in
      rw (at, freed, modify-set (λ (s : Slot). record s { state = 0 }) k s.pool.slots slot_init h)
        (record {
          base_kept = refl;
          pool_kept = length-set s.pool.slots k _;
          ring_kept = refl;
          states = All-set s.pool.slots k _ ok.states (omega arith);
          local = tt;
          balance = λ a r. ground (
            arith,
            used,
            acquired-set s.pool.base s.pool.slots k
                (record (get_or s.pool.slots k slot_init) { state = 0 }) a h,
          );
        })

-- One step of a worker, from any shared state and local state that are well formed, whose owned
-- message is acquired: pool and ring keep their sizes, state bytes stay 0 or 1, the new local state
-- is well formed, and for every message the change of its state byte is the change of the number of
-- places that have it.
pub advance-Keeps :
    (spurious : Bool) {s : Shared}
    → IsShared s
    → (pc : Pc) → IsLocal (Ring.capacity s.queue) pc
    → ((a : ℕ) → a ≢ 0 → holds a pc ≡ 1 → account s a ≡ 1)
    → Keeps s pc (advance spurious s pc)
unfolding advance
advance-Keeps sp ok (producing zero) loc own = moves_nothing sp ok tt (λ a. refl)
advance-Keeps sp ok (producing (suc left)) loc own = Keeps-places sp ok _ _ _ _ _ _ _ tt (λ a. refl)
advance-Keeps sp ok (scanning left sequence i) loc own = scan-Keeps sp ok left sequence i
advance-Keeps sp ok (filling left sequence message) loc own =
    fills sp ok left message (filling left sequence message) _ loc (λ a. refl)
advance-Keeps sp ok (posting left message) loc own =
    rw (bit_and-mask_of ok.sized _)
      (Keeps-places sp ok _ _ _ _ _ _ _ (loc, mod-lt _ (positive ok.sized)) (λ a. refl))
advance-Keeps sp ok (placing left message slot) loc own =
    place-Keeps sp ok left message slot loc.0 loc.1
advance-Keeps sp ok (placed left) loc own = Keeps-places sp ok _ _ _ _ _ _ _ tt (λ a. refl)
advance-Keeps sp ok (consuming zero) loc own = moves_nothing sp ok tt (λ a. refl)
advance-Keeps sp ok (consuming (suc left)) loc own = moves_nothing sp ok tt (λ a. refl)
advance-Keeps sp ok (probing left cursor probe) loc own = probe_at-Keeps sp ok left cursor probe
advance-Keeps sp ok (advancing left message idx) loc own =
    Keeps-places sp ok _ _ _ _ _ _ _ loc (λ a. refl)
advance-Keeps sp ok (releasing left message) loc own =
    releases sp ok left message loc (own message loc (ground arith))
advance-Keeps sp ok (released left) loc own = Keeps-places sp ok _ _ _ _ _ _ _ tt (λ a. refl)
advance-Keeps sp ok finished loc own = moves_nothing sp ok tt (λ a. refl)
