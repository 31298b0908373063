-- ===== src/Trading/Ledger.antt =====
-- The account of the messages in a pool, of which some stand in queues and some are held.
pub mod Took
use native.Mathlib.Nat.{mod-lt}
use mathlib.Core.Option
use mpmc_with_memory_managem.Base.{
  ℕ, zero, suc, ◌+◌, ◌%◌, ◌<◌, ◌≡◌, ◌≢◌, sym, ◌∙◌, arith, Bool, false, not, ◌&&◌, inl, inr,
  Bool-cases, Option, none, some, List, All, length, get_or, length-set, length-modify, modify-set,
  ◌==◌,
}
use mpmc_with_memory_managem.Base.Sum.{total-set}
use mpmc_with_memory_managem.Proto.Message.{TaggedMessage}
use mpmc_with_memory_managem.Pool.{
  TaggedPool, Slot, index_of, slot_init, sizeof_slot, release, set_message,
}
use mpmc_with_memory_managem.Pool.Slots.{IsMapped}
use mpmc_with_memory_managem.Pool.Release.{release-address_of}
use mpmc_with_memory_managem.Ring.{Mpmc, push_loop, push, try_pop}
use mpmc_with_memory_managem.Ring.Probe.{IsSized, positive, bit_and-mask_of}
use mpmc_with_memory_managem.Ring.Calls.{Tries, misses, gets, try_pop_lem}
use mpmc_with_memory_managem.Runtime.Counts.{
  same, in_ring, acquired, acquired-set, acquired_slot, acquired-le-one, acquired-set_message,
  All-set_message, IsState, All-set,
}

-- `P` of what an operation returns, when it returns.
abbrev pub Each : {A : Type 0} → (A → Type 0) → Option A → Type 0
Each P none = Unit
Each P (some a) = P a

pub Each-map :
    {A B : Type 0} (P : B → Type 0) (f : A → B) (o : Option A)
    → Each (λ a. P (f a)) o
    → Each P (Option.map f o)
Each-map P f none h = tt
Each-map P f (some a) h = h

-- Each slot's state byte counts the places in which its message is.
pub record Books (pool : TaggedPool) (places : ℕ → ℕ) : Type 0 where
  pub mapped : IsMapped pool
  pub states : All IsState pool.slots
  pub owned : (a : ℕ) → a ≢ 0 → places a ≡ acquired pool.base pool.slots a

pub Books-same :
    {pool : TaggedPool} {places places' : ℕ → ℕ}
    → Books pool places
    → ((a : ℕ) → a ≢ 0 → places' a ≡ places a)
    → Books pool places'
Books-same b e = record {
  mapped = b.mapped;
  states = b.states;
  owned = λ a real. e a real ∙ b.owned a real;
}

pub Books-release :
    {pool : TaggedPool} {places : ℕ → ℕ} (m : ℕ)
    → m ≢ 0
    → Books pool (λ a. places a + same a m)
    → Books (release pool m) places
Books-release {pool} {places} m real b =
    let (k, h, at, used) =
      acquired_slot pool.base pool.slots m (let one = b.owned m real in ground arith) in
    let freed = release-address_of pool k b.mapped h in
    rw (at, freed, modify-set (λ (s : Slot). record s { state = 0 }) k pool.slots slot_init h)
      (record {
        mapped = record {
          not_null = b.mapped.not_null;
          in_range =
              rw (length-set pool.slots k (record (get_or pool.slots k slot_init) { state = 0 }))
                b.mapped.in_range;
        };
        states = All-set pool.slots k _ b.states (omega arith);
        owned = λ a r. ground (
          arith,
          used,
          b.owned a r,
          b.owned m real,
          acquired-le-one pool.base pool.slots m b.states,
          acquired-set pool.base pool.slots k (record (get_or pool.slots k slot_init) { state = 0 })
              a h,
        );
      })

pub Books-set_message :
    {pool : TaggedPool} {places : ℕ → ℕ} (m : ℕ) (x : TaggedMessage)
    → Books pool places
    → Books (set_message pool m x) places
unfolding set_message
Books-set_message {pool} m x b = record {
  mapped = record {
    not_null = b.mapped.not_null;
    in_range =
        rw
          (length-modify (λ (s : Slot). record s { message = x }) (index_of m pool.base sizeof_slot)
            pool.slots)
          b.mapped.in_range;
  };
  states = All-set_message pool.slots _ x b.states;
  owned = λ a real. b.owned a real ∙ sym (acquired-set_message pool.base pool.slots _ x a);
}

-- The ring of `q'` is that of `q` with `m` in it.
pub record Puts (q : Mpmc) (m : ℕ) (ring : List ℕ) : Type 0 where
  pub sized : IsSized ring
  pub moved : (a : ℕ) → a ≢ 0 → in_ring a ring ≡ in_ring a q.ring + same a m

push_loop-Puts :
    (spurious : ℕ → Bool) (q : Mpmc) (s : IsSized q.ring) (fuel n slot m : ℕ)
    → slot < length q.ring
    → Each (Puts q m) (push_loop spurious fuel n slot q.ring m)
unfolding push_loop
push_loop-Puts spurious q s zero n slot m h = tt
push_loop-Puts spurious q s (suc fuel) n slot m h =
    elim (Bool-cases (get_or q.ring slot 0 == 0 && not (spurious n))) [
      | inl free ↦ rw free (record {
        sized = record {
          exponent = s.exponent;
          small = s.small;
          sized = length-set q.ring slot m ∙ s.sized;
        };
        moved = λ a real. ground (arith, free, real, total-set (same a) q.ring slot m 0 h);
      })
      | inr busy ↦
          rw (busy, bit_and-mask_of s (slot + 1))
            (push_loop-Puts spurious q s fuel (n + 1) ((slot + 1) % length q.ring) m
              (mod-lt (slot + 1) (positive s)))
    ]

pub push-Puts :
    (spurious : ℕ → Bool) (fuel : ℕ) (q : Mpmc) (m : ℕ)
    → IsSized q.ring
    → m ≢ 0
    → Each (λ q'. Puts q m q'.ring) (push spurious fuel q m)
unfolding push
push-Puts spurious fuel q m s real =
    let some_message : (m == 0) ≡ false = ground arith in
    rw (some_message, bit_and-mask_of s q.post_cursor)
      (Each-map (λ q'. Puts q m q'.ring) _
        (push_loop spurious fuel 0 (q.post_cursor % length q.ring) q.ring m)
        (push_loop-Puts spurious q s fuel 0 (q.post_cursor % length q.ring) m
          (mod-lt q.post_cursor (positive s))))

-- What `try_pop` returns, and what is left.
pub record Gets (q : Mpmc) (r : ℕ × Mpmc) : Type 0 where
  pub real : r.0 ≢ 0
  pub sized : IsSized r.1.ring
  pub moved : (a : ℕ) → a ≢ 0 → in_ring a q.ring ≡ in_ring a r.1.ring + same a r.0

Gets-Tries : (q : Mpmc) (o : Option (ℕ × Mpmc)) → IsSized q.ring → Tries q o → Each (Gets q) o
Gets-Tries q _ s (misses all) = tt
Gets-Tries q _ s (gets e h used) = record {
  real = used;
  sized = record {
    exponent = s.exponent;
    small = s.small;
    sized = length-set q.ring e 0 ∙ s.sized;
  };
  moved = λ a real. ground (arith, real, total-set (same a) q.ring e 0 0 h);
}

pub try_pop-Gets : (q : Mpmc) → IsSized q.ring → Each (Gets q) (try_pop q)
try_pop-Gets q s = Gets-Tries q (try_pop q) s (try_pop_lem q s)
