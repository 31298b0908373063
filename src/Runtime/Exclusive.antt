-- ===== src/Runtime/Exclusive.antt =====
-- What holds of every state that a runtime of a new pool and a new queue can reach.
use mpmc_with_memory_managem.Base.{
  ℕ, zero, suc, ◌+◌, ◌*◌, ◌^◌, ◌≤◌, ◌<◌, ◌≡◌, ◌≢◌, refl, arith, length, get_or, replicate,
  length-replicate, get_or-replicate, All,
}
use mpmc_with_memory_managem.Base.Sum.{total-eq-zero, add-le-total, le-total, total-nil}
use mpmc_with_memory_managem.Pool
use mpmc_with_memory_managem.Pool.{sizeof_slot, slot_init}
use mpmc_with_memory_managem.Ring
use mpmc_with_memory_managem.Runtime.{finished}
use mpmc_with_memory_managem.Runtime.Counts.{same, in_ring, holds, held, acquired, IsState}
use mpmc_with_memory_managem.Runtime.Moves.{account}
use mpmc_with_memory_managem.Runtime.System.{System, Reach, init, max_live_threads}
use mpmc_with_memory_managem.Runtime.Ownership.{account-le-one}
use mpmc_with_memory_managem.Runtime.Safety.{Safe, Reach-Safe}

-- A new pool and a new queue own nothing.
acquired-replicate : (base n a : ℕ) → acquired base (replicate n slot_init) a ≡ 0
unfolding acquired
acquired-replicate base zero a = refl
acquired-replicate base (suc n) a = ground (arith, acquired-replicate (base + sizeof_slot) n a)

All-replicate : (n : ℕ) → All IsState (replicate n slot_init)
All-replicate zero = tt
All-replicate (suc n) = (omega arith, All-replicate n)

-- The runtime of a new pool of `n` slots at `base` and a new queue of `2 ^ exponent` slots.
abbrev pub new_runtime : ℕ → ℕ → ℕ → System
new_runtime base n exponent = init (Pool.init base n) (Ring.init (2 ^ exponent))

-- The pool's mapping and the queue's size are what the code needs.
pub record IsRunnable (base n exponent : ℕ) : Type 0 where
  pub not_null : 0 < base
  pub in_range : base + sizeof_slot * n ≤ 2 ^ 64
  pub small : exponent ≤ 30

pub new_runtime-Safe :
    (base n exponent : ℕ) → IsRunnable base n exponent → Safe (new_runtime base n exponent)
unfolding init Pool.init Ring.init
new_runtime-Safe base n exponent h = record {
  inv = record {
    owned = record {
      shared = record {
        mapped = record {
          not_null = h.not_null;
          in_range = rw (length-replicate n slot_init) h.in_range;
        };
        sized = record {
          exponent = exponent;
          small = h.small;
          sized = length-replicate (2 ^ exponent) 0;
        };
        states = All-replicate n;
      };
      local = tt;
      owned = λ a real. omega (
        arith,
        total-nil (holds a),
        acquired-replicate base n a,
        total-eq-zero (same a) (replicate (2 ^ exponent) 0) 0
            (λ i l. rw (get_or-replicate {A = ℕ} (2 ^ exponent) i 0) (ground (arith, real))),
      );
    };
    live = refl;
    few = omega arith;
  };
  joined = λ k e. absurd cc;
}

module _ {base n exponent : ℕ} (h : IsRunnable base n exponent) {t : System}
    (r : Reach (new_runtime base n exponent) t) where
  safe : Safe t
  safe = Reach-Safe (new_runtime-Safe base n exponent h) r

  -- In every state that a runtime of a new pool and a new queue can reach: the state byte of the
  -- slot at `a` is the number of ring slots and workers that have `a`, and is at most 1. So no
  -- message is lost, and none is in two places.
  pub conservation :
      (a : ℕ)
      → a ≢ 0
      → (in_ring a t.shared.queue.ring + held a t.workers ≡ account t.shared a)
        × (account t.shared a ≤ 1)
  conservation a real = (safe.inv.owned.owned a real, account-le-one safe.inv.owned.shared a)

  -- In every state that a runtime of a new pool and a new queue can reach, by any interleaving of
  -- its threads: if worker `i` owns the message at `a`, the slot of `a` is acquired, `a` is in no
  -- slot of the ring, and no other worker owns it.
  pub owner_alone :
      (i a : ℕ)
      → a ≢ 0
      → i < length t.workers
      → holds a (get_or t.workers i finished) ≡ 1
      → (account t.shared a ≡ 1)
        × (in_ring a t.shared.queue.ring ≡ 0)
        × ((j : ℕ) → j < length t.workers → i ≢ j → holds a (get_or t.workers j finished) ≡ 0)
  owner_alone i a real l own = (
    omega (arith, own, le-total (holds a) t.workers i finished l, conservation a real),
    omega (arith, own, le-total (holds a) t.workers i finished l, conservation a real),
    λ j k ne.
        omega
          (arith, own, add-le-total (holds a) t.workers i j finished l k ne, conservation a real),
  )

  -- In every state that a runtime of a new pool and a new queue can reach, `live_threads` is the
  -- number of workers, and at most 32.
  pub live_threads_bounded :
      (t.live_threads ≡ length t.workers) × (t.live_threads ≤ max_live_threads)
  live_threads_bounded = (safe.inv.live, omega (arith, safe.inv.live, safe.inv.few))
