-- ===== src/Runtime/Tests.antt =====
-- A runtime with a pool of two slots at address 384 and a queue of two slots.
use mpmc_with_memory_managem.Base.{
  ℕ, ◌+◌, ◌<◌, ◌≤◌, ◌≡◌, ◌≢◌, refl, arith, true, false, [], ◌∷◌, length, get_or,
}
use mpmc_with_memory_managem.Pool
use mpmc_with_memory_managem.Pool.{slot_init, taken, TaggedPool}
use mpmc_with_memory_managem.Ring
use mpmc_with_memory_managem.Ring.{Mpmc}
use mpmc_with_memory_managem.Runtime.{Shared, scanning, filling, finished, advance}
use mpmc_with_memory_managem.Runtime.Counts.{in_ring, holds, held}
use mpmc_with_memory_managem.Runtime.Moves.{IsShared, Keeps, account, advance-Keeps}
use mpmc_with_memory_managem.Runtime.System.{
  System, work, roll, spawn, restart, stopped, looping, Reach, start, later, init, join_part,
  spawn_part, max_live_threads,
}
use mpmc_with_memory_managem.Runtime.Exclusive.{
  IsRunnable, new_runtime, conservation, owner_alone, live_threads_bounded,
}
use mpmc_with_memory_managem.Runtime.Hang.{stop_hangs}

small_pool : IsRunnable 384 2 1
small_pool = record { not_null = omega arith; in_range = omega arith; small = omega arith }

abbrev shared : Shared
shared = record {
  pool = record { base = 384; slots = slot_init ∷ taken ∷ [] };
  queue = record { ring = 768 ∷ 0 ∷ []; post_cursor = 1; pop_cursor = 0 };
  pushed = 0;
  popped = 0;
  next_sequence = 2;
}

shared-IsShared : IsShared shared
shared-IsShared = record {
  mapped = record { not_null = omega arith; in_range = omega arith };
  sized = record { exponent = 1; small = omega arith; sized = refl };
  states = (omega arith, (omega arith, tt));
}

advance-Keeps_example : Keeps shared (scanning 0 1 0) (advance false shared (scanning 0 1 0))
advance-Keeps_example =
    advance-Keeps false shared-IsShared (scanning 0 1 0) tt
      (λ a real own. absurd (omega (arith, own)))

-- One producer of one operation, which has just acquired a message.
abbrev acquiring : System
acquiring = record {
  shared = record {
    pool = record { base = 384; slots = taken ∷ slot_init ∷ [] };
    queue = record { ring = 0 ∷ 0 ∷ []; post_cursor = 0; pop_cursor = 0 };
    pushed = 0;
    popped = 0;
    next_sequence = 3;
  };
  workers = filling 0 2 384 ∷ [];
  live_threads = 1;
  running = true;
  phase = looping;
}

reaches_acquiring : Reach (new_runtime 384 2 1) acquiring
unfolding init Pool.init Ring.init advance join_part spawn_part
reaches_acquiring =
    later
      (later
        (later (later (later start (restart refl)) (roll 30 0 refl refl (omega arith) (λ h. h)))
          (spawn 30 1 refl (omega arith) (omega arith)))
        (work 0 false (omega arith)))
      (work 0 false (omega arith))

conservation_example :
    (in_ring 384 acquiring.shared.queue.ring + held 384 acquiring.workers
      ≡ account acquiring.shared 384)
    × (account acquiring.shared 384 ≤ 1)
conservation_example =
    conservation small_pool reaches_acquiring 384 (λ e. absurd (omega (arith, e)))

owner_alone_example :
    (account acquiring.shared 384 ≡ 1)
    × (in_ring 384 acquiring.shared.queue.ring ≡ 0)
    × ((j : ℕ) → j < 1 → 0 ≢ j → holds 384 (get_or acquiring.workers j finished) ≡ 0)
owner_alone_example =
    owner_alone small_pool reaches_acquiring 0 384 (λ e. absurd (omega (arith, e))) (omega arith)
      refl

live_threads_bounded_example :
    (acquiring.live_threads ≡ length acquiring.workers)
    × (acquiring.live_threads ≤ max_live_threads)
live_threads_bounded_example = live_threads_bounded small_pool reaches_acquiring

abbrev pool : TaggedPool
pool = record { base = 384; slots = slot_init ∷ [] }

abbrev queue : Mpmc
queue = record { ring = 0 ∷ 0 ∷ []; post_cursor = 0; pop_cursor = 0 }

stop_hangs_example :
    (s : System) × Reach (init pool queue) s
    × (s.running ≡ false)
    × ((t : System) → Reach s t → t.phase ≢ stopped)
stop_hangs_example = stop_hangs pool queue 5 (refl, (refl, tt)) (omega arith) (omega arith)
