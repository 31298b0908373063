-- ===== src/Runtime/System.antt =====
-- The whole `Runtime`: its supervisor, the worker threads in any interleaving, and `stop`.
use mpmc_with_memory_managem.Base.{
  ℕ, suc, ◌+◌, ◌-◌, ◌%◌, ◌^◌, ◌≤◌, ◌<◌, ◌≡◌, Bool, true, false, List, [], ◌∷◌, ◌++◌, length, get_or,
  set, take, leb, ltb, ◌==◌, if◌then◌else◌,
}
use mpmc_with_memory_managem.Pool.{TaggedPool}
use mpmc_with_memory_managem.Ring.{Mpmc}
use mpmc_with_memory_managem.Runtime.{
  Shared, Pc, producing, consuming, finished, advance, fetch_add64,
}

pub data Role : Type 0 where
  producer consumer : Role

-- `supervise`, on its own thread: at the head of its loop, or past the join that `action` asked
-- for; then `stop`, which joins worker after worker and clears the list.
pub data Phase : Type 0 where
  looping : Phase
  rolled : (action : ℕ) → Phase
  joining : (i : ℕ) → Phase
  stopped : Phase

pub record System : Type 0 where
  pub shared : Shared
  pub workers : List Pc
  pub live_threads : ℕ
  pub running : Bool
  pub phase : Phase

abbrev pub max_live_threads : ℕ
max_live_threads = 32

-- `producer_main` and `consumer_main` draw `ops` from 1 to 12.
abbrev pub worker_main : Role → ℕ → Pc
worker_main producer ops = producing ops
worker_main consumer ops = consuming ops

-- `workers_.push_back`
unfoldable pub try_spawn : Role → ℕ → System → System
try_spawn role ops s = if leb max_live_threads (length s.workers) then s else record s {
  shared = record (s.shared) { next_sequence = fetch_add64 s.shared.next_sequence };
  workers = s.workers ++ (worker_main role ops ∷ []);
  live_threads = fetch_add64 s.live_threads;
}

-- `workers_[index] = std::move(workers_.back()); workers_.pop_back();`
unfoldable pub remove_worker : ℕ → List Pc → List Pc
remove_worker index workers =
    let last = length workers - 1 in take last (set workers index (get_or workers last finished))

abbrev pub is_done : Pc → Bool
is_done finished = true
is_done _ = false

-- `index` is what the distribution over the workers picked.
unfoldable pub try_join_random : ℕ → System → System
unfolding remove_worker
try_join_random index s =
    if length s.workers == 0
    then s
    else (if is_done (get_or s.workers index finished)
        then record s {
          workers = remove_worker index s.workers;
          live_threads = (s.live_threads + 2 ^ 64 - 1) % 2 ^ 64;
        }
        else s)

-- The two halves of a turn of `supervise` that rolled `action`.
unfoldable pub join_part : ℕ → ℕ → System → System
unfolding try_join_random
join_part action index s = if ltb action 30 then try_join_random index s else s

unfoldable pub spawn_part : ℕ → ℕ → System → System
unfolding try_spawn
spawn_part action ops s =
    if ltb action 60
    then try_spawn producer ops s
    else (if ltb action 90 then try_spawn consumer ops s else s)

-- One step of a worker, or of the supervisor, or of the thread that called `stop`.
pub data Step (s : System) : System → Type 0 where
  work :
      (i : ℕ) (spurious : Bool)
      → i < length s.workers
      → Step s (record s {
        shared = (advance spurious s.shared (get_or s.workers i finished)).0;
        workers = set s.workers i (advance spurious s.shared (get_or s.workers i finished)).1;
      })
  roll :
      (action index : ℕ)
      → s.phase ≡ looping
      → s.running ≡ true
      → action < 100
      → (0 < length s.workers → index < length s.workers)
      → Step s (record (join_part action index s) { phase = rolled action })
  spawn :
      (action ops : ℕ)
      → s.phase ≡ rolled action
      → 1 ≤ ops
      → ops ≤ 12
      → Step s (record (spawn_part action ops s) { phase = looping })
  stop : Step s (record s { running = false })
  leave : s.phase ≡ looping → s.running ≡ false → Step s (record s { phase = joining 0 })
  join :
      (i : ℕ)
      → s.phase ≡ joining i
      → i < length s.workers
      → get_or s.workers i finished ≡ finished
      → Step s (record s { phase = joining (suc i) })
  clear :
      (i : ℕ)
      → s.phase ≡ joining i
      → length s.workers ≤ i
      → Step s (record s { workers = []; live_threads = 0; phase = stopped })
  restart : s.phase ≡ stopped → Step s (record s { running = true; phase = looping })

-- The constructor, on a queue and a pool that may be in use already.
unfoldable pub init : TaggedPool → Mpmc → System
init pool queue = record {
  shared = record { pool = pool; queue = queue; pushed = 0; popped = 0; next_sequence = 1 };
  workers = [];
  live_threads = 0;
  running = false;
  phase = stopped;
}

pub data Reach (s : System) : System → Type 0 where
  start : Reach s s
  later : {t u : System} → Reach s t → Step t u → Reach s u
