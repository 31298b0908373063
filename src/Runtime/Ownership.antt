-- ===== src/Runtime/Ownership.antt =====
-- The invariant of the runtime: every message is in one place, and its state byte says so.
use mpmc_with_memory_managem.Base.{
  ℕ, zero, suc, ◌+◌, ◌≤◌, ◌<◌, ◌≡◌, ◌≢◌, refl, ap, ◌∙◌, arith, Bool, true, List, [], ◌∷◌, ◌++◌, All,
  All-append, inl, inr, Bool-cases, length, length-append, length-set, length-take, get_or-set_self,
  get_or-set_ne, get_or, set, All-take, ◌-◌, ℕ_discrete, leb, ltb, ◌==◌,
}
use mpmc_with_memory_managem.Base.Sum.{
  total, total-set, total-append, total_one, total-take_last, le-total,
}
use mpmc_with_memory_managem.Ring
use mpmc_with_memory_managem.Runtime.{Shared, Pc, finished, advance}
use mpmc_with_memory_managem.Runtime.Counts.{in_ring, holds, held, acquired-le-one}
use mpmc_with_memory_managem.Runtime.Moves.{IsLocal, IsShared, Keeps, account, advance-Keeps}
use mpmc_with_memory_managem.Runtime.System.{
  System, Role, producer, consumer, try_spawn, try_join_random, remove_worker, join_part,
  spawn_part, worker_main, is_done, max_live_threads,
}

pub record IsOwned (s : Shared) (workers : List Pc) : Type 0 where
  pub shared : IsShared s
  pub local : All (IsLocal (Ring.capacity s.queue)) workers
  pub owned : (a : ℕ) → a ≢ 0 → in_ring a s.queue.ring + held a workers ≡ account s a

pub account-le-one : {s : Shared} → IsShared s → (a : ℕ) → account s a ≤ 1
account-le-one {s} ok a = acquired-le-one s.pool.base s.pool.slots a ok.states

pub All-get :
    (P : Pc → Type 0) (xs : List Pc) (i : ℕ) (d : Pc) → All P xs → i < length xs → P (get_or xs i d)
All-get P [] i d h l = absurd (omega arith)
All-get P (x ∷ xs) zero d h l = h.0
All-get P (x ∷ xs) (suc i) d h l = All-get P xs i d h.1 (omega arith)

pub All-set_pc :
    (P : Pc → Type 0) (xs : List Pc) (i : ℕ) (v : Pc) → All P xs → P v → All P (set xs i v)
All-set_pc P [] i v h hv = tt
All-set_pc P (x ∷ xs) zero v h hv = (hv, h.1)
All-set_pc P (x ∷ xs) (suc i) v h hv = (h.0, All-set_pc P xs i v h.1 hv)

module _ {s : Shared} {workers : List Pc} (inv : IsOwned s workers) where
  -- What a worker owns is acquired.
  own_acquired :
      (i : ℕ)
      → i < length workers
      → (a : ℕ) → a ≢ 0
      → holds a (get_or workers i finished) ≡ 1
      → account s a ≡ 1
  own_acquired i h a real own = omega (
    arith,
    le-total (holds a) workers i finished h,
    inv.owned a real,
    account-le-one inv.shared a,
  )

  Keeps-IsOwned :
      (i : ℕ)
      → i < length workers
      → {r : Shared × Pc} → Keeps s (get_or workers i finished) r
      → IsOwned r.0 (set workers i r.1)
  Keeps-IsOwned i h {r} k = record {
    shared = record {
      mapped = record {
        not_null = rw k.base_kept inv.shared.mapped.not_null;
        in_range = rw (k.base_kept, k.pool_kept) inv.shared.mapped.in_range;
      };
      sized = record {
        exponent = inv.shared.sized.exponent;
        small = inv.shared.sized.small;
        sized = k.ring_kept ∙ inv.shared.sized.sized;
      };
      states = k.states;
    };
    local =
        rw k.ring_kept
          (All-set_pc (IsLocal (Ring.capacity s.queue)) workers i r.1 inv.local k.local);
    owned = λ a real.
        omega
          (arith, k.balance a real, inv.owned a real, total-set (holds a) workers i r.1 finished h);
  }

  pub work-IsOwned :
      (i : ℕ) (spurious : Bool)
      → i < length workers
      → let r = advance spurious s (get_or workers i finished) in IsOwned r.0 (set workers i r.1)
  work-IsOwned i spurious h = Keeps-IsOwned i h (
      advance-Keeps spurious inv.shared (get_or workers i finished)
        (All-get (IsLocal (Ring.capacity s.queue)) workers i finished inv.local h)
        (own_acquired i h))

  -- A thread that has just started owns nothing.
  spawn-IsOwned :
      (pc : Pc) (n : ℕ)
      → IsLocal (Ring.capacity s.queue) pc
      → ((a : ℕ) → holds a pc ≡ 0)
      → IsOwned (record s { next_sequence = n }) (workers ++ (pc ∷ []))
  spawn-IsOwned pc n h none = record {
    shared = record {
      mapped = inv.shared.mapped;
      sized = inv.shared.sized;
      states = inv.shared.states;
    };
    local = All-append (IsLocal (Ring.capacity s.queue)) workers (pc ∷ []) inv.local (h, tt);
    owned = λ a real. omega (
      arith,
      inv.owned a real,
      total-append (holds a) workers (pc ∷ []),
      total_one (holds a) pc,
      none a,
    );
  }

-- Taking a finished worker off the list changes no sum in which it counts for nothing.
pub total-remove_worker :
    (w : Pc → ℕ) (workers : List Pc) (i : ℕ)
    → w finished ≡ 0
    → i < length workers
    → get_or workers i finished ≡ finished
    → total w (remove_worker i workers) ≡ total w workers
unfolding remove_worker
total-remove_worker w workers i z h done = omega (
  arith,
  z,
  ap w done,
  total-set w workers i back finished h,
  total-take_last w last (set workers i back) finished (omega (arith, length-set workers i back)),
  ap w back_there,
)
  where
    last : ℕ
    last = length workers - 1

    back : Pc
    back = get_or workers last finished

    back_there : get_or (set workers i back) last finished ≡ back
    back_there = elim (ℕ_discrete i last) [
      | yes e ↦ rw e (get_or-set_self workers last back finished (omega arith))
      | no ne ↦ get_or-set_ne workers i last back finished ne
    ]

pub length-remove_worker :
    (workers : List Pc) (i : ℕ) → length (remove_worker i workers) ≡ length workers - 1
unfolding remove_worker
length-remove_worker workers i =
    let back = get_or workers (length workers - 1) finished in
    omega (arith, length-take (length workers - 1) (set workers i back), length-set workers i back)

All-remove_worker :
    (P : Pc → Type 0) (workers : List Pc) (i : ℕ)
    → All P workers
    → P finished
    → All P (remove_worker i workers)
unfolding remove_worker
All-remove_worker P [] i h f = tt
All-remove_worker P (x ∷ xs) i h f =
    All-take P _ _ (All-set_pc P (x ∷ xs) i _ h (All-get P (x ∷ xs) _ finished h (omega arith)))

is_done-finished : (pc : Pc) → is_done pc ≡ true → pc ≡ finished
is_done-finished finished h = refl
is_done-finished _ h = cc

-- What holds of the runtime between any two steps.
pub record Inv (s : System) : Type 0 where
  pub owned : IsOwned s.shared s.workers
  pub live : s.live_threads ≡ length s.workers
  pub few : length s.workers ≤ max_live_threads

remove-IsOwned :
    {s : Shared} {workers : List Pc} (i : ℕ)
    → IsOwned s workers
    → i < length workers
    → get_or workers i finished ≡ finished
    → IsOwned s (remove_worker i workers)
remove-IsOwned {s} {workers} i inv h done = record {
  shared = inv.shared;
  local = All-remove_worker (IsLocal (Ring.capacity s.queue)) workers i inv.local tt;
  owned = λ a real. rw (total-remove_worker (holds a) workers i refl h done) (inv.owned a real);
}

try_join_random-Inv :
    {s : System} (index : ℕ)
    → Inv s
    → (0 < length s.workers → index < length s.workers)
    → Inv (try_join_random index s)
unfolding try_join_random
try_join_random-Inv {s} index inv h = elim (Bool-cases (length s.workers == 0)) [
  | inl empty ↦ rw empty inv
  | inr more ↦
      let nonempty : 0 < length s.workers = ground arith in
      elim (Bool-cases (is_done (get_or s.workers index finished))) [
        | inr busy ↦ rw (more, busy) inv
        | inl done ↦
            rw (more, done)
              (record {
                owned = remove-IsOwned index inv.owned (h nonempty) (is_done-finished _ done);
                live =
                    omega
                      (arith, inv.live, inv.few, nonempty, length-remove_worker s.workers index);
                few = omega (arith, inv.few, length-remove_worker s.workers index);
              })
      ]
]

holds-worker_main : (role : Role) (ops a : ℕ) → holds a (worker_main role ops) ≡ 0
holds-worker_main producer ops a = refl
holds-worker_main consumer ops a = refl

worker_main-IsLocal : (role : Role) (n ops : ℕ) → IsLocal n (worker_main role ops)
worker_main-IsLocal producer n ops = tt
worker_main-IsLocal consumer n ops = tt

try_spawn-Inv : {s : System} (role : Role) (ops : ℕ) → Inv s → Inv (try_spawn role ops s)
unfolding try_spawn
try_spawn-Inv {s} role ops inv = elim (Bool-cases (leb max_live_threads (length s.workers))) [
  | inl full ↦ rw full inv
  | inr room ↦ rw room (record {
    owned =
        spawn-IsOwned inv.owned (worker_main role ops) _
          (worker_main-IsLocal role (Ring.capacity s.shared.queue) ops)
          (holds-worker_main role ops);
    live = omega (arith, inv.live, inv.few, length-append s.workers (worker_main role ops ∷ []));
    few = ground (arith, room, length-append s.workers (worker_main role ops ∷ []));
  })
]

pub join_part-Inv :
    {s : System} (action index : ℕ)
    → Inv s
    → (0 < length s.workers → index < length s.workers)
    → Inv (join_part action index s)
unfolding join_part
join_part-Inv action index inv h = elim (Bool-cases (ltb action 30)) [
  | inl e ↦ rw e (try_join_random-Inv index inv h)
  | inr e ↦ rw e inv
]

pub spawn_part-Inv : {s : System} (action ops : ℕ) → Inv s → Inv (spawn_part action ops s)
unfolding spawn_part
spawn_part-Inv action ops inv = elim (Bool-cases (ltb action 60)) [
  | inl e ↦ rw e (try_spawn-Inv producer ops inv)
  | inr e ↦ elim (Bool-cases (ltb action 90)) [
    | inl f ↦ rw (e, f) (try_spawn-Inv consumer ops inv)
    | inr f ↦ rw (e, f) inv
  ]
]
