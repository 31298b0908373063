-- ===== src/Runtime/Hang.antt =====
-- `consumer_main` does not look at `running_`: `stop` waits for consumers that wait for messages.
use mpmc_with_memory_managem.Base.{
  ℕ, zero, suc, ◌+◌, ◌^◌, ◌≤◌, ◌<◌, ◌≡◌, ◌≢◌, refl, sym, ap, ◌∙◌, arith, Bool, List, [], length,
  get_or, set, ltb, false, inl, inr, Bool-cases, ◌∷◌, ◌%◌, length-set, get_or-set_self,
  get_or-set_ne, ℕ_discrete, All,
}
use mpmc_with_memory_managem.Pool.{TaggedPool}
use Prim.Native.Nat.{bit_and}
use mpmc_with_memory_managem.Ring
use mpmc_with_memory_managem.Ring.{Mpmc, mask}
use mpmc_with_memory_managem.Runtime.{Shared, Pc, finished, advance, consuming, probing, probe_at}
use mpmc_with_memory_managem.Runtime.System.{
  System, joining, stopped, Step, work, roll, spawn, stop, leave, join, clear, restart, join_part,
  spawn_part, Reach, start, later, init,
}
use mpmc_with_memory_managem.Runtime.Ownership.{All-get, All-set_pc}
use mpmc_with_memory_managem.Runtime.Safety.{joining-injective}

abbrev pub IsEmpty : ℕ → Type 0
IsEmpty m = m ≡ 0

-- A consumer in `try_pop`, or between two calls of it, or a worker that has finished.
Waiting : Pc → Type 0
Waiting (consuming (suc left)) = Unit
Waiting (probing left cursor probe) = Unit
Waiting finished = Unit
Waiting _ = ⊥

-- `stop` joins the workers up to an unfinished consumer, and no message is left.
record Stuck (s : System) : Type 0 where
  empty : All IsEmpty s.shared.queue.ring
  waiting : All Waiting s.workers
  worker : ℕ
  there : worker < length s.workers
  unfinished : get_or s.workers worker finished ≢ finished
  at : ℕ
  phase_at : s.phase ≡ joining at
  before : at ≤ worker

-- What a step of a waiting worker does.
record Waits (ring : List ℕ) (pc : Pc) (r : Shared × Pc) : Type 0 where
  empty : All IsEmpty r.0.queue.ring
  waiting : Waiting r.1
  goes_on : pc ≢ finished → r.1 ≢ finished

set-IsEmpty : (ring : List ℕ) (i : ℕ) → All IsEmpty ring → All IsEmpty (set ring i 0)
set-IsEmpty [] i h = tt
set-IsEmpty (m ∷ ring) zero h = (refl, h.1)
set-IsEmpty (m ∷ ring) (suc i) h = (h.0, set-IsEmpty ring i h.1)

get-IsEmpty : (ring : List ℕ) (i : ℕ) → All IsEmpty ring → get_or ring i 0 ≡ 0
get-IsEmpty [] i h = refl
get-IsEmpty (m ∷ ring) zero h = h.0
get-IsEmpty (m ∷ ring) (suc i) h = get-IsEmpty ring i h.1

probe_at-Waits :
    (spurious : Bool) (s : Shared) (left cursor probe : ℕ)
    → All IsEmpty s.queue.ring
    → Waits s.queue.ring (probing left cursor probe) (probe_at spurious s left cursor probe)
unfolding probe_at Waiting
probe_at-Waits spurious s left cursor probe e =
    elim (Bool-cases (ltb probe (Ring.capacity s.queue))) [
      | inr out ↦ rw out (record { empty = e; waiting = tt; goes_on = λ ne f. absurd cc })
      | inl more ↦
          rw
            (
              more,
              get-IsEmpty s.queue.ring (bit_and ((cursor + probe) % 2 ^ 32) (mask s.queue.ring)) e,
            )
            (record {
              empty = set-IsEmpty s.queue.ring _ e;
              waiting = tt;
              goes_on = λ ne f. absurd cc;
            })
    ]

advance-Waits :
    (spurious : Bool) (s : Shared) (pc : Pc)
    → All IsEmpty s.queue.ring
    → Waiting pc
    → Waits s.queue.ring pc (advance spurious s pc)
unfolding advance Waiting
advance-Waits spurious s (consuming (suc left)) e w = record {
  empty = e;
  waiting = tt;
  goes_on = λ ne f. absurd cc;
}
advance-Waits spurious s (probing left cursor probe) e w =
    probe_at-Waits spurious s left cursor probe e
advance-Waits spurious s finished e w = record {
  empty = e;
  waiting = tt;
  goes_on = λ ne f. ne refl;
}
advance-Waits spurious s _ e w = absurd w

-- `t` has the ring and the phase of a stuck state, and the worker that is waited for.
Stuck-work :
    {s : System} (i : ℕ) (spurious : Bool)
    → (stuck : Stuck s) → i < length s.workers
    → let r = advance spurious s.shared (get_or s.workers i finished) in
      Stuck (record s { shared = r.0; workers = set s.workers i r.1 })
Stuck-work {s} i spurious stuck h = record {
  empty = waits.empty;
  waiting = All-set_pc Waiting s.workers i _ stuck.waiting waits.waiting;
  worker = stuck.worker;
  there = omega (arith, stuck.there, length-set s.workers i r.1);
  unfinished = elim (ℕ_discrete i stuck.worker) [
    | yes e ↦ λ f.
        waits.goes_on (λ d. stuck.unfinished (rw (sym e) d))
          (sym (get_or-set_self s.workers i r.1 finished h)
            ∙ ap (λ k. get_or (set s.workers i r.1) k finished) e
            ∙ f)
    | no ne ↦
        λ f. stuck.unfinished (sym (get_or-set_ne s.workers i stuck.worker r.1 finished ne) ∙ f)
  ];
  at = stuck.at;
  phase_at = stuck.phase_at;
  before = stuck.before;
}
  where
    r : Shared × Pc
    r = advance spurious s.shared (get_or s.workers i finished)

    waits : Waits s.shared.queue.ring (get_or s.workers i finished) r
    waits =
        advance-Waits spurious s.shared (get_or s.workers i finished) stuck.empty
          (All-get Waiting s.workers i finished stuck.waiting h)

Stuck-phase :
    {s : System} {r : Bool} (k : ℕ)
    → (stuck : Stuck s) → k ≤ stuck.worker
    → Stuck (record s { running = r; phase = joining k })
Stuck-phase k stuck h = record {
  empty = stuck.empty;
  waiting = stuck.waiting;
  worker = stuck.worker;
  there = stuck.there;
  unfinished = stuck.unfinished;
  at = k;
  phase_at = refl;
  before = h;
}

Stuck-Step : {s t : System} → Stuck s → Step s t → Stuck t
Stuck-Step stuck (work i spurious h) = Stuck-work i spurious stuck h
Stuck-Step stuck (roll action index at on small pick) = let p = stuck.phase_at in absurd cc
Stuck-Step stuck (spawn action ops at lo hi) = let p = stuck.phase_at in absurd cc
Stuck-Step stuck stop = record {
  empty = stuck.empty;
  waiting = stuck.waiting;
  worker = stuck.worker;
  there = stuck.there;
  unfinished = stuck.unfinished;
  at = stuck.at;
  phase_at = stuck.phase_at;
  before = stuck.before;
}
Stuck-Step stuck (leave at off) = let p = stuck.phase_at in absurd cc
Stuck-Step {s} stuck (join i at h done) =
    let same_place : i ≡ stuck.at = joining-injective (sym at ∙ stuck.phase_at) in
    let other : i ≢ stuck.worker = λ e. stuck.unfinished (rw (sym e) done) in
    Stuck-phase (suc i) stuck (omega (arith, other, stuck.before))
Stuck-Step stuck (clear i at all) =
    let same_place : i ≡ stuck.at = joining-injective (sym at ∙ stuck.phase_at) in
    absurd (omega (arith, stuck.before, stuck.there))
Stuck-Step stuck (restart at) = let p = stuck.phase_at in absurd cc

Reach-Stuck : {s t : System} → Stuck s → Reach s t → Stuck t
Reach-Stuck stuck start = stuck
Reach-Stuck stuck (later r step) = Stuck-Step (Reach-Stuck stuck r) step

never_stops : {s t : System} → Stuck s → Reach s t → t.phase ≢ stopped
never_stops stuck r e = let p = (Reach-Stuck stuck r).phase_at in absurd cc

-- One consumer of `ops` operations, which has begun its first `try_pop`, and a `stop` that has
-- joined the supervisor.
abbrev waited_for : TaggedPool → Mpmc → ℕ → System
waited_for pool queue ops = record {
  shared = record { pool = pool; queue = queue; pushed = 0; popped = 0; next_sequence = 2 };
  workers = consuming ops ∷ [];
  live_threads = 1;
  running = false;
  phase = joining 0;
}

reaches_waited_for :
    (pool : TaggedPool) (queue : Mpmc) (ops : ℕ)
    → 1 ≤ ops
    → ops ≤ 12
    → Reach (init pool queue) (waited_for pool queue ops)
unfolding init join_part spawn_part
reaches_waited_for pool queue ops lo hi =
    later
      (later
        (later (later (later start (restart refl)) (roll 60 0 refl refl (omega arith) (λ h. h)))
          (spawn 60 ops refl lo hi))
        stop)
      (leave refl refl)

-- For any pool, an empty queue and any number of operations that a consumer may draw, the runtime
-- can reach a state with `running` false from which no step of any thread leads to the end of
-- `stop`: it waits for a consumer, which waits for a message.
pub stop_hangs :
    (pool : TaggedPool) (queue : Mpmc) (ops : ℕ)
    → All IsEmpty queue.ring
    → 1 ≤ ops
    → ops ≤ 12
    → (s : System) × Reach (init pool queue) s
      × (s.running ≡ false)
      × ((t : System) → Reach s t → t.phase ≢ stopped)
unfolding Waiting
stop_hangs pool queue zero e lo hi = absurd (omega arith)
stop_hangs pool queue (suc ops) e lo hi = (
  waited_for pool queue (suc ops),
  reaches_waited_for pool queue (suc ops) lo hi,
  refl,
  λ t r.
      never_stops
        (record {
          empty = e;
          waiting = (tt, tt);
          worker = 0;
          there = omega arith;
          unfinished = λ f. absurd cc;
          at = 0;
          phase_at = refl;
          before = omega arith;
        })
        r,
)
