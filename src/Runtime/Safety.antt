-- ===== src/Runtime/Safety.antt =====
-- The invariant of the runtime holds between any two steps.
use mpmc_with_memory_managem.Base.{
  ℕ, suc, ◌≤◌, ◌<◌, ◌≡◌, refl, sym, ap, ◌∙◌, arith, Bool, List, [], length, get_or, set, length-set,
  get_or-set_self, get_or-set_ne, ℕ_discrete,
}
use mpmc_with_memory_managem.Base.Sum.{total-eq-zero, total-nil}
use mpmc_with_memory_managem.Runtime.{Shared, Pc, finished, advance}
use mpmc_with_memory_managem.Runtime.Counts.{holds, held}
use mpmc_with_memory_managem.Runtime.System.{
  System, Phase, looping, rolled, joining, Step, work, roll, spawn, stop, leave, join, clear,
  restart, Reach, start, later,
}
use mpmc_with_memory_managem.Runtime.Ownership.{
  IsOwned, Inv, work-IsOwned, join_part-Inv, spawn_part-Inv,
}

-- While `stop` joins worker `i`, the workers before it have finished.
abbrev pub Joined : System → Type 0
Joined s = (i : ℕ) → s.phase ≡ joining i → (j : ℕ) → j < i → get_or s.workers j finished ≡ finished

joining_index : Phase → ℕ
joining_index (joining i) = i
joining_index _ = 0

pub joining-injective : {i j : ℕ} → joining i ≡ joining j → i ≡ j
unfolding joining_index
joining-injective e = ap joining_index e

-- A finished worker does not go on.
stays_finished :
    (spurious : Bool) (s : Shared) (workers : List Pc) (i j : ℕ)
    → i < length workers
    → get_or workers j finished ≡ finished
    → get_or (set workers i (advance spurious s (get_or workers i finished)).1) j finished
      ≡ finished
unfolding advance
stays_finished spurious s workers i j h done = elim (ℕ_discrete i j) [
  | no ne ↦ get_or-set_ne workers i j _ finished ne ∙ done
  | yes e ↦
      let same_worker : get_or workers i finished ≡ finished = rw e done in
      rw (same_worker, sym e) (get_or-set_self workers i finished finished h)
]

pub record Safe (s : System) : Type 0 where
  pub inv : Inv s
  pub joined : Joined s

-- `join_all` has seen every worker finish, so that the list that it clears owns nothing.
cleared :
    {s : System} (i : ℕ) → Safe s → s.phase ≡ joining i → length s.workers ≤ i → IsOwned s.shared []
cleared {s} i safe at all = record {
  shared = safe.inv.owned.shared;
  local = tt;
  owned = λ a real. omega (arith, safe.inv.owned.owned a real, nothing a, total-nil (holds a));
}
  where
    nothing : (a : ℕ) → held a s.workers ≡ 0
    nothing a =
        total-eq-zero (holds a) s.workers finished
          (λ j h. ap (holds a) (safe.joined i at j (omega arith)))

in_phase : {s : System} {r : Bool} (p : Phase) → Inv s → Inv (record s { running = r; phase = p })
in_phase p inv = record { owned = inv.owned; live = inv.live; few = inv.few }

Step-Safe : {s t : System} → Safe s → Step s t → Safe t
Step-Safe {s} safe (work i spurious h) = record {
  inv = record {
    owned = work-IsOwned safe.inv.owned i spurious h;
    live = safe.inv.live ∙ sym (length-set s.workers i _);
    few = omega (
      arith,
      safe.inv.few,
      length-set s.workers i (advance spurious s.shared (get_or s.workers i finished)).1,
    );
  };
  joined = λ k at j l. stays_finished spurious s.shared s.workers i j h (safe.joined k at j l);
}
Step-Safe safe (roll action index at on small pick) = record {
  inv = in_phase (rolled action) (join_part-Inv action index safe.inv pick);
  joined = λ k e. absurd cc;
}
Step-Safe safe (spawn action ops at lo hi) = record {
  inv = in_phase looping (spawn_part-Inv action ops safe.inv);
  joined = λ k e. absurd cc;
}
Step-Safe {s} safe stop = record { inv = in_phase s.phase safe.inv; joined = safe.joined }
Step-Safe safe (leave at off) = record {
  inv = in_phase (joining 0) safe.inv;
  joined = λ k e j l. absurd (omega (arith, l, joining-injective e));
}
Step-Safe safe (join i at h done) = record {
  inv = in_phase (joining (suc i)) safe.inv;
  joined = λ k e j l. elim (ℕ_discrete j i) [
    | yes same_one ↦ rw same_one done
    | no ne ↦ safe.joined i at j (omega (arith, l, joining-injective e))
  ];
}
Step-Safe safe (clear i at all) = record {
  inv = record { owned = cleared i safe at all; live = refl; few = omega arith };
  joined = λ k e. absurd cc;
}
Step-Safe safe (restart at) = record { inv = in_phase looping safe.inv; joined = λ k e. absurd cc }

pub Reach-Safe : {s t : System} → Safe s → Reach s t → Safe t
Reach-Safe safe start = safe
Reach-Safe safe (later r step) = Step-Safe (Reach-Safe safe r) step
