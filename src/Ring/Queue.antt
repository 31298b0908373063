-- ===== src/Ring/Queue.antt =====
-- The abstract view of a ring in one thread's hands: a bounded queue, and the calls made on it.
use mathlib.Core.Option
use native.Mathlib.Nat.{mod-lt, mod-add-mod}
use mpmc_with_memory_managem.Base.{
  ℕ, suc, ◌%◌, ◌<◌, ◌≡◌, ◌≢◌, refl, sym, ◌∙◌, arith, Option, none, some, List, [], ◌∷◌, ◌++◌, All,
  length, get_or, ltb, if◌then◌else◌, dec_lt,
}
use mpmc_with_memory_managem.Ring.{Mpmc, capacity, push, try_pop}
use mpmc_with_memory_managem.Ring.Probe.{never, positive, ahead}
use mpmc_with_memory_managem.Ring.Calls.{push_spins, ahead_onto}
use mpmc_with_memory_managem.Ring.Fifo.{Holds, push-Holds, try_pop-Holds_nil, try_pop-Holds_cons}

pub data Op : Type 0 where
  put : ℕ → Op
  get : Op

-- A thread's calls in order, and what each `try_pop` among them returns; `none` where a `push`
-- spins for ever.
unfoldable pub run : Mpmc → List Op → Option (List (Option ℕ))
run q [] = some []
run q (put m ∷ ops) = elim (push never (capacity q) q m) [ none ↦ none | some q' ↦ run q' ops ]
run q (get ∷ ops) = elim (try_pop q) [
  | none ↦ Option.map (◌∷◌ none) (run q ops)
  | some (m, q') ↦ Option.map (◌∷◌ (some m)) (run q' ops)
]

-- The same calls on a queue of at most `cap` messages.
unfoldable pub run_queue : ℕ → List ℕ → List Op → Option (List (Option ℕ))
run_queue cap xs [] = some []
run_queue cap xs (put m ∷ ops) =
    let rest = run_queue cap (xs ++ (m ∷ [])) ops in if ltb (length xs) cap then rest else none
run_queue cap [] (get ∷ ops) = Option.map (◌∷◌ none) (run_queue cap [] ops)
run_queue cap (x ∷ xs) (get ∷ ops) = Option.map (◌∷◌ (some x)) (run_queue cap xs ops)

-- No null pointer is pushed.
abbrev pub IsReal : Op → Type 0
IsReal (put m) = m ≢ 0
IsReal get = Unit

get_or_real : (xs : List ℕ) (i : ℕ) → All (λ x. x ≢ 0) xs → i < length xs → get_or xs i 0 ≢ 0
get_or_real [] i h l = absurd (omega arith)
get_or_real (x ∷ xs) ℕ.zero h l = h.0
get_or_real (x ∷ xs) (suc i) h l = get_or_real xs i h.1 (omega arith)

full_slots :
    {q : Mpmc} {xs : List ℕ}
    → Holds q xs
    → length xs ≡ capacity q
    → (j : ℕ) → j < capacity q
    → get_or q.ring j 0 ≢ 0
full_slots {q} {xs} h full j l =
    let (d, k, same) = slot_reached in
    rw (← same) (λ e. get_or_real xs d h.real (omega arith) (sym (h.window d k) ∙ e))
  where
    slot_reached : (d : ℕ) × (d < capacity q) × (ahead q.ring q.pop_cursor d ≡ j)
    slot_reached =
        let (d, k, e) =
          ahead_onto q.ring (q.pop_cursor % capacity q) j (mod-lt q.pop_cursor (positive h.sized))
            l in
        (d, k, sym (mod-add-mod q.pop_cursor (capacity q) d) ∙ e)

push_full :
    {q : Mpmc} {xs : List ℕ} (m : ℕ)
    → Holds q xs
    → length xs ≡ capacity q
    → m ≢ 0
    → push never (capacity q) q m ≡ none
push_full {q} m h full real = push_spins never (capacity q) q m h.sized (full_slots h full) real

-- For a ring that holds the messages `xs`, and any sequence of `push` and `try_pop` calls by one
-- thread with no null pointer pushed and no compare-exchange that fails spuriously: the results are
-- those of a first-in first-out queue of at most `Capacity` messages, a `push` that spins for ever
-- included.
pub run_refines :
    (ops : List Op) {q : Mpmc} {xs : List ℕ}
    → Holds q xs
    → All IsReal ops
    → run q ops ≡ run_queue (capacity q) xs ops
unfolding run run_queue
run_refines [] h real = refl
run_refines (put m ∷ ops) {q} {xs} h real = elim (dec_lt (length xs) (capacity q)) [
  | yes room ↦
      let (q', e, h', same) = push-Holds h m room real.0 in
      ground (arith, e, same, run_refines ops h' real.1)
  | no full ↦ ground (arith, push_full m h (omega (arith, h.room)) real.0)
]
run_refines (get ∷ ops) {q} {xs = []} h real =
    ground (arith, try_pop-Holds_nil h, run_refines ops h real.1)
run_refines (get ∷ ops) {q} {xs = x ∷ xs} h real =
    let (q', e, h', same) = try_pop-Holds_cons h in
    ground (arith, e, same, run_refines ops h' real.1)
