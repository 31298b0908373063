-- ===== src/Ring/Tests.antt =====
-- Rings of two and of four slots.
use mpmc_with_memory_managem.Base.{
  ℕ, suc, ◌<◌, zero, ◌≡◌, ◌≢◌, refl, arith, none, some, [], ◌∷◌, get_or,
}
use mpmc_with_memory_managem.Ring.{Mpmc, push, try_pop, capacity}
use mpmc_with_memory_managem.Ring
use mpmc_with_memory_managem.Ring.Probe.{IsSized, never}
use mpmc_with_memory_managem.Ring.Calls.{push_fills, push_spins, pushed, Tries, try_pop_lem}
use mpmc_with_memory_managem.Ring.Fifo.{init-Holds}
use mpmc_with_memory_managem.Ring.Queue.{put, get, run, run_queue, run_refines}

-- The cursor of the next `push` points to a slot in use.
abbrev wrapped : Mpmc
wrapped = record { ring = 0 ∷ 384 ∷ []; post_cursor = 3; pop_cursor = 1 }

abbrev full : Mpmc
full = record { ring = 768 ∷ 384 ∷ []; post_cursor = 3; pop_cursor = 1 }

wrapped-IsSized : IsSized wrapped.ring
wrapped-IsSized = record { exponent = 1; small = omega arith; sized = refl }

full-IsSized : IsSized full.ring
full-IsSized = record { exponent = 1; small = omega arith; sized = refl }

push_fills_example :
    (d : ℕ) × (d < 2)
    × (get_or wrapped.ring d 0 ≡ 0)
    × (push never 2 wrapped 768 ≡ some (pushed wrapped d 768))
push_fills_example =
    push_fills wrapped wrapped-IsSized 0 768 (omega arith) refl (λ e. absurd (omega (arith, e)))

occupied : (j : ℕ) → j < 2 → get_or full.ring j 0 ≢ 0
occupied zero h e = absurd (omega (arith, e))
occupied (suc zero) h e = absurd (omega (arith, e))
occupied (suc (suc j)) h e = absurd (omega arith)

push_spins_example : push never 100 full 1152 ≡ none
push_spins_example =
    push_spins never 100 full 1152 full-IsSized occupied (λ e. absurd (omega (arith, e)))

try_pop_lem_example : Tries wrapped (try_pop wrapped)
try_pop_lem_example = try_pop_lem wrapped wrapped-IsSized

run_refines_example :
    run (Ring.init 4) (put 384 ∷ put 768 ∷ get ∷ get ∷ get ∷ [])
    ≡ run_queue 4 [] (put 384 ∷ put 768 ∷ get ∷ get ∷ get ∷ [])
unfolding Ring.init
run_refines_example =
    run_refines (put 384 ∷ put 768 ∷ get ∷ get ∷ get ∷ []) (init-Holds 2 (omega arith))
      ((λ e. absurd (omega (arith, e))), ((λ e. absurd (omega (arith, e))), (tt, (tt, (tt, tt)))))
