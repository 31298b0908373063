-- ===== src/Pool/Tests.antt =====
-- A pool of two slots at address 384, of which the second is acquired.
use mpmc_with_memory_managem.Base.{ℕ, ◌≡◌, ◌≢◌, refl, arith, Bool, false, [], ◌∷◌}
use mpmc_with_memory_managem.Proto.Nasdaq.{
  OuchEnterOrder, ouch_enter_order_init, ouch_enter_order_struct,
}
use mpmc_with_memory_managem.Proto.Message.{ouch_enter_order_wire}
use mpmc_with_memory_managem.Pool.{TaggedPool, slot_init, taken, acquire, release, acquire_filled}
use mpmc_with_memory_managem.Pool.Slots.{IsMapped, state}
use mpmc_with_memory_managem.Pool.Acquire.{Acquires, acquire_lem}
use mpmc_with_memory_managem.Pool.Release.{release-acquire, acquire_distinct}

abbrev reliable : ℕ → Bool
reliable i = false

abbrev one_free : TaggedPool
one_free = record { base = 384; slots = slot_init ∷ taken ∷ [] }

abbrev two_free : TaggedPool
two_free = record { base = 384; slots = slot_init ∷ slot_init ∷ [] }

one_free-IsMapped : IsMapped one_free
one_free-IsMapped = record { not_null = omega arith; in_range = omega arith }

two_free-IsMapped : IsMapped two_free
two_free-IsMapped = record { not_null = omega arith; in_range = omega arith }

takes_first : (acquire reliable two_free).0 ≡ 384
unfolding acquire
takes_first = refl

takes_second : (acquire reliable (acquire reliable two_free).1).0 ≡ 768
unfolding acquire
takes_second = refl

acquire_lem_example : Acquires reliable one_free (acquire reliable one_free)
acquire_lem_example = acquire_lem reliable one_free

release-acquire_example :
    state (release (acquire reliable one_free).1 (acquire reliable one_free).0) 0 ≡ state one_free 0
release-acquire_example = release-acquire reliable one_free one_free-IsMapped 0

acquire_distinct_example :
    (acquire reliable two_free).0 ≢ (acquire reliable (acquire reliable two_free).1).0
acquire_distinct_example =
    acquire_distinct reliable reliable two_free two_free-IsMapped (rw takes_first (omega arith))
      (rw takes_second (omega arith))

abbrev order : OuchEnterOrder
order = record ouch_enter_order_init { shares = 100; price = 1500 }

fills_first : (acquire_filled reliable one_free order).0 ≡ 384
unfolding acquire_filled
fills_first = refl
