-- ===== src/Trading/Producer/Tests.antt =====
-- Ticks of the ITCH producer.
use mpmc_with_memory_managem.Base.{ℕ, ◌+◌, ◌-◌, ◌*◌, ◌/◌, ◌%◌, ◌^◌, ◌≡◌, refl, arith, some, [], ◌∷◌}
use mpmc_with_memory_managem.Base.Sum.{total}
use mpmc_with_memory_managem.Base.Int.{sub_ℕ, ℤ, pos}
use mpmc_with_memory_managem.Wire.Fits.{checked}
use mpmc_with_memory_managem.Proto.Message.{
  Side, buy, itch, zero_bytes, write_bytes, itch_add_order_wire,
}
use mpmc_with_memory_managem.Proto.Nasdaq.{ItchAddOrder, itch_add_order_init, itch_add_order_struct}
use mpmc_with_memory_managem.Proto.Signal.{StrategySignal, strategy_signal_struct}
use mpmc_with_memory_managem.Pool.{Slot, TaggedPool, slot_init}
use mpmc_with_memory_managem.Pool.Slots.{IsMapped}
use mpmc_with_memory_managem.Ring.{Mpmc}
use mpmc_with_memory_managem.Ring.Probe.{IsSized, never}
use mpmc_with_memory_managem.Runtime.Counts.{acquired, in_ring}
use mpmc_with_memory_managem.Trading.Ledger.{Each, Books}
use mpmc_with_memory_managem.Trading.Strategy.{update_ref_price, evaluate}
use mpmc_with_memory_managem.Trading.Producer.{
  Producer, apply_exponent, on_tick, itch_signal, itch_poll_once, mtbt_poll_once, sbe_bbo_poll_once,
  mcx_tob_poll_once,
}
use mpmc_with_memory_managem.Trading.Producer.Exponent.{apply_exponent_lem}
use mpmc_with_memory_managem.Trading.Producer.Owned.{IsSettled, producers-IsSettled}
use mpmc_with_memory_managem.Trading.Producer.Signals.{Emits, on_tick_lem}

abbrev tick : ItchAddOrder
tick = record itch_add_order_init { shares = 100; price = 19970 }

abbrev carrier : Slot
carrier = record {
  message = record { kind = itch; bytes = write_bytes tick zero_bytes };
  state = 1;
}

abbrev empty_queue : Mpmc
empty_queue = record { ring = 0 ∷ 0 ∷ []; post_cursor = 0; pop_cursor = 0 }

abbrev one_queued : Mpmc
one_queued = record { ring = 384 ∷ 0 ∷ []; post_cursor = 1; pop_cursor = 0 }

abbrev pool : TaggedPool
pool = record { base = 384; slots = carrier ∷ slot_init ∷ [] }

pool-IsMapped : IsMapped pool
pool-IsMapped = record { not_null = omega arith; in_range = omega arith }

abbrev producer : Producer
producer = record {
  market_queue = one_queued;
  signal_queue = empty_queue;
  pool = pool;
  band_bps = pos 10;
  ref_price = pos 20000;
  next_token = 1;
  signals = 0;
}

empty_queue-IsSized : IsSized empty_queue.ring
empty_queue-IsSized = record { exponent = 1; small = omega arith; sized = refl }

abbrev nobody : ℕ → ℕ
nobody a = 0

pool-Books : Books pool (λ a. in_ring a one_queued.ring + in_ring a empty_queue.ring + nobody a)
unfolding total acquired
pool-Books = record {
  mapped = pool-IsMapped;
  states = (omega arith, (omega arith, tt));
  owned = λ a real. ground (arith, real);
}

producers-IsSettled_example :
    Each (IsSettled nobody) (itch_poll_once never never 2 producer)
    × Each (IsSettled nobody) (mtbt_poll_once never never 2 producer)
    × Each (IsSettled nobody) (sbe_bbo_poll_once never never 2 producer)
    × Each (IsSettled nobody) (mcx_tob_poll_once never never 2 producer)
    × ((price : ℤ) (make : Side → ℕ → StrategySignal)
        → Each (IsSettled nobody) (on_tick never never 2 price make 0 producer))
producers-IsSettled_example = producers-IsSettled nobody never never 2 producer (record {
  market_sized = record { exponent = 1; small = omega arith; sized = refl };
  signal_sized = empty_queue-IsSized;
  books = pool-Books;
})

on_tick_lem_example :
    (p' : Producer) × (on_tick never never 2 (pos 19970) (itch_signal tick) 384 producer ≡ some p')
    × Emits
        (record producer { ref_price = pos 19997; next_token = 2 })
        384
        (itch_signal tick buy 1)
        p'
unfolding update_ref_price evaluate
on_tick_lem_example =
    on_tick_lem never 2 0 (pos 19970) (itch_signal tick) producer pool-IsMapped (omega arith)
      (record {
        sized = empty_queue-IsSized;
        empty = 0;
        inside = omega arith;
        free = refl;
        fuelled = omega arith;
      })
      (λ e. absurd (omega (arith, e))) (checked (itch_signal tick buy 1) refl)

apply_exponent_lem_example :
    let minus_two = (2 ^ 8 - 2) % 2 ^ 8 in
    (apply_exponent (pos 12345) 2 ≡ pos (12345 * 10 ^ 2))
    × (apply_exponent (sub_ℕ 0 12345) 2 ≡ sub_ℕ 0 (12345 * 10 ^ 2))
    × (apply_exponent (pos 12345) minus_two ≡ pos (12345 / 10 ^ 2))
    × (apply_exponent (sub_ℕ 0 12345) minus_two ≡ sub_ℕ 0 (12345 / 10 ^ 2))
apply_exponent_lem_example = apply_exponent_lem 12345 2 (omega arith) (omega arith)
