-- ===== src/Trading/Tests.antt =====
-- A signal on its way to an order, and an order on its way to a confirmation.
use mpmc_with_memory_managem.Base.{ℕ, ◌+◌, ◌≡◌, refl, arith, some, [], ◌∷◌, get_or}
use mpmc_with_memory_managem.Base.Sum.{total}
use mpmc_with_memory_managem.Base.Int.{pos}
use mpmc_with_memory_managem.Wire.Fits.{checked}
use mpmc_with_memory_managem.Proto.Message.{
  buy, signal, zero_bytes, write_bytes, ouch_enter_order_wire, ouch_order_accepted_wire,
}
use mpmc_with_memory_managem.Proto.Nasdaq.{
  OuchEnterOrder, OuchOrderAccepted, ouch_enter_order_struct, ouch_order_accepted_struct,
  ouch_enter_order_init, ouch_order_accepted_init,
}
use mpmc_with_memory_managem.Proto.Signal.{
  StrategySignal, strategy_signal_init, strategy_signal_struct,
}
use mpmc_with_memory_managem.Pool.{Slot, TaggedPool, slot_init}
use mpmc_with_memory_managem.Pool.Slots.{IsMapped}
use mpmc_with_memory_managem.Ring.{Mpmc}
use mpmc_with_memory_managem.Ring.Probe.{IsSized, never}
use mpmc_with_memory_managem.Ring.Calls.{pushed}
use mpmc_with_memory_managem.Runtime.Counts.{acquired, in_ring}
use mpmc_with_memory_managem.Trading.Ledger.{Each, Books}
use mpmc_with_memory_managem.Trading.Strategy.{evaluate}
use mpmc_with_memory_managem.Trading.Strategy.Band.{evaluate_lem}
use mpmc_with_memory_managem.Trading.Consumer.{
  Consumer, submit, ouch_poll_once, nnf_poll_once, sbe_poll_once, mcx_poll_once,
}
use mpmc_with_memory_managem.Trading.Consumer.Owned
use mpmc_with_memory_managem.Trading.Consumer.Owned.{consumers-IsSettled}
use mpmc_with_memory_managem.Trading.Consumer.Orders.{Carries, HasRoom, submit_lem}
use mpmc_with_memory_managem.Trading.Gateway.{ExchangeGateway, confirm}
use mpmc_with_memory_managem.Trading.Gateway.Confirms.{confirm_lem}

evaluate_lem_example : evaluate (pos 20000) (pos 19970) (pos 10) ≡ buy
evaluate_lem_example =
    evaluate_lem 20000 19970 10 (omega arith) (omega arith) (omega arith) (omega arith)

abbrev buying : StrategySignal
buying = record strategy_signal_init { side = 1; price = 1500; quantity = 100; order_token = 7 }

abbrev carrier : Slot
carrier = record {
  message = record { kind = signal; bytes = write_bytes buying zero_bytes };
  state = 1;
}

abbrev empty_queue : Mpmc
empty_queue = record { ring = 0 ∷ 0 ∷ []; post_cursor = 0; pop_cursor = 0 }

abbrev one_queued : Mpmc
one_queued = record { ring = 384 ∷ 0 ∷ []; post_cursor = 1; pop_cursor = 0 }

one_queued-IsSized : IsSized one_queued.ring
one_queued-IsSized = record { exponent = 1; small = omega arith; sized = refl }

empty_queue-IsSized : IsSized empty_queue.ring
empty_queue-IsSized = record { exponent = 1; small = omega arith; sized = refl }

abbrev pool : TaggedPool
pool = record { base = 384; slots = carrier ∷ slot_init ∷ [] }

pool-IsMapped : IsMapped pool
pool-IsMapped = record { not_null = omega arith; in_range = omega arith }

pool-Books : Books pool (λ a. in_ring a one_queued.ring + in_ring a empty_queue.ring + 0)
unfolding total acquired
pool-Books = record {
  mapped = pool-IsMapped;
  states = (omega arith, (omega arith, tt));
  owned = λ a real. ground (arith, real);
}

abbrev consumer : Consumer
consumer = record {
  signal_queue = one_queued;
  pending_queue = empty_queue;
  pool = pool;
  submitted = 0;
}

abbrev nobody : ℕ → ℕ
nobody a = 0

consumers-IsSettled_example :
    Each (Owned.IsSettled nobody) (ouch_poll_once never 2 consumer)
    × ((trader_id : ℕ) → Each (Owned.IsSettled nobody) (nnf_poll_once never 2 trader_id consumer))
    × ((symbol_id : ℕ) → Each (Owned.IsSettled nobody) (sbe_poll_once never 2 symbol_id consumer))
    × ((seq sender_sub_id simple_security_id : ℕ)
        → Each
            (λ (r : ℕ × Consumer). Owned.IsSettled nobody r.1)
            (mcx_poll_once never 2 sender_sub_id simple_security_id (seq, consumer)))
consumers-IsSettled_example = consumers-IsSettled nobody never 2 consumer (record {
  signal_sized = one_queued-IsSized;
  pending_sized = empty_queue-IsSized;
  books = pool-Books;
})

room : HasRoom empty_queue 2
room = record {
  sized = empty_queue-IsSized;
  empty = 0;
  inside = omega arith;
  free = refl;
  fuelled = omega arith;
}

abbrev order : OuchEnterOrder
order = record ouch_enter_order_init { shares = 100; price = 1500 }

submit_lem_example :
    (c' : Consumer) × (submit never 2 384 order consumer ≡ some c')
    × Carries c'.pool 384 order
    × (c'.submitted ≡ 1)
    × (c'.signal_queue ≡ one_queued)
    × ((d : ℕ) × (get_or empty_queue.ring d 0 ≡ 0) × (c'.pending_queue ≡ pushed empty_queue d 384))
submit_lem_example =
    submit_lem 2 0 order consumer pool-IsMapped (omega arith) (checked order refl) room

abbrev gateway : ExchangeGateway
gateway = record {
  pending_queue = one_queued;
  confirm_queue = empty_queue;
  pool = pool;
  next_ouch_ref = 1;
  next_nnf_order = 1;
  next_sbe_seq = 1;
  next_mcx_order = 1;
  next_mcx_exec = 1;
  confirms = 0;
}

abbrev acceptance : OuchOrderAccepted
acceptance = record ouch_order_accepted_init { shares = 100; order_reference_number = 1 }

confirm_lem_example :
    (g' : ExchangeGateway) × (confirm never 2 384 acceptance gateway ≡ some g')
    × Carries g'.pool 384 acceptance
    × (g'.confirms ≡ 1)
    × (g'.pending_queue ≡ one_queued)
    × ((d : ℕ) × (get_or empty_queue.ring d 0 ≡ 0) × (g'.confirm_queue ≡ pushed empty_queue d 384))
confirm_lem_example =
    confirm_lem 2 0 acceptance gateway pool-IsMapped (omega arith) (checked acceptance refl) room
