-- ===== src/Program/Tests.antt =====
-- A run on a program with one message, a market tick, in a pool of two, and frames of two orders.
use mpmc_with_memory_managem.Base.{ℕ, ◌≡◌, refl, arith, some, [], ◌∷◌}
use mpmc_with_memory_managem.Base.Int.{pos}
use mpmc_with_memory_managem.Base.Sum.{total}
use mpmc_with_memory_managem.Proto.Message.{itch, zero_bytes}
use mpmc_with_memory_managem.Pool.{Slot, TaggedPool, slot_init}
use mpmc_with_memory_managem.Ring.{Mpmc}
use mpmc_with_memory_managem.Ring.Probe.{IsSized, never}
use mpmc_with_memory_managem.Runtime.Counts.{acquired}
use mpmc_with_memory_managem.Trading.Ledger.{Each}
use mpmc_with_memory_managem.Trading.Producer.{Producer}
use mpmc_with_memory_managem.Trading.Consumer.{Consumer}
use mpmc_with_memory_managem.Trading.Gateway.{ExchangeGateway}
use mpmc_with_memory_managem.Wire.Fits.{checked}
use mpmc_with_memory_managem.Proto.Nasdaq.{itch_add_order_struct}
use mpmc_with_memory_managem.Proto.Nse.{mtbt_stream_header_struct, mtbt_new_order_struct}
use mpmc_with_memory_managem.Proto.ItchDecode.{split_itch_frame}
use mpmc_with_memory_managem.Proto.MtbtDecode.{split_mtbt_frame}
use mpmc_with_memory_managem.Program.{Program, Confirmed, trade}
use mpmc_with_memory_managem.Program.Frames.{
  add_order, append_itch_add_order, order_header, new_order, append_mtbt_order,
}
use mpmc_with_memory_managem.Program.Frames.Read.{gather_itch, itch_frame_read}
use mpmc_with_memory_managem.Program.Frames.Packets.{gather_mtbt, mtbt_frame_read}
use mpmc_with_memory_managem.Program.Lent.{IsSettled}
use mpmc_with_memory_managem.Program.Settled.{trade-IsSettled}

abbrev empty_queue : Mpmc
empty_queue = record { ring = 0 ∷ 0 ∷ []; post_cursor = 0; pop_cursor = 0 }

abbrev one_queued : Mpmc
one_queued = record { ring = 384 ∷ 0 ∷ []; post_cursor = 1; pop_cursor = 0 }

empty_queue-IsSized : IsSized empty_queue.ring
empty_queue-IsSized = record { exponent = 1; small = omega arith; sized = refl }

one_queued-IsSized : IsSized one_queued.ring
one_queued-IsSized = record { exponent = 1; small = omega arith; sized = refl }

abbrev carrier : Slot
carrier = record { message = record { kind = itch; bytes = zero_bytes }; state = 1 }

abbrev pool : TaggedPool
pool = record { base = 384; slots = carrier ∷ slot_init ∷ [] }

abbrev producer : Producer
producer = record {
  market_queue = empty_queue;
  signal_queue = empty_queue;
  pool = pool;
  band_bps = pos 10;
  ref_price = pos 0;
  next_token = 1;
  signals = 0;
}

abbrev consumer : Consumer
consumer = record {
  signal_queue = empty_queue;
  pending_queue = empty_queue;
  pool = pool;
  submitted = 0;
}

abbrev gateway : ExchangeGateway
gateway = record {
  pending_queue = empty_queue;
  confirm_queue = empty_queue;
  pool = pool;
  next_ouch_ref = 1;
  next_nnf_order = 1;
  next_sbe_seq = 1;
  next_mcx_order = 1;
  next_mcx_exec = 1;
  confirms = 0;
}

abbrev program : Program
program = record {
  market_queue = one_queued;
  signal_queue = empty_queue;
  pending_queue = empty_queue;
  confirm_queue = empty_queue;
  pool = pool;
  itch_producer = producer;
  mtbt_producer = producer;
  mcx_producer = producer;
  ouch_consumer = consumer;
  nnf_consumer = consumer;
  mcx_consumer = (1, consumer);
  gateway = gateway;
}

abbrev nobody : ℕ → ℕ
nobody a = 0

program-IsSettled : IsSettled nobody program
unfolding total acquired
program-IsSettled = record {
  market_sized = one_queued-IsSized;
  signal_sized = empty_queue-IsSized;
  pending_sized = empty_queue-IsSized;
  confirm_sized = empty_queue-IsSized;
  books = record {
    mapped = record { not_null = omega arith; in_range = omega arith };
    states = (omega arith, (omega arith, tt));
    owned = λ a real. ground (arith, real);
  };
}

trade-IsSettled_example :
    Each (λ (r : Confirmed × Program). IsSettled nobody r.1) (trade never never 2 program)
trade-IsSettled_example = trade-IsSettled nobody never never 2 program program-IsSettled

itch_frame_read_example :
    split_itch_frame gather_itch []
      (some (append_itch_add_order 20 100 9980 (append_itch_add_order 10 100 10000 [])))
    ≡ some (
      record { saved = 2; skipped = 0; consumed = 76 },
      add_order 10 100 10000 ∷ add_order 20 100 9980 ∷ [],
    )
itch_frame_read_example =
    itch_frame_read 10 100 10000 20 100 9980 (checked (add_order 10 100 10000) refl)
      (checked (add_order 20 100 9980) refl)

mtbt_frame_read_example :
    split_mtbt_frame gather_mtbt 3 []
      (some (append_mtbt_order 2 222 10 251000 (append_mtbt_order 1 111 10 250000 [])))
    ≡ some (
      record { saved = 2; skipped = 0; consumed = 68 },
      record { header = order_header 0 1; order = new_order 111 10 250000 }
          ∷ record { header = order_header 34 2; order = new_order 222 10 251000 }
          ∷ [],
    )
mtbt_frame_read_example =
    mtbt_frame_read 3 1 111 10 250000 2 222 10 251000 (checked (order_header 0 1) refl)
      (checked (new_order 111 10 250000) refl) (checked (order_header 34 2) refl)
      (checked (new_order 222 10 251000) refl) (omega arith)
