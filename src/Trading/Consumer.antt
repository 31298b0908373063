-- ===== src/Trading/Consumer.antt =====
-- include/trading/consumer.hpp: each consumer turns the signals of its feed into orders. A step is
-- `none` while a `push` is still spinning after `fuel` attempts.
pub mod Orders
pub mod Owned
use mathlib.Core.Option
use mpmc_with_memory_managem.Base.{
  ℕ, ◌+◌, ◌-◌, ◌%◌, ◌^◌, Bool, not, ◌||◌, Option, none, some, List, [], ◌∷◌, ◌++◌, min, ltb, ◌==◌,
  if◌then◌else◌,
}
use mpmc_with_memory_managem.Wire.Struct.{Struct, store}
use mpmc_with_memory_managem.Proto.Nasdaq.{
  OuchEnterOrder, ouch_enter_order_init, ouch_enter_order_struct,
}
use mpmc_with_memory_managem.Proto.Nse.{
  NnfSecInfo, NnfOrderEntry, nnf_order_entry_init, nnf_order_entry_struct,
}
use mpmc_with_memory_managem.Proto.Sbe.Header.{Decimal64}
use mpmc_with_memory_managem.Proto.Sbe.OrderEntry.{
  CreateOrderReqV5, create_order_req_v5_init, create_order_req_v5_struct,
}
use mpmc_with_memory_managem.Proto.Mcx.Order.{
  NewOrderSingleShort, new_order_single_short_init, new_order_single_short_struct,
}
use mpmc_with_memory_managem.Proto.Signal.{StrategySignal, strategy_signal_struct}
use mpmc_with_memory_managem.Proto.Message
use mpmc_with_memory_managem.Proto.Message.{
  TaggedMessage, Kind, kind_code, same_kind, side_code, signal, itch, mtbt, sbe_market, mcx_market,
  WireMessage, write_bytes, ouch_enter_order_wire, nnf_order_entry_wire, create_order_req_wire,
  new_order_single_short_wire,
}
use mpmc_with_memory_managem.Pool.{TaggedPool, release, message_at, set_message}
use mpmc_with_memory_managem.Ring.{Mpmc, push, try_pop}
use mpmc_with_memory_managem.Trading.Strategy.{decode_signal}
use mpmc_with_memory_managem.Trading.Format.{decimal, print_into, strnlen, copy_chars}

-- What the four consumers have in common.
pub record Consumer : Type 0 where
  pub signal_queue : Mpmc
  pub pending_queue : Mpmc
  pub pool : TaggedPool
  pub submitted : ℕ

-- How the first half of `poll_once` ends: it has returned, or it holds a message with a signal.
pub data Polled : Type 0 where
  returned : Option Consumer → Polled
  holding : (msg : ℕ) → StrategySignal → Consumer → Polled

-- With `msg` popped.
unfoldable pub sort_signal : (ℕ → Bool) → ℕ → Kind → ℕ → Consumer → Polled
unfolding decode_signal message_at release push
sort_signal spurious fuel feed msg c =
    if not (same_kind message.kind signal)
    then returned (some (record c { pool = release c.pool msg }))
    else if not (s.feed == kind_code feed)
    then returned
        (Option.map (λ q. record c { signal_queue = q }) (push spurious fuel c.signal_queue msg))
    else if s.side == side_code Message.none
    then returned (some (record c { pool = release c.pool msg }))
    else holding msg s c
  where
    message : TaggedMessage
    message = message_at c.pool msg

    s : StrategySignal
    s = decode_signal message

unfoldable pub poll_signal : (ℕ → Bool) → ℕ → Kind → Consumer → Polled
unfolding try_pop sort_signal
poll_signal spurious fuel feed c = elim (try_pop c.signal_queue) [
  | none ↦ returned (some c)
  | some (msg, q) ↦ sort_signal spurious fuel feed msg (record c { signal_queue = q })
]

-- The order over the message, the message into the pending queue, and the count.
unfoldable pub submit :
    {A : Type 0} ⦃w : WireMessage A⦄ → (ℕ → Bool) → ℕ → ℕ → A → Consumer → Option Consumer
unfolding set_message message_at write_bytes push
submit ⦃w⦄ spurious fuel msg order c =
    Option.map
      (λ q. record c {
        pending_queue = q;
        pool = set_message c.pool msg (record {
          kind = w.kind_of;
          bytes = write_bytes ⦃r = w.struct⦄ order (message_at c.pool msg).bytes;
        });
        submitted = (c.submitted + 1) % 2 ^ 64;
      })
      (push spurious fuel c.pending_queue msg)

-- 'B' or 'S'
unfoldable pub ouch_order : StrategySignal → OuchEnterOrder
ouch_order s = record ouch_enter_order_init {
  message_type = 0x4f;
  order_token = s.order_token;
  buy_sell_indicator = if s.side == side_code Message.buy then 0x42 else 0x53;
  shares = s.quantity;
  price = s.price;
  time_in_force = 0;
  stock = s.stock;
}

unfoldable pub nnf_order : ℕ → StrategySignal → NnfOrderEntry
nnf_order trader_id s = record nnf_order_entry_init {
  transcode = 20000;
  trader_id = trader_id;
  buy_sell = if s.side == side_code Message.buy then 1 else 2;
  volume = s.quantity;
  price = s.price;
  book_type = 1;
  sec_info = record { symbol = s.symbol; series = s.series };
  transaction_id = if s.token == 0 then nnf_order_entry_init.transaction_id else s.token;
}

-- `order.qty.mantissa = signal.quantity`: from 32 bits to 64, with the sign.
abbrev pub widen : ℕ → ℕ
widen n = if ltb n (2 ^ 31) then n else n + 2 ^ 64 - 2 ^ 32

-- "lnk%u"
unfoldable pub sbe_order : ℕ → StrategySignal → CreateOrderReqV5
unfolding decimal print_into
sbe_order symbol_id s = record create_order_req_v5_init {
  category = 1;
  symbol_id = symbol_id;
  side = if s.side == side_code Message.buy then 1 else 2;
  order_type = 2;
  qty = record { mantissa = widen s.quantity; exponent = 0 };
  price = record { mantissa = widen s.price; exponent = 0 };
  time_in_force = 1;
  order_link_id =
      print_into (0x6c ∷ 0x6e ∷ 0x6b ∷ decimal s.order_token)
        create_order_req_v5_init.order_link_id;
}

unfoldable pub mcx_order : ℕ → ℕ → ℕ → StrategySignal → NewOrderSingleShort
unfolding strnlen
mcx_order seq sender_sub_id simple_security_id s = record new_order_single_short_init {
  msg_seq_num = seq;
  sender_sub_id = sender_sub_id;
  price = widen s.price;
  cl_ord_id = s.order_token;
  order_qty = widen s.quantity;
  disclosed_qty = widen s.quantity;
  simple_security_id = simple_security_id;
  side = if s.side == side_code Message.buy then 1 else 2;
  time_in_force = 0;
  strategy_trigger_seq_no = s.order_token;
  free_text1 =
      copy_chars (min 11 (strnlen s.symbol)) s.symbol new_order_single_short_init.free_text1;
}

-- `OuchConsumer::poll_once`
unfoldable pub ouch_poll_once : (ℕ → Bool) → ℕ → Consumer → Option Consumer
unfolding poll_signal submit ouch_order
ouch_poll_once spurious fuel c = elim (poll_signal spurious fuel itch c) [
  | returned r ↦ r
  | holding msg s c' ↦ submit spurious fuel msg (ouch_order s) c'
]

-- `NnfConsumer::poll_once`
unfoldable pub nnf_poll_once : (ℕ → Bool) → ℕ → ℕ → Consumer → Option Consumer
unfolding poll_signal submit nnf_order
nnf_poll_once spurious fuel trader_id c = elim (poll_signal spurious fuel mtbt c) [
  | returned r ↦ r
  | holding msg s c' ↦ submit spurious fuel msg (nnf_order trader_id s) c'
]

-- `SbeOrderEntryConsumer::poll_once`
unfoldable pub sbe_poll_once : (ℕ → Bool) → ℕ → ℕ → Consumer → Option Consumer
unfolding poll_signal submit sbe_order
sbe_poll_once spurious fuel symbol_id c = elim (poll_signal spurious fuel sbe_market c) [
  | returned r ↦ r
  | holding msg s c' ↦ submit spurious fuel msg (sbe_order symbol_id s) c'
]

-- `McxOrderConsumer::poll_once`, with its `next_seq_`.
unfoldable pub mcx_poll_once : (ℕ → Bool) → ℕ → ℕ → ℕ → ℕ × Consumer → Option (ℕ × Consumer)
unfolding poll_signal submit mcx_order
mcx_poll_once spurious fuel sender_sub_id simple_security_id (seq, c) =
    elim (poll_signal spurious fuel mcx_market c) [
      | returned r ↦ Option.map (λ c'. (seq, c')) r
      | holding msg s c' ↦
          Option.map (λ c''. ((seq + 1) % 2 ^ 32, c''))
            (submit spurious fuel msg (mcx_order seq sender_sub_id simple_security_id s) c')
    ]
