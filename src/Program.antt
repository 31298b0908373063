-- ===== src/Program.antt =====
-- The trading part of src/main.cpp: what the reader has queued goes through the producers, the
-- consumers and the gateway. The parts refer to the queues and the pool of the program: each is lent
-- them for a call. A run is `none` while a `push` is still spinning after `fuel` attempts.
pub mod Frames
pub mod Lent
pub mod Routing
pub mod Draining
pub mod Settled
mod Tests
use mathlib.Core.Option
use mpmc_with_memory_managem.Base.{
  ℕ, zero, suc, ◌+◌, ◌%◌, ◌^◌, Bool, Option, none, some, List, ◌==◌, if◌then◌else◌,
}
use mpmc_with_memory_managem.Wire.Struct.{load}
use mpmc_with_memory_managem.Proto.Nasdaq.{itch_add_order_struct}
use mpmc_with_memory_managem.Proto.Nse.{mtbt_new_order_struct}
use mpmc_with_memory_managem.Proto.Mcx.Order.{top_of_book_struct}
use mpmc_with_memory_managem.Proto.Message.{
  Kind, itch, mtbt, mcx_market, ouch_confirm, nnf_confirm, mcx_confirm,
}
use mpmc_with_memory_managem.Pool.{TaggedPool, release, message_at}
use mpmc_with_memory_managem.Ring.{Mpmc, try_pop}
use mpmc_with_memory_managem.Trading.Producer.{Producer, itch_on_tick, mtbt_on_tick, mcx_on_tick}
use mpmc_with_memory_managem.Trading.Consumer.{
  Consumer, ouch_poll_once, nnf_poll_once, mcx_poll_once,
}
use mpmc_with_memory_managem.Trading.Gateway.{ExchangeGateway, poll_once}

-- `mcx_consumer` carries its sequence number.
pub record Program : Type 0 where
  pub market_queue : Mpmc
  pub signal_queue : Mpmc
  pub pending_queue : Mpmc
  pub confirm_queue : Mpmc
  pub pool : TaggedPool
  pub itch_producer : Producer
  pub mtbt_producer : Producer
  pub mcx_producer : Producer
  pub ouch_consumer : Consumer
  pub nnf_consumer : Consumer
  pub mcx_consumer : ℕ × Consumer
  pub gateway : ExchangeGateway

-- What is lent to a producer, and what it leaves.
abbrev pub to_producer : Program → Producer → Producer
to_producer s p = record p {
  market_queue = s.market_queue;
  signal_queue = s.signal_queue;
  pool = s.pool;
}

abbrev pub from_producer : Program → Producer → Program
from_producer s p = record s {
  market_queue = p.market_queue;
  signal_queue = p.signal_queue;
  pool = p.pool;
}

-- The same for a consumer, and for the gateway.
abbrev pub to_consumer : Program → Consumer → Consumer
to_consumer s c = record c {
  signal_queue = s.signal_queue;
  pending_queue = s.pending_queue;
  pool = s.pool;
}

abbrev pub from_consumer : Program → Consumer → Program
from_consumer s c = record s {
  signal_queue = c.signal_queue;
  pending_queue = c.pending_queue;
  pool = c.pool;
}

abbrev pub to_gateway : Program → ExchangeGateway
to_gateway s = record (s.gateway) {
  pending_queue = s.pending_queue;
  confirm_queue = s.confirm_queue;
  pool = s.pool;
}

abbrev pub from_gateway : Program → ExchangeGateway → Program
from_gateway s g = record s {
  pending_queue = g.pending_queue;
  confirm_queue = g.confirm_queue;
  pool = g.pool;
  gateway = g;
}

-- The confirmations counted, of the three kinds.
pub record Confirmed : Type 0 where
  pub ouch_confirmed : ℕ
  pub nnf_confirmed : ℕ
  pub mcx_confirmed : ℕ

abbrev pub confirmed_init : Confirmed
confirmed_init = record { ouch_confirmed = 0; nnf_confirmed = 0; mcx_confirmed = 0 }

abbrev pub count : Kind → Confirmed → Confirmed
count ouch_confirm n = record n { ouch_confirmed = (n.ouch_confirmed + 1) % 2 ^ 64 }
count nnf_confirm n = record n { nnf_confirmed = (n.nnf_confirmed + 1) % 2 ^ 64 }
count mcx_confirm n = record n { mcx_confirmed = (n.mcx_confirmed + 1) % 2 ^ 64 }
count _ n = n

-- The loop over the confirm queue.
unfoldable pub collect : ℕ → Confirmed → Program → Confirmed × Program
unfolding try_pop release message_at
collect zero n s = (n, s)
collect (suc rounds) n s = elim (try_pop s.confirm_queue) [
  | none ↦ (n, s)
  | some (confirm, q) ↦
      let rest =
        collect rounds (count (message_at s.pool confirm).kind n)
          (record s { confirm_queue = q; pool = release s.pool confirm }) in
      if confirm == 0 then (n, record s { confirm_queue = q }) else rest
]

-- A loop of a number of rounds that do not break it.
unfoldable pub repeated : ℕ → (Program → Option Program) → Program → Option Program
repeated zero f s = some s
repeated (suc rounds) f s = elim (f s) [ none ↦ none | some s' ↦ repeated rounds f s' ]

-- `spurious n` is a spurious failure in `push`.
module _ (spurious : ℕ → Bool) (fuel : ℕ) where
  unfoldable pub poll_ouch : Program → Option Program
  unfolding ouch_poll_once
  poll_ouch s =
      Option.map (λ c. record (from_consumer s c) { ouch_consumer = c })
        (ouch_poll_once spurious fuel (to_consumer s s.ouch_consumer))

  -- The trader is 1, the constructor's default.
  unfoldable pub poll_nnf : Program → Option Program
  unfolding nnf_poll_once
  poll_nnf s =
      Option.map (λ c. record (from_consumer s c) { nnf_consumer = c })
        (nnf_poll_once spurious fuel 1 (to_consumer s s.nnf_consumer))

  unfoldable pub poll_mcx : Program → Option Program
  unfolding mcx_poll_once
  poll_mcx s =
      Option.map (λ (r : ℕ × Consumer). record (from_consumer s r.1) { mcx_consumer = r })
        (mcx_poll_once spurious fuel 1 5001 (s.mcx_consumer.0, to_consumer s s.mcx_consumer.1))

  -- A round of `drain_signals`.
  unfoldable pub poll_consumers : Program → Option Program
  unfolding poll_ouch poll_nnf poll_mcx
  poll_consumers s = elim (poll_ouch s) [
    | none ↦ none
    | some s' ↦ elim (poll_nnf s') [ none ↦ none | some s'' ↦ poll_mcx s'' ]
  ]

  unfoldable pub drain_signals : ℕ → Program → Option Program
  unfolding repeated poll_consumers
  drain_signals rounds s = repeated rounds poll_consumers s

  unfoldable pub poll_gateway : Program → Option Program
  unfolding poll_once
  poll_gateway s = Option.map (from_gateway s) (poll_once spurious fuel (to_gateway s))

  unfoldable pub drain_gateway : ℕ → Program → Option Program
  unfolding repeated poll_gateway
  drain_gateway rounds s = repeated rounds poll_gateway s

-- `busy i` is one in `acquire`.
module _ (busy spurious : ℕ → Bool) (fuel : ℕ) where
  -- From the switch on the message's kind on.
  unfoldable pub route_kind : Kind → List ℕ → ℕ → Program → Option Program
  unfolding itch_on_tick mtbt_on_tick mcx_on_tick release
  route_kind itch bytes msg s =
      Option.map (λ p. record (from_producer s p) { itch_producer = p })
        (itch_on_tick busy spurious fuel (load bytes) msg (to_producer s s.itch_producer))
  route_kind mtbt bytes msg s =
      Option.map (λ p. record (from_producer s p) { mtbt_producer = p })
        (mtbt_on_tick busy spurious fuel (load bytes) msg (to_producer s s.mtbt_producer))
  route_kind mcx_market bytes msg s =
      Option.map (λ p. record (from_producer s p) { mcx_producer = p })
        (mcx_on_tick busy spurious fuel (load bytes) msg (to_producer s s.mcx_producer))
  route_kind _ bytes msg s = some (record s { pool = release s.pool msg })

  unfoldable pub route_market_tick : ℕ → Program → Option Program
  unfolding route_kind message_at
  route_market_tick msg s =
      if msg == 0
      then some s
      else route_kind (message_at s.pool msg).kind (message_at s.pool msg).bytes msg s

  -- The loop over the market queue.
  unfoldable pub route_market : ℕ → Program → Option Program
  unfolding try_pop route_market_tick
  route_market zero s = some s
  route_market (suc rounds) s = elim (try_pop s.market_queue) [
    | none ↦ some s
    | some (msg, q) ↦ elim (route_market_tick msg (record s { market_queue = q })) [
      | none ↦ none
      | some s' ↦ route_market rounds s'
    ]
  ]

  -- From the first tick to the last confirmation.
  unfoldable pub trade : Program → Option (Confirmed × Program)
  unfolding route_market drain_signals drain_gateway collect
  trade s = elim (route_market 32 s) [
    | none ↦ none
    | some s' ↦ elim (drain_signals spurious fuel 32 s') [
      | none ↦ none
      | some s'' ↦
          Option.map (λ t. collect 32 confirmed_init t) (drain_gateway spurious fuel 32 s'')
    ]
  ]
