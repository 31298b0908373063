-- ===== src/Trading/Producer.antt =====
-- include/trading/producer.hpp: each producer turns the ticks of its feed into signals. A step is
-- `none` while a `push` is still spinning after `fuel` attempts.
pub mod Exponent
pub mod Owned
pub mod Signals
mod Tests
use mathlib.Core.Option
use mpmc_with_memory_managem.Base.{
  ℕ, zero, suc, ◌+◌, ◌-◌, ◌%◌, ◌^◌, Bool, not, Option, none, some, List, [], ◌∷◌, ◌++◌, take, drop,
  length, min, ltb, ◌==◌, if◌then◌else◌,
}
use mpmc_with_memory_managem.Base.Int.{ℤ, pos, ◌+ℤ◌, ◌*ℤ◌}
use mpmc_with_memory_managem.Wire.Struct.{load}
use mpmc_with_memory_managem.Proto.Nasdaq.{ItchAddOrder, itch_add_order_struct}
use mpmc_with_memory_managem.Proto.Nse.{MtbtNewOrder, mtbt_new_order_struct}
use mpmc_with_memory_managem.Proto.Sbe.Market.{BestObRpi, best_ob_rpi_struct}
use mpmc_with_memory_managem.Proto.Mcx.Order.{TopOfBook, top_of_book_struct}
use mpmc_with_memory_managem.Proto.Signal.{StrategySignal, strategy_signal_init}
use mpmc_with_memory_managem.Proto.Message
use mpmc_with_memory_managem.Proto.Message.{
  Kind, kind_code, same_kind, Side, side_code, itch, mtbt, sbe_market, mcx_market,
}
use mpmc_with_memory_managem.Pool.{TaggedPool, acquire, release, message_at, set_message}
use mpmc_with_memory_managem.Ring.{Mpmc, push, try_pop}
use mpmc_with_memory_managem.Trading.Int32.{to_int32, of_int32, to_int64, of_int64, wrap64, quot}
use mpmc_with_memory_managem.Trading.Format.{decimal, print_into, strnlen}
use mpmc_with_memory_managem.Trading.Strategy.{update_ref_price, evaluate, encode_signal}

-- `scaled *= 10`, and `scaled /= 10`, as often as told.
unfoldable pub scale_up : ℕ → ℤ → ℤ
unfolding ◌*ℤ◌
scale_up zero scaled = scaled
scale_up (suc i) scaled = scale_up i (wrap64 (scaled *ℤ pos 10))

unfoldable pub scale_down : ℕ → ℤ → ℤ
scale_down zero scaled = scaled
scale_down (suc i) scaled = scale_down i (quot scaled 10)

-- The exponent is the pattern of an `std::int8_t`.
unfoldable pub apply_exponent : ℤ → ℕ → ℤ
unfolding scale_up scale_down
apply_exponent mantissa exponent =
    if exponent == 0
    then mantissa
    else if ltb exponent (2 ^ 7)
    then scale_up exponent mantissa
    else scale_down (2 ^ 8 - exponent) mantissa

-- What the four producers have in common.
pub record Producer : Type 0 where
  pub market_queue : Mpmc
  pub signal_queue : Mpmc
  pub pool : TaggedPool
  pub band_bps : ℤ
  pub ref_price : ℤ
  pub next_token : ℕ
  pub signals : ℕ

-- The members of a signal that all ticks set: feed, side, price and quantity as patterns, token.
abbrev pub signal_of : Kind → Side → ℕ → ℕ → ℕ → StrategySignal
signal_of feed side price quantity order_token = record strategy_signal_init {
  feed = kind_code feed;
  side = side_code side;
  price = price;
  quantity = quantity;
  order_token = order_token;
}

-- The signal of an ITCH tick.
abbrev pub itch_signal : ItchAddOrder → Side → ℕ → StrategySignal
itch_signal tick side token = record (signal_of itch side tick.price tick.shares token) {
  stock = tick.stock;
}

-- "TKN%d"
abbrev pub token_text : ℕ → List ℕ
token_text token =
    0x54
    ∷ 0x4b
    ∷ 0x4e
    ∷ (if ltb token (2 ^ 31) then decimal token else 0x2d ∷ decimal (2 ^ 32 - token))

-- The signal of an MTBT tick.
unfoldable pub mtbt_signal : MtbtNewOrder → Side → ℕ → StrategySignal
unfolding print_into decimal
mtbt_signal tick side token = record (signal_of mtbt side tick.price tick.quantity token) {
  token = tick.token;
  symbol = print_into (token_text tick.token) strategy_signal_init.symbol;
  series = 0x45 ∷ 0x51 ∷ [];
}

-- `std::memcpy(signal.symbol, text, n); signal.symbol[n] = '\0';`
abbrev pub terminated : ℕ → List ℕ → List ℕ
terminated n text = take n text ++ (0 ∷ drop (n + 1) strategy_signal_init.symbol)

-- A conversion to 32 bits.
abbrev pub narrow : ℤ → ℕ
narrow a = of_int64 a % 2 ^ 32

unfoldable pub sbe_mid : BestObRpi → ℕ
unfolding apply_exponent ◌+ℤ◌
sbe_mid tick = narrow (
    apply_exponent
      (quot (wrap64 (to_int64 tick.body.bid_normal_price +ℤ to_int64 tick.body.ask_normal_price)) 2)
      tick.body.price_exponent)

-- The signal of an SBE tick.
unfoldable pub sbe_signal : BestObRpi → Side → ℕ → StrategySignal
unfolding sbe_mid apply_exponent
sbe_signal tick side token = record (signal_of sbe_market side (sbe_mid tick) quantity token) {
  token = tick.body.u % 2 ^ 32;
  symbol = terminated (min tick.symbol_len 9) tick.symbol;
}
  where
    quantity : ℕ
    quantity = narrow (apply_exponent (to_int64 tick.body.bid_normal_size) tick.body.size_exponent)

unfoldable pub mcx_mid : TopOfBook → ℕ
unfolding ◌+ℤ◌
mcx_mid tick = narrow (quot (wrap64 (to_int64 tick.bid_price +ℤ to_int64 tick.ask_price)) 2)

-- The signal of an MCX tick.
unfoldable pub mcx_signal : TopOfBook → Side → ℕ → StrategySignal
unfolding mcx_mid strnlen
mcx_signal tick side token =
    record (signal_of mcx_market side (mcx_mid tick) (tick.bid_qty % 2 ^ 32) token) {
      token = tick.simple_security_id;
      symbol = terminated (min 9 (strnlen tick.symbol)) tick.symbol;
    }

-- `busy i` and `spurious n` are spurious failures in `acquire` and in `push`.
module _ (busy spurious : ℕ → Bool) (fuel : ℕ) where
  -- The signal into the message, the message into the signal queue, and the count.
  unfoldable pub emit : ℕ → StrategySignal → Producer → Option Producer
  unfolding encode_signal message_at set_message push
  emit out s p =
      Option.map
        (λ q. record p {
          signal_queue = q;
          pool = set_message p.pool out (encode_signal s (message_at p.pool out));
          signals = (p.signals + 1) % 2 ^ 64;
        })
        (push spurious fuel p.signal_queue out)

  -- `on_tick` from the price on. `make` is the signal with the side and the token; `owned` is 0 when
  -- the caller gives no message.
  unfoldable pub on_tick : ℤ → (Side → ℕ → StrategySignal) → ℕ → Producer → Option Producer
  unfolding update_ref_price evaluate acquire release emit
  on_tick price make owned p =
      let ref_price = update_ref_price p.ref_price price in
      let side = evaluate ref_price price p.band_bps in
      let p' = record p { ref_price = ref_price } in
      let s = make side p.next_token in
      let p'' = record p' { next_token = (p.next_token + 1) % 2 ^ 32 } in
      let (out, pool) = acquire busy p.pool in
      if side_code side == side_code Message.none
      then (if owned == 0 then some p' else some (record p' { pool = release p.pool owned }))
      else if not (owned == 0)
      then emit owned s p''
      else if out == 0
      then some (record p'' { pool = pool })
      else emit out s (record p'' { pool = pool })

  -- The first half of `poll_once`; `tick` is the rest, on the message's bytes and the message.
  unfoldable pub poll_market :
      Kind → (List ℕ → ℕ → Producer → Option Producer) → Producer → Option Producer
  unfolding try_pop release message_at
  poll_market feed tick p = elim (try_pop p.market_queue) [
    | none ↦ some p
    | some (msg, q) ↦
        if not (same_kind (message_at p.pool msg).kind feed)
        then some (record p { market_queue = q; pool = release p.pool msg })
        else tick (message_at p.pool msg).bytes msg (record p { market_queue = q })
  ]

  -- `ItchProducer::on_tick`
  unfoldable pub itch_on_tick : ItchAddOrder → ℕ → Producer → Option Producer
  unfolding on_tick
  itch_on_tick tick owned p = on_tick (to_int32 tick.price) (itch_signal tick) owned p

  -- `MtbtProducer::on_tick`
  unfoldable pub mtbt_on_tick : MtbtNewOrder → ℕ → Producer → Option Producer
  unfolding on_tick mtbt_signal
  mtbt_on_tick tick owned p = on_tick (to_int32 tick.price) (mtbt_signal tick) owned p

  -- `SbeBboProducer::on_tick`
  unfoldable pub sbe_on_tick : BestObRpi → ℕ → Producer → Option Producer
  unfolding on_tick sbe_mid sbe_signal
  sbe_on_tick tick owned p = on_tick (to_int32 (sbe_mid tick)) (sbe_signal tick) owned p

  -- `McxTobProducer::on_tick`
  unfoldable pub mcx_on_tick : TopOfBook → ℕ → Producer → Option Producer
  unfolding on_tick mcx_mid mcx_signal
  mcx_on_tick tick owned p = on_tick (to_int32 (mcx_mid tick)) (mcx_signal tick) owned p

  -- `ItchProducer::poll_once`
  unfoldable pub itch_poll_once : Producer → Option Producer
  unfolding poll_market itch_on_tick load
  itch_poll_once p = poll_market itch (λ bytes msg p'. itch_on_tick (load bytes) msg p') p

  -- `MtbtProducer::poll_once`
  unfoldable pub mtbt_poll_once : Producer → Option Producer
  unfolding poll_market mtbt_on_tick load
  mtbt_poll_once p = poll_market mtbt (λ bytes msg p'. mtbt_on_tick (load bytes) msg p') p

  -- `SbeBboProducer::poll_once`
  unfoldable pub sbe_bbo_poll_once : Producer → Option Producer
  unfolding poll_market sbe_on_tick load
  sbe_bbo_poll_once p = poll_market sbe_market (λ bytes msg p'. sbe_on_tick (load bytes) msg p') p

  -- `McxTobProducer::poll_once`
  unfoldable pub mcx_tob_poll_once : Producer → Option Producer
  unfolding poll_market mcx_on_tick load
  mcx_tob_poll_once p = poll_market mcx_market (λ bytes msg p'. mcx_on_tick (load bytes) msg p') p
