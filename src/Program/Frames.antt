-- ===== src/Program/Frames.antt =====
-- The frames that src/main.cpp builds and publishes. A frame is its bytes below the offset.
pub mod Read
pub mod Packets
use mathlib.Core.Option
use mpmc_with_memory_managem.Base.{
  ℕ, ◌+◌, ◌/◌, ◌%◌, ◌^◌, Option, none, some, List, [], ◌∷◌, ◌++◌, length, drop, take,
}
use mpmc_with_memory_managem.Base.Int.{ℤ, pos}
use mpmc_with_memory_managem.Wire.Struct.{size_of, store}
use mpmc_with_memory_managem.Proto.Nasdaq.{ItchAddOrder, itch_add_order_init, itch_add_order_struct}
use mpmc_with_memory_managem.Proto.Nse.{
  MtbtStreamHeader, mtbt_stream_header_init, mtbt_stream_header_struct, MtbtNewOrder,
  mtbt_new_order_init, mtbt_new_order_struct,
}
use mpmc_with_memory_managem.Proto.MtbtDecode.{mtbt_order_wire_size}
use mpmc_with_memory_managem.Proto.Mcx.Order.{TopOfBook, top_of_book_init, top_of_book_struct}
use mpmc_with_memory_managem.Proto.Sbe.Market.{BestObRpi, best_ob_rpi_init}
use mpmc_with_memory_managem.Trading.Int32.{of_int64}
use mpmc_with_memory_managem.Net.{Network, Call}
use mpmc_with_memory_managem.Feed.Inlet.{FeedKind, SharedInlet, publish}
use mpmc_with_memory_managem.Feed.Inlet
use mpmc_with_memory_managem.Feed.Multicast.{
  Sockets, itch, mtbt, mcx, publish_on, wait_until_processed,
}

-- `body` of `append_itch_add_order`.
abbrev pub add_order : (stock_locate shares price : ℕ) → ItchAddOrder
add_order stock_locate shares price = record itch_add_order_init {
  stock_locate = stock_locate;
  shares = shares;
  price = price;
  side = b'B';
  stock = b'A' ∷ b'A' ∷ b'P' ∷ b'L' ∷ b' ' ∷ b' ' ∷ b' ' ∷ b' ' ∷ [];
}

unfoldable pub append_itch_add_order : (stock_locate shares price : ℕ) → List ℕ → List ℕ
unfolding store
append_itch_add_order stock_locate shares price frame =
    frame
    ++ (size_of ItchAddOrder / 2 ^ 8
        ∷ size_of ItchAddOrder % 2 ^ 8
        ∷ store (add_order stock_locate shares price))

-- `header` and `body` of `append_mtbt_order`; the numbers are patterns.
abbrev pub order_header : (offset stream_id : ℕ) → MtbtStreamHeader
order_header offset stream_id = record {
  msg_len = mtbt_order_wire_size;
  stream_id = stream_id;
  seq_no = offset % 2 ^ 32;
}

abbrev pub new_order : (token quantity price : ℕ) → MtbtNewOrder
new_order token quantity price = record mtbt_new_order_init {
  token = token;
  quantity = quantity;
  price = price;
  order_type = b'B';
}

unfoldable pub append_mtbt_order : (stream_id token quantity price : ℕ) → List ℕ → List ℕ
unfolding store
append_mtbt_order stream_id token quantity price frame =
    frame
    ++ (store (order_header (length frame) stream_id) ++ store (new_order token quantity price))

abbrev pub make_mcx_tob : (bid ask : ℤ) → (security_id : ℕ) → TopOfBook
make_mcx_tob bid ask security_id = record top_of_book_init {
  simple_security_id = security_id;
  bid_price = of_int64 bid;
  ask_price = of_int64 ask;
  bid_qty = 10;
  ask_qty = 10;
  symbol = b'G' ∷ b'O' ∷ b'L' ∷ b'D' ∷ drop 4 top_of_book_init.symbol;
}

-- The exponent is a pattern.
abbrev pub make_sbe_bbo : (bid ask : ℤ) → (price_exp : ℕ) → BestObRpi
make_sbe_bbo bid ask price_exp = record best_ob_rpi_init {
  body = record (best_ob_rpi_init.body) {
    bid_normal_price = of_int64 bid;
    ask_normal_price = of_int64 ask;
    bid_normal_size = 100;
    ask_normal_size = 100;
    price_exponent = price_exp;
    size_exponent = 0;
    u = 1;
  };
  symbol_len = 7;
  symbol = b'B' ∷ b'T' ∷ b'C' ∷ b'U' ∷ b'S' ∷ b'D' ∷ b'T' ∷ drop 7 best_ob_rpi_init.symbol;
}

unfoldable pub itch_frame : List ℕ
unfolding append_itch_add_order
itch_frame = append_itch_add_order 20 100 9980 (append_itch_add_order 10 100 10000 [])

unfoldable pub mtbt_frame : List ℕ
unfolding append_mtbt_order
mtbt_frame = append_mtbt_order 2 222 10 251000 (append_mtbt_order 1 111 10 250000 [])

abbrev pub mcx_ref : TopOfBook
mcx_ref = make_mcx_tob (pos 7200000) (pos 7200100) 5001

abbrev pub mcx_buy : TopOfBook
mcx_buy = make_mcx_tob (pos 7100000) (pos 7100100) 5001

-- `publish_feed_frames` with a simulator.
unfoldable pub publish_simulated : Network → Sockets → List Call → List Call
unfolding publish_on itch_frame mtbt_frame store
publish_simulated net sockets calls =
    let calls' = publish_on net itch (some itch_frame) sockets calls in
    let calls'' = publish_on net mtbt (some mtbt_frame) sockets calls' in
    let calls''' = publish_on net mcx (some (store mcx_ref)) sockets calls'' in
    publish_on net mcx (some (store mcx_buy)) sockets calls'''

-- `moves i n` is what other threads do to the inlet before the next load of the `i`-th wait.
module _ (moves : ℕ → ℕ → SharedInlet → SharedInlet) (fuel : ℕ) where
  -- `none` while it still waits after `fuel` loads.
  unfoldable pub publish_and_wait : ℕ → FeedKind → List ℕ → SharedInlet → Option SharedInlet
  unfolding publish wait_until_processed
  publish_and_wait i kind bytes inlet =
      let inlet' = publish kind 0 (some bytes) 0 inlet in
      wait_until_processed (moves i) fuel 0 inlet'.sequence inlet'

  unfoldable pub publish_each : ℕ → List (FeedKind × List ℕ) → SharedInlet → Option SharedInlet
  unfolding publish_and_wait
  publish_each i [] inlet = some inlet
  publish_each i ((kind, bytes) ∷ frames) inlet = elim (publish_and_wait i kind bytes inlet) [
    | none ↦ none
    | some inlet' ↦ publish_each (i + 1) frames inlet'
  ]

  -- `publish_feed_frames` without a simulator.
  unfoldable pub publish_feed_frames : SharedInlet → Option SharedInlet
  unfolding publish_each itch_frame mtbt_frame store
  publish_feed_frames inlet =
      publish_each 0
        ((Inlet.itch, itch_frame)
          ∷ (Inlet.mtbt, mtbt_frame)
          ∷ (Inlet.mcx, store mcx_ref)
          ∷ (Inlet.mcx, store mcx_buy)
          ∷ [])
        inlet
