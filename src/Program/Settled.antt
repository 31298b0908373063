-- ===== src/Program/Settled.antt =====
-- A run of the trading part loses no message and duplicates none.
use mpmc_with_memory_managem.Base.{ℕ, Bool}
use mpmc_with_memory_managem.Proto.Nasdaq.{itch_add_order_struct}
use mpmc_with_memory_managem.Proto.Nse.{mtbt_new_order_struct}
use mpmc_with_memory_managem.Proto.Mcx.Order.{top_of_book_struct}
use mpmc_with_memory_managem.Trading.Ledger.{Each, Each-map}
use mpmc_with_memory_managem.Program.{
  Program, Confirmed, confirmed_init, collect, route_market, poll_consumers, drain_signals,
  poll_gateway, drain_gateway, trade,
}
use mpmc_with_memory_managem.Program.Lent.{IsSettled, Each-mono, Each-then}
use mpmc_with_memory_managem.Program.Routing.{route_market-IsSettled}
use mpmc_with_memory_managem.Program.Draining.{
  collect-IsSettled, repeated-IsSettled, poll_consumers-IsSettled, poll_gateway-IsSettled,
}

module _ (others : ℕ → ℕ) (busy spurious : ℕ → Bool) (fuel : ℕ) where
  -- If the acquired messages of the pool are those in the four queues of the program and those that
  -- others have, each once, then this holds after a run of its trading part that returns: at most
  -- 32 ticks through the producers, 32 rounds of the consumers, 32 of the gateway, and at most 32
  -- confirmations released.
  pub trade-IsSettled :
      (s : Program)
      → IsSettled others s
      → Each (λ (r : Confirmed × Program). IsSettled others r.1) (trade busy spurious fuel s)
  unfolding trade drain_signals drain_gateway
  trade-IsSettled s h =
      Each-then (λ (r : Confirmed × Program). IsSettled others r.1) _
        (λ s' h'.
          Each-then (λ (r : Confirmed × Program). IsSettled others r.1) _
            (λ s'' h''.
              Each-map (λ (r : Confirmed × Program). IsSettled others r.1)
                (collect 32 confirmed_init) _
                (Each-mono _ (collect-IsSettled others 32 confirmed_init) _ (
                  repeated-IsSettled others (poll_gateway spurious fuel)
                    (poll_gateway-IsSettled others spurious fuel) 32 s'' h'')))
            (drain_signals spurious fuel 32 s')
            (repeated-IsSettled others (poll_consumers spurious fuel)
              (poll_consumers-IsSettled others spurious fuel) 32 s' h'))
        (route_market busy spurious fuel 32 s)
        (route_market-IsSettled others busy spurious fuel 32 s h)
