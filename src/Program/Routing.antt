-- ===== src/Program/Routing.antt =====
-- The ticks of the market queue, routed to the producers.
use mpmc_with_memory_managem.Base.{
  ℕ, zero, suc, ◌≡◌, arith, Bool, false, Option, none, some, List, ◌==◌,
}
use mpmc_with_memory_managem.Base.Int.{ℤ}
use mpmc_with_memory_managem.Wire.Struct.{load}
use mpmc_with_memory_managem.Proto.Nasdaq.{ItchAddOrder, itch_add_order_struct}
use mpmc_with_memory_managem.Proto.Nse.{MtbtNewOrder, mtbt_new_order_struct}
use mpmc_with_memory_managem.Proto.Mcx.Order.{TopOfBook, top_of_book_struct}
use mpmc_with_memory_managem.Proto.Message.{Kind, Side, itch, mtbt, mcx_market}
use mpmc_with_memory_managem.Proto.Signal.{StrategySignal}
use mpmc_with_memory_managem.Pool.{message_at}
use mpmc_with_memory_managem.Ring.{Mpmc, try_pop}
use mpmc_with_memory_managem.Trading.Int32.{to_int32}
use mpmc_with_memory_managem.Trading.Ledger.{Each, Each-map, Books-same, Gets, try_pop-Gets}
use mpmc_with_memory_managem.Trading.Producer.{
  Producer, on_tick, itch_signal, mtbt_signal, mcx_mid, mcx_signal, itch_on_tick, mtbt_on_tick,
  mcx_on_tick,
}
use mpmc_with_memory_managem.Trading.Producer.Owned.{on_tick-IsSettled}
use mpmc_with_memory_managem.Program.{
  Program, to_producer, from_producer, route_kind, route_market_tick, route_market,
}
use mpmc_with_memory_managem.Program.Lent.{
  IsSettled, Each-mono, Each-then, not_producers, from_producer-IsSettled, Holds, let_go,
  market_popped,
}

module _ (others : ℕ → ℕ) where
  module _ (busy spurious : ℕ → Bool) (fuel : ℕ) where
    -- What a producer leaves of a tick, put back.
    ticked :
        (price : ℤ) (make : Side → ℕ → StrategySignal) (msg : ℕ) (s : Program) (p : Producer)
        → Holds others msg s
        → Each
            (λ p'. IsSettled others (from_producer s p'))
            (on_tick busy spurious fuel price make msg (to_producer s p))
    ticked price make msg s p h =
        Each-mono _
          (λ p'.
            from_producer-IsSettled others s p' h.settled.pending_sized h.settled.confirm_sized)
          (on_tick busy spurious fuel price make msg (to_producer s p))
          (on_tick-IsSettled (not_producers others s) busy spurious fuel price make msg
            (to_producer s p)
            (λ e. record {
              real = h.real;
              settled = record {
                market_sized = h.settled.market_sized;
                signal_sized = h.settled.signal_sized;
                books = Books-same h.settled.books (λ a r. omega arith);
              };
            })
            (λ null. absurd (let real = h.real in ground (arith, null))))

    route_kind-IsSettled :
        (kind : Kind) (bytes : List ℕ) (msg : ℕ) (s : Program)
        → Holds others msg s
        → Each (IsSettled others) (route_kind busy spurious fuel kind bytes msg s)
    unfolding route_kind itch_on_tick mtbt_on_tick mcx_on_tick
    route_kind-IsSettled itch bytes msg s h =
        let tick : ItchAddOrder = load bytes in
        Each-map (IsSettled others) _ _
          (ticked (to_int32 tick.price) (itch_signal tick) msg s s.itch_producer h)
    route_kind-IsSettled mtbt bytes msg s h =
        let tick : MtbtNewOrder = load bytes in
        Each-map (IsSettled others) _ _
          (ticked (to_int32 tick.price) (mtbt_signal tick) msg s s.mtbt_producer h)
    route_kind-IsSettled mcx_market bytes msg s h =
        let tick : TopOfBook = load bytes in
        Each-map (IsSettled others) _ _
          (ticked (to_int32 (mcx_mid tick)) (mcx_signal tick) msg s s.mcx_producer h)
    route_kind-IsSettled _ bytes msg s h = let_go others h

    route_market_tick-IsSettled :
        (msg : ℕ) (s : Program)
        → Holds others msg s
        → Each (IsSettled others) (route_market_tick busy spurious fuel msg s)
    unfolding route_market_tick
    route_market_tick-IsSettled msg s h =
        let real : (msg == 0) ≡ false = let r = h.real in ground (arith, r) in
        rw (real, route_market_tick)
          (route_kind-IsSettled (message_at s.pool msg).kind (message_at s.pool msg).bytes msg s h)

    pub route_market-IsSettled :
        (rounds : ℕ) (s : Program)
        → IsSettled others s
        → Each (IsSettled others) (route_market busy spurious fuel rounds s)
    unfolding route_market
    route_market-IsSettled zero s h = h
    route_market-IsSettled (suc rounds) s h =
        go (route_market-IsSettled rounds) (try_pop s.market_queue)
          (try_pop-Gets s.market_queue h.market_sized)
      where
        go :
            ((s : Program)
              → IsSettled others s
              → Each (IsSettled others) (route_market busy spurious fuel rounds s))
            → (o : Option (ℕ × Mpmc)) → Each (Gets s.market_queue) o
            → Each (IsSettled others) (elim o [
              | none ↦ some s
              | some (msg, q) ↦
                  elim (route_market_tick busy spurious fuel msg (record s { market_queue = q })) [
                    | none ↦ none
                    | some s' ↦ route_market busy spurious fuel rounds s'
                  ]
            ])
        go k none g = h
        go k (some (msg, q)) g =
            Each-then (IsSettled others) (route_market busy spurious fuel rounds) k
              (route_market_tick busy spurious fuel msg (record s { market_queue = q }))
              (route_market_tick-IsSettled msg _ (market_popped others (msg, q) h g))
