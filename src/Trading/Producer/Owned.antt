-- ===== src/Trading/Producer/Owned.antt =====
-- No step of a producer loses a message, duplicates one, or leaves one acquired that nobody holds.
use mpmc_with_memory_managem.Base.{
  ℕ, ◌+◌, ◌%◌, ◌^◌, ◌≡◌, ◌≢◌, arith, Bool, true, false, not, refl, inl, inr, Bool-cases, Option,
  none, some, List, ◌==◌, if◌then◌else◌,
}
use mpmc_with_memory_managem.Base.Int.{ℤ}
use mpmc_with_memory_managem.Wire.Struct.{load}
use mpmc_with_memory_managem.Proto.Nasdaq.{ItchAddOrder, itch_add_order_struct}
use mpmc_with_memory_managem.Proto.Nse.{MtbtNewOrder, mtbt_new_order_struct}
use mpmc_with_memory_managem.Proto.Sbe.Market.{BestObRpi, best_ob_rpi_struct}
use mpmc_with_memory_managem.Proto.Mcx.Order.{TopOfBook, top_of_book_struct}
use mpmc_with_memory_managem.Proto.Message
use mpmc_with_memory_managem.Proto.Message.{
  TaggedMessage, Kind, itch, mtbt, sbe_market, mcx_market, Side, same_kind, side_code,
}
use mpmc_with_memory_managem.Proto.Signal.{StrategySignal}
use mpmc_with_memory_managem.Pool.{message_at, acquire, release, set_message}
use mpmc_with_memory_managem.Pool.Acquire.{acquire_lem}
use mpmc_with_memory_managem.Ring.{Mpmc, push, try_pop}
use mpmc_with_memory_managem.Ring.Probe.{IsSized}
use mpmc_with_memory_managem.Runtime.Counts.{same, in_ring}
use mpmc_with_memory_managem.Trading.Int32.{to_int32}
use mpmc_with_memory_managem.Trading.Strategy.{update_ref_price, evaluate}
use mpmc_with_memory_managem.Trading.Ledger.{
  Each, Each-map, Books, Books-same, Books-release, Books-set_message, Puts, push-Puts, Gets,
  try_pop-Gets,
}
use mpmc_with_memory_managem.Trading.Ledger.Took.{Took, Took-none, Took-one, Took-Acquires}
use mpmc_with_memory_managem.Trading.Producer.{
  Producer, emit, on_tick, poll_market, itch_on_tick, mtbt_on_tick, sbe_on_tick, mcx_on_tick,
  itch_signal, mtbt_signal, sbe_signal, mcx_signal, sbe_mid, mcx_mid, itch_poll_once,
  mtbt_poll_once, sbe_bbo_poll_once, mcx_tob_poll_once,
}

-- Every acquired message is in one of the producer's queues, or one of the `others` has it.
pub record IsSettled (others : ℕ → ℕ) (p : Producer) : Type 0 where
  pub market_sized : IsSized p.market_queue.ring
  pub signal_sized : IsSized p.signal_queue.ring
  pub books :
      Books p.pool (λ a. in_ring a p.market_queue.ring + in_ring a p.signal_queue.ring + others a)

-- The same, while the producer holds `msg`.
pub record IsHolding (others : ℕ → ℕ) (msg : ℕ) (p : Producer) : Type 0 where
  pub real : msg ≢ 0
  pub settled : IsSettled (λ a. others a + same a msg) p

module _ (others : ℕ → ℕ) (busy spurious : ℕ → Bool) (fuel : ℕ) where
  emit-IsSettled :
      (out : ℕ) (s : StrategySignal) (p : Producer)
      → IsHolding others out p
      → Each (IsSettled others) (emit busy spurious fuel out s p)
  unfolding emit
  emit-IsSettled out s p h = Each-map (IsSettled others) _ (push spurious fuel p.signal_queue out) (
      weaken _ (push spurious fuel p.signal_queue out)
        (push-Puts spurious fuel p.signal_queue out h.settled.signal_sized h.real))
    where
      weaken :
          (x : TaggedMessage) (o : Option Mpmc)
          → Each (λ q. Puts p.signal_queue out q.ring) o
          → Each
              (λ q. IsSettled others (record p {
                signal_queue = q;
                pool = set_message p.pool out x;
                signals = (p.signals + 1) % 2 ^ 64;
              }))
              o
      weaken x none u = tt
      weaken x (some q) u = record {
        market_sized = h.settled.market_sized;
        signal_sized = u.sized;
        books =
            Books-set_message out x
              (Books-same h.settled.books (λ a r. omega (arith, u.moved a r)));
      }

  let_go :
      {p : Producer} {msg : ℕ} (ref_price : ℤ)
      → IsHolding others msg p
      → IsSettled others (record p { ref_price = ref_price; pool = release p.pool msg })
  let_go {p} {msg} ref_price h = record {
    market_sized = h.settled.market_sized;
    signal_sized = h.settled.signal_sized;
    books = Books-release msg h.real (Books-same h.settled.books (λ a r. omega arith));
  }

  -- One branch of a tick for each way to end.
  ends :
      (quiet null full : Bool) (none_held freed reused out fresh : Option Producer)
      → (null ≡ true → Each (IsSettled others) none_held)
      → (null ≡ false → Each (IsSettled others) freed)
      → (null ≡ false → Each (IsSettled others) reused)
      → (null ≡ true → full ≡ true → Each (IsSettled others) out)
      → (null ≡ true → full ≡ false → Each (IsSettled others) fresh)
      → Each (IsSettled others) (
          if quiet
          then (if null then none_held else freed)
          else if not null
          then reused
          else if full
          then out
          else fresh)
  ends true true full n f r o s none_held freed reused out fresh = none_held refl
  ends true false full n f r o s none_held freed reused out fresh = freed refl
  ends false false full n f r o s none_held freed reused out fresh = reused refl
  ends false true true n f r o s none_held freed reused out fresh = out refl refl
  ends false true false n f r o s none_held freed reused out fresh = fresh refl refl

  -- With a message of the caller, and without one.
  pub on_tick-IsSettled :
      (price : ℤ) (make : Side → ℕ → StrategySignal) (owned : ℕ) (p : Producer)
      → ((owned == 0) ≡ false → IsHolding others owned p)
      → ((owned == 0) ≡ true → IsSettled others p)
      → Each (IsSettled others) (on_tick busy spurious fuel price make owned p)
  unfolding on_tick
  on_tick-IsSettled price make owned p holds settled =
      ends (side_code side == side_code Message.none) (owned == 0) ((acquire busy p.pool).0 == 0) _
        _ _ _ _ (λ null. with_ref (settled null)) (λ real. let_go ref_price (holds real))
        (λ real.
          emit-IsSettled owned (make side p.next_token)
            (record p { ref_price = ref_price; next_token = (p.next_token + 1) % 2 ^ 32 })
            (record {
              real = (holds real).real;
              settled = record {
                market_sized = (holds real).settled.market_sized;
                signal_sized = (holds real).settled.signal_sized;
                books = (holds real).settled.books;
              };
            }))
        (λ null full. record {
          market_sized = (settled null).market_sized;
          signal_sized = (settled null).signal_sized;
          books = Took-none _ (acquire busy p.pool) full (took null);
        })
        (λ null got.
          emit-IsSettled (acquire busy p.pool).0 (make side p.next_token)
            (record p {
              ref_price = ref_price;
              next_token = (p.next_token + 1) % 2 ^ 32;
              pool = (acquire busy p.pool).1;
            })
            (record {
              real = ground (arith, got);
              settled = record {
                market_sized = (settled null).market_sized;
                signal_sized = (settled null).signal_sized;
                books =
                    Books-same (Took-one _ (acquire busy p.pool) got (took null))
                      (λ a x. omega arith);
              };
            }))
    where
      ref_price : ℤ
      ref_price = update_ref_price p.ref_price price

      side : Side
      side = evaluate ref_price price p.band_bps

      with_ref : IsSettled others p → IsSettled others (record p { ref_price = ref_price })
      with_ref h = record {
        market_sized = h.market_sized;
        signal_sized = h.signal_sized;
        books = h.books;
      }

      took :
          (owned == 0) ≡ true
          → Took
              (λ a. in_ring a p.market_queue.ring + in_ring a p.signal_queue.ring + others a)
              (acquire busy p.pool)
      took null = Took-Acquires (acquire_lem busy p.pool) (settled null).books

  poll_market-IsSettled :
      (feed : Kind) (tick : List ℕ → ℕ → Producer → Option Producer)
      → ((bytes : List ℕ) (msg : ℕ) (p : Producer)
          → IsHolding others msg p
          → Each (IsSettled others) (tick bytes msg p))
      → (p : Producer) → IsSettled others p
      → Each (IsSettled others) (poll_market busy spurious fuel feed tick p)
  unfolding poll_market
  poll_market-IsSettled feed tick k p h =
      go (try_pop p.market_queue) (try_pop-Gets p.market_queue h.market_sized)
    where
      held :
          (r : ℕ × Mpmc)
          → Gets p.market_queue r
          → IsHolding others r.0 (record p { market_queue = r.1 })
      held r g = record {
        real = g.real;
        settled = record {
          market_sized = g.sized;
          signal_sized = h.signal_sized;
          books = Books-same h.books (λ a x. omega (arith, g.moved a x));
        };
      }

      go :
          (o : Option (ℕ × Mpmc))
          → Each (Gets p.market_queue) o
          → Each (IsSettled others) (elim o [
            | none ↦ some p
            | some (msg, q) ↦
                if not (same_kind (message_at p.pool msg).kind feed)
                then some (record p { market_queue = q; pool = release p.pool msg })
                else tick (message_at p.pool msg).bytes msg (record p { market_queue = q })
          ])
      go none g = h
      go (some (msg, q)) g = elim (Bool-cases (not (same_kind (message_at p.pool msg).kind feed))) [
        | inl e ↦ rw e (record {
          market_sized = g.sized;
          signal_sized = h.signal_sized;
          books = Books-release msg g.real (Books-same h.books (λ a x. omega (arith, g.moved a x)));
        })
        | inr e ↦ rw e (k _ msg (record p { market_queue = q }) (held (msg, q) g))
      ]

-- If the acquired messages of the pool are those in a producer's two queues and those that others
-- have, each once, then this holds after a `poll_once` of each of the four producers that returns,
-- whatever the message popped, and after a tick for which the caller gives no message.
pub producers-IsSettled :
    (others : ℕ → ℕ) (busy spurious : ℕ → Bool) (fuel : ℕ) (p : Producer)
    → IsSettled others p
    → Each (IsSettled others) (itch_poll_once busy spurious fuel p)
      × Each (IsSettled others) (mtbt_poll_once busy spurious fuel p)
      × Each (IsSettled others) (sbe_bbo_poll_once busy spurious fuel p)
      × Each (IsSettled others) (mcx_tob_poll_once busy spurious fuel p)
      × ((price : ℤ) (make : Side → ℕ → StrategySignal)
          → Each (IsSettled others) (on_tick busy spurious fuel price make 0 p))
unfolding itch_poll_once mtbt_poll_once sbe_bbo_poll_once mcx_tob_poll_once itch_on_tick
    mtbt_on_tick sbe_on_tick mcx_on_tick
producers-IsSettled others busy spurious fuel p h = (
  polled itch (λ bytes msg p'. itch_on_tick busy spurious fuel (load bytes) msg p')
      (λ bytes.
        let tick : ItchAddOrder = load bytes in held (to_int32 tick.price) (itch_signal tick)),
  polled mtbt (λ bytes msg p'. mtbt_on_tick busy spurious fuel (load bytes) msg p')
      (λ bytes.
        let tick : MtbtNewOrder = load bytes in held (to_int32 tick.price) (mtbt_signal tick)),
  polled sbe_market (λ bytes msg p'. sbe_on_tick busy spurious fuel (load bytes) msg p')
      (λ bytes.
        let tick : BestObRpi = load bytes in held (to_int32 (sbe_mid tick)) (sbe_signal tick)),
  polled mcx_market (λ bytes msg p'. mcx_on_tick busy spurious fuel (load bytes) msg p')
      (λ bytes.
        let tick : TopOfBook = load bytes in held (to_int32 (mcx_mid tick)) (mcx_signal tick)),
  λ price make.
      on_tick-IsSettled others busy spurious fuel price make 0 p (λ e. absurd (ground (arith, e)))
        (λ e. h),
)
  where
    held :
        (price : ℤ) (make : Side → ℕ → StrategySignal) (msg : ℕ) (p' : Producer)
        → IsHolding others msg p'
        → Each (IsSettled others) (on_tick busy spurious fuel price make msg p')
    held price make msg p' k =
        on_tick-IsSettled others busy spurious fuel price make msg p' (λ e. k)
          (λ null. absurd (let real = k.real in ground (arith, null)))

    polled :
        (feed : Kind) (tick : List ℕ → ℕ → Producer → Option Producer)
        → ((bytes : List ℕ) (msg : ℕ) (p' : Producer)
            → IsHolding others msg p'
            → Each (IsSettled others) (tick bytes msg p'))
        → Each (IsSettled others) (poll_market busy spurious fuel feed tick p)
    polled feed tick k = poll_market-IsSettled others busy spurious fuel feed tick k p h
