-- ===== src/Program/Lent.antt =====
-- The account of the messages of the program, as its parts see it when they are lent the queues and
-- the pool.
use mpmc_with_memory_managem.Base.{ℕ, ◌+◌, ◌≢◌, arith, Option, none, some, List}
use mpmc_with_memory_managem.Proto.Nasdaq.{itch_add_order_struct}
use mpmc_with_memory_managem.Proto.Nse.{mtbt_new_order_struct}
use mpmc_with_memory_managem.Proto.Mcx.Order.{top_of_book_struct}
use mpmc_with_memory_managem.Pool.{TaggedPool, release}
use mpmc_with_memory_managem.Ring.{Mpmc}
use mpmc_with_memory_managem.Ring.Probe.{IsSized}
use mpmc_with_memory_managem.Runtime.Counts.{same, in_ring}
use mpmc_with_memory_managem.Trading.Ledger.{Each, Books, Books-same, Books-release, Gets}
use mpmc_with_memory_managem.Trading.Producer.{Producer}
use mpmc_with_memory_managem.Trading.Producer.Owned as ProducerOwned
use mpmc_with_memory_managem.Trading.Producer.Owned.{IsHolding, on_tick-IsSettled}
use mpmc_with_memory_managem.Trading.Consumer.{Consumer}
use mpmc_with_memory_managem.Trading.Consumer.Owned as ConsumerOwned
use mpmc_with_memory_managem.Trading.Consumer.Owned.{consumers-IsSettled}
use mpmc_with_memory_managem.Trading.Gateway.{ExchangeGateway}
use mpmc_with_memory_managem.Trading.Gateway.Confirms
use mpmc_with_memory_managem.Trading.Gateway.Confirms.{gateway-IsSettled}
use mpmc_with_memory_managem.Program.{
  Program, from_producer, to_consumer, from_consumer, to_gateway, from_gateway,
}

-- Every acquired message is in one of the four queues, or one of the `others` has it.
pub record Settles (others : ℕ → ℕ) (market signal pending confirm : List ℕ) (pool : TaggedPool)
    : Type 0 where
  pub market_sized : IsSized market
  pub signal_sized : IsSized signal
  pub pending_sized : IsSized pending
  pub confirm_sized : IsSized confirm
  pub books :
      Books pool (λ a.
        in_ring a market + in_ring a signal + in_ring a pending + in_ring a confirm + others a)

abbrev pub IsSettled : (ℕ → ℕ) → Program → Type 0
IsSettled others s =
    Settles others s.market_queue.ring s.signal_queue.ring s.pending_queue.ring s.confirm_queue.ring
      s.pool

pub Each-mono :
    {A : Type 0} {P : A → Type 0} (Q : A → Type 0)
    → ((a : A) → P a → Q a)
    → (o : Option A) → Each P o
    → Each Q o
Each-mono Q f none h = tt
Each-mono Q f (some a) h = f a h

-- `f` and then `g`.
pub Each-then :
    {A B : Type 0} {P : A → Type 0} (Q : B → Type 0) (g : A → Option B)
    → ((a : A) → P a → Each Q (g a))
    → (o : Option A) → Each P o
    → Each Q (elim o [ none ↦ none | some a ↦ g a ])
Each-then Q g f none h = tt
Each-then Q g f (some a) h = f a h

module _ (others : ℕ → ℕ) where
  -- What the others of a producer, a consumer and the gateway have.
  abbrev pub not_producers : Program → ℕ → ℕ
  not_producers s a = in_ring a s.pending_queue.ring + in_ring a s.confirm_queue.ring + others a

  abbrev pub not_consumers : Program → ℕ → ℕ
  not_consumers s a = in_ring a s.market_queue.ring + in_ring a s.confirm_queue.ring + others a

  abbrev pub not_gateways : Program → ℕ → ℕ
  not_gateways s a = in_ring a s.market_queue.ring + in_ring a s.signal_queue.ring + others a

  pub from_producer-IsSettled :
      (s : Program) (p : Producer)
      → IsSized s.pending_queue.ring
      → IsSized s.confirm_queue.ring
      → ProducerOwned.IsSettled (not_producers s) p
      → IsSettled others (from_producer s p)
  from_producer-IsSettled s p pending confirm k = record {
    market_sized = k.market_sized;
    signal_sized = k.signal_sized;
    pending_sized = pending;
    confirm_sized = confirm;
    books = Books-same k.books (λ a r. omega arith);
  }

  pub to_consumer-IsSettled :
      (s : Program) (c : Consumer)
      → IsSettled others s
      → ConsumerOwned.IsSettled (not_consumers s) (to_consumer s c)
  to_consumer-IsSettled s c h = record {
    signal_sized = h.signal_sized;
    pending_sized = h.pending_sized;
    books = Books-same h.books (λ a r. omega arith);
  }

  pub from_consumer-IsSettled :
      (s : Program) (c : Consumer)
      → IsSettled others s
      → ConsumerOwned.IsSettled (not_consumers s) c
      → IsSettled others (from_consumer s c)
  from_consumer-IsSettled s c h k = record {
    market_sized = h.market_sized;
    signal_sized = k.signal_sized;
    pending_sized = k.pending_sized;
    confirm_sized = h.confirm_sized;
    books = Books-same k.books (λ a r. omega arith);
  }

  pub to_gateway-IsSettled :
      (s : Program) → IsSettled others s → Confirms.IsSettled (not_gateways s) (to_gateway s)
  to_gateway-IsSettled s h = record {
    pending_sized = h.pending_sized;
    confirm_sized = h.confirm_sized;
    books = Books-same h.books (λ a r. omega arith);
  }

  pub from_gateway-IsSettled :
      (s : Program) (g : ExchangeGateway)
      → IsSettled others s
      → Confirms.IsSettled (not_gateways s) g
      → IsSettled others (from_gateway s g)
  from_gateway-IsSettled s g h k = record {
    market_sized = h.market_sized;
    signal_sized = h.signal_sized;
    pending_sized = k.pending_sized;
    confirm_sized = k.confirm_sized;
    books = Books-same k.books (λ a r. omega arith);
  }

  -- The program while it holds a message that it has popped.
  pub record Holds (msg : ℕ) (s : Program) : Type 0 where
    pub real : msg ≢ 0
    pub settled :
        Settles
          (λ a. others a + same a msg)
          s.market_queue.ring
          s.signal_queue.ring
          s.pending_queue.ring
          s.confirm_queue.ring
          s.pool

  pub let_go :
      {msg : ℕ} {s : Program}
      → Holds msg s
      → IsSettled others (record s { pool = release s.pool msg })
  let_go {msg} h = record {
    market_sized = h.settled.market_sized;
    signal_sized = h.settled.signal_sized;
    pending_sized = h.settled.pending_sized;
    confirm_sized = h.settled.confirm_sized;
    books = Books-release msg h.real (Books-same h.settled.books (λ a r. omega arith));
  }

  pub market_popped :
      {s : Program} (r : ℕ × Mpmc)
      → IsSettled others s
      → Gets s.market_queue r
      → Holds r.0 (record s { market_queue = r.1 })
  market_popped r h g = record {
    real = g.real;
    settled = record {
      market_sized = g.sized;
      signal_sized = h.signal_sized;
      pending_sized = h.pending_sized;
      confirm_sized = h.confirm_sized;
      books = Books-same h.books (λ a x. omega (arith, g.moved a x));
    };
  }

  pub confirm_popped :
      {s : Program} (r : ℕ × Mpmc)
      → IsSettled others s
      → Gets s.confirm_queue r
      → Holds r.0 (record s { confirm_queue = r.1 })
  confirm_popped r h g = record {
    real = g.real;
    settled = record {
      market_sized = h.market_sized;
      signal_sized = h.signal_sized;
      pending_sized = h.pending_sized;
      confirm_sized = g.sized;
      books = Books-same h.books (λ a x. omega (arith, g.moved a x));
    };
  }
