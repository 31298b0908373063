-- ===== src/Trading/Gateway/Confirms.antt =====
-- The gateway answers an order in the message that carried it, and loses no message.
use mpmc_with_memory_managem.Base.{
  ℕ, ◌+◌, ◌%◌, ◌^◌, ◌<◌, ◌≡◌, ◌≢◌, refl, arith, Bool, Option, none, some, List, get_or,
}
use mpmc_with_memory_managem.Wire.Struct.{IsObject, load}
use mpmc_with_memory_managem.Proto.Nasdaq.{ouch_enter_order_struct}
use mpmc_with_memory_managem.Proto.Nse.{nnf_order_entry_struct}
use mpmc_with_memory_managem.Proto.Sbe.OrderEntry.{create_order_req_v5_struct}
use mpmc_with_memory_managem.Proto.Mcx.Order.{new_order_single_short_struct}
use mpmc_with_memory_managem.Proto.Message.{
  TaggedMessage, Kind, ouch, nnf, sbe_order_entry, mcx_order, WireMessage, ouch_order_accepted_wire,
  nnf_order_confirm_wire, fast_order_resp_wire, execution_report_new_wire,
}
use mpmc_with_memory_managem.Pool.{TaggedPool, address_of, message_at, release, set_message}
use mpmc_with_memory_managem.Pool
use mpmc_with_memory_managem.Pool.Slots.{IsMapped}
use mpmc_with_memory_managem.Ring.{Mpmc, push, try_pop}
use mpmc_with_memory_managem.Ring.Probe.{IsSized, never}
use mpmc_with_memory_managem.Ring.Calls.{push_fills_within, pushed}
use mpmc_with_memory_managem.Runtime.Counts.{same, in_ring}
use mpmc_with_memory_managem.Trading.Format.{double_of}
use mpmc_with_memory_managem.Trading.Ledger.{
  Each, Each-map, Books, Books-same, Books-release, Books-set_message, Puts, push-Puts, Gets,
  try_pop-Gets,
}
use mpmc_with_memory_managem.Trading.Consumer.Orders.{Carries, HasRoom, written-Carries}
use mpmc_with_memory_managem.Trading.Gateway.{
  ExchangeGateway, confirm, answer, poll_once, make_ouch_confirm, make_nnf_confirm,
  make_sbe_fast_confirm, make_mcx_confirm,
}

-- Every acquired message is in one of the gateway's queues, or one of the `others` has it.
pub record IsSettled (others : ℕ → ℕ) (g : ExchangeGateway) : Type 0 where
  pub pending_sized : IsSized g.pending_queue.ring
  pub confirm_sized : IsSized g.confirm_queue.ring
  pub books :
      Books g.pool (λ a. in_ring a g.pending_queue.ring + in_ring a g.confirm_queue.ring + others a)

record IsHolding (others : ℕ → ℕ) (pending : ℕ) (g : ExchangeGateway) : Type 0 where
  real : pending ≢ 0
  settled : IsSettled (λ a. others a + same a pending) g

module _ (others : ℕ → ℕ) (spurious : ℕ → Bool) (fuel : ℕ) where
  confirm-IsSettled :
      {A : Type 0} ⦃w : WireMessage A⦄
      → (pending : ℕ) (ack : A) (g : ExchangeGateway) → IsHolding others pending g
      → Each (IsSettled others) (confirm spurious fuel pending ack g)
  unfolding confirm
  confirm-IsSettled pending ack g h =
      Each-map (IsSettled others) _ (push spurious fuel g.confirm_queue pending) (
        weaken _ (push spurious fuel g.confirm_queue pending)
          (push-Puts spurious fuel g.confirm_queue pending h.settled.confirm_sized h.real))
    where
      weaken :
          (x : TaggedMessage) (o : Option Mpmc)
          → Each (λ q. Puts g.confirm_queue pending q.ring) o
          → Each
              (λ q. IsSettled others (record g {
                confirm_queue = q;
                pool = set_message g.pool pending x;
                confirms = (g.confirms + 1) % 2 ^ 64;
              }))
              o
      weaken x none u = tt
      weaken x (some q) u = record {
        pending_sized = h.settled.pending_sized;
        confirm_sized = u.sized;
        books =
            Books-set_message pending x
              (Books-same h.settled.books (λ a r. omega (arith, u.moved a r)));
      }

  renumbered :
      {pending : ℕ} {g g' : ExchangeGateway}
      → IsHolding others pending g
      → g'.pending_queue ≡ g.pending_queue
      → g'.confirm_queue ≡ g.confirm_queue
      → g'.pool ≡ g.pool
      → IsHolding others pending g'
  renumbered h e f p = record {
    real = h.real;
    settled = record {
      pending_sized = rw e h.settled.pending_sized;
      confirm_sized = rw f h.settled.confirm_sized;
      books = rw (e, f, p) h.settled.books;
    };
  }

  let_go :
      {pending : ℕ} {g : ExchangeGateway}
      → IsHolding others pending g
      → IsSettled others (record g { pool = release g.pool pending })
  let_go {pending} h = record {
    pending_sized = h.settled.pending_sized;
    confirm_sized = h.settled.confirm_sized;
    books = Books-release pending h.real (Books-same h.settled.books (λ a r. omega arith));
  }

  answer-IsSettled :
      (pending : ℕ) (kind : Kind) (bytes : List ℕ) (g : ExchangeGateway)
      → IsHolding others pending g
      → Each (IsSettled others) (answer spurious fuel pending kind bytes g)
  unfolding answer
  answer-IsSettled pending ouch bytes g h =
      confirm-IsSettled pending (make_ouch_confirm (load bytes) g.next_ouch_ref) _
        (renumbered h refl refl refl)
  answer-IsSettled pending nnf bytes g h =
      confirm-IsSettled pending (make_nnf_confirm (load bytes) (double_of g.next_nnf_order)) _
        (renumbered h refl refl refl)
  answer-IsSettled pending sbe_order_entry bytes g h =
      confirm-IsSettled pending (make_sbe_fast_confirm (load bytes) g.next_sbe_seq) _
        (renumbered h refl refl refl)
  answer-IsSettled pending mcx_order bytes g h =
      confirm-IsSettled pending (make_mcx_confirm (load bytes) g.next_mcx_order g.next_mcx_exec) _
        (renumbered h refl refl refl)
  answer-IsSettled pending _ bytes g h = let_go h

  -- If the acquired messages of the pool are those in the gateway's two queues and those that
  -- others have, each once, then this holds after a `poll_once` of the gateway that returns,
  -- whatever the message popped.
  pub gateway-IsSettled :
      (g : ExchangeGateway)
      → IsSettled others g
      → Each (IsSettled others) (poll_once spurious fuel g)
  unfolding poll_once
  gateway-IsSettled g h =
      go (try_pop g.pending_queue) (try_pop-Gets g.pending_queue h.pending_sized)
    where
      go :
          (o : Option (ℕ × Mpmc))
          → Each (Gets g.pending_queue) o
          → Each (IsSettled others) (elim o [
            | none ↦ some g
            | some (pending, q) ↦
                answer spurious fuel pending
                  (message_at g.pool pending).kind
                  (message_at g.pool pending).bytes
                  (record g { pending_queue = q })
          ])
      go none t = h
      go (some (pending, q)) t =
          answer-IsSettled pending (message_at g.pool pending).kind
            (message_at g.pool pending).bytes (record g { pending_queue = q })
            (record {
              real = t.real;
              settled = record {
                pending_sized = t.sized;
                confirm_sized = h.confirm_sized;
                books = Books-same h.books (λ a r. omega (arith, t.moved a r));
              };
            })

-- Confirming with an object in range in a message of a mapped pool, while the confirm queue has an
-- empty slot and no compare-exchange fails spuriously: the call returns within enough attempts for
-- the ring, the message carries the confirmation under its kind, the count is one more, the pending
-- queue is unchanged, and the message is in a slot of the confirm queue that was empty.
pub confirm_lem :
    {A : Type 0} ⦃w : WireMessage A⦄
    → (fuel i : ℕ) (ack : A) (g : ExchangeGateway) → IsMapped g.pool
    → i < Pool.capacity g.pool
    → IsObject ⦃r = w.struct⦄ ack
    → HasRoom g.confirm_queue fuel
    → let a = address_of g.pool i in
      (g' : ExchangeGateway) × (confirm never fuel a ack g ≡ some g')
      × Carries g'.pool a ack
      × (g'.confirms ≡ (g.confirms + 1) % 2 ^ 64)
      × (g'.pending_queue ≡ g.pending_queue)
      × ((d : ℕ) × (get_or g.confirm_queue.ring d 0 ≡ 0)
          × (g'.confirm_queue ≡ pushed g.confirm_queue d a))
unfolding confirm
confirm_lem ⦃w⦄ fuel i ack g m h ok room =
    let real : address_of g.pool i ≢ 0 = λ e. absurd (omega (arith, m.not_null, e)) in
    let (d, l, z, e) =
      push_fills_within g.confirm_queue room.sized fuel room.empty (address_of g.pool i)
        room.fuelled room.inside room.free real in
    rw e (_, refl, written-Carries g.pool i ack m h ok, refl, refl, (d, z, refl))
