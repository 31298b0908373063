-- ===== src/Trading/Consumer/Owned.antt =====
-- No step of a consumer loses a message, duplicates one, or leaves one acquired that nobody holds.
use mathlib.Core.Option
use mpmc_with_memory_managem.Base.{
  ℕ, ◌+◌, ◌%◌, ◌^◌, ◌≢◌, arith, Bool, not, inl, inr, Bool-cases, Option, none, some, ◌==◌,
}
use mpmc_with_memory_managem.Proto.Message
use mpmc_with_memory_managem.Proto.Message.{
  TaggedMessage, Kind, itch, mtbt, sbe_market, mcx_market, signal, same_kind, kind_code, side_code,
  WireMessage, ouch_enter_order_wire, nnf_order_entry_wire, create_order_req_wire,
  new_order_single_short_wire,
}
use mpmc_with_memory_managem.Proto.Signal.{StrategySignal}
use mpmc_with_memory_managem.Pool.{message_at, release, set_message}
use mpmc_with_memory_managem.Ring.{Mpmc, push, try_pop}
use mpmc_with_memory_managem.Ring.Probe.{IsSized}
use mpmc_with_memory_managem.Runtime.Counts.{same, in_ring}
use mpmc_with_memory_managem.Trading.Strategy.{decode_signal}
use mpmc_with_memory_managem.Trading.Ledger.{
  Each, Each-map, Books, Books-same, Books-release, Books-set_message, Puts, push-Puts, Gets,
  try_pop-Gets,
}
use mpmc_with_memory_managem.Trading.Consumer.{
  Consumer, Polled, returned, holding, sort_signal, poll_signal, submit, ouch_order, nnf_order,
  sbe_order, mcx_order, ouch_poll_once, nnf_poll_once, sbe_poll_once, mcx_poll_once,
}

-- Every acquired message is in one of the consumer's queues, or one of the `others` has it.
pub record IsSettled (others : ℕ → ℕ) (c : Consumer) : Type 0 where
  pub signal_sized : IsSized c.signal_queue.ring
  pub pending_sized : IsSized c.pending_queue.ring
  pub books :
      Books c.pool (λ a. in_ring a c.signal_queue.ring + in_ring a c.pending_queue.ring + others a)

-- The same, while the consumer holds `msg`.
record IsHolding (others : ℕ → ℕ) (msg : ℕ) (c : Consumer) : Type 0 where
  real : msg ≢ 0
  settled : IsSettled (λ a. others a + same a msg) c

module _ (others : ℕ → ℕ) where
  let_go :
      {c : Consumer} {msg : ℕ}
      → IsHolding others msg c
      → IsSettled others (record c { pool = release c.pool msg })
  let_go {c} {msg} h = record {
    signal_sized = h.settled.signal_sized;
    pending_sized = h.settled.pending_sized;
    books = Books-release msg h.real (Books-same h.settled.books (λ a r. omega arith));
  }

  put_back :
      (spurious : ℕ → Bool) (fuel : ℕ) {c : Consumer} {msg : ℕ}
      → IsHolding others msg c
      → Each
          (IsSettled others)
          (Option.map (λ q. record c { signal_queue = q }) (push spurious fuel c.signal_queue msg))
  put_back spurious fuel {c} {msg} h =
      Each-map (IsSettled others) _ (push spurious fuel c.signal_queue msg) (
        weaken (push spurious fuel c.signal_queue msg)
          (push-Puts spurious fuel c.signal_queue msg h.settled.signal_sized h.real))
    where
      weaken :
          (o : Option Mpmc)
          → Each (λ q. Puts c.signal_queue msg q.ring) o
          → Each (λ q. IsSettled others (record c { signal_queue = q })) o
      weaken none u = tt
      weaken (some q) u = record {
        signal_sized = u.sized;
        pending_sized = h.settled.pending_sized;
        books = Books-same h.settled.books (λ a r. omega (arith, u.moved a r));
      }

  submit-IsSettled :
      {A : Type 0} ⦃w : WireMessage A⦄
      → (spurious : ℕ → Bool) (fuel msg : ℕ) (order : A) (c : Consumer) → IsHolding others msg c
      → Each (IsSettled others) (submit spurious fuel msg order c)
  unfolding submit
  submit-IsSettled spurious fuel msg order c h =
      Each-map (IsSettled others) _ (push spurious fuel c.pending_queue msg) (
        weaken _ (push spurious fuel c.pending_queue msg)
          (push-Puts spurious fuel c.pending_queue msg h.settled.pending_sized h.real))
    where
      weaken :
          (x : TaggedMessage) (o : Option Mpmc)
          → Each (λ q. Puts c.pending_queue msg q.ring) o
          → Each
              (λ q. IsSettled others (record c {
                pending_queue = q;
                pool = set_message c.pool msg x;
                submitted = (c.submitted + 1) % 2 ^ 64;
              }))
              o
      weaken x none u = tt
      weaken x (some q) u = record {
        signal_sized = h.settled.signal_sized;
        pending_sized = u.sized;
        books =
            Books-set_message msg x
              (Books-same h.settled.books (λ a r. omega (arith, u.moved a r)));
      }

  -- How the first half of a step may end.
  Ends : Polled → Type 0
  Ends (returned r) = Each (IsSettled others) r
  Ends (holding msg s c) = IsHolding others msg c

  sort_signal-Ends :
      (spurious : ℕ → Bool) (fuel : ℕ) (feed : Kind) (msg : ℕ) (c : Consumer)
      → IsHolding others msg c
      → Ends (sort_signal spurious fuel feed msg c)
  unfolding sort_signal Ends
  sort_signal-Ends spurious fuel feed msg c h =
      elim (Bool-cases (not (same_kind (message_at c.pool msg).kind signal))) [
        | inl e ↦ rw e (let_go h)
        | inr e ↦
            elim (Bool-cases
              (not ((decode_signal (message_at c.pool msg)).feed == kind_code feed))) [
                | inl f ↦ rw (e, f) (put_back spurious fuel h)
                | inr f ↦
                    elim (Bool-cases
                      ((decode_signal (message_at c.pool msg)).side == side_code Message.none)) [
                        | inl g ↦ rw (e, f, g) (let_go h)
                        | inr g ↦ rw (e, f, g) h
                      ]
              ]
      ]

  poll_signal-Ends :
      (spurious : ℕ → Bool) (fuel : ℕ) (feed : Kind) (c : Consumer)
      → IsSettled others c
      → Ends (poll_signal spurious fuel feed c)
  unfolding poll_signal Ends
  poll_signal-Ends spurious fuel feed c h =
      go (try_pop c.signal_queue) (try_pop-Gets c.signal_queue h.signal_sized)
    where
      go :
          (o : Option (ℕ × Mpmc))
          → Each (Gets c.signal_queue) o
          → Ends (elim o [
            | none ↦ returned (some c)
            | some (msg, q) ↦ sort_signal spurious fuel feed msg (record c { signal_queue = q })
          ])
      go none g = h
      go (some (msg, q)) g =
          sort_signal-Ends spurious fuel feed msg (record c { signal_queue = q })
            (record {
              real = g.real;
              settled = record {
                signal_sized = g.sized;
                pending_sized = h.pending_sized;
                books = Books-same h.books (λ a r. omega (arith, g.moved a r));
              };
            })

  finish :
      {A : Type 0} ⦃w : WireMessage A⦄
      → (spurious : ℕ → Bool) (fuel : ℕ) (order : StrategySignal → A) (p : Polled) → Ends p
      → Each
          (IsSettled others)
          (elim p [ returned r ↦ r | holding msg s c ↦ submit spurious fuel msg (order s) c ])
  unfolding Ends
  finish spurious fuel order (returned r) h = h
  finish spurious fuel order (holding msg s c) h = submit-IsSettled spurious fuel msg (order s) c h

  -- If the acquired messages of the pool are those in a consumer's two queues and those that others
  -- have, each once, then this holds after a `poll_once` of each of the four consumers that
  -- returns, whatever the message popped.
  pub consumers-IsSettled :
      (spurious : ℕ → Bool) (fuel : ℕ) (c : Consumer)
      → IsSettled others c
      → Each (IsSettled others) (ouch_poll_once spurious fuel c)
        × ((trader_id : ℕ) → Each (IsSettled others) (nnf_poll_once spurious fuel trader_id c))
        × ((symbol_id : ℕ) → Each (IsSettled others) (sbe_poll_once spurious fuel symbol_id c))
        × ((seq sender_sub_id simple_security_id : ℕ)
            → Each
                (λ (r : ℕ × Consumer). IsSettled others r.1)
                (mcx_poll_once spurious fuel sender_sub_id simple_security_id (seq, c)))
  unfolding ouch_poll_once nnf_poll_once sbe_poll_once mcx_poll_once Ends
  consumers-IsSettled spurious fuel c h = (
    finish spurious fuel ouch_order _ (poll_signal-Ends spurious fuel itch c h),
    λ trader_id.
        finish spurious fuel (nnf_order trader_id) _ (poll_signal-Ends spurious fuel mtbt c h),
    λ symbol_id.
        finish spurious fuel (sbe_order symbol_id) _
          (poll_signal-Ends spurious fuel sbe_market c h),
    λ seq sender_sub_id simple_security_id.
        with_seq seq (mcx_order seq sender_sub_id simple_security_id)
          (poll_signal spurious fuel mcx_market c) (poll_signal-Ends spurious fuel mcx_market c h),
  )
    where
      with_seq :
          (seq : ℕ) {A : Type 0} ⦃w : WireMessage A⦄ (order : StrategySignal → A) (p : Polled)
          → Ends p
          → Each
              (λ (r : ℕ × Consumer). IsSettled others r.1)
              (elim p [
                | returned r ↦ Option.map (λ c'. (seq, c')) r
                | holding msg s c' ↦
                    Option.map
                      (λ c''. ((seq + 1) % 2 ^ 32, c''))
                      (submit spurious fuel msg (order s) c')
              ])
      with_seq seq order (returned r) h =
          Each-map (λ (r : ℕ × Consumer). IsSettled others r.1) _ r h
      with_seq seq order (holding msg s c') h =
          Each-map (λ (r : ℕ × Consumer). IsSettled others r.1) _
            (submit spurious fuel msg (order s) c')
            (submit-IsSettled spurious fuel msg (order s) c' h)
