-- ===== src/Trading/Consumer/Orders.antt =====
-- The order that a consumer submits, and when it submits one.
use mpmc_with_memory_managem.Base.{
  ℕ, ◌+◌, ◌%◌, ◌^◌, ◌≤◌, ◌<◌, ◌≡◌, ◌≢◌, refl, ap, ◌∙◌, arith, Bool, false, not, some, get_or, ◌==◌,
}
use mpmc_with_memory_managem.Wire.Struct.{IsObject, load}
use mpmc_with_memory_managem.Proto.Message
use mpmc_with_memory_managem.Proto.Message.{
  TaggedMessage, Kind, signal, same_kind, kind_code, side_code, WireMessage, write_bytes,
}
use mpmc_with_memory_managem.Pool.{TaggedPool, address_of, message_at, set_message}
use mpmc_with_memory_managem.Pool
use mpmc_with_memory_managem.Pool.Slots.{IsMapped}
use mpmc_with_memory_managem.Pool.Fill.{message_at-set_message, load-write_bytes}
use mpmc_with_memory_managem.Ring.{Mpmc, push, try_pop}
use mpmc_with_memory_managem.Ring
use mpmc_with_memory_managem.Ring.Probe.{IsSized, never}
use mpmc_with_memory_managem.Ring.Calls.{push_fills_within, pushed}
use mpmc_with_memory_managem.Trading.Strategy.{decode_signal}
use mpmc_with_memory_managem.Trading.Consumer.{Consumer, holding, sort_signal, poll_signal, submit}

-- The message at `a` carries this struct under its kind.
pub record Carries {A : Type 0} ⦃w : WireMessage A⦄ (p : TaggedPool) (a : ℕ) (x : A) : Type 0 where
  pub kind : (message_at p a).kind ≡ w.kind_of
  pub content : load ⦃r = w.struct⦄ (message_at p a).bytes ≡ x

-- The pending queue takes one more message.
pub record HasRoom (q : Mpmc) (fuel : ℕ) : Type 0 where
  pub sized : IsSized q.ring
  pub empty : ℕ
  pub inside : empty < Ring.capacity q
  pub free : get_or q.ring empty 0 ≡ 0
  pub fuelled : Ring.capacity q ≤ fuel

pub written-Carries :
    {A : Type 0} ⦃w : WireMessage A⦄
    → (p : TaggedPool) (i : ℕ) (x : A) → IsMapped p
    → i < Pool.capacity p
    → IsObject ⦃r = w.struct⦄ x
    → let a = address_of p i in
      Carries
        (set_message p a (record {
          kind = w.kind_of;
          bytes = write_bytes ⦃r = w.struct⦄ x (message_at p a).bytes;
        }))
        a
        x
written-Carries ⦃w⦄ p i x m h ok =
    let e = message_at-set_message p i _ m h in
    record {
      kind = ap (λ m. m.kind) e;
      content = ap (λ m. load ⦃r = w.struct⦄ m.bytes) e ∙ load-write_bytes ⦃r = w.struct⦄ x _ ok;
    }

-- Submitting an order in range in a message of a mapped pool, while the pending queue has an empty
-- slot and no compare-exchange fails spuriously: the call returns within enough attempts for the
-- ring, the message carries the order under its kind, the count is one more, the signal queue is
-- unchanged, and the message is in a slot of the pending queue that was empty.
pub submit_lem :
    {A : Type 0} ⦃w : WireMessage A⦄
    → (fuel i : ℕ) (order : A) (c : Consumer) → IsMapped c.pool
    → i < Pool.capacity c.pool
    → IsObject ⦃r = w.struct⦄ order
    → HasRoom c.pending_queue fuel
    → let a = address_of c.pool i in
      (c' : Consumer) × (submit never fuel a order c ≡ some c')
      × Carries c'.pool a order
      × (c'.submitted ≡ (c.submitted + 1) % 2 ^ 64)
      × (c'.signal_queue ≡ c.signal_queue)
      × ((d : ℕ) × (get_or c.pending_queue.ring d 0 ≡ 0)
          × (c'.pending_queue ≡ pushed c.pending_queue d a))
unfolding submit
submit_lem ⦃w⦄ fuel i order c m h ok room =
    let real : address_of c.pool i ≢ 0 = λ e. absurd (omega (arith, m.not_null, e)) in
    let (d, l, z, e) =
      push_fills_within c.pending_queue room.sized fuel room.empty (address_of c.pool i)
        room.fuelled room.inside room.free real in
    rw e (_, refl, written-Carries c.pool i order m h ok, refl, refl, (d, z, refl))

sorted :
    (spurious : ℕ → Bool) (fuel : ℕ) (feed : Kind) (msg : ℕ) (c : Consumer)
    → not (same_kind (message_at c.pool msg).kind signal) ≡ false
    → not ((decode_signal (message_at c.pool msg)).feed == kind_code feed) ≡ false
    → ((decode_signal (message_at c.pool msg)).side == side_code Message.none) ≡ false
    → sort_signal spurious fuel feed msg c ≡ holding msg (decode_signal (message_at c.pool msg)) c
unfolding sort_signal
sorted spurious fuel feed msg c e f g = rw (e, f, g) refl

-- When the popped message is a signal of the consumer's feed with a side, the consumer holds that
-- message with the decoded signal, and has changed nothing but the signal queue.
pub poll_signal_lem :
    (spurious : ℕ → Bool) (fuel : ℕ) (feed : Kind) (c : Consumer) (msg : ℕ) (q : Mpmc)
    → try_pop c.signal_queue ≡ some (msg, q)
    → (message_at c.pool msg).kind ≡ signal
    → (decode_signal (message_at c.pool msg)).feed ≡ kind_code feed
    → (decode_signal (message_at c.pool msg)).side ≢ side_code Message.none
    → poll_signal spurious fuel feed c
      ≡ holding msg (decode_signal (message_at c.pool msg)) (record c { signal_queue = q })
unfolding poll_signal
poll_signal_lem spurious fuel feed c msg q popped is_signal of_feed sided =
    rw (poll_signal, popped)
      (sorted spurious fuel feed msg (record c { signal_queue = q })
        (ap (λ k. not (same_kind k signal)) is_signal) (ground (arith, of_feed))
        (ground (arith, sided)))
