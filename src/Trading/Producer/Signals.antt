-- ===== src/Trading/Producer/Signals.antt =====
-- The signal that a producer emits, and when it emits one.
use mpmc_with_memory_managem.Base.{
  ℕ, ◌+◌, ◌%◌, ◌^◌, ◌<◌, ◌≡◌, ◌≢◌, refl, ap, ◌∙◌, arith, Bool, false, some, get_or, ◌==◌,
}
use mpmc_with_memory_managem.Base.Int.{ℤ}
use mpmc_with_memory_managem.Wire.Struct.{IsObject}
use mpmc_with_memory_managem.Proto.Message
use mpmc_with_memory_managem.Proto.Message.{Side, side_code}
use mpmc_with_memory_managem.Proto.Signal.{StrategySignal, strategy_signal_struct}
use mpmc_with_memory_managem.Pool.{address_of, message_at}
use mpmc_with_memory_managem.Pool
use mpmc_with_memory_managem.Pool.Slots.{IsMapped}
use mpmc_with_memory_managem.Pool.Fill.{message_at-set_message}
use mpmc_with_memory_managem.Ring.Probe.{never}
use mpmc_with_memory_managem.Ring.Calls.{push_fills_within, pushed}
use mpmc_with_memory_managem.Trading.Strategy.{
  update_ref_price, evaluate, encode_signal, decode_signal,
}
use mpmc_with_memory_managem.Trading.Strategy.Band.{decode_signal-encode_signal}
use mpmc_with_memory_managem.Trading.Consumer.Orders.{HasRoom}
use mpmc_with_memory_managem.Trading.Producer.{Producer, emit, on_tick}

-- What is left after the signal `s` was emitted in the message at `a`.
pub record Emits (p : Producer) (a : ℕ) (s : StrategySignal) (p' : Producer) : Type 0 where
  pub carried : decode_signal (message_at p'.pool a) ≡ s
  pub counted : p'.signals ≡ (p.signals + 1) % 2 ^ 64
  pub market_kept : p'.market_queue ≡ p.market_queue
  pub ref_price_kept : p'.ref_price ≡ p.ref_price
  pub next_token_kept : p'.next_token ≡ p.next_token
  pub slot : ℕ
  pub was_empty : get_or p.signal_queue.ring slot 0 ≡ 0
  pub queued : p'.signal_queue ≡ pushed p.signal_queue slot a

unequal : (m n : ℕ) → m ≢ n → (m == n) ≡ false
unequal m n d = ground (arith, d)

emit_lem :
    (busy : ℕ → Bool) (fuel i : ℕ) (s : StrategySignal) (p : Producer)
    → IsMapped p.pool
    → i < Pool.capacity p.pool
    → IsObject s
    → HasRoom p.signal_queue fuel
    → let a = address_of p.pool i in
      (p' : Producer) × (emit busy never fuel a s p ≡ some p') × Emits p a s p'
unfolding emit
emit_lem busy fuel i s p m h ok room =
    let real : address_of p.pool i ≢ 0 = λ e. absurd (omega (arith, m.not_null, e)) in
    let (d, l, z, e) =
      push_fills_within p.signal_queue room.sized fuel room.empty (address_of p.pool i) room.fuelled
        room.inside room.free real in
    rw e (
      _,
      refl,
      record {
        carried =
            ap decode_signal (
              message_at-set_message p.pool i
                (encode_signal s (message_at p.pool (address_of p.pool i))) m h)
            ∙ decode_signal-encode_signal s (message_at p.pool (address_of p.pool i)) ok;
        counted = refl;
        market_kept = refl;
        ref_price_kept = refl;
        next_token_kept = refl;
        slot = d;
        was_empty = z;
        queued = refl;
      },
    )

-- A tick in a message of a mapped pool, on which the strategy decides for a side and whose signal
-- is in range, while the signal queue has an empty slot and no compare-exchange of `push` fails
-- spuriously: the call returns within enough attempts for the ring, the message decodes to the
-- signal of that side with the next token, the counts are one more, the reference price is the
-- updated one, the market queue is unchanged, and the message is in a slot of the signal queue that
-- was empty.
pub on_tick_lem :
    (busy : ℕ → Bool) (fuel i : ℕ) (price : ℤ) (make : Side → ℕ → StrategySignal) (p : Producer)
    → IsMapped p.pool
    → i < Pool.capacity p.pool
    → HasRoom p.signal_queue fuel
    → let a = address_of p.pool i in
      let ref_price = update_ref_price p.ref_price price in
      let side = evaluate ref_price price p.band_bps in
      side_code side ≢ side_code Message.none
      → IsObject (make side p.next_token)
      → (p' : Producer) × (on_tick busy never fuel price make a p ≡ some p')
        × Emits
            (record p { ref_price = ref_price; next_token = (p.next_token + 1) % 2 ^ 32 })
            a
            (make side p.next_token)
            p'
unfolding on_tick
on_tick_lem busy fuel i price make p m h room sided ok =
    let loud : (side_code (evaluate (update_ref_price p.ref_price price) price p.band_bps)
          == side_code Message.none)
        ≡ false =
      unequal _ _ sided in
    let given : (address_of p.pool i == 0) ≡ false =
      unequal _ 0 (λ e. absurd (omega (arith, m.not_null, e))) in
    let e =
      emit_lem busy fuel i
        (make (evaluate (update_ref_price p.ref_price price) price p.band_bps) p.next_token)
        (record p {
          ref_price = update_ref_price p.ref_price price;
          next_token = (p.next_token + 1) % 2 ^ 32;
        })
        m h ok room in
    rw (loud, given) (rw given at e)
