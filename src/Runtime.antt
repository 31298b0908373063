-- ===== src/Runtime.antt =====
-- The worker threads of `Runtime` in include/mpmc/mpmc_runtime.hpp, one atomic operation at a time.
-- Every shared access of `acquire`, `push`, `try_pop` and `release` is a step of its own; what a
-- thread does to the payload of a message that it owns is one step.
pub mod Counts
pub mod Moves
pub mod System
pub mod Ownership
pub mod Safety
pub mod Exclusive
pub mod Hang
mod Tests
use Prim.Native.Nat.{bit_and}
use mpmc_with_memory_managem.Base.{
  ℕ, zero, suc, ◌+◌, ◌-◌, ◌%◌, ◌^◌, Bool, true, false, not, ◌&&◌, List, length, get_or, set, modify,
  ◌==◌, ltb, if◌then◌else◌,
}
use mpmc_with_memory_managem.Wire.Struct.{load}
use mpmc_with_memory_managem.Proto.Nasdaq.{ItchAddOrder, itch_add_order_init, itch_add_order_struct}
use mpmc_with_memory_managem.Proto.Message.{TaggedMessage, itch, write_bytes}
use mpmc_with_memory_managem.Pool.{
  TaggedPool, Slot, slot_init, address_of, release, message_at, set_message,
}
use mpmc_with_memory_managem.Pool
use mpmc_with_memory_managem.Ring.{Mpmc, mask, next_cursor}
use mpmc_with_memory_managem.Ring

unfoldable pub fill_test_message : TaggedMessage → ℕ → TaggedMessage
unfolding write_bytes
fill_test_message msg sequence = record { kind = itch; bytes = write_bytes body msg.bytes }
  where
    body : ItchAddOrder
    body = record itch_add_order_init {
      stock_locate = sequence % 2 ^ 16;
      shares = sequence % 2 ^ 32;
    }

unfoldable pub sequence_from : TaggedMessage → ℕ
unfolding load
sequence_from msg = body.shares
  where
    body : ItchAddOrder
    body = load msg.bytes

-- What the threads share.
pub record Shared : Type 0 where
  pub pool : TaggedPool
  pub queue : Mpmc
  pub pushed : ℕ
  pub popped : ℕ
  pub next_sequence : ℕ

abbrev pub fetch_add64 : ℕ → ℕ
fetch_add64 n = (n + 1) % 2 ^ 64

-- Where a worker stands, with its live local variables. `left` counts the operations that remain,
-- for a consumer past `probe` without the one in hand.
pub data Pc : Type 0 where
  -- `producer_main`: the head of its loop, and the loop of `acquire` at slot `i`
  producing : (left : ℕ) → Pc
  scanning : (left sequence i : ℕ) → Pc
  -- it owns `message`: before filling it, before the cursor's `fetch_add`, and in `push`'s loop
  filling : (left sequence message : ℕ) → Pc
  posting : (left message : ℕ) → Pc
  placing : (left message slot : ℕ) → Pc
  -- before `pushed_.fetch_add`
  placed : (left : ℕ) → Pc
  -- `consumer_main`: the head of its loop, and the loop of `try_pop` with its loaded cursor
  consuming : (left : ℕ) → Pc
  probing : (left cursor probe : ℕ) → Pc
  -- it owns `message`: before storing the cursor, and before `release`
  advancing : (left message idx : ℕ) → Pc
  releasing : (left message : ℕ) → Pc
  -- before `popped_.fetch_add`
  released : (left : ℕ) → Pc
  -- it has stored `done`
  finished : Pc

-- The slot of the pool whose state byte is set to `v`.
abbrev pub set_state : ℕ → Slot → Slot
set_state v s = record s { state = v }

module _ (spurious : Bool) (s : Shared) where
  -- The weak compare-exchange of `acquire` on slot `i`. `taken` resets the message.
  scan : ℕ → ℕ → ℕ → Shared × Pc
  scan left sequence i =
      if ltb i (Pool.capacity s.pool)
      then (if (get_or s.pool.slots i slot_init).state == 0 && not spurious
          then (
            record s { pool = record (s.pool) { slots = set s.pool.slots i Pool.taken } },
            filling left sequence (address_of s.pool i),
          )
          else (s, scanning left sequence (i + 1)))
      else (s, producing left)

  -- The weak compare-exchange of `push` on `slot`.
  place : ℕ → ℕ → ℕ → Shared × Pc
  place left message slot =
      if get_or s.queue.ring slot 0 == 0 && not spurious
      then (
        record s { queue = record (s.queue) { ring = set s.queue.ring slot message } },
        placed left,
      )
      else (s, placing left message (bit_and (slot + 1) (mask s.queue.ring)))

  -- The exchange of `try_pop` on the slot of probe number `probe`.
  probe_at : ℕ → ℕ → ℕ → Shared × Pc
  probe_at left cursor probe =
      let idx = bit_and ((cursor + probe) % 2 ^ 32) (mask s.queue.ring) in
      let message = get_or s.queue.ring idx 0 in
      let s' = record s { queue = record (s.queue) { ring = set s.queue.ring idx 0 } } in
      if ltb probe (Ring.capacity s.queue)
      then (if message == 0
          then (s', probing left cursor (probe + 1))
          else (s', advancing left message idx))
      else (s, consuming (suc left))

  -- One step of a worker. `spurious` lets a weak compare-exchange fail on a free slot.
  unfoldable pub advance : Pc → Shared × Pc
  unfolding scan place probe_at fill_test_message
  advance (producing zero) = (s, finished)
  advance (producing (suc left)) =
      (record s { next_sequence = fetch_add64 s.next_sequence }, scanning left s.next_sequence 0)
  advance (scanning left sequence i) = scan left sequence i
  advance (filling left sequence message) = (
    record s {
      pool = set_message s.pool message (fill_test_message (message_at s.pool message) sequence);
    },
    posting left message,
  )
  advance (posting left message) = (
    record s { queue = record (s.queue) { post_cursor = next_cursor s.queue.post_cursor } },
    placing left message (bit_and s.queue.post_cursor (mask s.queue.ring)),
  )
  advance (placing left message slot) = place left message slot
  advance (placed left) = (record s { pushed = fetch_add64 s.pushed }, producing left)
  advance (consuming zero) = (s, finished)
  advance (consuming (suc left)) = (s, probing left s.queue.pop_cursor 0)
  advance (probing left cursor probe) = probe_at left cursor probe
  advance (advancing left message idx) = (
    record s { queue = record (s.queue) { pop_cursor = bit_and (idx + 1) (mask s.queue.ring) } },
    releasing left message,
  )
  advance (releasing left message) = (record s { pool = release s.pool message }, released left)
  advance (released left) = (record s { popped = fetch_add64 s.popped }, consuming left)
  advance finished = (s, finished)
