-- ===== src/Pool/Fill.antt =====
-- `acquire_filled`: the acquired message holds the struct that it was filled with.
use mpmc_with_memory_managem.Base.{
  ℕ, ◌<◌, ◌≡◌, arith, get_or, set, modify, length, Bool, length-set, get_or-modify_self,
  length-modify, ◌==◌, ap, ◌∙◌, Bool-cases, inl, inr, List,
}
use mpmc_with_memory_managem.Wire.Struct.{Struct, IsObject, load, load-store}
use mpmc_with_memory_managem.Proto.Message.{TaggedMessage, WireMessage, write_bytes}
use mpmc_with_memory_managem.Pool.{
  TaggedPool, Slot, slot_init, capacity, address_of, taken, acquire, acquire_filled, message_at,
  set_message,
}
use mpmc_with_memory_managem.Pool.Slots.{IsMapped, index_of-address_of}
use mpmc_with_memory_managem.Pool.Acquire.{Acquires, fails, takes, acquire_lem}

pub message_at-address_of :
    (p : TaggedPool) (i : ℕ)
    → IsMapped p
    → i < capacity p
    → message_at p (address_of p i) ≡ (get_or p.slots i slot_init).message
unfolding message_at
message_at-address_of p i m h =
    ap (λ k. (get_or p.slots k slot_init).message) (index_of-address_of p i m h)

pub set_message-address_of :
    (p : TaggedPool) (i : ℕ) (m : TaggedMessage)
    → IsMapped p
    → i < capacity p
    → set_message p (address_of p i) m
      ≡ record p { slots = modify (λ s. record s { message = m }) i p.slots }
unfolding set_message
set_message-address_of p i m mapped h =
    ap (λ k. record p { slots = modify (λ s. record s { message = m }) k p.slots })
      (index_of-address_of p i mapped h)

-- What is written through the address of a slot is read back through it.
pub message_at-set_message :
    (p : TaggedPool) (i : ℕ) (m : TaggedMessage)
    → IsMapped p
    → i < capacity p
    → message_at (set_message p (address_of p i) m) (address_of p i) ≡ m
message_at-set_message p i m mapped h = rw (set_message-address_of p i m mapped h) (
    message_at-address_of (record p { slots = ss }) i
      (record { not_null = mapped.not_null; in_range = rw len mapped.in_range })
      (omega (arith, len))
    ∙ ap (λ s. s.message) (get_or-modify_self write i p.slots slot_init h))
  where
    write : Slot → Slot
    write s = record s { message = m }

    ss : List Slot
    ss = modify write i p.slots

    len : length ss ≡ length p.slots
    len = length-modify write i p.slots

-- A struct written at the front of the buffer is read back from it.
pub load-write_bytes :
    {A : Type 0} ⦃r : Struct A⦄ (s : A) (bytes : List ℕ)
    → IsObject s
    → load (write_bytes s bytes) ≡ s
unfolding write_bytes
load-write_bytes s bytes h = load-store s _ h

module _ {A : Type 0} ⦃w : WireMessage A⦄ (src : A) (h : IsObject ⦃r = w.struct⦄ src) where
  filled :
      {spurious : ℕ → Bool} {p : TaggedPool} {r : ℕ × TaggedPool}
      → IsMapped p
      → Acquires spurious p r
      → 0 < r.0
      → let q = set_message r.1 r.0 (record {
        kind = w.kind_of;
        bytes = write_bytes ⦃r = w.struct⦄ src (message_at r.1 r.0).bytes;
      }) in
        ((message_at q r.0).kind ≡ w.kind_of) × (load ⦃r = w.struct⦄ (message_at q r.0).bytes ≡ src)
  filled m (fails _) k = absurd (omega arith)
  filled {p} m (takes i hi _ _ _) k =
      let e = message_at-set_message (record p { slots = set p.slots i taken }) i _ mapped at in
      (
        ap (λ m. m.kind) e,
        ap (λ m. load ⦃r = w.struct⦄ m.bytes) e ∙ load-write_bytes ⦃r = w.struct⦄ src _ h,
      )
    where
      at : i < length (set p.slots i taken)
      at = omega (arith, length-set p.slots i taken)

      mapped : IsMapped (record p { slots = set p.slots i taken })
      mapped = record {
        not_null = m.not_null;
        in_range = rw (length-set p.slots i taken) m.in_range;
      }

  -- A message that `acquire_filled` of an object in range returns, from a mapped pool, carries the
  -- kind of the struct, and the struct itself.
  pub acquire_filled_lem :
      (spurious : ℕ → Bool) (p : TaggedPool)
      → IsMapped p
      → 0 < (acquire_filled spurious p src).0
      → let (a, q) = acquire_filled spurious p src in
        ((message_at q a).kind ≡ w.kind_of) × (load ⦃r = w.struct⦄ (message_at q a).bytes ≡ src)
  unfolding acquire_filled
  acquire_filled_lem spurious p m h = elim (Bool-cases ((acquire spurious p).0 == 0)) [
    | inl null ↦ absurd (ground arith)
    | inr some ↦ rw some (filled m (acquire_lem spurious p) (ground arith))
  ]
