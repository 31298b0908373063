-- ===== src/Pool.antt =====
-- `TaggedPool` of include/mem/memory_pool.hpp. A pointer is its address, and `nullptr` is 0.
-- The pool stands at `base`, the address that `os::map` returned.
pub mod Slots
pub mod Acquire
pub mod Release
pub mod Fill
mod Tests
use mpmc_with_memory_managem.Base.{
  ℕ, zero, suc, ◌+◌, ◌-◌, ◌*◌, ◌/◌, ◌%◌, ◌^◌, ◌≤◌, ◌<◌, ◌≡◌, Bool, not, ◌&&◌, Option, none, some,
  List, [], ◌∷◌, length, get_or, modify, replicate, ◌==◌, leb, if◌then◌else◌,
}
use mpmc_with_memory_managem.Arch.{cache_line_size, round_up}
use mpmc_with_memory_managem.Proto.Message.{
  TaggedMessage, Kind, itch, max_slot_size, zero_bytes, tagged_message_init, WireMessage,
  write_bytes,
}

-- `kind`, then `bytes` at the next cache line.
abbrev pub sizeof_tagged_message : ℕ
sizeof_tagged_message = round_up (cache_line_size + max_slot_size) cache_line_size

-- 0 = free, 1 = acquired
pub record Slot : Type 0 where
  pub message : TaggedMessage
  pub state : ℕ

-- The message, then the state byte.
abbrev pub sizeof_slot : ℕ
sizeof_slot = round_up (sizeof_tagged_message + 1) cache_line_size

pub record TaggedPool : Type 0 where
  pub base : ℕ
  pub slots : List Slot

-- A free slot. Its `kind`, zero in the mapping and no enumerator, is not read before `acquire` sets
-- it.
abbrev pub slot_init : Slot
slot_init = record { message = tagged_message_init; state = 0 }

-- The constructor: `capacity` free slots in the region mapped at `base`.
unfoldable pub init : ℕ → ℕ → TaggedPool
init base capacity = record { base = base; slots = replicate capacity slot_init }

abbrev pub capacity : TaggedPool → ℕ
capacity p = length p.slots

-- `detail::index_of`; the subtraction wraps at 64 bits.
unfoldable pub index_of : ℕ → ℕ → ℕ → ℕ
index_of slot base slot_stride = (slot + 2 ^ 64 - base) % 2 ^ 64 / slot_stride

-- `&slots_[i].message`
abbrev pub address_of : TaggedPool → ℕ → ℕ
address_of p i = p.base + sizeof_slot * i

-- What `acquire` leaves in the slot that it takes.
abbrev pub taken : Slot
taken = record { message = record { kind = itch; bytes = zero_bytes }; state = 1 }

-- The loop of `acquire`, from slot `i` on. `spurious i` is a failure of the weak
-- compare-exchange on a free slot `i`, which the standard allows.
unfoldable pub acquire_from : (ℕ → Bool) → ℕ → List Slot → Option (ℕ × List Slot)
acquire_from spurious i [] = none
acquire_from spurious i (s ∷ ss) =
    let rest = acquire_from spurious (i + 1) ss in
    if s.state == 0 && not (spurious i)
    then some (i, taken ∷ ss)
    else elim rest [ none ↦ none | some (j, ss') ↦ some (j, s ∷ ss') ]

unfoldable pub acquire : (ℕ → Bool) → TaggedPool → ℕ × TaggedPool
unfolding acquire_from
acquire spurious p = elim (acquire_from spurious 0 p.slots) [
  | none ↦ (0, p)
  | some (i, ss) ↦ (address_of p i, record p { slots = ss })
]

unfoldable pub release : TaggedPool → ℕ → TaggedPool
unfolding index_of
release p message =
    let index = index_of message p.base sizeof_slot in
    if message == 0
    then p
    else if leb (capacity p) index
    then p
    else record p { slots = modify (λ s. record s { state = 0 }) index p.slots }

-- `*message`, read and written through the pointer.
unfoldable pub message_at : TaggedPool → ℕ → TaggedMessage
unfolding index_of
message_at p message = (get_or p.slots (index_of message p.base sizeof_slot) slot_init).message

unfoldable pub set_message : TaggedPool → ℕ → TaggedMessage → TaggedPool
unfolding index_of
set_message p message m = record p {
  slots = modify (λ s. record s { message = m }) (index_of message p.base sizeof_slot) p.slots;
}

unfoldable pub acquire_filled :
    {A : Type 0} ⦃w : WireMessage A⦄ → (ℕ → Bool) → TaggedPool → A → ℕ × TaggedPool
unfolding acquire set_message message_at write_bytes
acquire_filled ⦃w⦄ spurious p src =
    let (slot, p') = acquire spurious p in
    if slot == 0 then (0, p') else (
      slot,
      set_message p' slot (record {
        kind = w.kind_of;
        bytes = write_bytes ⦃r = w.struct⦄ src (message_at p' slot).bytes;
      }),
    )
