-- ===== src/Pool/Slots.antt =====
-- The slots of a pool and their addresses.
use mpmc_with_memory_managem.Base.{ℕ, ◌+◌, ◌*◌, ◌^◌, ◌≤◌, ◌<◌, ◌≡◌, arith, get_or, refl}
use mpmc_with_memory_managem.Pool.{
  TaggedPool, sizeof_slot, slot_init, capacity, address_of, index_of,
}

sizes : sizeof_slot ≡ 384
sizes = refl

-- The mapping does not hold address 0, nor go past the address space.
pub record IsMapped (p : TaggedPool) : Type 0 where
  pub not_null : 0 < p.base
  pub in_range : p.base + sizeof_slot * capacity p ≤ 2 ^ 64

-- The state byte of slot `i`.
abbrev pub state : TaggedPool → ℕ → ℕ
state p i = (get_or p.slots i slot_init).state

pub index_of-address_of :
    (p : TaggedPool) (i : ℕ)
    → IsMapped p
    → i < capacity p
    → index_of (address_of p i) p.base sizeof_slot ≡ i
unfolding index_of
index_of-address_of p i m h = omega arith
