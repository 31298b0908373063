-- ===== src/Pool/Release.antt =====
-- `release`, and what it does to what `acquire` took.
use mpmc_with_memory_managem.Base.{
  ℕ, ◌≤◌, ◌<◌, ◌≡◌, ◌≢◌, refl, sym, arith, set, modify, length, ◌⊎◌, inl, inr, Bool,
  get_or-set_self, get_or-set_ne, length-set, get_or-modify_self, get_or-modify_ne, ap, ◌∙◌,
  ℕ_discrete,
}
use mpmc_with_memory_managem.Pool.{
  TaggedPool, Slot, sizeof_slot, slot_init, capacity, address_of, index_of, taken, acquire, release,
}
use mpmc_with_memory_managem.Pool.Slots.{IsMapped, state, index_of-address_of}
use mpmc_with_memory_managem.Pool.Acquire.{Acquires, fails, takes, acquire_lem}

-- Releasing the address of slot `i` frees that slot and changes nothing else.
pub release-address_of :
    (p : TaggedPool) (i : ℕ)
    → IsMapped p
    → i < capacity p
    → release p (address_of p i)
      ≡ record p { slots = modify (λ s. record s { state = 0 }) i p.slots }
unfolding release
release-address_of p i m h = let e = index_of-address_of p i m h in rw e (ground arith)

-- `release` of null, or of a pointer whose index is not below the capacity, changes nothing.
pub release_ignores :
    (p : TaggedPool) (message : ℕ)
    → (message ≡ 0) ⊎ (capacity p ≤ index_of message p.base sizeof_slot)
    → release p message ≡ p
unfolding release
release_ignores p message (inl e) = ground arith
release_ignores p message (inr h) = ground arith

abbrev free_slot : Slot → Slot
free_slot s = record s { state = 0 }

-- Every slot's state is as before an `acquire` once what it returned is released.
give_back :
    {spurious : ℕ → Bool} {p : TaggedPool} {r : ℕ × TaggedPool}
    → IsMapped p
    → Acquires spurious p r
    → (j : ℕ) → state (release r.1 r.0) j ≡ state p j
give_back {p} m (fails all) j = rw (release_ignores p 0 (inl refl))
give_back {p} m (takes k h free ready before) j =
    rw (release-address_of (record p { slots = set p.slots k taken }) k mapped (omega (arith, len)))
      (elim (ℕ_discrete k j) [
        | yes e ↦ rw (← e) (
            ap (λ s. s.state)
              (get_or-modify_self free_slot k (set p.slots k taken) slot_init (omega (arith, len)))
            ∙ sym free)
        | no n ↦
            ap (λ s. s.state)
              (get_or-modify_ne free_slot k j (set p.slots k taken) slot_init n
                ∙ get_or-set_ne p.slots k j taken slot_init n)
      ])
  where
    len : length (set p.slots k taken) ≡ length p.slots
    len = length-set p.slots k taken

    mapped : IsMapped (record p { slots = set p.slots k taken })
    mapped = record { not_null = m.not_null; in_range = rw len m.in_range }

-- Releasing what `acquire` returned undoes it in a mapped pool: every state byte is what it was
-- before.
pub release-acquire :
    (spurious : ℕ → Bool) (p : TaggedPool)
    → IsMapped p
    → (j : ℕ) → state (release (acquire spurious p).1 (acquire spurious p).0) j ≡ state p j
release-acquire spurious p m = give_back m (acquire_lem spurious p)

acquired_ne :
    {s t : ℕ → Bool} {p : TaggedPool} {q r : ℕ × TaggedPool}
    → IsMapped p
    → Acquires s p q
    → Acquires t q.1 r
    → 0 < q.0
    → 0 < r.0
    → q.0 ≢ r.0
acquired_ne m (fails _) second h k = absurd (omega arith)
acquired_ne m (takes _ _ _ _ _) (fails _) h k = absurd (omega arith)
acquired_ne {p} m (takes i hi free _ _) (takes j hj free' _ _) h k = λ e.
    let same : i ≡ j = omega arith in
    let used = ap (λ s. s.state) (get_or-set_self p.slots i taken slot_init hi) in
    omega (arith, used, rw (← same) at free')

-- Two successful calls of `acquire` on a mapped pool, with no release between them, never return
-- the same message.
pub acquire_distinct :
    (s t : ℕ → Bool) (p : TaggedPool)
    → IsMapped p
    → 0 < (acquire s p).0
    → 0 < (acquire t (acquire s p).1).0
    → (acquire s p).0 ≢ (acquire t (acquire s p).1).0
acquire_distinct s t p m = acquired_ne m (acquire_lem s p) (acquire_lem t (acquire s p).1)
