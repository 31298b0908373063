-- ===== src/Runtime/Counts.antt =====
-- Who holds which message: the slots of the ring, the workers, and the pool's account of it.
use mpmc_with_memory_managem.Base.{
  ℕ, zero, suc, ◌+◌, ◌*◌, ◌≤◌, ◌<◌, ◌≡◌, refl, arith, List, [], ◌∷◌, All, length, get_or, set,
  modify, ◌==◌, if◌then◌else◌, ℕ_discrete,
}
use mpmc_with_memory_managem.Base.Sum.{total}
use mpmc_with_memory_managem.Proto.Message.{TaggedMessage}
use mpmc_with_memory_managem.Pool.{Slot, sizeof_slot, slot_init}
use mpmc_with_memory_managem.Runtime.{Pc, filling, posting, placing, advancing, releasing}

-- `n`, if the two addresses are the same.
abbrev pub counted : ℕ → ℕ → ℕ → ℕ
counted a b n = if a == b then n else 0

abbrev pub same : ℕ → ℕ → ℕ
same a b = counted a b 1

-- How often the message at `a` stands in the ring.
abbrev pub in_ring : ℕ → List ℕ → ℕ
in_ring a ring = total (same a) ring

-- Whether a worker owns the message at `a`.
abbrev pub holds : ℕ → Pc → ℕ
holds a (filling left sequence message) = same a message
holds a (posting left message) = same a message
holds a (placing left message slot) = same a message
holds a (advancing left message idx) = same a message
holds a (releasing left message) = same a message
holds a _ = 0

abbrev pub held : ℕ → List Pc → ℕ
held a workers = total (holds a) workers

-- The state byte of the slot at address `a`, of slots that begin at `base`; 0 if none is there.
unfoldable pub acquired : ℕ → List Slot → ℕ → ℕ
acquired base [] a = 0
acquired base (s ∷ ss) a = counted a base s.state + acquired (base + sizeof_slot) ss a

next_address : (base k : ℕ) → base + sizeof_slot * suc k ≡ base + sizeof_slot + sizeof_slot * k
next_address base k = omega arith

pub acquired-set :
    (base : ℕ) (ss : List Slot) (k : ℕ) (v : Slot) (a : ℕ)
    → k < length ss
    → acquired base (set ss k v) a
        + counted a (base + sizeof_slot * k) (get_or ss k slot_init).state
      ≡ acquired base ss a + counted a (base + sizeof_slot * k) v.state
unfolding acquired
acquired-set base [] k v a h = absurd (omega arith)
acquired-set base (s ∷ ss) zero v a h =
    let e : base + sizeof_slot * 0 ≡ base = omega arith in rw e (omega arith)
acquired-set base (s ∷ ss) (suc k) v a h =
    rw (next_address base k)
      (omega (arith, acquired-set (base + sizeof_slot) ss k v a (omega arith)))

pub acquired_below : (base : ℕ) (ss : List Slot) (a : ℕ) → a < base → acquired base ss a ≡ 0
unfolding acquired
acquired_below base [] a h = refl
acquired_below base (s ∷ ss) a h =
    ground (arith, acquired_below (base + sizeof_slot) ss a (omega arith))

-- A state byte is 0 or 1.
abbrev pub IsState : Slot → Type 0
IsState s = s.state ≤ 1

pub acquired-le-one : (base : ℕ) (ss : List Slot) (a : ℕ) → All IsState ss → acquired base ss a ≤ 1
unfolding acquired
acquired-le-one base [] a h = omega arith
acquired-le-one base (s ∷ ss) a h =
    ground (
      arith,
      acquired-le-one (base + sizeof_slot) ss a h.1,
      acquired_below (base + sizeof_slot) ss a,
    )

-- An account that is not 0 is the state byte of a slot at that address.
pub acquired_slot :
    (base : ℕ) (ss : List Slot) (a : ℕ)
    → 0 < acquired base ss a
    → (k : ℕ) × (k < length ss)
      × (a ≡ base + sizeof_slot * k)
      × ((get_or ss k slot_init).state ≡ acquired base ss a)
unfolding acquired
acquired_slot base [] a h = absurd (omega arith)
acquired_slot base (s ∷ ss) a h = elim (ℕ_discrete a base) [
  | yes e ↦ (
    0,
    omega arith,
    omega arith,
    ground (arith, acquired_below (base + sizeof_slot) ss a (omega arith)),
  )
  | no ne ↦
      let (k, l, e, st) = acquired_slot (base + sizeof_slot) ss a (ground arith) in
      (suc k, omega arith, omega arith, ground (arith, st))
]

-- A message's payload does not enter the account.
pub acquired-set_message :
    (base : ℕ) (ss : List Slot) (k : ℕ) (m : TaggedMessage) (a : ℕ)
    → acquired base (modify (λ s. record s { message = m }) k ss) a ≡ acquired base ss a
unfolding acquired
acquired-set_message base [] k m a = refl
acquired-set_message base (s ∷ ss) zero m a = refl
acquired-set_message base (s ∷ ss) (suc k) m a =
    omega (arith, acquired-set_message (base + sizeof_slot) ss k m a)

pub All-set_message :
    (ss : List Slot) (k : ℕ) (m : TaggedMessage)
    → All IsState ss
    → All IsState (modify (λ s. record s { message = m }) k ss)
All-set_message [] k m h = tt
All-set_message (s ∷ ss) zero m h = h
All-set_message (s ∷ ss) (suc k) m h = (h.0, All-set_message ss k m h.1)

pub All-set :
    (ss : List Slot) (k : ℕ) (v : Slot) → All IsState ss → IsState v → All IsState (set ss k v)
All-set [] k v h hv = tt
All-set (s ∷ ss) zero v h hv = (hv, h.1)
All-set (s ∷ ss) (suc k) v h hv = (h.0, All-set ss k v h.1 hv)
