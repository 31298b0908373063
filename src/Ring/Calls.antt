-- ===== src/Ring/Calls.antt =====
-- Whole calls on a ring that no other thread touches: which slot they use, and when they spin.
use native.Mathlib.Nat.{mod-lt, mod-eq_of_lt, mod-eq-sub-mod}
use mpmc_with_memory_managem.Base.{
  ℕ, zero, suc, ◌+◌, ◌-◌, ◌%◌, ◌≤◌, ◌<◌, ◌≡◌, ◌≢◌, refl, ◌∙◌, arith, Bool, Option, none, some, List,
  length, get_or, set, dec_lt, ℕ_discrete, ◌⊎◌, inl, inr,
}
use mpmc_with_memory_managem.Ring.{Mpmc, capacity, next_cursor, push_loop, push, try_pop}
use mpmc_with_memory_managem.Ring.Probe.{
  IsSized, positive, bit_and-mask_of, ahead, never, push_loop_first, try_pop_loop_first,
  try_pop_loop_none,
}

-- The first zero of `f` below `n`, if there is one.
pub first_zero :
    (f : ℕ → ℕ) (n : ℕ)
    → ((d : ℕ) × (d < n) × (f d ≡ 0) × ((j : ℕ) → j < d → f j ≢ 0)) ⊎ ((j : ℕ) → j < n → f j ≢ 0)
first_zero f zero = inr (λ j h. absurd (omega arith))
first_zero f (suc n) = elim (first_zero f n) [
  | inl (d, h, e, before) ↦ inl (d, omega arith, e, before)
  | inr all ↦ elim (ℕ_discrete (f n) 0) [
    | yes e ↦ inl (n, omega arith, e, all)
    | no ne ↦
        inr
          (λ j h. elim (ℕ_discrete j n) [ yes same ↦ rw same ne | no other ↦ all j (omega arith) ])
  ]
]

-- Going round the ring from `slot` one comes to every slot.
pub ahead_onto :
    (ring : List ℕ) (slot e : ℕ)
    → slot < length ring
    → e < length ring
    → (d : ℕ) × (d < length ring) × (ahead ring slot d ≡ e)
ahead_onto ring slot e h k = elim (dec_lt e slot) [
  | yes lt ↦ (
    e + length ring - slot,
    omega arith,
    (let s : slot + (e + length ring - slot) ≡ e + length ring = omega arith in
        let z : e + length ring - length ring ≡ e = omega arith in
        rw s (
          mod-eq-sub-mod {n = e + length ring} {m = length ring} (omega arith)
          ∙ rw z (mod-eq_of_lt k))),
  )
  | no ge ↦ (
    e - slot,
    omega arith,
    (let s : slot + (e - slot) ≡ e = omega arith in rw s (mod-eq_of_lt k)),
  )
]

-- The state that `push` leaves when it fills slot `e`.
abbrev pub pushed : Mpmc → ℕ → ℕ → Mpmc
pushed q e message = record {
  ring = set q.ring e message;
  post_cursor = next_cursor q.post_cursor;
  pop_cursor = q.pop_cursor;
}

module _ (q : Mpmc) (s : IsSized q.ring) where
  abbrev start : ℕ
  start = q.post_cursor % capacity q

  start-lt : start < capacity q
  start-lt = mod-lt q.post_cursor (positive s)

  -- The same with any fuel that is enough.
  pub push_fills_within :
      (fuel e message : ℕ)
      → capacity q ≤ fuel
      → e < capacity q
      → get_or q.ring e 0 ≡ 0
      → message ≢ 0
      → (d : ℕ) × (d < capacity q)
        × (get_or q.ring d 0 ≡ 0)
        × (push never fuel q message ≡ some (pushed q d message))
  unfolding push
  push_fills_within fuel e message f h empty real =
      elim (first_zero (λ j. get_or q.ring (ahead q.ring start j) 0) (capacity q)) [
        | inl (d, l, z, before) ↦ (
          ahead q.ring start d,
          mod-lt (start + d) (positive s),
          z,
          ground (
            arith,
            bit_and-mask_of s q.post_cursor,
            push_loop_first d fuel 0 start q.ring message s start-lt (omega arith) before z,
          ),
        )
        | inr full ↦
            let (d, l, same) = ahead_onto q.ring start e start-lt h in
            absurd (full d l (rw same empty))
      ]

  -- While some slot is empty and no compare-exchange fails spuriously, `push` of a message returns
  -- within `Capacity` attempts, with the message in a slot that was empty and all else in place.
  pub push_fills :
      (e message : ℕ)
      → e < capacity q
      → get_or q.ring e 0 ≡ 0
      → message ≢ 0
      → (d : ℕ) × (d < capacity q)
        × (get_or q.ring d 0 ≡ 0)
        × (push never (capacity q) q message ≡ some (pushed q d message))
  push_fills e message h empty real =
      push_fills_within (capacity q) e message (omega arith) h empty real

full_spins :
    (spurious : ℕ → Bool) (fuel n slot : ℕ) (ring : List ℕ) (message : ℕ)
    → IsSized ring
    → slot < length ring
    → ((j : ℕ) → j < length ring → get_or ring j 0 ≢ 0)
    → push_loop spurious fuel n slot ring message ≡ none
unfolding push_loop
full_spins spurious zero n slot ring message s h full = refl
full_spins spurious (suc fuel) n slot ring message s h full = ground (
  arith,
  full slot h,
  bit_and-mask_of s (slot + 1),
  full_spins spurious fuel (n + 1) ((slot + 1) % length ring) ring message s
      (mod-lt (slot + 1) (positive s)) full,
)

-- On a full ring `push` of a message does not return, for any number of attempts and any spurious
-- failures.
pub push_spins :
    (spurious : ℕ → Bool) (fuel : ℕ) (q : Mpmc) (message : ℕ)
    → IsSized q.ring
    → ((j : ℕ) → j < capacity q → get_or q.ring j 0 ≢ 0)
    → message ≢ 0
    → push spurious fuel q message ≡ none
unfolding push
push_spins spurious fuel q message s full real = ground (
  arith,
  bit_and-mask_of s q.post_cursor,
  full_spins spurious fuel 0 (q.post_cursor % capacity q) q.ring message s
      (mod-lt q.post_cursor (positive s)) full,
)

-- The two ways in which `try_pop` ends.
pub data Tries (q : Mpmc) : Option (ℕ × Mpmc) → Type 0 where
  misses : ((j : ℕ) → j < capacity q → get_or q.ring j 0 ≡ 0) → Tries q none
  gets :
      (e : ℕ)
      → e < capacity q
      → get_or q.ring e 0 ≢ 0
      → Tries q (
          some (
            get_or q.ring e 0,
            record q { ring = set q.ring e 0; pop_cursor = (e + 1) % capacity q },
          ))

module _ (q : Mpmc) (s : IsSized q.ring) where
  abbrev seen : ℕ → ℕ
  seen j = get_or q.ring (ahead q.ring (q.pop_cursor % capacity q) j) 0

  from_zero : (j : ℕ) {v : ℕ} → seen j ≡ v → seen (0 + j) ≡ v
  from_zero j h = let z : 0 + j ≡ j = omega arith in rw z h

  -- `try_pop` returns false exactly when the whole ring is empty, and changes nothing then;
  -- otherwise it empties one slot in use, returns what it held, and points the cursor past it.
  pub try_pop_lem : Tries q (try_pop q)
  unfolding try_pop
  try_pop_lem = elim (first_zero (λ j. 1 - seen j) (capacity q)) [
    | inl (d, l, z, before) ↦
        let e = ahead q.ring (q.pop_cursor % capacity q) d in
        let zd : 0 + d ≡ d = omega arith in
        let used : seen d ≢ 0 = omega arith in
        rw
          (
            try_pop_loop_first s q.pop_cursor d (capacity q) 0 l
                (λ j k. from_zero j (omega (arith, before j k))) (rw zd used),
            zd,
            bit_and-mask_of s (e + 1),
            try_pop,
          )
          (gets e (mod-lt (q.pop_cursor % capacity q + d) (positive s)) used)
    | inr all ↦
        rw
          (
            try_pop_loop_none s q.pop_cursor (capacity q) 0
                (λ j k. from_zero j (omega (arith, all j k))),
            try_pop,
          )
          (misses (λ e h.
            let (d, l, same) =
              ahead_onto q.ring (q.pop_cursor % capacity q) e (mod-lt q.pop_cursor (positive s))
                h in
            let idle : seen d ≡ 0 = omega (arith, all d l) in rw same at idle))
  ]
