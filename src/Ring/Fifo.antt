-- ===== src/Ring/Fifo.antt =====
-- Used by one thread at a time, the ring is a first-in first-out queue of at most `Capacity`
-- messages.
use native.Mathlib.Nat.{mod-lt, mod-add-mod, mod-eq_of_lt, mod-eq-sub-mod}
use mpmc_with_memory_managem.Base.{
  ℕ, zero, suc, ◌+◌, ◌-◌, ◌%◌, ◌^◌, ◌≤◌, ◌<◌, ◌≡◌, ◌≢◌, refl, sym, ◌∙◌, ap, arith, none, some, List,
  [], ◌∷◌, ◌++◌, All, length, get_or, set, length-append, length-set, get_or-set_self,
  get_or-replicate, length-replicate, ◌⊎◌, inl, inr, get_or_out, All-append, get_or-set_ne, dec_lt,
  ℕ_discrete,
}
use mpmc_with_memory_managem.Ring.{init, Mpmc, capacity, next_cursor, push, try_pop_loop, try_pop}
use mpmc_with_memory_managem.Ring.Probe.{
  IsSized, positive, bit_and-mask_of, wrap-mod, ahead, ahead_zero, ahead-suc, never,
  push_loop_first, try_pop_loop_first, try_pop_loop_none,
}
use mpmc_with_memory_managem.Ring.Calls.{pushed}

-- The ring holds `xs`, oldest first, from the slot of `pop_cursor` on; the rest is empty, and the
-- next `push` starts just past them.
pub record Holds (q : Mpmc) (xs : List ℕ) : Type 0 where
  pub sized : IsSized q.ring
  pub room : length xs ≤ capacity q
  pub real : All (λ x. x ≢ 0) xs
  pub window :
      (i : ℕ) → i < capacity q → get_or q.ring (ahead q.ring q.pop_cursor i) 0 ≡ get_or xs i 0
  pub ends : q.post_cursor % capacity q ≡ ahead q.ring q.pop_cursor (length xs)

ahead_lt_case :
    (L p i : ℕ)
    → p < L
    → i < L
    → ((p + i < L) × ((p + i) % L ≡ p + i)) ⊎ ((L ≤ p + i) × ((p + i) % L ≡ p + i - L))
ahead_lt_case L p i hp hi = elim (dec_lt (p + i) L) [
  | yes lt ↦ inl (lt, mod-eq_of_lt lt)
  | no ge ↦ inr (omega arith, mod-eq-sub-mod (omega arith) ∙ mod-eq_of_lt (omega arith))
]

-- Fewer than `Capacity` steps apart, two slots differ.
ahead_injective :
    (ring : List ℕ) (p i j : ℕ)
    → 0 < length ring
    → i < length ring
    → j < length ring
    → ahead ring p i ≡ ahead ring p j
    → i ≡ j
ahead_injective ring p i j h hi hj e = omega (
  arith,
  mod-add-mod p (length ring) i,
  mod-add-mod p (length ring) j,
  ahead_lt_case (length ring) (p % length ring) i (mod-lt p h) hi,
  ahead_lt_case (length ring) (p % length ring) j (mod-lt p h) hj,
)

get_or-append_last : (xs : List ℕ) (m : ℕ) → get_or (xs ++ (m ∷ [])) (length xs) 0 ≡ m
get_or-append_last [] m = refl
get_or-append_last (x ∷ xs) m = get_or-append_last xs m

get_or-append_ne :
    (xs : List ℕ) (m i : ℕ) → i ≢ length xs → get_or (xs ++ (m ∷ [])) i 0 ≡ get_or xs i 0
get_or-append_ne [] m zero h = absurd (h refl)
get_or-append_ne [] m (suc i) h = refl
get_or-append_ne (x ∷ xs) m zero h = refl
get_or-append_ne (x ∷ xs) m (suc i) h = get_or-append_ne xs m i (λ e. h (ap suc e))

-- An empty ring of a permitted capacity holds no message.
pub init-Holds : (k : ℕ) → k ≤ 30 → Holds (init (2 ^ k)) []
unfolding init
init-Holds k h = record {
  sized = record { exponent = k; small = h; sized = length-replicate (2 ^ k) 0 };
  room = omega arith;
  real = tt;
  window = λ i l. get_or-replicate (2 ^ k) _ 0;
  ends = refl;
}

IsSized-set : {ring : List ℕ} (i v : ℕ) → IsSized ring → IsSized (set ring i v)
IsSized-set {ring} i v s = record {
  exponent = s.exponent;
  small = s.small;
  sized = length-set ring i v ∙ s.sized;
}

module _ {q : Mpmc} {xs : List ℕ} (h : Holds q xs) where
  abbrev here : ℕ → ℕ
  here i = ahead q.ring q.pop_cursor i

  pub some_slot : 0 < capacity q
  some_slot = positive h.sized

  module _ (m : ℕ) (free : length xs < capacity q) (real : m ≢ 0) where
    abbrev tail : ℕ
    tail = here (length xs)

    tail-lt : tail < capacity q
    tail-lt = mod-lt (q.pop_cursor + length xs) some_slot

    tail_empty : get_or q.ring tail 0 ≡ 0
    tail_empty = h.window (length xs) free ∙ get_or_out xs (length xs) 0 (omega arith)

    push_first : push never (capacity q) q m ≡ some (pushed q tail m)
    unfolding push
    push_first =
        let e = ahead_zero q.ring tail tail-lt in
        ground (
          arith,
          real,
          bit_and-mask_of h.sized q.post_cursor,
          h.ends,
          e,
          push_loop_first 0 (capacity q) 0 tail q.ring m h.sized tail-lt some_slot
              (λ j l. absurd (omega arith)) (rw e tail_empty),
        )

    window_push :
        (i : ℕ)
        → i < capacity q
        → get_or (set q.ring tail m) (here i) 0 ≡ get_or (xs ++ (m ∷ [])) i 0
    window_push i l = elim (ℕ_discrete i (length xs)) [
      | yes e ↦ rw (e, get_or-append_last xs m) (get_or-set_self q.ring tail m 0 tail-lt)
      | no ne ↦
          get_or-set_ne q.ring tail (here i) m 0 (λ same.
            ne (sym (ahead_injective q.ring q.pop_cursor (length xs) i some_slot free l same)))
          ∙ h.window i l
          ∙ sym (get_or-append_ne xs m i ne)
    ]

    ends_push : next_cursor q.post_cursor % capacity q ≡ here (length (xs ++ (m ∷ [])))
    ends_push =
        wrap-mod h.sized (q.post_cursor + 1)
        ∙ sym (mod-add-mod q.post_cursor (capacity q) 1)
        ∙ ap (λ (t : ℕ). (t + 1) % capacity q) h.ends
        ∙ mod-add-mod (q.pop_cursor + length xs) (capacity q) 1
        ∙ ap (λ (t : ℕ). t % capacity q) (omega (arith, length-append xs (m ∷ [])))

    -- While there is room `push` returns, and adds its message at the end of the queue.
    pub push-Holds :
        (q' : Mpmc) × (push never (capacity q) q m ≡ some q')
        × Holds q' (xs ++ (m ∷ []))
        × (capacity q' ≡ capacity q)
    push-Holds = (
      pushed q tail m,
      push_first,
      record {
        sized = IsSized-set tail m h.sized;
        room = rw len (omega (arith, length-append xs (m ∷ [])));
        real = All-append (λ x. x ≢ 0) xs (m ∷ []) h.real (real, tt);
        window = λ i l. rw len (window_push i (rw len at l));
        ends = rw len ends_push;
      },
      len,
    )
      where
        len : length (set q.ring tail m) ≡ capacity q
        len = length-set q.ring tail m

-- On the empty queue `try_pop` returns false.
pub try_pop-Holds_nil : {q : Mpmc} → Holds q [] → try_pop q ≡ none
unfolding try_pop
try_pop-Holds_nil {q} h = rw (loop, try_pop)
  where
    idle :
        (j : ℕ)
        → j < capacity q
        → get_or q.ring (ahead q.ring (q.pop_cursor % capacity q) (0 + j)) 0 ≡ 0
    idle j l =
        let z : 0 + j ≡ j = omega arith in
        rw (z, mod-add-mod q.pop_cursor (capacity q) j) (h.window j l)

    loop : try_pop_loop (capacity q) 0 q.pop_cursor q.ring ≡ none
    loop = try_pop_loop_none h.sized q.pop_cursor (capacity q) 0 idle

module _ {q : Mpmc} {x : ℕ} {xs : List ℕ} (h : Holds q (x ∷ xs)) where
  abbrev size : ℕ
  size = capacity q

  abbrev head : ℕ
  head = ahead q.ring q.pop_cursor 0

  abbrev popped : Mpmc
  popped = record q { ring = set q.ring head 0; pop_cursor = (head + 1) % size }

  size_pos : 0 < size
  size_pos = positive h.sized

  head-lt : head < size
  head-lt = mod-lt (q.pop_cursor + 0) size_pos

  head_holds : get_or q.ring head 0 ≡ x
  head_holds = h.window 0 size_pos

  next_ahead : (i : ℕ) → ahead q.ring ((head + 1) % size) i ≡ ahead q.ring q.pop_cursor (suc i)
  next_ahead i =
      let z : q.pop_cursor + 0 ≡ q.pop_cursor = omega arith in
      rw (z, mod-add-mod q.pop_cursor size 1) (ahead-suc q.ring q.pop_cursor i)

  try_pop_first : try_pop q ≡ some (x, popped)
  unfolding try_pop
  try_pop_first =
      let z : 0 + 0 ≡ ℕ.zero = omega arith in
      let at : ahead q.ring (q.pop_cursor % size) 0 ≡ head = mod-add-mod q.pop_cursor size 0 in
      rw
        (
          try_pop_loop_first h.sized q.pop_cursor 0 size 0 size_pos (λ j l. absurd (omega arith))
              (rw (z, at, head_holds) h.real.0),
          z,
          at,
          head_holds,
          bit_and-mask_of h.sized (head + 1),
          try_pop,
        )
        refl

  window_pop :
      (i : ℕ)
      → i < size
      → get_or (set q.ring head 0) (ahead q.ring ((head + 1) % size) i) 0 ≡ get_or xs i 0
  window_pop i l = rw (next_ahead i) (elim (dec_lt (suc i) size) [
    | yes lt ↦
        get_or-set_ne q.ring head (ahead q.ring q.pop_cursor (suc i)) 0 0 (λ same.
          absurd (
            omega (arith, ahead_injective q.ring q.pop_cursor 0 (suc i) size_pos size_pos lt same)))
        ∙ h.window (suc i) lt
    | no last ↦
        let e : suc i ≡ size = omega arith in
        let round : ahead q.ring q.pop_cursor size ≡ head =
          mod-eq-sub-mod {n = q.pop_cursor + size} {m = size} (omega arith)
          ∙ ap (λ (t : ℕ). t % size) (omega arith) in
        rw (e, round)
          (get_or-set_self q.ring head 0 0 head-lt
            ∙ sym (get_or_out xs i 0 (omega (arith, h.room))))
  ])

  -- Otherwise it returns the oldest message and leaves the rest.
  pub try_pop-Holds_cons :
      (q' : Mpmc) × (try_pop q ≡ some (x, q')) × Holds q' xs × (capacity q' ≡ capacity q)
  try_pop-Holds_cons = (
    popped,
    try_pop_first,
    record {
      sized = IsSized-set head 0 h.sized;
      room = rw len (omega (arith, h.room));
      real = h.real.1;
      window = λ i l. rw len (window_pop i (rw len at l));
      ends = rw (len, next_ahead (length xs)) h.ends;
    },
    len,
  )
    where
      len : length (set q.ring head 0) ≡ size
      len = length-set q.ring head 0
