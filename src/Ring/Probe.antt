-- ===== src/Ring/Probe.antt =====
-- The probing loops of the ring: they go round it once, and stop at the first slot that serves.
use Prim.Native.Nat.{bit_and, ◌∣◌}
use native.Mathlib.Nat.{
  mod-add-mod, mod-eq_of_lt, mod-lt, mod-mod_of_dvd, pow-suc, add-zero, dvd_refl,
  dvd-mul_right_of_dvd,
}
use mpmc_with_memory_managem.Base.{
  dec_lt, ℕ, zero, suc, ◌+◌, ◌%◌, ◌^◌, ◌≤◌, ◌<◌, ◌≡◌, ◌≢◌, refl, sym, ◌∙◌, ap, arith, Bool, false,
  none, some, List, length, get_or, set, set_same,
}
use mpmc_with_memory_managem.Base.Bits.{bit_and-mask, pow_pos}
use mpmc_with_memory_managem.Ring.{mask, push_loop, pop_loop, try_pop_loop}

dvd-pow : (n e : ℕ) → e ≤ n → 2 ^ e ∣ 2 ^ n
dvd-pow zero e h = let same : e ≡ 0 = omega arith in rw same (dvd_refl (2 ^ 0))
dvd-pow (suc n) e h = elim (dec_lt e (suc n)) [
  | yes lt ↦ rw pow-suc (dvd-mul_right_of_dvd (2 ^ e) (dvd-pow n e (omega arith)) 2)
  | no ge ↦ (let same : e ≡ suc n = omega arith in rw same (dvd_refl (2 ^ suc n)))
]

-- The requirement on the template's `Capacity`, an `int`: a power of two.
pub record IsSized (ring : List ℕ) : Type 0 where
  pub exponent : ℕ
  pub small : exponent ≤ 30
  pub sized : length ring ≡ 2 ^ exponent

module _ {ring : List ℕ} (s : IsSized ring) where
  pub positive : 0 < length ring
  positive = omega (arith, s.sized, pow_pos s.exponent)

  -- `& kMask` is the remainder by the capacity.
  pub bit_and-mask_of : (x : ℕ) → bit_and x (mask ring) ≡ x % length ring
  bit_and-mask_of x = rw s.sized (bit_and-mask s.exponent x)

  pub wrap-mod : (x : ℕ) → x % 2 ^ 32 % length ring ≡ x % length ring
  wrap-mod x =
      rw s.sized
        (mod-mod_of_dvd (2 ^ s.exponent) x (dvd-pow 32 s.exponent (omega (arith, s.small))))

-- The slot `d` places on from `slot`.
abbrev pub ahead : List ℕ → ℕ → ℕ → ℕ
ahead ring slot d = (slot + d) % length ring

pub ahead_zero : (ring : List ℕ) (slot : ℕ) → slot < length ring → ahead ring slot 0 ≡ slot
ahead_zero ring slot h = rw add-zero (mod-eq_of_lt h)

pub ahead-suc :
    (ring : List ℕ) (slot j : ℕ) → ahead ring ((slot + 1) % length ring) j ≡ ahead ring slot (suc j)
ahead-suc ring slot j =
    mod-add-mod (slot + 1) (length ring) j ∙ ap (λ (t : ℕ). t % length ring) (omega arith)

pub never : ℕ → Bool
never n = false

-- With no spurious failure `push` fills the first empty slot that it comes to.
pub push_loop_first :
    (d fuel n slot : ℕ) (ring : List ℕ) (m : ℕ)
    → IsSized ring
    → slot < length ring
    → d < fuel
    → ((j : ℕ) → j < d → get_or ring (ahead ring slot j) 0 ≢ 0)
    → get_or ring (ahead ring slot d) 0 ≡ 0
    → push_loop never fuel n slot ring m ≡ some (set ring (ahead ring slot d) m)
unfolding push_loop never
push_loop_first zero zero n slot ring m s h lt full empty = absurd (omega arith)
push_loop_first zero (suc fuel) n slot ring m s h lt full empty =
    let e = ahead_zero ring slot h in rw (rw e at empty, e)
push_loop_first (suc d) zero n slot ring m s h lt full empty = absurd (omega arith)
push_loop_first (suc d) (suc fuel) n slot ring m s h lt full empty =
    let busy : get_or ring slot 0 ≢ 0 = rw (ahead_zero ring slot h) at (full 0 (omega arith)) in
    let next = (slot + 1) % length ring in
    ground (
      arith,
      busy,
      bit_and-mask_of s (slot + 1),
      ahead-suc ring slot d,
      push_loop_first d fuel (n + 1) next ring m s (mod-lt (slot + 1) (positive s)) (omega arith)
          (λ j l. rw (ahead-suc ring slot j) (full (suc j) (omega arith)))
          (rw (ahead-suc ring slot d) empty),
    )

-- The exchanges on empty slots change nothing, so `pop` takes from the first slot in use.
pub pop_loop_first :
    (d fuel slot : ℕ) (ring : List ℕ)
    → IsSized ring
    → slot < length ring
    → d < fuel
    → ((j : ℕ) → j < d → get_or ring (ahead ring slot j) 0 ≡ 0)
    → get_or ring (ahead ring slot d) 0 ≢ 0
    → pop_loop fuel slot ring
      ≡ some (get_or ring (ahead ring slot d) 0, set ring (ahead ring slot d) 0)
unfolding pop_loop
pop_loop_first zero zero slot ring s h lt empty used = absurd (omega arith)
pop_loop_first zero (suc fuel) slot ring s h lt empty used =
    let e = ahead_zero ring slot h in
    let busy : get_or ring slot 0 ≢ 0 = rw e at used in rw e (ground arith)
pop_loop_first (suc d) zero slot ring s h lt empty used = absurd (omega arith)
pop_loop_first (suc d) (suc fuel) slot ring s h lt empty used =
    let idle : get_or ring slot 0 ≡ 0 = rw (ahead_zero ring slot h) at (empty 0 (omega arith)) in
    let next = (slot + 1) % length ring in
    ground (
      arith,
      idle,
      set_same ring slot 0 0 h idle,
      bit_and-mask_of s (slot + 1),
      ahead-suc ring slot d,
      pop_loop_first d fuel next ring s (mod-lt (slot + 1) (positive s)) (omega arith)
          (λ j l. rw (ahead-suc ring slot j) (empty (suc j) (omega arith)))
          (rw (ahead-suc ring slot d) used),
    )

module _ {ring : List ℕ} (s : IsSized ring) (slot : ℕ) where
  -- The slot of probe number `probe`.
  pub probe_slot :
      (probe : ℕ)
      → bit_and ((slot + probe) % 2 ^ 32) (mask ring) ≡ ahead ring (slot % length ring) probe
  probe_slot probe =
      bit_and-mask_of s ((slot + probe) % 2 ^ 32)
      ∙ wrap-mod s (slot + probe)
      ∙ sym (mod-add-mod slot (length ring) probe)

  abbrev at : ℕ → ℕ
  at j = ahead ring (slot % length ring) j

  pub at-lt : (j : ℕ) → at j < length ring
  at-lt j = mod-lt (slot % length ring + j) (positive s)

  -- `try_pop` takes from the first slot in use among those left to probe.
  pub try_pop_loop_first :
      (d rounds probe : ℕ)
      → d < rounds
      → ((j : ℕ) → j < d → get_or ring (at (probe + j)) 0 ≡ 0)
      → get_or ring (at (probe + d)) 0 ≢ 0
      → try_pop_loop rounds probe slot ring
        ≡ some (get_or ring (at (probe + d)) 0, at (probe + d), set ring (at (probe + d)) 0)
  unfolding try_pop_loop
  try_pop_loop_first zero zero probe lt empty used = absurd (omega arith)
  try_pop_loop_first zero (suc rounds) probe lt empty used =
      let e : probe + 0 ≡ probe = omega arith in
      let busy : get_or ring (at probe) 0 ≢ 0 = rw e at used in
      rw (e, probe_slot probe) (ground arith)
  try_pop_loop_first (suc d) zero probe lt empty used = absurd (omega arith)
  try_pop_loop_first (suc d) (suc rounds) probe lt empty used =
      let z : probe + 0 ≡ probe = omega arith in
      let idle : get_or ring (at probe) 0 ≡ 0 = rw z at (empty 0 (omega arith)) in
      let e : probe + suc d ≡ probe + 1 + d = omega arith in
      rw (probe_slot probe, set_same ring (at probe) 0 0 (at-lt probe) idle, idle, e)
        (try_pop_loop_first d rounds (probe + 1) (omega arith)
          (λ j l.
            let k : probe + 1 + j ≡ probe + suc j = omega arith in
            rw k (empty (suc j) (omega arith)))
          (rw e at used))

  -- `try_pop` on empty slots returns false.
  pub try_pop_loop_none :
      (rounds probe : ℕ)
      → ((j : ℕ) → j < rounds → get_or ring (at (probe + j)) 0 ≡ 0)
      → try_pop_loop rounds probe slot ring ≡ none
  unfolding try_pop_loop
  try_pop_loop_none zero probe empty = refl
  try_pop_loop_none (suc rounds) probe empty =
      let z : probe + 0 ≡ probe = omega arith in
      let idle : get_or ring (at probe) 0 ≡ 0 = rw z at (empty 0 (omega arith)) in
      rw (probe_slot probe, set_same ring (at probe) 0 0 (at-lt probe) idle, idle)
        (try_pop_loop_none rounds (probe + 1) (λ j l.
          let k : probe + 1 + j ≡ probe + suc j = omega arith in
          rw k (empty (suc j) (omega arith))))
