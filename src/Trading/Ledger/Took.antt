-- ===== src/Trading/Ledger/Took.antt =====
-- What an `acquire` does to the account of the messages.
use mpmc_with_memory_managem.Base.{
  ℕ, ◌+◌, ◌*◌, ◌≡◌, arith, Bool, true, false, inl, inr, Bool-cases, length-set, ◌==◌, if◌then◌else◌,
}
use mpmc_with_memory_managem.Proto.Message.{WireMessage}
use mpmc_with_memory_managem.Pool.{TaggedPool, taken, sizeof_slot, acquire, acquire_filled}
use mpmc_with_memory_managem.Pool.Acquire.{Acquires, fails, takes, acquire_lem}
use mpmc_with_memory_managem.Runtime.Counts.{same, acquired-set, All-set}
use mpmc_with_memory_managem.Trading.Ledger.{Books, Books-set_message}

-- An acquired message, or none.
unfoldable pub Took : (ℕ → ℕ) → ℕ × TaggedPool → Type 0
Took places r = if r.0 == 0 then Books r.1 places else Books r.1 (λ a. places a + same a r.0)

pub Took-none :
    (places : ℕ → ℕ) (r : ℕ × TaggedPool) → (r.0 == 0) ≡ true → Took places r → Books r.1 places
unfolding Took
Took-none places r e t = rw e at t

pub Took-one :
    (places : ℕ → ℕ) (r : ℕ × TaggedPool)
    → (r.0 == 0) ≡ false
    → Took places r
    → Books r.1 (λ a. places a + same a r.0)
unfolding Took
Took-one places r e t = rw e at t

pub Took-Acquires :
    {busy : ℕ → Bool} {p : TaggedPool} {places : ℕ → ℕ} {r : ℕ × TaggedPool}
    → Acquires busy p r
    → Books p places
    → Took places r
unfolding Took
Took-Acquires (fails all) b = b
Took-Acquires {p = p} {places = places} (takes k h free ready before) b =
    let real : (p.base + sizeof_slot * k == 0) ≡ false =
      let positive = b.mapped.not_null in ground arith in
    rw real (record {
      mapped = record {
        not_null = b.mapped.not_null;
        in_range = rw (length-set p.slots k taken) b.mapped.in_range;
      };
      states = All-set p.slots k taken b.states (omega arith);
      owned = λ a r. ground (arith, b.owned a r, free, acquired-set p.base p.slots k taken a h);
    })

-- The message stays acquired while it is filled.
pub acquire_filled-Took :
    {A : Type 0} ⦃w : WireMessage A⦄
    → (busy : ℕ → Bool) (p : TaggedPool) (src : A) (places : ℕ → ℕ) → Books p places
    → Took places (acquire_filled busy p src)
unfolding acquire_filled Took
acquire_filled-Took busy p src places b = elim (Bool-cases ((acquire busy p).0 == 0)) [
  | inl null ↦
      rw null (Took-none places (acquire busy p) null (Took-Acquires (acquire_lem busy p) b))
  | inr real ↦
      rw (real, real)
        (Books-set_message (acquire busy p).0 _
          (Took-one places (acquire busy p) real (Took-Acquires (acquire_lem busy p) b)))
]
