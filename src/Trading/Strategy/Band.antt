-- ===== src/Trading/Strategy/Band.antt =====
-- What the strategy decides, and the signal that carries it.
use Prim.Native.Nat.{max}
use mpmc_with_memory_managem.Base.{
  ℕ, zero, suc, ◌+◌, ◌*◌, ◌/◌, ◌^◌, ◌≤◌, ◌<◌, ◌≡◌, arith, ◌||◌, if◌then◌else◌, leb, ◌==◌, min, ◌-◌,
  inl, inr, ◌⊎◌,
}
use mpmc_with_memory_managem.Base.Int.{pos, ◌+ℤ◌, ◌-ℤ◌, ◌*ℤ◌}
use mpmc_with_memory_managem.Wire.Struct.{IsObject}
use mpmc_with_memory_managem.Proto.Signal.{StrategySignal, strategy_signal_struct}
use mpmc_with_memory_managem.Proto.Message.{TaggedMessage, Side, none, buy, sell}
use mpmc_with_memory_managem.Pool.Fill.{load-write_bytes}
use mpmc_with_memory_managem.Trading.Int32.{wrap32, leb_ℤ}
use mpmc_with_memory_managem.Trading.Strategy.{
  update_ref_price, evaluate, encode_signal, decode_signal,
}

ℕ_total : (a b : ℕ) → (a ≤ b) ⊎ (b ≤ a)
ℕ_total a b = omega arith

wrap32_pos : (n : ℕ) → n < 2 ^ 31 → wrap32 (pos n) ≡ pos n
wrap32_pos n h = ground arith

pos-mul : (a b : ℕ) → pos a *ℤ pos b ≡ pos (a * b)
unfolding ◌*ℤ◌
pos-mul a b = ground arith

pos-add : (a b : ℕ) → pos a +ℤ pos b ≡ pos (a + b)
unfolding ◌+ℤ◌
pos-add a b = ground arith

pos-sub : (a b : ℕ) → b ≤ a → pos a -ℤ pos b ≡ pos (a - b)
unfolding ◌-ℤ◌
pos-sub a b h = ground arith

-- From a positive reference and a price that are no negative `int32_t`, the new reference lies
-- between the two, both ends included.
pub update_ref_price_between :
    (ref price : ℕ)
    → 0 < ref
    → ref < 2 ^ 31
    → price < 2 ^ 31
    → (r : ℕ) × (update_ref_price (pos ref) (pos price) ≡ pos r)
      × (min ref price ≤ r)
      × (r ≤ max ref price)
unfolding update_ref_price ◌+ℤ◌ ◌-ℤ◌
update_ref_price_between zero price p h k = absurd (omega arith)
update_ref_price_between (suc ref) price p h k = elim (ℕ_total (suc ref) price) [
  | inl up ↦ (suc ref + (price - suc ref) / 8, ground arith, omega arith, omega arith)
  | inr down ↦ (suc ref - (suc ref - price) / 8, ground arith, omega arith, omega arith)
]

-- The decision on plain numbers.
abbrev pub decide : ℕ → ℕ → ℕ → Side
decide ref price band =
    if ref == 0 || price == 0 || band == 0
    then none
    else if leb (price + band) ref
    then buy
    else if leb (ref + band) price
    then sell
    else none

decided :
    (ref price band : ℕ)
    → band ≤ ref
    → (if leb_ℤ (pos ref) (pos 0) || leb_ℤ (pos price) (pos 0)
        then none
        else if leb_ℤ (pos band) (pos 0)
        then none
        else if leb_ℤ (pos price) (pos (ref - band))
        then buy
        else if leb_ℤ (pos (ref + band)) (pos price)
        then sell
        else none)
      ≡ decide ref price band
decided ref price band h = ground arith

band-le-ref : (ref band_bps : ℕ) → band_bps ≤ 10000 → ref * band_bps / 10000 ≤ ref
band-le-ref ref band_bps h = grind arith

-- For a reference below 2 ^ 30, a price below 2 ^ 31 and a band of at most 10000 basis points whose
-- product with the reference does not overflow, `evaluate` is the decision on plain numbers: buy at
-- or below the band, sell at or above it, and nothing without a price or a band.
pub evaluate_lem :
    (ref price band_bps : ℕ)
    → ref < 2 ^ 30
    → price < 2 ^ 31
    → band_bps ≤ 10000
    → ref * band_bps < 2 ^ 31
    → evaluate (pos ref) (pos price) (pos band_bps) ≡ decide ref price (ref * band_bps / 10000)
unfolding evaluate
evaluate_lem ref price band_bps h k l m =
    rw
      (
        pos-mul ref band_bps,
        wrap32_pos (ref * band_bps) m,
        pos-sub ref band smaller,
        pos-add ref band,
        wrap32_pos (ref - band) (omega arith),
        wrap32_pos (ref + band) (omega arith),
      )
      (decided ref price band smaller)
  where
    band : ℕ
    band = ref * band_bps / 10000

    smaller : band ≤ ref
    smaller = band-le-ref ref band_bps l

-- A signal in range that is encoded into a message is decoded from it.
pub decode_signal-encode_signal :
    (s : StrategySignal) (out : TaggedMessage)
    → IsObject s
    → decode_signal (encode_signal s out) ≡ s
unfolding encode_signal decode_signal
decode_signal-encode_signal s out h = load-write_bytes s out.bytes h
