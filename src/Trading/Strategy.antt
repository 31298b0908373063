-- ===== src/Trading/Strategy.antt =====
-- include/trading/strategy.hpp
pub mod Band
use mpmc_with_memory_managem.Base.{ℕ, zero, suc, Bool, ◌||◌, if◌then◌else◌}
use mpmc_with_memory_managem.Base.Int.{ℤ, pos, ◌+ℤ◌, ◌-ℤ◌, ◌*ℤ◌}
use mpmc_with_memory_managem.Wire.Struct.{load}
use mpmc_with_memory_managem.Proto.Signal.{
  StrategySignal, strategy_signal_init, strategy_signal_struct,
}
use mpmc_with_memory_managem.Proto.Message.{
  TaggedMessage, Side, none, buy, sell, signal, same_kind, write_bytes,
}
use mpmc_with_memory_managem.Trading.Int32.{wrap32, quot, leb_ℤ}

abbrev pub default_band_bps : ℤ
default_band_bps = pos 10

unfoldable pub update_ref_price : ℤ → ℤ → ℤ
unfolding ◌+ℤ◌ ◌-ℤ◌
update_ref_price (pos zero) price = price
update_ref_price ref price = wrap32 (ref +ℤ quot (wrap32 (price -ℤ ref)) 8)

unfoldable pub evaluate : ℤ → ℤ → ℤ → Side
unfolding ◌+ℤ◌ ◌-ℤ◌ ◌*ℤ◌
evaluate ref price band_bps =
    let band = quot (wrap32 (ref *ℤ band_bps)) 10000 in
    if leb_ℤ ref (pos 0) || leb_ℤ price (pos 0)
    then none
    else if leb_ℤ band (pos 0)
    then none
    else if leb_ℤ price (wrap32 (ref -ℤ band))
    then buy
    else if leb_ℤ (wrap32 (ref +ℤ band)) price
    then sell
    else none

unfoldable pub encode_signal : StrategySignal → TaggedMessage → TaggedMessage
unfolding write_bytes
encode_signal s out = record { kind = signal; bytes = write_bytes s out.bytes }

unfoldable pub decode_signal : TaggedMessage → StrategySignal
unfolding load
decode_signal msg = if same_kind msg.kind signal then load msg.bytes else strategy_signal_init
