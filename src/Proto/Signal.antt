-- ===== src/Proto/Signal.antt =====
-- `StrategySignal` of include/proto/protocols.hpp. `feed` and `side` hold the enumerators' codes.
use mpmc_with_memory_managem.Base.{ℕ, List, [], ◌∷◌, refl, replicate}
use mpmc_with_memory_managem.Wire.{Field, Value, int, chars, num, text, int_at, text_at}
use mpmc_with_memory_managem.Wire.Struct.{Struct}

pub record StrategySignal : Type 0 where
  pub feed : ℕ
  pub side : ℕ
  pub price : ℕ
  pub quantity : ℕ
  pub order_token : ℕ
  pub stock : List ℕ
  pub token : ℕ
  pub symbol : List ℕ
  pub series : List ℕ

abbrev pub strategy_signal_layout : List Field
strategy_signal_layout =
    int 1 ∷ int 2 ∷ int 4 ∷ int 4 ∷ int 4 ∷ chars 8 ∷ int 4 ∷ chars 10 ∷ chars 2 ∷ []

abbrev pub strategy_signal_values : StrategySignal → List Value
strategy_signal_values s =
    num s.feed
    ∷ num s.side
    ∷ num s.price
    ∷ num s.quantity
    ∷ num s.order_token
    ∷ text s.stock
    ∷ num s.token
    ∷ text s.symbol
    ∷ text s.series
    ∷ []

abbrev pub strategy_signal_of : List Value → StrategySignal
strategy_signal_of vs = record {
  feed = int_at 0 vs;
  side = int_at 1 vs;
  price = int_at 2 vs;
  quantity = int_at 3 vs;
  order_token = int_at 4 vs;
  stock = text_at 5 vs;
  token = int_at 6 vs;
  symbol = text_at 7 vs;
  series = text_at 8 vs;
}

-- `StrategySignal{}`
abbrev pub strategy_signal_init : StrategySignal
strategy_signal_init = record {
  feed = 1;
  side = 0;
  price = 0;
  quantity = 0;
  order_token = 0;
  stock = replicate 8 0;
  token = 0;
  symbol = replicate 10 0;
  series = replicate 2 0;
}

instance abbrev pub strategy_signal_struct : Struct StrategySignal
strategy_signal_struct = record {
  layout = strategy_signal_layout;
  to_values = strategy_signal_values;
  of_values = strategy_signal_of;
  of_values-to_values = λ s. refl;
}
