-- ===== src/Proto/Sbe/Market.antt =====
-- The structs of include/proto/sbe/market.hpp.
use mpmc_with_memory_managem.Base.{ℕ, List, [], ◌∷◌, ◌++◌, refl, replicate}
use mpmc_with_memory_managem.Wire.{Field, Value, int, chars, num, text, int_at, text_at}
use mpmc_with_memory_managem.Wire.Struct.{Struct}

pub record BestObRpiBody : Type 0 where
  pub ts : ℕ
  pub seq : ℕ
  pub cts : ℕ
  pub u : ℕ
  pub ask_normal_price : ℕ
  pub ask_normal_size : ℕ
  pub ask_rpi_price : ℕ
  pub ask_rpi_size : ℕ
  pub bid_normal_price : ℕ
  pub bid_normal_size : ℕ
  pub bid_rpi_price : ℕ
  pub bid_rpi_size : ℕ
  pub price_exponent : ℕ
  pub size_exponent : ℕ

abbrev pub best_ob_rpi_body_layout : List Field
best_ob_rpi_body_layout =
    int 8
    ∷ int 8
    ∷ int 8
    ∷ int 8
    ∷ int 8
    ∷ int 8
    ∷ int 8
    ∷ int 8
    ∷ int 8
    ∷ int 8
    ∷ int 8
    ∷ int 8
    ∷ int 1
    ∷ int 1
    ∷ []

abbrev pub best_ob_rpi_body_values : BestObRpiBody → List Value
best_ob_rpi_body_values s =
    num s.ts
    ∷ num s.seq
    ∷ num s.cts
    ∷ num s.u
    ∷ num s.ask_normal_price
    ∷ num s.ask_normal_size
    ∷ num s.ask_rpi_price
    ∷ num s.ask_rpi_size
    ∷ num s.bid_normal_price
    ∷ num s.bid_normal_size
    ∷ num s.bid_rpi_price
    ∷ num s.bid_rpi_size
    ∷ num s.price_exponent
    ∷ num s.size_exponent
    ∷ []

abbrev pub best_ob_rpi_body_of : List Value → BestObRpiBody
best_ob_rpi_body_of vs = record {
  ts = int_at 0 vs;
  seq = int_at 1 vs;
  cts = int_at 2 vs;
  u = int_at 3 vs;
  ask_normal_price = int_at 4 vs;
  ask_normal_size = int_at 5 vs;
  ask_rpi_price = int_at 6 vs;
  ask_rpi_size = int_at 7 vs;
  bid_normal_price = int_at 8 vs;
  bid_normal_size = int_at 9 vs;
  bid_rpi_price = int_at 10 vs;
  bid_rpi_size = int_at 11 vs;
  price_exponent = int_at 12 vs;
  size_exponent = int_at 13 vs;
}

-- `BestObRpiBody{}`
abbrev pub best_ob_rpi_body_init : BestObRpiBody
best_ob_rpi_body_init = record {
  ts = 0;
  seq = 0;
  cts = 0;
  u = 0;
  ask_normal_price = 0;
  ask_normal_size = 0;
  ask_rpi_price = 0;
  ask_rpi_size = 0;
  bid_normal_price = 0;
  bid_normal_size = 0;
  bid_rpi_price = 0;
  bid_rpi_size = 0;
  price_exponent = 0;
  size_exponent = 0;
}

instance abbrev pub best_ob_rpi_body_struct : Struct BestObRpiBody
best_ob_rpi_body_struct = record {
  layout = best_ob_rpi_body_layout;
  to_values = best_ob_rpi_body_values;
  of_values = best_ob_rpi_body_of;
  of_values-to_values = λ s. refl;
}

pub record ObL50Level : Type 0 where
  pub price : ℕ
  pub size : ℕ

abbrev pub ob_l50_level_layout : List Field
ob_l50_level_layout = int 8 ∷ int 8 ∷ []

abbrev pub ob_l50_level_values : ObL50Level → List Value
ob_l50_level_values s = num s.price ∷ num s.size ∷ []

abbrev pub ob_l50_level_of : List Value → ObL50Level
ob_l50_level_of vs = record { price = int_at 0 vs; size = int_at 1 vs }

-- `ObL50Level{}`
abbrev pub ob_l50_level_init : ObL50Level
ob_l50_level_init = record { price = 0; size = 0 }

instance abbrev pub ob_l50_level_struct : Struct ObL50Level
ob_l50_level_struct = record {
  layout = ob_l50_level_layout;
  to_values = ob_l50_level_values;
  of_values = ob_l50_level_of;
  of_values-to_values = λ s. refl;
}

pub record ObL50Body : Type 0 where
  pub ts : ℕ
  pub seq : ℕ
  pub cts : ℕ
  pub u : ℕ
  pub price_exponent : ℕ
  pub size_exponent : ℕ
  pub pkg_type : ℕ

abbrev pub ob_l50_body_layout : List Field
ob_l50_body_layout = int 8 ∷ int 8 ∷ int 8 ∷ int 8 ∷ int 1 ∷ int 1 ∷ int 1 ∷ []

abbrev pub ob_l50_body_values : ObL50Body → List Value
ob_l50_body_values s =
    num s.ts
    ∷ num s.seq
    ∷ num s.cts
    ∷ num s.u
    ∷ num s.price_exponent
    ∷ num s.size_exponent
    ∷ num s.pkg_type
    ∷ []

abbrev pub ob_l50_body_of : List Value → ObL50Body
ob_l50_body_of vs = record {
  ts = int_at 0 vs;
  seq = int_at 1 vs;
  cts = int_at 2 vs;
  u = int_at 3 vs;
  price_exponent = int_at 4 vs;
  size_exponent = int_at 5 vs;
  pkg_type = int_at 6 vs;
}

-- `ObL50Body{}`
abbrev pub ob_l50_body_init : ObL50Body
ob_l50_body_init = record {
  ts = 0;
  seq = 0;
  cts = 0;
  u = 0;
  price_exponent = 0;
  size_exponent = 0;
  pkg_type = 0;
}

instance abbrev pub ob_l50_body_struct : Struct ObL50Body
ob_l50_body_struct = record {
  layout = ob_l50_body_layout;
  to_values = ob_l50_body_values;
  of_values = ob_l50_body_of;
  of_values-to_values = λ s. refl;
}

pub record PublicTradeItem : Type 0 where
  pub fill_time : ℕ
  pub price : ℕ
  pub size : ℕ
  pub seq : ℕ
  pub side : ℕ
  pub is_block_trade : ℕ
  pub is_rpi : ℕ

abbrev pub public_trade_item_layout : List Field
public_trade_item_layout = int 8 ∷ int 8 ∷ int 8 ∷ int 8 ∷ int 1 ∷ int 1 ∷ int 1 ∷ []

abbrev pub public_trade_item_values : PublicTradeItem → List Value
public_trade_item_values s =
    num s.fill_time
    ∷ num s.price
    ∷ num s.size
    ∷ num s.seq
    ∷ num s.side
    ∷ num s.is_block_trade
    ∷ num s.is_rpi
    ∷ []

abbrev pub public_trade_item_of : List Value → PublicTradeItem
public_trade_item_of vs = record {
  fill_time = int_at 0 vs;
  price = int_at 1 vs;
  size = int_at 2 vs;
  seq = int_at 3 vs;
  side = int_at 4 vs;
  is_block_trade = int_at 5 vs;
  is_rpi = int_at 6 vs;
}

-- `PublicTradeItem{}`
abbrev pub public_trade_item_init : PublicTradeItem
public_trade_item_init = record {
  fill_time = 0;
  price = 0;
  size = 0;
  seq = 0;
  side = 0;
  is_block_trade = 0;
  is_rpi = 0;
}

instance abbrev pub public_trade_item_struct : Struct PublicTradeItem
public_trade_item_struct = record {
  layout = public_trade_item_layout;
  to_values = public_trade_item_values;
  of_values = public_trade_item_of;
  of_values-to_values = λ s. refl;
}

pub record PublicTradeBody : Type 0 where
  pub ts : ℕ
  pub price_exponent : ℕ
  pub size_exponent : ℕ

abbrev pub public_trade_body_layout : List Field
public_trade_body_layout = int 8 ∷ int 1 ∷ int 1 ∷ []

abbrev pub public_trade_body_values : PublicTradeBody → List Value
public_trade_body_values s = num s.ts ∷ num s.price_exponent ∷ num s.size_exponent ∷ []

abbrev pub public_trade_body_of : List Value → PublicTradeBody
public_trade_body_of vs = record {
  ts = int_at 0 vs;
  price_exponent = int_at 1 vs;
  size_exponent = int_at 2 vs;
}

-- `PublicTradeBody{}`
abbrev pub public_trade_body_init : PublicTradeBody
public_trade_body_init = record { ts = 0; price_exponent = 0; size_exponent = 0 }

instance abbrev pub public_trade_body_struct : Struct PublicTradeBody
public_trade_body_struct = record {
  layout = public_trade_body_layout;
  to_values = public_trade_body_values;
  of_values = public_trade_body_of;
  of_values-to_values = λ s. refl;
}

pub record BestObRpi : Type 0 where
  pub body : BestObRpiBody
  pub symbol_len : ℕ
  pub symbol : List ℕ

abbrev pub best_ob_rpi_layout : List Field
best_ob_rpi_layout = best_ob_rpi_body_layout ++ (int 1 ∷ chars 16 ∷ [])

abbrev pub best_ob_rpi_values : BestObRpi → List Value
best_ob_rpi_values s = best_ob_rpi_body_values s.body ++ (num s.symbol_len ∷ text s.symbol ∷ [])

abbrev pub best_ob_rpi_of : List Value → BestObRpi
best_ob_rpi_of vs = record {
  body = best_ob_rpi_body_of vs;
  symbol_len = int_at 14 vs;
  symbol = text_at 15 vs;
}

-- `BestObRpi{}`
abbrev pub best_ob_rpi_init : BestObRpi
best_ob_rpi_init = record { body = best_ob_rpi_body_init; symbol_len = 0; symbol = replicate 16 0 }

instance abbrev pub best_ob_rpi_struct : Struct BestObRpi
best_ob_rpi_struct = record {
  layout = best_ob_rpi_layout;
  to_values = best_ob_rpi_values;
  of_values = best_ob_rpi_of;
  of_values-to_values = λ s. refl;
}
