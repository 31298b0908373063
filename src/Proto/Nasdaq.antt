-- ===== src/Proto/Nasdaq.antt =====
-- The NASDAQ messages of include/proto/protocols.hpp (`#pragma pack(push, 1)`).
use mpmc_with_memory_managem.Base.{ℕ, List, [], ◌∷◌, refl, replicate}
use mpmc_with_memory_managem.Wire.{Field, Value, int, chars, num, text, int_at, text_at}
use mpmc_with_memory_managem.Wire.Struct.{Struct}

pub record ItchAddOrder : Type 0 where
  pub message_type : ℕ
  pub stock_locate : ℕ
  pub tracking_number : ℕ
  pub timestamp : List ℕ
  pub order_reference_number : ℕ
  pub side : ℕ
  pub shares : ℕ
  pub stock : List ℕ
  pub price : ℕ

abbrev pub itch_add_order_layout : List Field
itch_add_order_layout =
    int 1 ∷ int 2 ∷ int 2 ∷ chars 6 ∷ int 8 ∷ int 1 ∷ int 4 ∷ chars 8 ∷ int 4 ∷ []

abbrev pub itch_add_order_values : ItchAddOrder → List Value
itch_add_order_values s =
    num s.message_type
    ∷ num s.stock_locate
    ∷ num s.tracking_number
    ∷ text s.timestamp
    ∷ num s.order_reference_number
    ∷ num s.side
    ∷ num s.shares
    ∷ text s.stock
    ∷ num s.price
    ∷ []

abbrev pub itch_add_order_of : List Value → ItchAddOrder
itch_add_order_of vs = record {
  message_type = int_at 0 vs;
  stock_locate = int_at 1 vs;
  tracking_number = int_at 2 vs;
  timestamp = text_at 3 vs;
  order_reference_number = int_at 4 vs;
  side = int_at 5 vs;
  shares = int_at 6 vs;
  stock = text_at 7 vs;
  price = int_at 8 vs;
}

-- `ItchAddOrder{}`
abbrev pub itch_add_order_init : ItchAddOrder
itch_add_order_init = record {
  message_type = 65;
  stock_locate = 0;
  tracking_number = 0;
  timestamp = replicate 6 0;
  order_reference_number = 0;
  side = 0;
  shares = 0;
  stock = replicate 8 0;
  price = 0;
}

instance abbrev pub itch_add_order_struct : Struct ItchAddOrder
itch_add_order_struct = record {
  layout = itch_add_order_layout;
  to_values = itch_add_order_values;
  of_values = itch_add_order_of;
  of_values-to_values = λ s. refl;
}

pub record OuchEnterOrder : Type 0 where
  pub message_type : ℕ
  pub order_token : ℕ
  pub buy_sell_indicator : ℕ
  pub shares : ℕ
  pub stock : List ℕ
  pub price : ℕ
  pub time_in_force : ℕ
  pub firm : List ℕ
  pub display : ℕ
  pub customer_information : ℕ
  pub attribs : ℕ
  pub order_state : ℕ
  pub locates : List ℕ
  pub reserved : List ℕ

abbrev pub ouch_enter_order_layout : List Field
ouch_enter_order_layout =
    int 1
    ∷ int 4
    ∷ int 1
    ∷ int 4
    ∷ chars 8
    ∷ int 4
    ∷ int 4
    ∷ chars 4
    ∷ int 1
    ∷ int 4
    ∷ int 1
    ∷ int 1
    ∷ chars 6
    ∷ chars 2
    ∷ []

abbrev pub ouch_enter_order_values : OuchEnterOrder → List Value
ouch_enter_order_values s =
    num s.message_type
    ∷ num s.order_token
    ∷ num s.buy_sell_indicator
    ∷ num s.shares
    ∷ text s.stock
    ∷ num s.price
    ∷ num s.time_in_force
    ∷ text s.firm
    ∷ num s.display
    ∷ num s.customer_information
    ∷ num s.attribs
    ∷ num s.order_state
    ∷ text s.locates
    ∷ text s.reserved
    ∷ []

abbrev pub ouch_enter_order_of : List Value → OuchEnterOrder
ouch_enter_order_of vs = record {
  message_type = int_at 0 vs;
  order_token = int_at 1 vs;
  buy_sell_indicator = int_at 2 vs;
  shares = int_at 3 vs;
  stock = text_at 4 vs;
  price = int_at 5 vs;
  time_in_force = int_at 6 vs;
  firm = text_at 7 vs;
  display = int_at 8 vs;
  customer_information = int_at 9 vs;
  attribs = int_at 10 vs;
  order_state = int_at 11 vs;
  locates = text_at 12 vs;
  reserved = text_at 13 vs;
}

-- `OuchEnterOrder{}`
abbrev pub ouch_enter_order_init : OuchEnterOrder
ouch_enter_order_init = record {
  message_type = 79;
  order_token = 0;
  buy_sell_indicator = 0;
  shares = 0;
  stock = replicate 8 0;
  price = 0;
  time_in_force = 0;
  firm = replicate 4 0;
  display = 0;
  customer_information = 0;
  attribs = 0;
  order_state = 0;
  locates = replicate 6 0;
  reserved = replicate 2 0;
}

instance abbrev pub ouch_enter_order_struct : Struct OuchEnterOrder
ouch_enter_order_struct = record {
  layout = ouch_enter_order_layout;
  to_values = ouch_enter_order_values;
  of_values = ouch_enter_order_of;
  of_values-to_values = λ s. refl;
}

pub record OuchOrderAccepted : Type 0 where
  pub message_type : ℕ
  pub timestamp : ℕ
  pub order_token : List ℕ
  pub buy_sell_indicator : ℕ
  pub shares : ℕ
  pub stock : List ℕ
  pub price : ℕ
  pub time_in_force : ℕ
  pub firm : List ℕ
  pub display : ℕ
  pub order_reference_number : ℕ
  pub capacity : ℕ
  pub intermarket_sweep_eligibility : ℕ
  pub minimum_quantity : ℕ
  pub cross_type : ℕ
  pub order_state : ℕ
  pub bbo_weight_indicator : ℕ

abbrev pub ouch_order_accepted_layout : List Field
ouch_order_accepted_layout =
    int 1
    ∷ int 8
    ∷ chars 14
    ∷ int 1
    ∷ int 4
    ∷ chars 8
    ∷ int 4
    ∷ int 4
    ∷ chars 4
    ∷ int 1
    ∷ int 8
    ∷ int 1
    ∷ int 1
    ∷ int 4
    ∷ int 1
    ∷ int 1
    ∷ int 1
    ∷ []

abbrev pub ouch_order_accepted_values : OuchOrderAccepted → List Value
ouch_order_accepted_values s =
    num s.message_type
    ∷ num s.timestamp
    ∷ text s.order_token
    ∷ num s.buy_sell_indicator
    ∷ num s.shares
    ∷ text s.stock
    ∷ num s.price
    ∷ num s.time_in_force
    ∷ text s.firm
    ∷ num s.display
    ∷ num s.order_reference_number
    ∷ num s.capacity
    ∷ num s.intermarket_sweep_eligibility
    ∷ num s.minimum_quantity
    ∷ num s.cross_type
    ∷ num s.order_state
    ∷ num s.bbo_weight_indicator
    ∷ []

abbrev pub ouch_order_accepted_of : List Value → OuchOrderAccepted
ouch_order_accepted_of vs = record {
  message_type = int_at 0 vs;
  timestamp = int_at 1 vs;
  order_token = text_at 2 vs;
  buy_sell_indicator = int_at 3 vs;
  shares = int_at 4 vs;
  stock = text_at 5 vs;
  price = int_at 6 vs;
  time_in_force = int_at 7 vs;
  firm = text_at 8 vs;
  display = int_at 9 vs;
  order_reference_number = int_at 10 vs;
  capacity = int_at 11 vs;
  intermarket_sweep_eligibility = int_at 12 vs;
  minimum_quantity = int_at 13 vs;
  cross_type = int_at 14 vs;
  order_state = int_at 15 vs;
  bbo_weight_indicator = int_at 16 vs;
}

-- `OuchOrderAccepted{}`
abbrev pub ouch_order_accepted_init : OuchOrderAccepted
ouch_order_accepted_init = record {
  message_type = 65;
  timestamp = 0;
  order_token = replicate 14 0;
  buy_sell_indicator = 0;
  shares = 0;
  stock = replicate 8 0;
  price = 0;
  time_in_force = 0;
  firm = replicate 4 0;
  display = 0;
  order_reference_number = 0;
  capacity = 0;
  intermarket_sweep_eligibility = 0;
  minimum_quantity = 0;
  cross_type = 0;
  order_state = 0;
  bbo_weight_indicator = 0;
}

instance abbrev pub ouch_order_accepted_struct : Struct OuchOrderAccepted
ouch_order_accepted_struct = record {
  layout = ouch_order_accepted_layout;
  to_values = ouch_order_accepted_values;
  of_values = ouch_order_accepted_of;
  of_values-to_values = λ s. refl;
}
