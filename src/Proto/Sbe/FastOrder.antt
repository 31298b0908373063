-- ===== src/Proto/Sbe/FastOrder.antt =====
-- The structs of include/proto/sbe/fast_order.hpp.
use mpmc_with_memory_managem.Base.{ℕ, List, [], ◌∷◌, ◌++◌, refl, replicate}
use mpmc_with_memory_managem.Wire.{Field, Value, int, chars, num, text, int_at, text_at}
use mpmc_with_memory_managem.Wire.Struct.{Struct}

pub record FastOrderRespBody : Type 0 where
  pub category : ℕ
  pub side : ℕ
  pub order_status : ℕ
  pub price_exponent : ℕ
  pub size_exponent : ℕ
  pub value_exponent : ℕ
  pub reject_reason : ℕ
  pub price : ℕ
  pub leaves_qty : ℕ
  pub leaves_value : ℕ
  pub creation_time : ℕ
  pub updated_time : ℕ
  pub seq : ℕ
  pub symbol_id : ℕ

abbrev pub fast_order_resp_body_layout : List Field
fast_order_resp_body_layout =
    int 1
    ∷ int 1
    ∷ int 1
    ∷ int 1
    ∷ int 1
    ∷ int 1
    ∷ int 2
    ∷ int 8
    ∷ int 8
    ∷ int 8
    ∷ int 8
    ∷ int 8
    ∷ int 8
    ∷ int 4
    ∷ []

abbrev pub fast_order_resp_body_values : FastOrderRespBody → List Value
fast_order_resp_body_values s =
    num s.category
    ∷ num s.side
    ∷ num s.order_status
    ∷ num s.price_exponent
    ∷ num s.size_exponent
    ∷ num s.value_exponent
    ∷ num s.reject_reason
    ∷ num s.price
    ∷ num s.leaves_qty
    ∷ num s.leaves_value
    ∷ num s.creation_time
    ∷ num s.updated_time
    ∷ num s.seq
    ∷ num s.symbol_id
    ∷ []

abbrev pub fast_order_resp_body_of : List Value → FastOrderRespBody
fast_order_resp_body_of vs = record {
  category = int_at 0 vs;
  side = int_at 1 vs;
  order_status = int_at 2 vs;
  price_exponent = int_at 3 vs;
  size_exponent = int_at 4 vs;
  value_exponent = int_at 5 vs;
  reject_reason = int_at 6 vs;
  price = int_at 7 vs;
  leaves_qty = int_at 8 vs;
  leaves_value = int_at 9 vs;
  creation_time = int_at 10 vs;
  updated_time = int_at 11 vs;
  seq = int_at 12 vs;
  symbol_id = int_at 13 vs;
}

-- `FastOrderRespBody{}`
abbrev pub fast_order_resp_body_init : FastOrderRespBody
fast_order_resp_body_init = record {
  category = 0;
  side = 0;
  order_status = 0;
  price_exponent = 0;
  size_exponent = 0;
  value_exponent = 0;
  reject_reason = 0;
  price = 0;
  leaves_qty = 0;
  leaves_value = 0;
  creation_time = 0;
  updated_time = 0;
  seq = 0;
  symbol_id = 0;
}

instance abbrev pub fast_order_resp_body_struct : Struct FastOrderRespBody
fast_order_resp_body_struct = record {
  layout = fast_order_resp_body_layout;
  to_values = fast_order_resp_body_values;
  of_values = fast_order_resp_body_of;
  of_values-to_values = λ s. refl;
}

pub record FastOrderResp : Type 0 where
  pub body : FastOrderRespBody
  pub order_id_len : ℕ
  pub order_id : List ℕ
  pub order_link_id_len : ℕ
  pub order_link_id : List ℕ

abbrev pub fast_order_resp_layout : List Field
fast_order_resp_layout = fast_order_resp_body_layout ++ (int 1 ∷ chars 32 ∷ int 1 ∷ chars 32 ∷ [])

abbrev pub fast_order_resp_values : FastOrderResp → List Value
fast_order_resp_values s =
    fast_order_resp_body_values s.body
    ++ (num s.order_id_len ∷ text s.order_id ∷ num s.order_link_id_len ∷ text s.order_link_id ∷ [])

abbrev pub fast_order_resp_of : List Value → FastOrderResp
fast_order_resp_of vs = record {
  body = fast_order_resp_body_of vs;
  order_id_len = int_at 14 vs;
  order_id = text_at 15 vs;
  order_link_id_len = int_at 16 vs;
  order_link_id = text_at 17 vs;
}

-- `FastOrderResp{}`
abbrev pub fast_order_resp_init : FastOrderResp
fast_order_resp_init = record {
  body = fast_order_resp_body_init;
  order_id_len = 0;
  order_id = replicate 32 0;
  order_link_id_len = 0;
  order_link_id = replicate 32 0;
}

instance abbrev pub fast_order_resp_struct : Struct FastOrderResp
fast_order_resp_struct = record {
  layout = fast_order_resp_layout;
  to_values = fast_order_resp_values;
  of_values = fast_order_resp_of;
  of_values-to_values = λ s. refl;
}
