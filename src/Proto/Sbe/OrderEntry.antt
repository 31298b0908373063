-- ===== src/Proto/Sbe/OrderEntry.antt =====
-- The structs of include/proto/sbe/order_entry.hpp.
use mpmc_with_memory_managem.Base.{ℕ, List, [], ◌∷◌, ◌++◌, refl, drop, replicate}
use mpmc_with_memory_managem.Wire.{Field, Value, int, chars, num, text, int_at, text_at}
use mpmc_with_memory_managem.Wire.Struct.{Struct}
use mpmc_with_memory_managem.Proto.Sbe.Header.{
  Decimal64, decimal64_layout, decimal64_values, decimal64_of, decimal64_init,
}

pub record ApiRequestHeader : Type 0 where
  pub req_id : List ℕ
  pub timestamp : ℕ
  pub recv_window : ℕ
  pub referer : List ℕ

abbrev pub api_request_header_layout : List Field
api_request_header_layout = chars 64 ∷ int 8 ∷ int 4 ∷ chars 64 ∷ []

abbrev pub api_request_header_values : ApiRequestHeader → List Value
api_request_header_values s =
    text s.req_id ∷ num s.timestamp ∷ num s.recv_window ∷ text s.referer ∷ []

abbrev pub api_request_header_of : List Value → ApiRequestHeader
api_request_header_of vs = record {
  req_id = text_at 0 vs;
  timestamp = int_at 1 vs;
  recv_window = int_at 2 vs;
  referer = text_at 3 vs;
}

-- `ApiRequestHeader{}`
abbrev pub api_request_header_init : ApiRequestHeader
api_request_header_init = record {
  req_id = replicate 64 0;
  timestamp = 0;
  recv_window = 0;
  referer = replicate 64 0;
}

pub record ApiRespHeader : Type 0 where
  pub req_id : List ℕ
  pub conn_id : List ℕ
  pub trace_id : List ℕ
  pub time_now : ℕ
  pub in_time : ℕ
  pub bapi_limit : ℕ
  pub bapi_limit_status : ℕ
  pub bapi_limit_reset_timestamp : ℕ

abbrev pub api_resp_header_layout : List Field
api_resp_header_layout = chars 64 ∷ chars 64 ∷ chars 64 ∷ int 8 ∷ int 8 ∷ int 8 ∷ int 8 ∷ int 8 ∷ []

abbrev pub api_resp_header_values : ApiRespHeader → List Value
api_resp_header_values s =
    text s.req_id
    ∷ text s.conn_id
    ∷ text s.trace_id
    ∷ num s.time_now
    ∷ num s.in_time
    ∷ num s.bapi_limit
    ∷ num s.bapi_limit_status
    ∷ num s.bapi_limit_reset_timestamp
    ∷ []

abbrev pub api_resp_header_of : List Value → ApiRespHeader
api_resp_header_of vs = record {
  req_id = text_at 0 vs;
  conn_id = text_at 1 vs;
  trace_id = text_at 2 vs;
  time_now = int_at 3 vs;
  in_time = int_at 4 vs;
  bapi_limit = int_at 5 vs;
  bapi_limit_status = int_at 6 vs;
  bapi_limit_reset_timestamp = int_at 7 vs;
}

-- `ApiRespHeader{}`
abbrev pub api_resp_header_init : ApiRespHeader
api_resp_header_init = record {
  req_id = replicate 64 0;
  conn_id = replicate 64 0;
  trace_id = replicate 64 0;
  time_now = 0;
  in_time = 0;
  bapi_limit = 0;
  bapi_limit_status = 0;
  bapi_limit_reset_timestamp = 0;
}

pub record CommonOrderRespData : Type 0 where
  pub order_id : List ℕ
  pub order_link_id : List ℕ

abbrev pub common_order_resp_data_layout : List Field
common_order_resp_data_layout = chars 64 ∷ chars 64 ∷ []

abbrev pub common_order_resp_data_values : CommonOrderRespData → List Value
common_order_resp_data_values s = text s.order_id ∷ text s.order_link_id ∷ []

abbrev pub common_order_resp_data_of : List Value → CommonOrderRespData
common_order_resp_data_of vs = record { order_id = text_at 0 vs; order_link_id = text_at 1 vs }

-- `CommonOrderRespData{}`
abbrev pub common_order_resp_data_init : CommonOrderRespData
common_order_resp_data_init = record { order_id = replicate 64 0; order_link_id = replicate 64 0 }

pub record AuthReq : Type 0 where
  pub req_id : List ℕ
  pub api_key : List ℕ
  pub expires : ℕ
  pub signature : List ℕ

abbrev pub auth_req_layout : List Field
auth_req_layout = chars 64 ∷ chars 64 ∷ int 8 ∷ chars 64 ∷ []

abbrev pub auth_req_values : AuthReq → List Value
auth_req_values s = text s.req_id ∷ text s.api_key ∷ num s.expires ∷ text s.signature ∷ []

abbrev pub auth_req_of : List Value → AuthReq
auth_req_of vs = record {
  req_id = text_at 0 vs;
  api_key = text_at 1 vs;
  expires = int_at 2 vs;
  signature = text_at 3 vs;
}

-- `AuthReq{}`
abbrev pub auth_req_init : AuthReq
auth_req_init = record {
  req_id = replicate 64 0;
  api_key = replicate 64 0;
  expires = 0;
  signature = replicate 64 0;
}

instance abbrev pub auth_req_struct : Struct AuthReq
auth_req_struct = record {
  layout = auth_req_layout;
  to_values = auth_req_values;
  of_values = auth_req_of;
  of_values-to_values = λ s. refl;
}

pub record CreateOrderReqV5 : Type 0 where
  pub header : ApiRequestHeader
  pub category : ℕ
  pub symbol_id : ℕ
  pub side : ℕ
  pub order_type : ℕ
  pub qty : Decimal64
  pub price : Decimal64
  pub order_link_id : List ℕ
  pub time_in_force : ℕ
  pub position_idx : ℕ
  pub market_unit : ℕ
  pub is_leverage : ℕ
  pub reduce_only : ℕ
  pub close_on_trigger : ℕ
  pub mmp : ℕ
  pub smp_type : ℕ
  pub rpi_taker_access : ℕ

abbrev pub create_order_req_v5_layout : List Field
create_order_req_v5_layout =
    api_request_header_layout
    ++ (int 1
        ∷ int 8
        ∷ int 1
        ∷ int 1
        ∷ (decimal64_layout
            ++ (decimal64_layout
                ++ (chars 64
                    ∷ int 1
                    ∷ int 1
                    ∷ int 1
                    ∷ int 1
                    ∷ int 1
                    ∷ int 1
                    ∷ int 1
                    ∷ int 1
                    ∷ int 1
                    ∷ []))))

abbrev pub create_order_req_v5_values : CreateOrderReqV5 → List Value
create_order_req_v5_values s =
    api_request_header_values s.header
    ++ (num s.category
        ∷ num s.symbol_id
        ∷ num s.side
        ∷ num s.order_type
        ∷ (decimal64_values s.qty
            ++ (decimal64_values s.price
                ++ (text s.order_link_id
                    ∷ num s.time_in_force
                    ∷ num s.position_idx
                    ∷ num s.market_unit
                    ∷ num s.is_leverage
                    ∷ num s.reduce_only
                    ∷ num s.close_on_trigger
                    ∷ num s.mmp
                    ∷ num s.smp_type
                    ∷ num s.rpi_taker_access
                    ∷ []))))

abbrev pub create_order_req_v5_of : List Value → CreateOrderReqV5
create_order_req_v5_of vs = record {
  header = api_request_header_of vs;
  category = int_at 4 vs;
  symbol_id = int_at 5 vs;
  side = int_at 6 vs;
  order_type = int_at 7 vs;
  qty = decimal64_of (drop 8 vs);
  price = decimal64_of (drop 10 vs);
  order_link_id = text_at 12 vs;
  time_in_force = int_at 13 vs;
  position_idx = int_at 14 vs;
  market_unit = int_at 15 vs;
  is_leverage = int_at 16 vs;
  reduce_only = int_at 17 vs;
  close_on_trigger = int_at 18 vs;
  mmp = int_at 19 vs;
  smp_type = int_at 20 vs;
  rpi_taker_access = int_at 21 vs;
}

-- `CreateOrderReqV5{}`
abbrev pub create_order_req_v5_init : CreateOrderReqV5
create_order_req_v5_init = record {
  header = api_request_header_init;
  category = 1;
  symbol_id = 0;
  side = 1;
  order_type = 2;
  qty = decimal64_init;
  price = decimal64_init;
  order_link_id = replicate 64 0;
  time_in_force = 1;
  position_idx = 0;
  market_unit = 1;
  is_leverage = 0;
  reduce_only = 0;
  close_on_trigger = 0;
  mmp = 0;
  smp_type = 0;
  rpi_taker_access = 0;
}

instance abbrev pub create_order_req_v5_struct : Struct CreateOrderReqV5
create_order_req_v5_struct = record {
  layout = create_order_req_v5_layout;
  to_values = create_order_req_v5_values;
  of_values = create_order_req_v5_of;
  of_values-to_values = λ s. refl;
}

pub record CreateOrderRespV5 : Type 0 where
  pub resp_header : ApiRespHeader
  pub ret_code : ℕ
  pub result : CommonOrderRespData

abbrev pub create_order_resp_v5_layout : List Field
create_order_resp_v5_layout = api_resp_header_layout ++ (int 4 ∷ (common_order_resp_data_layout))

abbrev pub create_order_resp_v5_values : CreateOrderRespV5 → List Value
create_order_resp_v5_values s =
    api_resp_header_values s.resp_header
    ++ (num s.ret_code ∷ (common_order_resp_data_values s.result))

abbrev pub create_order_resp_v5_of : List Value → CreateOrderRespV5
create_order_resp_v5_of vs = record {
  resp_header = api_resp_header_of vs;
  ret_code = int_at 8 vs;
  result = common_order_resp_data_of (drop 9 vs);
}

-- `CreateOrderRespV5{}`
abbrev pub create_order_resp_v5_init : CreateOrderRespV5
create_order_resp_v5_init = record {
  resp_header = api_resp_header_init;
  ret_code = 0;
  result = common_order_resp_data_init;
}

instance abbrev pub create_order_resp_v5_struct : Struct CreateOrderRespV5
create_order_resp_v5_struct = record {
  layout = create_order_resp_v5_layout;
  to_values = create_order_resp_v5_values;
  of_values = create_order_resp_v5_of;
  of_values-to_values = λ s. refl;
}

pub record CancelOrderReqV5 : Type 0 where
  pub header : ApiRequestHeader
  pub category : ℕ
  pub symbol_id : ℕ
  pub order_id : List ℕ
  pub order_link_id : List ℕ

abbrev pub cancel_order_req_v5_layout : List Field
cancel_order_req_v5_layout = api_request_header_layout ++ (int 1 ∷ int 8 ∷ chars 64 ∷ chars 64 ∷ [])

abbrev pub cancel_order_req_v5_values : CancelOrderReqV5 → List Value
cancel_order_req_v5_values s =
    api_request_header_values s.header
    ++ (num s.category ∷ num s.symbol_id ∷ text s.order_id ∷ text s.order_link_id ∷ [])

abbrev pub cancel_order_req_v5_of : List Value → CancelOrderReqV5
cancel_order_req_v5_of vs = record {
  header = api_request_header_of vs;
  category = int_at 4 vs;
  symbol_id = int_at 5 vs;
  order_id = text_at 6 vs;
  order_link_id = text_at 7 vs;
}

-- `CancelOrderReqV5{}`
abbrev pub cancel_order_req_v5_init : CancelOrderReqV5
cancel_order_req_v5_init = record {
  header = api_request_header_init;
  category = 1;
  symbol_id = 0;
  order_id = replicate 64 0;
  order_link_id = replicate 64 0;
}

instance abbrev pub cancel_order_req_v5_struct : Struct CancelOrderReqV5
cancel_order_req_v5_struct = record {
  layout = cancel_order_req_v5_layout;
  to_values = cancel_order_req_v5_values;
  of_values = cancel_order_req_v5_of;
  of_values-to_values = λ s. refl;
}
