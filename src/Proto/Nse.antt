-- ===== src/Proto/Nse.antt =====
-- The NSE messages of include/proto/protocols.hpp. Those under `#pragma pack(push, 2)` have every
-- wider member at an even offset, so no padding is added.
use mpmc_with_memory_managem.Base.{ℕ, List, [], ◌∷◌, ◌++◌, refl, drop, replicate}
use mpmc_with_memory_managem.Wire.{Field, Value, int, chars, num, text, int_at, text_at}
use mpmc_with_memory_managem.Wire.Struct.{Struct}

pub record MtbtStreamHeader : Type 0 where
  pub msg_len : ℕ
  pub stream_id : ℕ
  pub seq_no : ℕ

abbrev pub mtbt_stream_header_layout : List Field
mtbt_stream_header_layout = int 2 ∷ int 2 ∷ int 4 ∷ []

abbrev pub mtbt_stream_header_values : MtbtStreamHeader → List Value
mtbt_stream_header_values s = num s.msg_len ∷ num s.stream_id ∷ num s.seq_no ∷ []

abbrev pub mtbt_stream_header_of : List Value → MtbtStreamHeader
mtbt_stream_header_of vs = record {
  msg_len = int_at 0 vs;
  stream_id = int_at 1 vs;
  seq_no = int_at 2 vs;
}

-- `MtbtStreamHeader{}`
abbrev pub mtbt_stream_header_init : MtbtStreamHeader
mtbt_stream_header_init = record { msg_len = 0; stream_id = 0; seq_no = 0 }

instance abbrev pub mtbt_stream_header_struct : Struct MtbtStreamHeader
mtbt_stream_header_struct = record {
  layout = mtbt_stream_header_layout;
  to_values = mtbt_stream_header_values;
  of_values = mtbt_stream_header_of;
  of_values-to_values = λ s. refl;
}

pub record MtbtNewOrder : Type 0 where
  pub message_type : ℕ
  pub timestamp : ℕ
  pub order_id : ℕ
  pub token : ℕ
  pub order_type : ℕ
  pub price : ℕ
  pub quantity : ℕ

abbrev pub mtbt_new_order_layout : List Field
mtbt_new_order_layout = int 1 ∷ int 4 ∷ int 8 ∷ int 4 ∷ int 1 ∷ int 4 ∷ int 4 ∷ []

abbrev pub mtbt_new_order_values : MtbtNewOrder → List Value
mtbt_new_order_values s =
    num s.message_type
    ∷ num s.timestamp
    ∷ num s.order_id
    ∷ num s.token
    ∷ num s.order_type
    ∷ num s.price
    ∷ num s.quantity
    ∷ []

abbrev pub mtbt_new_order_of : List Value → MtbtNewOrder
mtbt_new_order_of vs = record {
  message_type = int_at 0 vs;
  timestamp = int_at 1 vs;
  order_id = int_at 2 vs;
  token = int_at 3 vs;
  order_type = int_at 4 vs;
  price = int_at 5 vs;
  quantity = int_at 6 vs;
}

-- `MtbtNewOrder{}`
abbrev pub mtbt_new_order_init : MtbtNewOrder
mtbt_new_order_init = record {
  message_type = 78;
  timestamp = 0;
  order_id = 0;
  token = 0;
  order_type = 0;
  price = 0;
  quantity = 0;
}

instance abbrev pub mtbt_new_order_struct : Struct MtbtNewOrder
mtbt_new_order_struct = record {
  layout = mtbt_new_order_layout;
  to_values = mtbt_new_order_values;
  of_values = mtbt_new_order_of;
  of_values-to_values = λ s. refl;
}

pub record NnfSecInfo : Type 0 where
  pub symbol : List ℕ
  pub series : List ℕ

abbrev pub nnf_sec_info_layout : List Field
nnf_sec_info_layout = chars 10 ∷ chars 2 ∷ []

abbrev pub nnf_sec_info_values : NnfSecInfo → List Value
nnf_sec_info_values s = text s.symbol ∷ text s.series ∷ []

abbrev pub nnf_sec_info_of : List Value → NnfSecInfo
nnf_sec_info_of vs = record { symbol = text_at 0 vs; series = text_at 1 vs }

-- `NnfSecInfo{}`
abbrev pub nnf_sec_info_init : NnfSecInfo
nnf_sec_info_init = record { symbol = replicate 10 0; series = replicate 2 0 }

pub record NnfStOrderFlags : Type 0 where
  pub bits : ℕ

abbrev pub nnf_st_order_flags_layout : List Field
nnf_st_order_flags_layout = int 2 ∷ []

abbrev pub nnf_st_order_flags_values : NnfStOrderFlags → List Value
nnf_st_order_flags_values s = num s.bits ∷ []

abbrev pub nnf_st_order_flags_of : List Value → NnfStOrderFlags
nnf_st_order_flags_of vs = record { bits = int_at 0 vs }

-- `NnfStOrderFlags{}`
abbrev pub nnf_st_order_flags_init : NnfStOrderFlags
nnf_st_order_flags_init = record { bits = 0 }

pub record NnfOrderEntry : Type 0 where
  pub transcode : ℕ
  pub trader_id : ℕ
  pub sec_info : NnfSecInfo
  pub account_number : List ℕ
  pub book_type : ℕ
  pub buy_sell : ℕ
  pub disclosed_vol : ℕ
  pub volume : ℕ
  pub price : ℕ
  pub good_till_date : ℕ
  pub order_flags : NnfStOrderFlags
  pub branch_id : ℕ
  pub user_id : ℕ
  pub broker_id : List ℕ
  pub suspended : ℕ
  pub settlor : List ℕ
  pub pro_client : ℕ
  pub nnf_field : ℕ
  pub transaction_id : ℕ
  pub pan : List ℕ
  pub algo_id : ℕ
  pub reserved_filler : ℕ
  pub reserved : List ℕ

abbrev pub nnf_order_entry_layout : List Field
nnf_order_entry_layout =
    int 2
    ∷ int 4
    ∷ (nnf_sec_info_layout
        ++ (chars 10
            ∷ int 2
            ∷ int 2
            ∷ int 4
            ∷ int 4
            ∷ int 4
            ∷ int 4
            ∷ (nnf_st_order_flags_layout
                ++ (int 2
                    ∷ int 4
                    ∷ chars 5
                    ∷ int 1
                    ∷ chars 12
                    ∷ int 2
                    ∷ int 8
                    ∷ int 4
                    ∷ chars 10
                    ∷ int 4
                    ∷ int 2
                    ∷ chars 32
                    ∷ []))))

abbrev pub nnf_order_entry_values : NnfOrderEntry → List Value
nnf_order_entry_values s =
    num s.transcode
    ∷ num s.trader_id
    ∷ (nnf_sec_info_values s.sec_info
        ++ (text s.account_number
            ∷ num s.book_type
            ∷ num s.buy_sell
            ∷ num s.disclosed_vol
            ∷ num s.volume
            ∷ num s.price
            ∷ num s.good_till_date
            ∷ (nnf_st_order_flags_values s.order_flags
                ++ (num s.branch_id
                    ∷ num s.user_id
                    ∷ text s.broker_id
                    ∷ num s.suspended
                    ∷ text s.settlor
                    ∷ num s.pro_client
                    ∷ num s.nnf_field
                    ∷ num s.transaction_id
                    ∷ text s.pan
                    ∷ num s.algo_id
                    ∷ num s.reserved_filler
                    ∷ text s.reserved
                    ∷ []))))

abbrev pub nnf_order_entry_of : List Value → NnfOrderEntry
nnf_order_entry_of vs = record {
  transcode = int_at 0 vs;
  trader_id = int_at 1 vs;
  sec_info = nnf_sec_info_of (drop 2 vs);
  account_number = text_at 4 vs;
  book_type = int_at 5 vs;
  buy_sell = int_at 6 vs;
  disclosed_vol = int_at 7 vs;
  volume = int_at 8 vs;
  price = int_at 9 vs;
  good_till_date = int_at 10 vs;
  order_flags = nnf_st_order_flags_of (drop 11 vs);
  branch_id = int_at 12 vs;
  user_id = int_at 13 vs;
  broker_id = text_at 14 vs;
  suspended = int_at 15 vs;
  settlor = text_at 16 vs;
  pro_client = int_at 17 vs;
  nnf_field = int_at 18 vs;
  transaction_id = int_at 19 vs;
  pan = text_at 20 vs;
  algo_id = int_at 21 vs;
  reserved_filler = int_at 22 vs;
  reserved = text_at 23 vs;
}

-- `NnfOrderEntry{}`
abbrev pub nnf_order_entry_init : NnfOrderEntry
nnf_order_entry_init = record {
  transcode = 20000;
  trader_id = 0;
  sec_info = nnf_sec_info_init;
  account_number = replicate 10 0;
  book_type = 0;
  buy_sell = 0;
  disclosed_vol = 0;
  volume = 0;
  price = 0;
  good_till_date = 0;
  order_flags = nnf_st_order_flags_init;
  branch_id = 0;
  user_id = 0;
  broker_id = replicate 5 0;
  suspended = 0;
  settlor = replicate 12 0;
  pro_client = 0;
  nnf_field = 0;
  transaction_id = 0;
  pan = replicate 10 0;
  algo_id = 0;
  reserved_filler = 0;
  reserved = replicate 32 0;
}

instance abbrev pub nnf_order_entry_struct : Struct NnfOrderEntry
nnf_order_entry_struct = record {
  layout = nnf_order_entry_layout;
  to_values = nnf_order_entry_values;
  of_values = nnf_order_entry_of;
  of_values-to_values = λ s. refl;
}

pub record NnfOrderConfirm : Type 0 where
  pub transcode : ℕ
  pub reason_code : ℕ
  pub token : ℕ
  pub order_number : ℕ
  pub book_type : ℕ
  pub buy_sell : ℕ
  pub disclosed_vol : ℕ
  pub disclosed_vol_remaining : ℕ
  pub total_vol_remaining : ℕ
  pub volume : ℕ
  pub price : ℕ
  pub trigger_price : ℕ
  pub order_flags : NnfStOrderFlags
  pub trader_id : ℕ
  pub nnf_field : ℕ
  pub algo_id : ℕ
  pub activity_time_nanos : ℕ
  pub competitor_period : ℕ
  pub solicitor_period : ℕ
  pub auction_number : ℕ
  pub suspended : ℕ
  pub filler : ℕ
  pub pan : List ℕ
  pub segment : ℕ
  pub reserved : List ℕ

abbrev pub nnf_order_confirm_layout : List Field
nnf_order_confirm_layout =
    int 2
    ∷ int 2
    ∷ int 4
    ∷ int 8
    ∷ int 2
    ∷ int 2
    ∷ int 4
    ∷ int 4
    ∷ int 4
    ∷ int 4
    ∷ int 4
    ∷ int 4
    ∷ (nnf_st_order_flags_layout
        ++ (int 4
            ∷ int 8
            ∷ int 4
            ∷ int 8
            ∷ int 2
            ∷ int 2
            ∷ int 2
            ∷ int 1
            ∷ int 1
            ∷ chars 10
            ∷ int 1
            ∷ chars 11
            ∷ []))

abbrev pub nnf_order_confirm_values : NnfOrderConfirm → List Value
nnf_order_confirm_values s =
    num s.transcode
    ∷ num s.reason_code
    ∷ num s.token
    ∷ num s.order_number
    ∷ num s.book_type
    ∷ num s.buy_sell
    ∷ num s.disclosed_vol
    ∷ num s.disclosed_vol_remaining
    ∷ num s.total_vol_remaining
    ∷ num s.volume
    ∷ num s.price
    ∷ num s.trigger_price
    ∷ (nnf_st_order_flags_values s.order_flags
        ++ (num s.trader_id
            ∷ num s.nnf_field
            ∷ num s.algo_id
            ∷ num s.activity_time_nanos
            ∷ num s.competitor_period
            ∷ num s.solicitor_period
            ∷ num s.auction_number
            ∷ num s.suspended
            ∷ num s.filler
            ∷ text s.pan
            ∷ num s.segment
            ∷ text s.reserved
            ∷ []))

abbrev pub nnf_order_confirm_of : List Value → NnfOrderConfirm
nnf_order_confirm_of vs = record {
  transcode = int_at 0 vs;
  reason_code = int_at 1 vs;
  token = int_at 2 vs;
  order_number = int_at 3 vs;
  book_type = int_at 4 vs;
  buy_sell = int_at 5 vs;
  disclosed_vol = int_at 6 vs;
  disclosed_vol_remaining = int_at 7 vs;
  total_vol_remaining = int_at 8 vs;
  volume = int_at 9 vs;
  price = int_at 10 vs;
  trigger_price = int_at 11 vs;
  order_flags = nnf_st_order_flags_of (drop 12 vs);
  trader_id = int_at 13 vs;
  nnf_field = int_at 14 vs;
  algo_id = int_at 15 vs;
  activity_time_nanos = int_at 16 vs;
  competitor_period = int_at 17 vs;
  solicitor_period = int_at 18 vs;
  auction_number = int_at 19 vs;
  suspended = int_at 20 vs;
  filler = int_at 21 vs;
  pan = text_at 22 vs;
  segment = int_at 23 vs;
  reserved = text_at 24 vs;
}

-- `NnfOrderConfirm{}`
abbrev pub nnf_order_confirm_init : NnfOrderConfirm
nnf_order_confirm_init = record {
  transcode = 2073;
  reason_code = 0;
  token = 0;
  order_number = 0;
  book_type = 0;
  buy_sell = 0;
  disclosed_vol = 0;
  disclosed_vol_remaining = 0;
  total_vol_remaining = 0;
  volume = 0;
  price = 0;
  trigger_price = 0;
  order_flags = nnf_st_order_flags_init;
  trader_id = 0;
  nnf_field = 0;
  algo_id = 0;
  activity_time_nanos = 0;
  competitor_period = 0;
  solicitor_period = 0;
  auction_number = 0;
  suspended = 0;
  filler = 0;
  pan = replicate 10 0;
  segment = 0;
  reserved = replicate 11 0;
}

instance abbrev pub nnf_order_confirm_struct : Struct NnfOrderConfirm
nnf_order_confirm_struct = record {
  layout = nnf_order_confirm_layout;
  to_values = nnf_order_confirm_values;
  of_values = nnf_order_confirm_of;
  of_values-to_values = λ s. refl;
}

pub record NnfMessageHeader : Type 0 where
  pub transaction_code : ℕ
  pub log_time : ℕ
  pub alpha_char : List ℕ
  pub trader_id : ℕ
  pub error_code : ℕ
  pub timestamp : List ℕ
  pub timestamp1 : List ℕ
  pub timestamp2 : List ℕ
  pub message_length : ℕ

abbrev pub nnf_message_header_layout : List Field
nnf_message_header_layout =
    int 2 ∷ int 4 ∷ chars 2 ∷ int 4 ∷ int 2 ∷ chars 8 ∷ chars 8 ∷ chars 8 ∷ int 2 ∷ []

abbrev pub nnf_message_header_values : NnfMessageHeader → List Value
nnf_message_header_values s =
    num s.transaction_code
    ∷ num s.log_time
    ∷ text s.alpha_char
    ∷ num s.trader_id
    ∷ num s.error_code
    ∷ text s.timestamp
    ∷ text s.timestamp1
    ∷ text s.timestamp2
    ∷ num s.message_length
    ∷ []

abbrev pub nnf_message_header_of : List Value → NnfMessageHeader
nnf_message_header_of vs = record {
  transaction_code = int_at 0 vs;
  log_time = int_at 1 vs;
  alpha_char = text_at 2 vs;
  trader_id = int_at 3 vs;
  error_code = int_at 4 vs;
  timestamp = text_at 5 vs;
  timestamp1 = text_at 6 vs;
  timestamp2 = text_at 7 vs;
  message_length = int_at 8 vs;
}

-- `NnfMessageHeader{}`
abbrev pub nnf_message_header_init : NnfMessageHeader
nnf_message_header_init = record {
  transaction_code = 0;
  log_time = 0;
  alpha_char = replicate 2 0;
  trader_id = 0;
  error_code = 0;
  timestamp = replicate 8 0;
  timestamp1 = replicate 8 0;
  timestamp2 = replicate 8 0;
  message_length = 0;
}

instance abbrev pub nnf_message_header_struct : Struct NnfMessageHeader
nnf_message_header_struct = record {
  layout = nnf_message_header_layout;
  to_values = nnf_message_header_values;
  of_values = nnf_message_header_of;
  of_values-to_values = λ s. refl;
}
