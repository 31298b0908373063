-- ===== src/Proto/Mcx/Order.antt =====
-- The structs of include/proto/mcx/order.hpp. `TopOfBook` is not packed: its 8-byte members are
-- aligned, and so is its end.
use mpmc_with_memory_managem.Base.{ℕ, List, [], ◌∷◌, refl, replicate}
use mpmc_with_memory_managem.Wire.{Field, Value, int, chars, pad, num, text, int_at, text_at}
use mpmc_with_memory_managem.Wire.Struct.{Struct}

pub record NewOrderSingleShort : Type 0 where
  pub body_len : ℕ
  pub template_id : ℕ
  pub network_msg_id : List ℕ
  pub pad2_header : List ℕ
  pub msg_seq_num : ℕ
  pub sender_sub_id : ℕ
  pub price : ℕ
  pub terminal_info : ℕ
  pub cl_ord_id : ℕ
  pub order_qty : ℕ
  pub disclosed_qty : ℕ
  pub simple_security_id : ℕ
  pub filler2 : ℕ
  pub filler4 : ℕ
  pub account_type : ℕ
  pub side : ℕ
  pub price_validity_check_type : ℕ
  pub time_in_force : ℕ
  pub smpf_order_identifier : ℕ
  pub exec_inst : ℕ
  pub strategy_id : ℕ
  pub strategy_trigger_seq_no : ℕ
  pub free_text1 : List ℕ
  pub cp_code : List ℕ

abbrev pub new_order_single_short_layout : List Field
new_order_single_short_layout =
    int 4
    ∷ int 2
    ∷ chars 8
    ∷ chars 2
    ∷ int 4
    ∷ int 4
    ∷ int 8
    ∷ int 8
    ∷ int 8
    ∷ int 8
    ∷ int 8
    ∷ int 4
    ∷ int 4
    ∷ int 2
    ∷ int 1
    ∷ int 1
    ∷ int 1
    ∷ int 1
    ∷ int 1
    ∷ int 1
    ∷ int 8
    ∷ int 8
    ∷ chars 12
    ∷ chars 12
    ∷ []

abbrev pub new_order_single_short_values : NewOrderSingleShort → List Value
new_order_single_short_values s =
    num s.body_len
    ∷ num s.template_id
    ∷ text s.network_msg_id
    ∷ text s.pad2_header
    ∷ num s.msg_seq_num
    ∷ num s.sender_sub_id
    ∷ num s.price
    ∷ num s.terminal_info
    ∷ num s.cl_ord_id
    ∷ num s.order_qty
    ∷ num s.disclosed_qty
    ∷ num s.simple_security_id
    ∷ num s.filler2
    ∷ num s.filler4
    ∷ num s.account_type
    ∷ num s.side
    ∷ num s.price_validity_check_type
    ∷ num s.time_in_force
    ∷ num s.smpf_order_identifier
    ∷ num s.exec_inst
    ∷ num s.strategy_id
    ∷ num s.strategy_trigger_seq_no
    ∷ text s.free_text1
    ∷ text s.cp_code
    ∷ []

abbrev pub new_order_single_short_of : List Value → NewOrderSingleShort
new_order_single_short_of vs = record {
  body_len = int_at 0 vs;
  template_id = int_at 1 vs;
  network_msg_id = text_at 2 vs;
  pad2_header = text_at 3 vs;
  msg_seq_num = int_at 4 vs;
  sender_sub_id = int_at 5 vs;
  price = int_at 6 vs;
  terminal_info = int_at 7 vs;
  cl_ord_id = int_at 8 vs;
  order_qty = int_at 9 vs;
  disclosed_qty = int_at 10 vs;
  simple_security_id = int_at 11 vs;
  filler2 = int_at 12 vs;
  filler4 = int_at 13 vs;
  account_type = int_at 14 vs;
  side = int_at 15 vs;
  price_validity_check_type = int_at 16 vs;
  time_in_force = int_at 17 vs;
  smpf_order_identifier = int_at 18 vs;
  exec_inst = int_at 19 vs;
  strategy_id = int_at 20 vs;
  strategy_trigger_seq_no = int_at 21 vs;
  free_text1 = text_at 22 vs;
  cp_code = text_at 23 vs;
}

-- `NewOrderSingleShort{}`
abbrev pub new_order_single_short_init : NewOrderSingleShort
new_order_single_short_init = record {
  body_len = 120;
  template_id = 10125;
  network_msg_id = replicate 8 0;
  pad2_header = replicate 2 0;
  msg_seq_num = 0;
  sender_sub_id = 0;
  price = 0;
  terminal_info = 0;
  cl_ord_id = 0;
  order_qty = 0;
  disclosed_qty = 0;
  simple_security_id = 0;
  filler2 = 0;
  filler4 = 0;
  account_type = 1;
  side = 1;
  price_validity_check_type = 0;
  time_in_force = 0;
  smpf_order_identifier = 0;
  exec_inst = 0;
  strategy_id = 0;
  strategy_trigger_seq_no = 0;
  free_text1 = replicate 12 0;
  cp_code = replicate 12 0;
}

instance abbrev pub new_order_single_short_struct : Struct NewOrderSingleShort
new_order_single_short_struct = record {
  layout = new_order_single_short_layout;
  to_values = new_order_single_short_values;
  of_values = new_order_single_short_of;
  of_values-to_values = λ s. refl;
}

pub record TopOfBook : Type 0 where
  pub simple_security_id : ℕ
  pub bid_price : ℕ
  pub ask_price : ℕ
  pub bid_qty : ℕ
  pub ask_qty : ℕ
  pub symbol : List ℕ

abbrev pub top_of_book_layout : List Field
top_of_book_layout = int 4 ∷ pad 4 ∷ int 8 ∷ int 8 ∷ int 8 ∷ int 8 ∷ chars 12 ∷ pad 4 ∷ []

abbrev pub top_of_book_values : TopOfBook → List Value
top_of_book_values s =
    num s.simple_security_id
    ∷ num s.bid_price
    ∷ num s.ask_price
    ∷ num s.bid_qty
    ∷ num s.ask_qty
    ∷ text s.symbol
    ∷ []

abbrev pub top_of_book_of : List Value → TopOfBook
top_of_book_of vs = record {
  simple_security_id = int_at 0 vs;
  bid_price = int_at 1 vs;
  ask_price = int_at 2 vs;
  bid_qty = int_at 3 vs;
  ask_qty = int_at 4 vs;
  symbol = text_at 5 vs;
}

-- `TopOfBook{}`
abbrev pub top_of_book_init : TopOfBook
top_of_book_init = record {
  simple_security_id = 0;
  bid_price = 0;
  ask_price = 0;
  bid_qty = 0;
  ask_qty = 0;
  symbol = replicate 12 0;
}

instance abbrev pub top_of_book_struct : Struct TopOfBook
top_of_book_struct = record {
  layout = top_of_book_layout;
  to_values = top_of_book_values;
  of_values = top_of_book_of;
  of_values-to_values = λ s. refl;
}
