-- ===== src/Proto/Mcx/Confirm.antt =====
-- The struct of include/proto/mcx/confirm.hpp.
use mpmc_with_memory_managem.Base.{ℕ, List, [], ◌∷◌, refl, replicate}
use mpmc_with_memory_managem.Wire.{Field, Value, int, chars, num, text, int_at, text_at}
use mpmc_with_memory_managem.Wire.Struct.{Struct}

pub record ExecutionReportNew : Type 0 where
  pub body_len : ℕ
  pub template_id : ℕ
  pub pad2_header : List ℕ
  pub request_time : ℕ
  pub reserve0 : ℕ
  pub reserve1 : ℕ
  pub reserve2 : ℕ
  pub reserve3 : ℕ
  pub sending_time : ℕ
  pub msg_seq_num : ℕ
  pub partition_id : ℕ
  pub appl_id : ℕ
  pub appl_msg_id : List ℕ
  pub last_fragment : ℕ
  pub order_id : ℕ
  pub cl_ord_id : ℕ
  pub simple_security_id : ℕ
  pub pad4_body : List ℕ
  pub price_mk_to_limit_px : ℕ
  pub reserved1 : ℕ
  pub reserved2 : ℕ
  pub exec_id : ℕ
  pub trd_reg_ts_entry_time : ℕ
  pub reserve14 : ℕ
  pub lst_updt_time : ℕ
  pub filler1 : ℕ
  pub filler2 : ℕ
  pub filler4 : ℕ
  pub ord_status : ℕ
  pub exec_type : ℕ
  pub exec_restatement_reason : ℕ
  pub product_complex : ℕ
  pub filler5 : ℕ
  pub pad4_trailer : List ℕ

abbrev pub execution_report_new_layout : List Field
execution_report_new_layout =
    int 4
    ∷ int 2
    ∷ chars 2
    ∷ int 8
    ∷ int 8
    ∷ int 8
    ∷ int 8
    ∷ int 8
    ∷ int 8
    ∷ int 4
    ∷ int 2
    ∷ int 1
    ∷ chars 16
    ∷ int 1
    ∷ int 8
    ∷ int 8
    ∷ int 8
    ∷ chars 4
    ∷ int 8
    ∷ int 8
    ∷ int 8
    ∷ int 8
    ∷ int 8
    ∷ int 8
    ∷ int 8
    ∷ int 8
    ∷ int 4
    ∷ int 2
    ∷ int 1
    ∷ int 1
    ∷ int 2
    ∷ int 1
    ∷ int 1
    ∷ chars 4
    ∷ []

abbrev pub execution_report_new_values : ExecutionReportNew → List Value
execution_report_new_values s =
    num s.body_len
    ∷ num s.template_id
    ∷ text s.pad2_header
    ∷ num s.request_time
    ∷ num s.reserve0
    ∷ num s.reserve1
    ∷ num s.reserve2
    ∷ num s.reserve3
    ∷ num s.sending_time
    ∷ num s.msg_seq_num
    ∷ num s.partition_id
    ∷ num s.appl_id
    ∷ text s.appl_msg_id
    ∷ num s.last_fragment
    ∷ num s.order_id
    ∷ num s.cl_ord_id
    ∷ num s.simple_security_id
    ∷ text s.pad4_body
    ∷ num s.price_mk_to_limit_px
    ∷ num s.reserved1
    ∷ num s.reserved2
    ∷ num s.exec_id
    ∷ num s.trd_reg_ts_entry_time
    ∷ num s.reserve14
    ∷ num s.lst_updt_time
    ∷ num s.filler1
    ∷ num s.filler2
    ∷ num s.filler4
    ∷ num s.ord_status
    ∷ num s.exec_type
    ∷ num s.exec_restatement_reason
    ∷ num s.product_complex
    ∷ num s.filler5
    ∷ text s.pad4_trailer
    ∷ []

abbrev pub execution_report_new_of : List Value → ExecutionReportNew
execution_report_new_of vs = record {
  body_len = int_at 0 vs;
  template_id = int_at 1 vs;
  pad2_header = text_at 2 vs;
  request_time = int_at 3 vs;
  reserve0 = int_at 4 vs;
  reserve1 = int_at 5 vs;
  reserve2 = int_at 6 vs;
  reserve3 = int_at 7 vs;
  sending_time = int_at 8 vs;
  msg_seq_num = int_at 9 vs;
  partition_id = int_at 10 vs;
  appl_id = int_at 11 vs;
  appl_msg_id = text_at 12 vs;
  last_fragment = int_at 13 vs;
  order_id = int_at 14 vs;
  cl_ord_id = int_at 15 vs;
  simple_security_id = int_at 16 vs;
  pad4_body = text_at 17 vs;
  price_mk_to_limit_px = int_at 18 vs;
  reserved1 = int_at 19 vs;
  reserved2 = int_at 20 vs;
  exec_id = int_at 21 vs;
  trd_reg_ts_entry_time = int_at 22 vs;
  reserve14 = int_at 23 vs;
  lst_updt_time = int_at 24 vs;
  filler1 = int_at 25 vs;
  filler2 = int_at 26 vs;
  filler4 = int_at 27 vs;
  ord_status = int_at 28 vs;
  exec_type = int_at 29 vs;
  exec_restatement_reason = int_at 30 vs;
  product_complex = int_at 31 vs;
  filler5 = int_at 32 vs;
  pad4_trailer = text_at 33 vs;
}

-- `ExecutionReportNew{}`
abbrev pub execution_report_new_init : ExecutionReportNew
execution_report_new_init = record {
  body_len = 188;
  template_id = 10101;
  pad2_header = replicate 2 0;
  request_time = 0;
  reserve0 = 0;
  reserve1 = 0;
  reserve2 = 0;
  reserve3 = 0;
  sending_time = 0;
  msg_seq_num = 0;
  partition_id = 0;
  appl_id = 4;
  appl_msg_id = replicate 16 0;
  last_fragment = 1;
  order_id = 0;
  cl_ord_id = 0;
  simple_security_id = 0;
  pad4_body = replicate 4 0;
  price_mk_to_limit_px = 0;
  reserved1 = 0;
  reserved2 = 0;
  exec_id = 0;
  trd_reg_ts_entry_time = 0;
  reserve14 = 0;
  lst_updt_time = 0;
  filler1 = 0;
  filler2 = 0;
  filler4 = 0;
  ord_status = 48;
  exec_type = 48;
  exec_restatement_reason = 101;
  product_complex = 1;
  filler5 = 0;
  pad4_trailer = replicate 4 0;
}

instance abbrev pub execution_report_new_struct : Struct ExecutionReportNew
execution_report_new_struct = record {
  layout = execution_report_new_layout;
  to_values = execution_report_new_values;
  of_values = execution_report_new_of;
  of_values-to_values = λ s. refl;
}
