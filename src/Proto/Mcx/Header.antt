-- ===== src/Proto/Mcx/Header.antt =====
-- The header structs of include/proto/mcx/common.hpp.
use mpmc_with_memory_managem.Base.{ℕ, List, [], ◌∷◌, refl, replicate}
use mpmc_with_memory_managem.Wire.{Field, Value, int, chars, num, text, int_at, text_at}
use mpmc_with_memory_managem.Wire.Struct.{Struct}

pub record MessageHeaderIn : Type 0 where
  pub body_len : ℕ
  pub template_id : ℕ
  pub network_msg_id : List ℕ
  pub pad2 : List ℕ

abbrev pub message_header_in_layout : List Field
message_header_in_layout = int 4 ∷ int 2 ∷ chars 8 ∷ chars 2 ∷ []

abbrev pub message_header_in_values : MessageHeaderIn → List Value
message_header_in_values s =
    num s.body_len ∷ num s.template_id ∷ text s.network_msg_id ∷ text s.pad2 ∷ []

abbrev pub message_header_in_of : List Value → MessageHeaderIn
message_header_in_of vs = record {
  body_len = int_at 0 vs;
  template_id = int_at 1 vs;
  network_msg_id = text_at 2 vs;
  pad2 = text_at 3 vs;
}

-- `MessageHeaderIn{}`
abbrev pub message_header_in_init : MessageHeaderIn
message_header_in_init = record {
  body_len = 0;
  template_id = 0;
  network_msg_id = replicate 8 0;
  pad2 = replicate 2 0;
}

instance abbrev pub message_header_in_struct : Struct MessageHeaderIn
message_header_in_struct = record {
  layout = message_header_in_layout;
  to_values = message_header_in_values;
  of_values = message_header_in_of;
  of_values-to_values = λ s. refl;
}

pub record MessageHeaderOut : Type 0 where
  pub body_len : ℕ
  pub template_id : ℕ
  pub pad2 : List ℕ

abbrev pub message_header_out_layout : List Field
message_header_out_layout = int 4 ∷ int 2 ∷ chars 2 ∷ []

abbrev pub message_header_out_values : MessageHeaderOut → List Value
message_header_out_values s = num s.body_len ∷ num s.template_id ∷ text s.pad2 ∷ []

abbrev pub message_header_out_of : List Value → MessageHeaderOut
message_header_out_of vs = record {
  body_len = int_at 0 vs;
  template_id = int_at 1 vs;
  pad2 = text_at 2 vs;
}

-- `MessageHeaderOut{}`
abbrev pub message_header_out_init : MessageHeaderOut
message_header_out_init = record { body_len = 0; template_id = 0; pad2 = replicate 2 0 }

instance abbrev pub message_header_out_struct : Struct MessageHeaderOut
message_header_out_struct = record {
  layout = message_header_out_layout;
  to_values = message_header_out_values;
  of_values = message_header_out_of;
  of_values-to_values = λ s. refl;
}

pub record RequestHeader : Type 0 where
  pub msg_seq_num : ℕ
  pub sender_sub_id : ℕ

abbrev pub request_header_layout : List Field
request_header_layout = int 4 ∷ int 4 ∷ []

abbrev pub request_header_values : RequestHeader → List Value
request_header_values s = num s.msg_seq_num ∷ num s.sender_sub_id ∷ []

abbrev pub request_header_of : List Value → RequestHeader
request_header_of vs = record { msg_seq_num = int_at 0 vs; sender_sub_id = int_at 1 vs }

-- `RequestHeader{}`
abbrev pub request_header_init : RequestHeader
request_header_init = record { msg_seq_num = 0; sender_sub_id = 0 }

instance abbrev pub request_header_struct : Struct RequestHeader
request_header_struct = record {
  layout = request_header_layout;
  to_values = request_header_values;
  of_values = request_header_of;
  of_values-to_values = λ s. refl;
}

pub record ResponseHeaderMe : Type 0 where
  pub request_time : ℕ
  pub reserve0 : ℕ
  pub reserve1 : ℕ
  pub reserve2 : ℕ
  pub reserve3 : ℕ
  pub sending_time : ℕ
  pub msg_seq_num : ℕ
  pub partition_id : ℕ
  pub appl_id : ℕ
  pub appl_msg_id : List ℕ
  pub last_fragment : ℕ

abbrev pub response_header_me_layout : List Field
response_header_me_layout =
    int 8 ∷ int 8 ∷ int 8 ∷ int 8 ∷ int 8 ∷ int 8 ∷ int 4 ∷ int 2 ∷ int 1 ∷ chars 16 ∷ int 1 ∷ []

abbrev pub response_header_me_values : ResponseHeaderMe → List Value
response_header_me_values s =
    num s.request_time
    ∷ num s.reserve0
    ∷ num s.reserve1
    ∷ num s.reserve2
    ∷ num s.reserve3
    ∷ num s.sending_time
    ∷ num s.msg_seq_num
    ∷ num s.partition_id
    ∷ num s.appl_id
    ∷ text s.appl_msg_id
    ∷ num s.last_fragment
    ∷ []

abbrev pub response_header_me_of : List Value → ResponseHeaderMe
response_header_me_of vs = record {
  request_time = int_at 0 vs;
  reserve0 = int_at 1 vs;
  reserve1 = int_at 2 vs;
  reserve2 = int_at 3 vs;
  reserve3 = int_at 4 vs;
  sending_time = int_at 5 vs;
  msg_seq_num = int_at 6 vs;
  partition_id = int_at 7 vs;
  appl_id = int_at 8 vs;
  appl_msg_id = text_at 9 vs;
  last_fragment = int_at 10 vs;
}

-- `ResponseHeaderMe{}`
abbrev pub response_header_me_init : ResponseHeaderMe
response_header_me_init = record {
  request_time = 0;
  reserve0 = 0;
  reserve1 = 0;
  reserve2 = 0;
  reserve3 = 0;
  sending_time = 0;
  msg_seq_num = 0;
  partition_id = 0;
  appl_id = 0;
  appl_msg_id = replicate 16 0;
  last_fragment = 0;
}

instance abbrev pub response_header_me_struct : Struct ResponseHeaderMe
response_header_me_struct = record {
  layout = response_header_me_layout;
  to_values = response_header_me_values;
  of_values = response_header_me_of;
  of_values-to_values = λ s. refl;
}
