-- ===== src/Proto/Sbe/Header.antt =====
-- The structs of include/proto/sbe/common.hpp.
use mpmc_with_memory_managem.Base.{ℕ, List, [], ◌∷◌, refl}
use mpmc_with_memory_managem.Wire.{Field, Value, int, num, int_at}
use mpmc_with_memory_managem.Wire.Struct.{Struct}

pub record MessageHeader : Type 0 where
  pub block_length : ℕ
  pub template_id : ℕ
  pub schema_id : ℕ
  pub version : ℕ

abbrev pub message_header_layout : List Field
message_header_layout = int 2 ∷ int 2 ∷ int 2 ∷ int 2 ∷ []

abbrev pub message_header_values : MessageHeader → List Value
message_header_values s =
    num s.block_length ∷ num s.template_id ∷ num s.schema_id ∷ num s.version ∷ []

abbrev pub message_header_of : List Value → MessageHeader
message_header_of vs = record {
  block_length = int_at 0 vs;
  template_id = int_at 1 vs;
  schema_id = int_at 2 vs;
  version = int_at 3 vs;
}

-- `MessageHeader{}`
abbrev pub message_header_init : MessageHeader
message_header_init = record { block_length = 0; template_id = 0; schema_id = 0; version = 0 }

instance abbrev pub message_header_struct : Struct MessageHeader
message_header_struct = record {
  layout = message_header_layout;
  to_values = message_header_values;
  of_values = message_header_of;
  of_values-to_values = λ s. refl;
}

pub record Decimal64 : Type 0 where
  pub exponent : ℕ
  pub mantissa : ℕ

abbrev pub decimal64_layout : List Field
decimal64_layout = int 1 ∷ int 8 ∷ []

abbrev pub decimal64_values : Decimal64 → List Value
decimal64_values s = num s.exponent ∷ num s.mantissa ∷ []

abbrev pub decimal64_of : List Value → Decimal64
decimal64_of vs = record { exponent = int_at 0 vs; mantissa = int_at 1 vs }

-- `Decimal64{}`
abbrev pub decimal64_init : Decimal64
decimal64_init = record { exponent = 0; mantissa = 0 }

pub record GroupSize16 : Type 0 where
  pub block_length : ℕ
  pub num_in_group : ℕ

abbrev pub group_size16_layout : List Field
group_size16_layout = int 2 ∷ int 2 ∷ []

abbrev pub group_size16_values : GroupSize16 → List Value
group_size16_values s = num s.block_length ∷ num s.num_in_group ∷ []

abbrev pub group_size16_of : List Value → GroupSize16
group_size16_of vs = record { block_length = int_at 0 vs; num_in_group = int_at 1 vs }

-- `GroupSize16{}`
abbrev pub group_size16_init : GroupSize16
group_size16_init = record { block_length = 0; num_in_group = 0 }

instance abbrev pub group_size16_struct : Struct GroupSize16
group_size16_struct = record {
  layout = group_size16_layout;
  to_values = group_size16_values;
  of_values = group_size16_of;
  of_values-to_values = λ s. refl;
}
