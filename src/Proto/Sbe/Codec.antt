-- ===== src/Proto/Sbe/Codec.antt =====
-- include/proto/sbe/decode.hpp. A payload is the `len` bytes behind a pointer, `none` for `nullptr`;
-- an offset into it is the list of the bytes from there on. A decoder is given its output object,
-- whose arrays it may leave in part, and `none` is its `false`; an encoder gives the bytes that it
-- wrote to `dst`, as many as it returns, and `none` is its 0.
pub mod RoundTrip
use mpmc_with_memory_managem.Base.{
  ℕ, ◌+◌, Bool, false, not, ◌&&◌, ◌||◌, Option, none, some, List, [], ◌∷◌, ◌++◌, length, take, drop,
  ltb, leb, ◌==◌, if◌then◌else◌,
}
use mpmc_with_memory_managem.Wire.Struct.{size_of, store, load}
use mpmc_with_memory_managem.Proto.Sbe.Header.{
  MessageHeader, message_header_init, message_header_struct,
}
use mpmc_with_memory_managem.Proto.Sbe.Market.{BestObRpiBody, BestObRpi, best_ob_rpi_body_struct}
use mpmc_with_memory_managem.Proto.Sbe.OrderEntry.{CreateOrderReqV5, create_order_req_v5_struct}
use mpmc_with_memory_managem.Proto.Sbe.FastOrder.{
  FastOrderRespBody, FastOrderResp, fast_order_resp_body_struct,
}

abbrev pub market_schema_id : ℕ
market_schema_id = 1

abbrev pub market_schema_version : ℕ
market_schema_version = 0

abbrev pub order_entry_schema_id : ℕ
order_entry_schema_id = 2

abbrev pub order_entry_schema_version : ℕ
order_entry_schema_version = 2

abbrev pub fast_order_schema_id : ℕ
fast_order_schema_id = 1

abbrev pub fast_order_schema_version : ℕ
fast_order_schema_version = 0

-- `kTemplateId` of the three messages
abbrev pub best_ob_rpi_template_id : ℕ
best_ob_rpi_template_id = 20000

abbrev pub create_order_req_v5_template_id : ℕ
create_order_req_v5_template_id = 5

abbrev pub fast_order_resp_template_id : ℕ
fast_order_resp_template_id = 21000

unfoldable pub read_header : Option (List ℕ) → Option MessageHeader
unfolding load
read_header none = none
read_header (some tail) =
    if ltb (length tail) (size_of MessageHeader) then none else some (load tail)

-- From the bytes at `offset` into `out`: its length, `out` as it is then, and the bytes at the new
-- offset.
unfoldable pub read_var_string8 : List ℕ → List ℕ → Option (ℕ × List ℕ × List ℕ)
read_var_string8 [] out = none
read_var_string8 (str_len ∷ tail) out =
    if ltb (length tail) str_len || leb (length out) str_len
    then none
    else some (str_len, take str_len tail ++ (0 ∷ drop (str_len + 1) out), drop str_len tail)

-- The three comparisons that each decoder makes with the header.
abbrev pub is_expected : MessageHeader → ℕ → ℕ → ℕ → Bool
is_expected header template_id schema_id block_length =
    header.template_id == template_id
    && header.schema_id == schema_id
    && leb block_length header.block_length

-- The string that ends a `BestObRpi`.
unfoldable pub read_symbol : List ℕ → BestObRpiBody → BestObRpi → Option BestObRpi
unfolding read_var_string8
read_symbol tail body out = elim (read_var_string8 tail out.symbol) [
  | none ↦ none
  | some (n, symbol, rest) ↦ some (record { body = body; symbol_len = n; symbol = symbol })
]

unfoldable pub decode_best_ob_rpi : Option (List ℕ) → BestObRpi → Option BestObRpi
unfolding read_header read_symbol load
decode_best_ob_rpi none out = none
decode_best_ob_rpi (some bytes) out =
    if ltb (length bytes) (size_of MessageHeader + size_of BestObRpiBody + 1)
    then none
    else elim (read_header (some bytes)) [
      | none ↦ none
      | some header ↦
          if is_expected header best_ob_rpi_template_id market_schema_id (size_of BestObRpiBody)
          then (let tail = drop (size_of MessageHeader) bytes in
              read_symbol (drop (size_of BestObRpiBody) tail) (load tail) out)
          else none
    ]

unfoldable pub decode_create_order_req : Option (List ℕ) → Option CreateOrderReqV5
unfolding read_header load
decode_create_order_req none = none
decode_create_order_req (some bytes) =
    if ltb (length bytes) (size_of MessageHeader + size_of CreateOrderReqV5)
    then none
    else elim (read_header (some bytes)) [
      | none ↦ none
      | some header ↦
          if is_expected header create_order_req_v5_template_id order_entry_schema_id
            (size_of CreateOrderReqV5)
          then some (load (drop (size_of MessageHeader) bytes))
          else none
    ]

-- The two strings that end a `FastOrderResp`.
unfoldable pub read_order_ids : List ℕ → FastOrderRespBody → FastOrderResp → Option FastOrderResp
unfolding read_var_string8
read_order_ids tail body out = elim (read_var_string8 tail out.order_id) [
  | none ↦ none
  | some (n, order_id, tail') ↦ elim (read_var_string8 tail' out.order_link_id) [
    | none ↦ none
    | some (m, order_link_id, rest) ↦ some (record {
      body = body;
      order_id_len = n;
      order_id = order_id;
      order_link_id_len = m;
      order_link_id = order_link_id;
    })
  ]
]

unfoldable pub decode_fast_order_resp : Option (List ℕ) → FastOrderResp → Option FastOrderResp
unfolding read_header read_order_ids load
decode_fast_order_resp none out = none
decode_fast_order_resp (some bytes) out =
    if ltb (length bytes) (size_of MessageHeader + size_of FastOrderRespBody + 1)
    then none
    else elim (read_header (some bytes)) [
      | none ↦ none
      | some header ↦
          if is_expected header fast_order_resp_template_id fast_order_schema_id
            (size_of FastOrderRespBody)
          then (let tail = drop (size_of MessageHeader) bytes in
              read_order_ids (drop (size_of FastOrderRespBody) tail) (load tail) out)
          else none
    ]

unfoldable pub encode_header : ℕ → ℕ → ℕ → ℕ → List ℕ
unfolding store
encode_header block_length template_id schema_id version = store header
  where
    header : MessageHeader
    header = record {
      block_length = block_length;
      template_id = template_id;
      schema_id = schema_id;
      version = version;
    }

-- `dst` is what stands before `offset`; the capacity is `cap`.
unfoldable pub append_var_string8 : ℕ → List ℕ → List ℕ → ℕ → List ℕ
append_var_string8 cap dst str str_len =
    if ltb cap (length dst + 1 + str_len) then dst else dst ++ (str_len ∷ take str_len str)

unfoldable pub encode_best_ob_rpi : BestObRpi → ℕ → Option (List ℕ)
unfolding encode_header append_var_string8 store
encode_best_ob_rpi msg cap =
    if ltb cap (size_of MessageHeader + size_of BestObRpiBody + 1 + msg.symbol_len)
    then none
    else some (
        append_var_string8 cap
          (encode_header (size_of BestObRpiBody) best_ob_rpi_template_id market_schema_id
              market_schema_version
            ++ store msg.body)
          msg.symbol msg.symbol_len)

unfoldable pub encode_create_order_req : CreateOrderReqV5 → ℕ → Option (List ℕ)
unfolding encode_header store
encode_create_order_req msg cap =
    if ltb cap (size_of MessageHeader + size_of CreateOrderReqV5)
    then none
    else some (
        encode_header (size_of CreateOrderReqV5) create_order_req_v5_template_id
          order_entry_schema_id order_entry_schema_version
        ++ store msg)

unfoldable pub encode_fast_order_resp : FastOrderResp → ℕ → Option (List ℕ)
unfolding encode_header append_var_string8 store
encode_fast_order_resp msg cap =
    if ltb cap (
      size_of MessageHeader
      + size_of FastOrderRespBody
      + 2
      + msg.order_id_len
      + msg.order_link_id_len)
    then none
    else some (
        append_var_string8 cap
          (append_var_string8 cap
            (encode_header (size_of FastOrderRespBody) fast_order_resp_template_id
                fast_order_schema_id fast_order_schema_version
              ++ store msg.body)
            msg.order_id msg.order_id_len)
          msg.order_link_id msg.order_link_id_len)

-- The handler's answer, for a frame whose block is all there.
unfoldable pub split_sbe_frame :
    {S : Type 0} → (S → List ℕ → MessageHeader → Bool × S) → S → Option (List ℕ) → Bool × S
unfolding read_header
split_sbe_frame on_message s none = (false, s)
split_sbe_frame on_message s (some frame) = elim (read_header (some frame)) [
  | none ↦ (false, s)
  | some header ↦
      if ltb (length frame) (size_of MessageHeader + header.block_length)
      then (false, s)
      else on_message s frame header
]
