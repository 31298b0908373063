-- ===== src/Proto/Mcx/Codec.antt =====
-- include/proto/mcx/decode.hpp, and the template ids of include/proto/mcx/common.hpp. A payload is
-- the `len` bytes behind a pointer, `none` for `nullptr`; an encoder gives the bytes that it wrote,
-- as many as it returns, and `none` is its 0.
pub mod RoundTrip
use mpmc_with_memory_managem.Base.{
  ℕ, ◌+◌, ◌/◌, ◌*◌, ◌%◌, ◌^◌, Bool, false, ◌||◌, Option, none, some, List, length, take, drop, ltb,
  ◌==◌, if◌then◌else◌,
}
use mpmc_with_memory_managem.Wire.{of_le}
use mpmc_with_memory_managem.Wire.Struct.{size_of, store, load}
use mpmc_with_memory_managem.Proto.Mcx.Order.{NewOrderSingleShort, new_order_single_short_struct}
use mpmc_with_memory_managem.Proto.Mcx.Confirm.{ExecutionReportNew, execution_report_new_struct}

abbrev pub template_new_order_single_short : ℕ
template_new_order_single_short = 10125

abbrev pub template_execution_report_new : ℕ
template_execution_report_new = 10101

abbrev pub exec_restatement_order_added : ℕ
exec_restatement_order_added = 101

-- `(len + 7U) & ~7U`: the sum wraps, and the mask takes off its last three bits.
unfoldable pub align_body_len : ℕ → ℕ
align_body_len len = (len + 7) % 2 ^ 32 / 8 * 8

unfoldable pub read_template_id : Option (List ℕ) → Option ℕ
unfolding of_le
read_template_id none = none
read_template_id (some bytes) =
    if ltb (length bytes) 6 then none else some (of_le (take 2 (drop 4 bytes)))

unfoldable pub decode_new_order_short : Option (List ℕ) → Option NewOrderSingleShort
unfolding load
decode_new_order_short none = none
decode_new_order_short (some payload) =
    if ltb (length payload) (size_of NewOrderSingleShort)
    then none
    else if out.template_id == template_new_order_single_short
    then some out
    else none
  where
    out : NewOrderSingleShort
    out = load payload

unfoldable pub decode_execution_report : Option (List ℕ) → Option ExecutionReportNew
unfolding load
decode_execution_report none = none
decode_execution_report (some payload) =
    if ltb (length payload) (size_of ExecutionReportNew)
    then none
    else if out.template_id == template_execution_report_new
    then some out
    else none
  where
    out : ExecutionReportNew
    out = load payload

unfoldable pub encode_new_order_short : NewOrderSingleShort → ℕ → Option (List ℕ)
unfolding store
encode_new_order_short msg cap =
    if ltb cap (size_of NewOrderSingleShort) then none else some (store wire)
  where
    wire : NewOrderSingleShort
    wire = record msg {
      body_len = size_of NewOrderSingleShort;
      template_id = template_new_order_single_short;
    }

unfoldable pub encode_execution_report : ExecutionReportNew → ℕ → Option (List ℕ)
unfolding store
encode_execution_report msg cap =
    if ltb cap (size_of ExecutionReportNew) then none else some (store wire)
  where
    wire : ExecutionReportNew
    wire = record msg {
      body_len = size_of ExecutionReportNew;
      template_id = template_execution_report_new;
    }

-- The handler, a function of the state that it captures, gets the first `body_len` bytes.
unfoldable pub split_eti_frame :
    {S : Type 0} → (S → List ℕ → Bool × S) → S → Option (List ℕ) → Bool × S
unfolding of_le
split_eti_frame on_message s none = (false, s)
split_eti_frame on_message s (some frame) =
    let body_len = of_le (take 4 frame) in
    if ltb (length frame) 8
    then (false, s)
    else if body_len == 0 || ltb (length frame) body_len
    then (false, s)
    else on_message s (take body_len frame)
