-- ===== src/Proto/Mcx/Codec/RoundTrip.antt =====
-- What the decoders of include/proto/mcx/decode.hpp read of what its encoders wrote.
use mathlib.Core.List.{append-nil}
use mpmc_with_memory_managem.Base.{
  ℕ, ◌+◌, ◌≤◌, ◌<◌, ◌^◌, ◌%◌, ◌≡◌, refl, sym, ap, ◌∙◌, arith, false, inl, inr, Bool-cases, none,
  some, [], length, ltb, if◌then◌else◌,
}
use mpmc_with_memory_managem.Wire.{decode, encode}
use mpmc_with_memory_managem.Wire.Struct.{Struct, store, load, load-store, length-store, IsObject}
use mpmc_with_memory_managem.Proto.Mcx.Order.{NewOrderSingleShort, new_order_single_short_struct}
use mpmc_with_memory_managem.Proto.Mcx.Confirm.{ExecutionReportNew, execution_report_new_struct}
use mpmc_with_memory_managem.Proto.Mcx.Codec.{
  align_body_len, decode_new_order_short, decode_execution_report, encode_new_order_short,
  encode_execution_report,
}

load_all : {A : Type 0} ⦃r : Struct A⦄ → (a : A) → IsObject a → load (store a) ≡ a
load_all a h = ap load (sym (append-nil (store a))) ∙ load-store a [] h

-- The members that the encoders fill in.
abbrev pub sealed_order : NewOrderSingleShort → NewOrderSingleShort
sealed_order msg = record msg { body_len = 120; template_id = 10125 }

abbrev pub sealed_report : ExecutionReportNew → ExecutionReportNew
sealed_report msg = record msg { body_len = 188; template_id = 10101 }

-- An MCX order whose sealed form is in range, encoded and decoded: nothing if the buffer is smaller
-- than 120 bytes, and otherwise the order with its length and template id filled in.
pub decode-encode_new_order_short :
    (msg : NewOrderSingleShort) (cap : ℕ)
    → IsObject (sealed_order msg)
    → decode_new_order_short (encode_new_order_short msg cap)
      ≡ (if ltb cap 120 then none else some (sealed_order msg))
unfolding encode_new_order_short decode_new_order_short decode encode
decode-encode_new_order_short msg cap h = elim (Bool-cases (ltb cap 120)) [
  | inl small ↦ rw small refl
  | inr fits ↦ rw (fits, long_enough, load_all (sealed_order msg) h) refl
]
  where
    long_enough : ltb (length (store (sealed_order msg))) 120 ≡ false
    long_enough = ground (arith, length-store (sealed_order msg) h)

-- An MCX report whose sealed form is in range, encoded and decoded: nothing if the buffer is
-- smaller than 188 bytes, and otherwise the report with its length and template id filled in.
pub decode-encode_execution_report :
    (msg : ExecutionReportNew) (cap : ℕ)
    → IsObject (sealed_report msg)
    → decode_execution_report (encode_execution_report msg cap)
      ≡ (if ltb cap 188 then none else some (sealed_report msg))
unfolding encode_execution_report decode_execution_report decode encode
decode-encode_execution_report msg cap h = elim (Bool-cases (ltb cap 188)) [
  | inl small ↦ rw small refl
  | inr fits ↦ rw (fits, long_enough, load_all (sealed_report msg) h) refl
]
  where
    long_enough : ltb (length (store (sealed_report msg))) 188 ≡ false
    long_enough = ground (arith, length-store (sealed_report msg) h)

-- For a length that does not overflow, `align_body_len` is the least multiple of 8 that is not
-- smaller: a multiple of 8, at least the length, and less than 8 above it.
pub align_body_len_lem :
    (len : ℕ)
    → len + 7 < 2 ^ 32
    → (align_body_len len % 8 ≡ 0) × (len ≤ align_body_len len) × (align_body_len len < len + 8)
unfolding align_body_len
align_body_len_lem len h = (omega arith, omega arith, omega arith)
