-- ===== src/Proto/Message.antt =====
-- `Kind`, `Side`, `WireMessage` and `TaggedMessage` of include/proto/protocols.hpp.
use mpmc_with_memory_managem.Base.{ℕ, ◌≤◌, Bool, ◌||◌, List, [], ◌∷◌, ◌++◌, replicate, drop, ◌==◌}
use Prim.Native.Nat.{max}
use native.Mathlib.Omega.{arith}
use mathlib.Core.List.{foldr}
use mpmc_with_memory_managem.Wire.Struct.{Struct, size_of, store}
use mpmc_with_memory_managem.Proto.Nasdaq.{
  ItchAddOrder, OuchEnterOrder, OuchOrderAccepted, itch_add_order_struct, ouch_enter_order_struct,
  ouch_order_accepted_struct,
}
use mpmc_with_memory_managem.Proto.Nse.{
  MtbtNewOrder, NnfOrderEntry, NnfOrderConfirm, mtbt_new_order_struct, nnf_order_entry_struct,
  nnf_order_confirm_struct,
}
use mpmc_with_memory_managem.Proto.Signal.{StrategySignal, strategy_signal_struct}
use mpmc_with_memory_managem.Proto.Sbe.Market.{BestObRpi, best_ob_rpi_struct}
use mpmc_with_memory_managem.Proto.Sbe.OrderEntry.{CreateOrderReqV5, create_order_req_v5_struct}
use mpmc_with_memory_managem.Proto.Sbe.FastOrder.{FastOrderResp, fast_order_resp_struct}
use mpmc_with_memory_managem.Proto.Mcx.Order.{
  NewOrderSingleShort, TopOfBook, new_order_single_short_struct, top_of_book_struct,
}
use mpmc_with_memory_managem.Proto.Mcx.Confirm.{ExecutionReportNew, execution_report_new_struct}

-- Only the enumerators are ever stored in a message's `kind`.
pub data Kind : Type 0 where
  itch ouch mtbt nnf signal sbe_market sbe_order_entry sbe_fast_order : Kind
  ouch_confirm nnf_confirm mcx_market mcx_order mcx_confirm : Kind

-- The enumerator's value.
abbrev pub kind_code : Kind → ℕ
kind_code itch = 1
kind_code ouch = 2
kind_code mtbt = 3
kind_code nnf = 4
kind_code signal = 5
kind_code sbe_market = 6
kind_code sbe_order_entry = 7
kind_code sbe_fast_order = 8
kind_code ouch_confirm = 9
kind_code nnf_confirm = 10
kind_code mcx_market = 11
kind_code mcx_order = 12
kind_code mcx_confirm = 13

-- `a == b` on `Kind`.
abbrev pub same_kind : Kind → Kind → Bool
same_kind a b = kind_code a == kind_code b

pub data Side : Type 0 where
  none buy sell : Side

-- `sell` is -1, in 16 bits.
abbrev pub side_code : Side → ℕ
side_code none = 0
side_code buy = 1
side_code sell = 0xffff

abbrev pub is_order_confirm : Kind → Bool
is_order_confirm k =
    same_kind k ouch_confirm
    || same_kind k nnf_confirm
    || same_kind k sbe_fast_order
    || same_kind k mcx_confirm

abbrev pub is_order_request : Kind → Bool
is_order_request k =
    same_kind k ouch || same_kind k nnf || same_kind k sbe_order_entry || same_kind k mcx_order

-- The `return 0` after the switch is for values that are no enumerator.
unfoldable pub slot_size : Kind → ℕ
slot_size itch = size_of ItchAddOrder
slot_size ouch = size_of OuchEnterOrder
slot_size mtbt = size_of MtbtNewOrder
slot_size nnf = size_of NnfOrderEntry
slot_size signal = size_of StrategySignal
slot_size sbe_market = size_of BestObRpi
slot_size sbe_order_entry = size_of CreateOrderReqV5
slot_size sbe_fast_order = size_of FastOrderResp
slot_size ouch_confirm = size_of OuchOrderAccepted
slot_size nnf_confirm = size_of NnfOrderConfirm
slot_size mcx_market = size_of TopOfBook
slot_size mcx_order = size_of NewOrderSingleShort
slot_size mcx_confirm = size_of ExecutionReportNew

abbrev pub max_slot_size : ℕ
max_slot_size = foldr max 0 (
    size_of ItchAddOrder
    ∷ size_of OuchEnterOrder
    ∷ size_of OuchOrderAccepted
    ∷ size_of MtbtNewOrder
    ∷ size_of NnfOrderEntry
    ∷ size_of NnfOrderConfirm
    ∷ size_of StrategySignal
    ∷ size_of BestObRpi
    ∷ size_of CreateOrderReqV5
    ∷ size_of FastOrderResp
    ∷ size_of NewOrderSingleShort
    ∷ size_of ExecutionReportNew
    ∷ size_of TopOfBook
    ∷ [])

-- A struct that satisfies `WireMessage`, with its `kind_of`.
pub record WireMessage (A : Type 0) : Type 0 where
  pub struct : Struct A
  pub kind_of : Kind

instance abbrev pub itch_add_order_wire : WireMessage ItchAddOrder
itch_add_order_wire = record { struct = itch_add_order_struct; kind_of = itch }

instance abbrev pub ouch_enter_order_wire : WireMessage OuchEnterOrder
ouch_enter_order_wire = record { struct = ouch_enter_order_struct; kind_of = ouch }

instance abbrev pub ouch_order_accepted_wire : WireMessage OuchOrderAccepted
ouch_order_accepted_wire = record { struct = ouch_order_accepted_struct; kind_of = ouch_confirm }

instance abbrev pub mtbt_new_order_wire : WireMessage MtbtNewOrder
mtbt_new_order_wire = record { struct = mtbt_new_order_struct; kind_of = mtbt }

instance abbrev pub nnf_order_entry_wire : WireMessage NnfOrderEntry
nnf_order_entry_wire = record { struct = nnf_order_entry_struct; kind_of = nnf }

instance abbrev pub nnf_order_confirm_wire : WireMessage NnfOrderConfirm
nnf_order_confirm_wire = record { struct = nnf_order_confirm_struct; kind_of = nnf_confirm }

instance abbrev pub best_ob_rpi_wire : WireMessage BestObRpi
best_ob_rpi_wire = record { struct = best_ob_rpi_struct; kind_of = sbe_market }

instance abbrev pub create_order_req_wire : WireMessage CreateOrderReqV5
create_order_req_wire = record { struct = create_order_req_v5_struct; kind_of = sbe_order_entry }

instance abbrev pub fast_order_resp_wire : WireMessage FastOrderResp
fast_order_resp_wire = record { struct = fast_order_resp_struct; kind_of = sbe_fast_order }

instance abbrev pub top_of_book_wire : WireMessage TopOfBook
top_of_book_wire = record { struct = top_of_book_struct; kind_of = mcx_market }

instance abbrev pub new_order_single_short_wire : WireMessage NewOrderSingleShort
new_order_single_short_wire = record { struct = new_order_single_short_struct; kind_of = mcx_order }

instance abbrev pub execution_report_new_wire : WireMessage ExecutionReportNew
execution_report_new_wire = record { struct = execution_report_new_struct; kind_of = mcx_confirm }

pub record TaggedMessage : Type 0 where
  pub kind : Kind
  pub bytes : List ℕ

-- A zeroed buffer; shut, since the tactics would spell it out.
unfoldable pub zero_bytes : List ℕ
zero_bytes = replicate max_slot_size 0

-- `TaggedMessage{}`
abbrev pub tagged_message_init : TaggedMessage
tagged_message_init = record { kind = itch; bytes = zero_bytes }

-- `std::memcpy(bytes.data(), &s, sizeof(s))`: the bytes past the struct stay.
unfoldable pub write_bytes : {A : Type 0} ⦃r : Struct A⦄ → A → List ℕ → List ℕ
write_bytes {A} ⦃r⦄ s bytes = store s ++ drop (size_of A) bytes

-- Of every kind, the struct is no larger than the buffer of a pooled message.
pub slot_size-le-max : (k : Kind) → slot_size k ≤ max_slot_size
unfolding slot_size
slot_size-le-max itch = omega arith
slot_size-le-max _ = omega arith
