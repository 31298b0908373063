-- ===== src/Proto/Sizes.antt =====
-- The `static_assert`s on the sizes of the wire structs.
use mpmc_with_memory_managem.Base.{◌≡◌, refl}
use mpmc_with_memory_managem.Wire.Struct.{size_of}
use mpmc_with_memory_managem.Proto.Nasdaq.{
  ItchAddOrder, OuchEnterOrder, OuchOrderAccepted, itch_add_order_struct, ouch_enter_order_struct,
  ouch_order_accepted_struct,
}
use mpmc_with_memory_managem.Proto.Nse.{
  MtbtStreamHeader, MtbtNewOrder, NnfOrderEntry, NnfOrderConfirm, NnfMessageHeader,
  mtbt_stream_header_struct, mtbt_new_order_struct, nnf_order_entry_struct,
  nnf_order_confirm_struct, nnf_message_header_struct,
}
use mpmc_with_memory_managem.Proto.Signal.{StrategySignal, strategy_signal_struct}
use mpmc_with_memory_managem.Proto.Sbe.Header.{
  MessageHeader, message_header_struct, GroupSize16, group_size16_struct,
}
use mpmc_with_memory_managem.Proto.Sbe.Market.{
  BestObRpiBody, ObL50Level, ObL50Body, PublicTradeItem, PublicTradeBody, best_ob_rpi_body_struct,
  ob_l50_level_struct, ob_l50_body_struct, public_trade_item_struct, public_trade_body_struct,
}
use mpmc_with_memory_managem.Proto.Sbe.OrderEntry.{
  AuthReq, CreateOrderReqV5, CreateOrderRespV5, CancelOrderReqV5, auth_req_struct,
  create_order_req_v5_struct, create_order_resp_v5_struct, cancel_order_req_v5_struct,
}
use mpmc_with_memory_managem.Proto.Sbe.FastOrder.{FastOrderRespBody, fast_order_resp_body_struct}
use mpmc_with_memory_managem.Proto.Mcx.Header.{
  MessageHeaderIn, MessageHeaderOut, RequestHeader, ResponseHeaderMe, message_header_in_struct,
  message_header_out_struct, request_header_struct, response_header_me_struct,
}
use mpmc_with_memory_managem.Proto.Mcx.Order.{
  NewOrderSingleShort, TopOfBook, new_order_single_short_struct, top_of_book_struct,
}
use mpmc_with_memory_managem.Proto.Mcx.Confirm.{ExecutionReportNew, execution_report_new_struct}

-- The structs have the sizes that the headers assert for them.
wire_sizes :
    (size_of ItchAddOrder ≡ 36)
    × (size_of OuchEnterOrder ≡ 45)
    × (size_of OuchOrderAccepted ≡ 66)
    × (size_of MtbtStreamHeader ≡ 8)
    × (size_of MtbtNewOrder ≡ 26)
    × (size_of NnfOrderEntry ≡ 136)
    × (size_of NnfOrderConfirm ≡ 100)
    × (size_of NnfMessageHeader ≡ 40)
    × (size_of StrategySignal ≡ 39)
    × (size_of MessageHeader ≡ 8)
    × (size_of GroupSize16 ≡ 4)
    × (size_of BestObRpiBody ≡ 98)
    × (size_of ObL50Level ≡ 16)
    × (size_of ObL50Body ≡ 35)
    × (size_of PublicTradeItem ≡ 35)
    × (size_of PublicTradeBody ≡ 10)
    × (size_of AuthReq ≡ 200)
    × (size_of CreateOrderReqV5 ≡ 242)
    × (size_of CreateOrderRespV5 ≡ 364)
    × (size_of CancelOrderReqV5 ≡ 277)
    × (size_of FastOrderRespBody ≡ 60)
    × (size_of MessageHeaderIn ≡ 16)
    × (size_of MessageHeaderOut ≡ 8)
    × (size_of RequestHeader ≡ 8)
    × (size_of ResponseHeaderMe ≡ 72)
    × (size_of NewOrderSingleShort ≡ 120)
    × (size_of ExecutionReportNew ≡ 188)
    × (size_of TopOfBook ≡ 56)
wire_sizes = (
  refl, refl, refl, refl, refl, refl, refl, refl, refl, refl, refl, refl, refl, refl, refl, refl,
  refl, refl, refl, refl, refl, refl, refl, refl, refl, refl, refl, refl,
)
