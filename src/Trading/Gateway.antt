-- ===== src/Trading/Gateway.antt =====
-- include/trading/gateway.hpp: the exchange that confirms every order. A step is `none` while a
-- `push` is still spinning after `fuel` attempts.
pub mod Confirms
use mathlib.Core.Option
use mpmc_with_memory_managem.Base.{
  ℕ, ◌+◌, ◌-◌, ◌%◌, ◌^◌, Bool, Option, none, some, List, [], ◌∷◌, min, if◌then◌else◌, ◌++◌,
}
use mpmc_with_memory_managem.Wire.Struct.{load}
use mpmc_with_memory_managem.Proto.Nasdaq.{
  OuchEnterOrder, OuchOrderAccepted, ouch_enter_order_struct, ouch_order_accepted_init,
  ouch_order_accepted_struct,
}
use mpmc_with_memory_managem.Proto.Nse.{
  NnfOrderEntry, NnfOrderConfirm, nnf_order_entry_struct, nnf_order_confirm_init,
  nnf_order_confirm_struct,
}
use mpmc_with_memory_managem.Proto.Sbe.OrderEntry.{CreateOrderReqV5, create_order_req_v5_struct}
use mpmc_with_memory_managem.Proto.Sbe.FastOrder.{
  FastOrderResp, fast_order_resp_body_init, fast_order_resp_init, fast_order_resp_struct,
}
use mpmc_with_memory_managem.Proto.Mcx.Order.{NewOrderSingleShort, new_order_single_short_struct}
use mpmc_with_memory_managem.Proto.Mcx.Confirm.{
  ExecutionReportNew, execution_report_new_init, execution_report_new_struct,
}
use mpmc_with_memory_managem.Proto.Mcx.Codec.{exec_restatement_order_added}
use mpmc_with_memory_managem.Proto.Message.{
  TaggedMessage, Kind, ouch, nnf, sbe_order_entry, mcx_order, WireMessage, write_bytes,
  ouch_order_accepted_wire, nnf_order_confirm_wire, fast_order_resp_wire, execution_report_new_wire,
}
use mpmc_with_memory_managem.Pool.{TaggedPool, release, message_at, set_message}
use mpmc_with_memory_managem.Ring.{Mpmc, push, try_pop}
use mpmc_with_memory_managem.Trading.Format.{format_ouch_token, double_of, strnlen, copy_chars}

unfoldable pub make_ouch_confirm : OuchEnterOrder → ℕ → OuchOrderAccepted
unfolding format_ouch_token
make_ouch_confirm req order_ref = record ouch_order_accepted_init {
  message_type = 0x41;
  order_token = format_ouch_token req.order_token;
  buy_sell_indicator = req.buy_sell_indicator;
  shares = req.shares;
  stock = req.stock;
  price = req.price;
  time_in_force = req.time_in_force;
  order_reference_number = order_ref;
  order_state = 0x41;
}

-- `order_number` is a `double`'s pattern.
unfoldable pub make_nnf_confirm : NnfOrderEntry → ℕ → NnfOrderConfirm
make_nnf_confirm req order_number = record nnf_order_confirm_init {
  transcode = 2073;
  reason_code = 0;
  token = req.transaction_id;
  order_number = order_number;
  book_type = req.book_type;
  buy_sell = req.buy_sell;
  disclosed_vol = req.disclosed_vol;
  disclosed_vol_remaining = req.disclosed_vol;
  total_vol_remaining = req.volume;
  volume = req.volume;
  price = req.price;
  order_flags = req.order_flags;
  trader_id = req.trader_id;
}

-- "exch-oid"
abbrev pub exch_oid : List ℕ
exch_oid = 0x65 ∷ 0x78 ∷ 0x63 ∷ 0x68 ∷ 0x2d ∷ 0x6f ∷ 0x69 ∷ 0x64 ∷ []

-- `symbol_id` loses its upper half.
unfoldable pub make_sbe_fast_confirm : CreateOrderReqV5 → ℕ → FastOrderResp
unfolding strnlen
make_sbe_fast_confirm req seq = record {
  body = record fast_order_resp_body_init {
    category = req.category;
    side = req.side;
    order_status = 1;
    price_exponent = req.price.exponent;
    size_exponent = req.qty.exponent;
    price = req.price.mantissa;
    leaves_qty = req.qty.mantissa;
    symbol_id = req.symbol_id % 2 ^ 32;
    seq = seq;
  };
  order_link_id_len = min (strnlen req.order_link_id) 32;
  order_link_id =
      copy_chars (min (strnlen req.order_link_id) 32) req.order_link_id
        fast_order_resp_init.order_link_id;
  order_id_len = 8;
  order_id = copy_chars 8 exch_oid fast_order_resp_init.order_id;
}

unfoldable pub make_mcx_confirm : NewOrderSingleShort → ℕ → ℕ → ExecutionReportNew
make_mcx_confirm req order_id exec_id = record execution_report_new_init {
  msg_seq_num = req.msg_seq_num;
  order_id = order_id;
  cl_ord_id = req.cl_ord_id;
  simple_security_id = req.simple_security_id;
  exec_id = exec_id;
  ord_status = 0x30;
  exec_type = 0x30;
  exec_restatement_reason = exec_restatement_order_added;
}

pub record ExchangeGateway : Type 0 where
  pub pending_queue : Mpmc
  pub confirm_queue : Mpmc
  pub pool : TaggedPool
  pub next_ouch_ref : ℕ
  pub next_nnf_order : ℕ
  pub next_sbe_seq : ℕ
  pub next_mcx_order : ℕ
  pub next_mcx_exec : ℕ
  pub confirms : ℕ

abbrev fetch_add64 : ℕ → ℕ
fetch_add64 n = (n + 1) % 2 ^ 64

-- The confirmation over the message, the message into the confirm queue, and the count.
unfoldable pub confirm :
    {A : Type 0} ⦃w : WireMessage A⦄
    → (ℕ → Bool)
    → ℕ
    → ℕ
    → A
    → ExchangeGateway
    → Option ExchangeGateway
unfolding set_message message_at write_bytes push
confirm ⦃w⦄ spurious fuel pending ack g =
    Option.map
      (λ q. record g {
        confirm_queue = q;
        pool = set_message g.pool pending (record {
          kind = w.kind_of;
          bytes = write_bytes ⦃r = w.struct⦄ ack (message_at g.pool pending).bytes;
        });
        confirms = fetch_add64 g.confirms;
      })
      (push spurious fuel g.confirm_queue pending)

-- The switch on the popped message's kind.
unfoldable pub answer :
    (ℕ → Bool) → ℕ → ℕ → Kind → List ℕ → ExchangeGateway → Option ExchangeGateway
unfolding confirm make_ouch_confirm make_nnf_confirm make_sbe_fast_confirm make_mcx_confirm
    double_of release load
answer spurious fuel pending ouch bytes g =
    confirm spurious fuel pending (make_ouch_confirm (load bytes) g.next_ouch_ref)
      (record g { next_ouch_ref = fetch_add64 g.next_ouch_ref })
answer spurious fuel pending nnf bytes g =
    confirm spurious fuel pending (make_nnf_confirm (load bytes) (double_of g.next_nnf_order))
      (record g { next_nnf_order = fetch_add64 g.next_nnf_order })
answer spurious fuel pending sbe_order_entry bytes g =
    confirm spurious fuel pending (make_sbe_fast_confirm (load bytes) g.next_sbe_seq)
      (record g { next_sbe_seq = fetch_add64 g.next_sbe_seq })
answer spurious fuel pending mcx_order bytes g =
    confirm spurious fuel pending (make_mcx_confirm (load bytes) g.next_mcx_order g.next_mcx_exec)
      (record g {
        next_mcx_order = fetch_add64 g.next_mcx_order;
        next_mcx_exec = fetch_add64 g.next_mcx_exec;
      })
answer spurious fuel pending _ bytes g = some (record g { pool = release g.pool pending })

unfoldable pub poll_once : (ℕ → Bool) → ℕ → ExchangeGateway → Option ExchangeGateway
unfolding try_pop answer message_at
poll_once spurious fuel g = elim (try_pop g.pending_queue) [
  | none ↦ some g
  | some (pending, q) ↦
      let message = message_at g.pool pending in
      answer spurious fuel pending message.kind message.bytes (record g { pending_queue = q })
]
