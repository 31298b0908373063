-- ===== src/Feed/Ingress.antt =====
-- include/feed/frame_ingress.hpp. What the handlers capture is a `Store`; `none` once a `push` is
-- still spinning after `fuel` attempts.
use mathlib.Core.Option
use mpmc_with_memory_managem.Base.{
  ℕ, Bool, true, false, not, Option, none, some, List, length, take, ◌==◌, if◌then◌else◌,
}
use mpmc_with_memory_managem.Wire.Struct.{size_of, load}
use mpmc_with_memory_managem.Proto.Nse.{MtbtStreamHeader}
use mpmc_with_memory_managem.Proto.Mcx.Order.{TopOfBook, top_of_book_struct}
use mpmc_with_memory_managem.Proto.Message.{
  WireMessage, itch_add_order_wire, mtbt_new_order_wire, top_of_book_wire,
}
use mpmc_with_memory_managem.Proto.Frame.{Stats, stats_init}
use mpmc_with_memory_managem.Proto.ItchDecode.{decode_itch_add_order, split_itch_frame}
use mpmc_with_memory_managem.Proto.MtbtDecode.{decode_mtbt_order, split_mtbt_frame}
use mpmc_with_memory_managem.Pool.{TaggedPool, acquire_filled}
use mpmc_with_memory_managem.Ring.{Mpmc, push}

pub record Store : Type 0 where
  pub pool : TaggedPool
  pub queue : Mpmc

-- `busy i` and `spurious n` are spurious failures in `acquire` and in `push`.
module _ (busy spurious : ℕ → Bool) (fuel : ℕ) where
  -- `acquire_filled`, and `push` of what it returns: the end of each handler.
  unfoldable pub keep : {A : Type 0} ⦃w : WireMessage A⦄ → A → Store → Bool × Option Store
  unfolding acquire_filled push
  keep decoded s =
      let (slot, pool) = acquire_filled busy s.pool decoded in
      if slot == 0 then (false, some (record s { pool = pool })) else (
        true,
        Option.map (λ q. record { pool = pool; queue = q }) (push spurious fuel s.queue slot),
      )

  unfoldable pub on_itch_message : Option Store → List ℕ → Bool × Option Store
  unfolding decode_itch_add_order keep
  on_itch_message none body = (false, none)
  on_itch_message (some s) body = elim (decode_itch_add_order (some body)) [
    | none ↦ (false, some s)
    | some decoded ↦ keep decoded s
  ]

  unfoldable pub ingest_itch_frame : Option (List ℕ) → Store → Option (Stats × Option Store)
  unfolding split_itch_frame on_itch_message
  ingest_itch_frame frame s = split_itch_frame on_itch_message (some s) frame

  -- `decode_mtbt_order` reads `packet_len` bytes, of which the frame holds at most these.
  unfoldable pub on_mtbt_packet : Option Store → List ℕ → ℕ → MtbtStreamHeader → Bool × Option Store
  unfolding decode_mtbt_order keep
  on_mtbt_packet none packet packet_len header = (false, none)
  on_mtbt_packet (some s) packet packet_len header =
      elim (decode_mtbt_order (some (take packet_len packet))) [
        | none ↦ (false, some s)
        | some decoded ↦ keep decoded.order s
      ]

  -- `turns` is the fuel of the splitter's loop.
  unfoldable pub ingest_mtbt_frame : ℕ → Option (List ℕ) → Store → Option (Stats × Option Store)
  unfolding split_mtbt_frame on_mtbt_packet
  ingest_mtbt_frame turns frame s = split_mtbt_frame on_mtbt_packet turns (some s) frame

  unfoldable pub ingest_mcx_tob_frame : Option (List ℕ) → Store → Stats × Option Store
  unfolding keep load
  ingest_mcx_tob_frame none s = (stats_init, some s)
  ingest_mcx_tob_frame (some frame) s =
      if not (length frame == size_of TopOfBook) then (stats_init, some s) else (
        (if r.0 then record stats_init { saved = 1; consumed = length frame } else stats_init),
        r.1,
      )
    where
      tick : TopOfBook
      tick = load frame

      r : Bool × Option Store
      r = keep tick s
