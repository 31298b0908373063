-- ===== src/Proto/Tests.antt =====
-- Frames and messages that the decoders read.
use mpmc_with_memory_managem.Base.{
  ℕ, ◌+◌, ◌*◌, ◌^◌, ◌<◌, ◌≤◌, ◌≡◌, refl, arith, Bool, true, none, some, List, [], ◌∷◌, length,
  replicate,
}
use mpmc_with_memory_managem.Wire.{encode, to_le}
use mpmc_with_memory_managem.Wire.Fits.{checked}
use mpmc_with_memory_managem.Wire.Struct.{store}
use mpmc_with_memory_managem.Proto.Frame.{Stats}
use mpmc_with_memory_managem.Proto.ItchDecode.{split_itch_frame}
use mpmc_with_memory_managem.Proto.ItchDecode.Framing.{
  itch_frame, split_itch_frame_messages, split_itch_frame_bounded,
}
use mpmc_with_memory_managem.Proto.Nse.{MtbtStreamHeader, mtbt_stream_header_struct}
use mpmc_with_memory_managem.Proto.MtbtDecode.{split_mtbt_frame}
use mpmc_with_memory_managem.Proto.MtbtDecode.Framing.{
  Packet, IsPacket, mtbt_frame, split_mtbt_frame_packets,
}
use mpmc_with_memory_managem.Proto.MtbtDecode.Hang.{hanging_frame, split_mtbt_frame_hangs}
use mpmc_with_memory_managem.Proto.Sbe.Market.{BestObRpi, best_ob_rpi_init, best_ob_rpi_body_struct}
use mpmc_with_memory_managem.Proto.Sbe.OrderEntry.{
  CreateOrderReqV5, create_order_req_v5_init, create_order_req_v5_struct,
}
use mpmc_with_memory_managem.Proto.Sbe.FastOrder.{
  FastOrderResp, fast_order_resp_init, fast_order_resp_body_struct,
}
use mpmc_with_memory_managem.Proto.Sbe.Codec.{decode_best_ob_rpi, encode_best_ob_rpi}
use mpmc_with_memory_managem.Proto.Sbe.Codec.RoundTrip.{decode-encode_best_ob_rpi}
use mpmc_with_memory_managem.Proto.Mcx.Order.{
  new_order_single_short_init, new_order_single_short_struct,
}
use mpmc_with_memory_managem.Proto.Mcx.Confirm.{execution_report_new_struct}
use mpmc_with_memory_managem.Proto.Mcx.Codec.{decode_new_order_short, encode_new_order_short}
use mpmc_with_memory_managem.Proto.Mcx.Codec.RoundTrip.{sealed_order, decode-encode_new_order_short}

-- A handler that counts the bytes and accepts every message.
abbrev counting : ℕ → List ℕ → Bool × ℕ
counting n body = (true, n + length body)

abbrev bodies : List (List ℕ)
bodies = (65 ∷ 1 ∷ []) ∷ (66 ∷ []) ∷ []

split_itch_frame_messages_example :
    split_itch_frame counting 0 (some (itch_frame bodies))
    ≡ some (record { saved = 2; skipped = 0; consumed = 7 }, 3)
split_itch_frame_messages_example =
    split_itch_frame_messages counting bodies 0
      ((omega arith, omega arith), ((omega arith, omega arith), tt))

split_itch_frame_bounded_example :
    (r : Stats × ℕ) × (split_itch_frame counting 0 (some (0 ∷ 1 ∷ 65 ∷ 0 ∷ [])) ≡ some r)
    × (r.0.consumed ≤ 4)
    × (3 * (r.0.saved + r.0.skipped) ≤ r.0.consumed)
split_itch_frame_bounded_example = split_itch_frame_bounded counting (0 ∷ 1 ∷ 65 ∷ 0 ∷ []) 0

-- A handler that counts the packets.
abbrev count_packets : ℕ → List ℕ → ℕ → MtbtStreamHeader → Bool × ℕ
count_packets n packet packet_len header = (true, n + 1)

abbrev packet : Packet
packet = record { header = record { msg_len = 10; stream_id = 1; seq_no = 7 }; body = 78 ∷ 0 ∷ [] }

packet-IsPacket : IsPacket packet
packet-IsPacket = record { object = checked packet.header refl; told = refl; small = omega arith }

frame_size : length (mtbt_frame (packet ∷ packet ∷ [])) < 2 ^ 63
unfolding store encode to_le
frame_size = omega arith

split_mtbt_frame_packets_example :
    split_mtbt_frame count_packets 3 0 (some (mtbt_frame (packet ∷ packet ∷ [])))
    ≡ some (
      record { saved = 2; skipped = 0; consumed = length (mtbt_frame (packet ∷ packet ∷ [])) },
      2,
    )
split_mtbt_frame_packets_example =
    split_mtbt_frame_packets count_packets 3 (packet ∷ packet ∷ []) 0 frame_size
      (packet-IsPacket, (packet-IsPacket, tt)) (omega arith)

abbrev back : MtbtStreamHeader
back = record { msg_len = 0xfff6; stream_id = 1; seq_no = 8 }

hanging_size : length (hanging_frame packet back []) < 2 ^ 63
unfolding store encode to_le
hanging_size = omega arith

split_mtbt_frame_hangs_example :
    split_mtbt_frame count_packets 1000 0 (some (hanging_frame packet back [])) ≡ none
split_mtbt_frame_hangs_example =
    split_mtbt_frame_hangs count_packets packet packet-IsPacket back (checked back refl) refl []
      hanging_size 1000 0

abbrev request : CreateOrderReqV5
request = record create_order_req_v5_init { symbol_id = 42; side = 2 }

abbrev quote_of : ℕ → BestObRpi
quote_of n = record best_ob_rpi_init { symbol_len = n; symbol = 66 ∷ 84 ∷ 67 ∷ replicate 13 88 }

decode-encode_best_ob_rpi_example :
    decode_best_ob_rpi (encode_best_ob_rpi (quote_of 3) 256) best_ob_rpi_init
    ≡ some (record (quote_of 3) { symbol = 66 ∷ 84 ∷ 67 ∷ replicate 13 0 })
decode-encode_best_ob_rpi_example =
    decode-encode_best_ob_rpi (quote_of 3) best_ob_rpi_init 256 (checked (quote_of 3).body refl)
      refl refl (omega arith)

abbrev response : FastOrderResp
response = record fast_order_resp_init {
  order_id_len = 2;
  order_id = 65 ∷ 66 ∷ replicate 30 0;
  order_link_id_len = 1;
  order_link_id = 67 ∷ replicate 31 0;
}

decode-encode_new_order_short_example :
    decode_new_order_short (encode_new_order_short new_order_single_short_init 128)
    ≡ some (sealed_order new_order_single_short_init)
decode-encode_new_order_short_example =
    decode-encode_new_order_short new_order_single_short_init 128
      (checked (sealed_order new_order_single_short_init) refl)
