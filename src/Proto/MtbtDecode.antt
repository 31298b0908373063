-- ===== src/Proto/MtbtDecode.antt =====
-- include/proto/mtbt_decode.hpp. A payload is the `len` bytes behind a pointer, `none` for
-- `nullptr`; the handler is a function of the state that it captures.
pub mod Framing
pub mod Hang
use mpmc_with_memory_managem.Base.{
  ℕ, zero, suc, ◌+◌, ◌-◌, ◌%◌, ◌^◌, Bool, not, ◌||◌, Option, none, some, List, length, drop, ltb,
  ◌==◌, if◌then◌else◌,
}
use mpmc_with_memory_managem.Wire.Struct.{size_of, load}
use mpmc_with_memory_managem.Proto.Nse.{
  MtbtStreamHeader, MtbtNewOrder, mtbt_stream_header_struct, mtbt_new_order_struct,
}
use mpmc_with_memory_managem.Proto.Frame.{Stats, stats_init, count}

abbrev pub mtbt_order_wire_size : ℕ
mtbt_order_wire_size = size_of MtbtStreamHeader + size_of MtbtNewOrder

pub record MtbtDecodedOrder : Type 0 where
  pub header : MtbtStreamHeader
  pub order : MtbtNewOrder

unfoldable pub decode_mtbt_stream_header : Option (List ℕ) → Option MtbtStreamHeader
unfolding load
decode_mtbt_stream_header none = none
decode_mtbt_stream_header (some wire) =
    if ltb (length wire) (size_of MtbtStreamHeader) then none else some (load wire)

-- `kTypeNew`, `kTypeMod` and `kTypeCancel` are 'N', 'M' and 'X'.
unfoldable pub decode_mtbt_order_body : Option (List ℕ) → Option MtbtNewOrder
unfolding load
decode_mtbt_order_body none = none
decode_mtbt_order_body (some body) =
    if ltb (length body) (size_of MtbtNewOrder)
    then none
    else if out.message_type == 0x4e || out.message_type == 0x4d || out.message_type == 0x58
    then some out
    else none
  where
    out : MtbtNewOrder
    out = load body

unfoldable pub decode_mtbt_order : Option (List ℕ) → Option MtbtDecodedOrder
unfolding decode_mtbt_stream_header decode_mtbt_order_body
decode_mtbt_order none = none
decode_mtbt_order (some bytes) =
    if ltb (length bytes) mtbt_order_wire_size
    then none
    else elim (decode_mtbt_stream_header (some bytes)) [
      | none ↦ none
      | some header ↦
          if not (header.msg_len == mtbt_order_wire_size)
          then none
          else elim (decode_mtbt_order_body (some (drop (size_of MtbtStreamHeader) bytes))) [
            | none ↦ none
            | some order ↦ some (record { header = header; order = order })
          ]
    ]

-- `static_cast<std::size_t>` of an `std::int16_t` with this pattern.
abbrev pub to_size_t : ℕ → ℕ
to_size_t n = if ltb n (2 ^ 15) then n else n + 2 ^ 64 - 2 ^ 16

-- `a + b` on `std::size_t`.
abbrev pub add_size_t : ℕ → ℕ → ℕ
add_size_t a b = (a + b) % 2 ^ 64

module _ {S : Type 0} (on_packet : S → List ℕ → ℕ → MtbtStreamHeader → Bool × S) where
  -- The loop, at `offset`. The handler gets the bytes from the packet's first one to the end of the
  -- frame, and the length that it is told.
  unfoldable pub mtbt_loop : ℕ → List ℕ → ℕ → Stats → S → Option (Stats × S)
  unfolding decode_mtbt_stream_header
  mtbt_loop zero frame offset stats s = none
  mtbt_loop (suc fuel) frame offset stats s =
      elim (if ltb (length frame) (add_size_t offset (size_of MtbtStreamHeader))
        then none
        else decode_mtbt_stream_header (some (drop offset frame))) [
          | none ↦ some (record stats { consumed = offset }, s)
          | some header ↦
              let packet_len = to_size_t header.msg_len in
              let r = on_packet s (drop offset frame) packet_len header in
              let next =
                mtbt_loop fuel frame (add_size_t offset packet_len) (count r.0 stats) r.1 in
              if ltb packet_len (size_of MtbtStreamHeader)
                || ltb (length frame) (add_size_t offset packet_len)
              then some (record stats { consumed = offset }, s)
              else next
        ]

  -- `none` is no result within this fuel.
  unfoldable pub split_mtbt_frame : ℕ → S → Option (List ℕ) → Option (Stats × S)
  unfolding mtbt_loop
  split_mtbt_frame fuel s none = some (stats_init, s)
  split_mtbt_frame fuel s (some frame) = mtbt_loop fuel frame 0 stats_init s
