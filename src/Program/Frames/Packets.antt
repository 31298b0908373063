-- ===== src/Program/Frames/Packets.antt =====
-- The same for the MTBT frames.
use mathlib.Core.List.{append-nil}
use mpmc_with_memory_managem.Base.{
  ℕ, ◌<◌, ◌≡◌, refl, sym, ap, ◌∙◌, arith, Bool, true, false, Option, none, some, List, [], ◌∷◌,
  ◌++◌, ◌==◌, length, length-append, take, take_all, drop_all, ltb,
}
use mpmc_with_memory_managem.Wire.Struct.{IsObject, store, load, load-store, length-store}
use mpmc_with_memory_managem.Proto.Frame.{Stats, stats_init, count}
use mpmc_with_memory_managem.Proto.Nse.{
  MtbtStreamHeader, mtbt_stream_header_struct, MtbtNewOrder, mtbt_new_order_struct,
}
use mpmc_with_memory_managem.Proto.MtbtDecode.{
  MtbtDecodedOrder, decode_mtbt_order_body, decode_mtbt_order, split_mtbt_frame,
}
use mpmc_with_memory_managem.Proto.MtbtDecode.Framing.{
  Packet, packet_bytes, IsPacket, mtbt_frame, read_header, deliver, split_mtbt_frame_packets,
}
use mpmc_with_memory_managem.Program.Frames.{order_header, new_order, append_mtbt_order}

-- A handler that keeps what it decodes of a packet.
abbrev pub gather_mtbt :
    List MtbtDecodedOrder → List ℕ → ℕ → MtbtStreamHeader → Bool × List MtbtDecodedOrder
gather_mtbt orders packet packet_len header =
    elim (decode_mtbt_order (some (take packet_len packet))) [
      | none ↦ (false, orders)
      | some order ↦ (true, orders ++ order ∷ [])
    ]

decode_mtbt_order_body-some :
    (body : List ℕ) (order : MtbtNewOrder)
    → length body ≡ 26
    → load body ≡ order
    → order.message_type ≡ 0x4e
    → decode_mtbt_order_body (some body) ≡ some order
unfolding decode_mtbt_order_body
decode_mtbt_order_body-some body order size e kind =
    let sized : ltb (length body) 26 ≡ false = ground (arith, size) in
    let is_new : ((load {A = MtbtNewOrder} body).message_type == 0x4e) ≡ true =
      ap (λ (o : MtbtNewOrder). o.message_type == 0x4e) e ∙ ap (λ n. n == 0x4e) kind in
    rw (sized, is_new) (ap some e)

decode_mtbt_order-some :
    (header : MtbtStreamHeader) (body : List ℕ) (order : MtbtNewOrder)
    → IsObject header
    → header.msg_len ≡ 34
    → length body ≡ 26
    → load body ≡ order
    → order.message_type ≡ 0x4e
    → decode_mtbt_order (some (store header ++ body))
      ≡ some (record { header = header; order = order })
unfolding decode_mtbt_order
decode_mtbt_order-some header body order object told size e kind =
    let long : ltb (length (store header ++ body)) 34 ≡ false =
      ground (arith, length-append (store header) body, length-store header object, size) in
    let full : (header.msg_len == 34) ≡ true = ground (arith, told) in
    rw
      (
        long,
        read_header header body object,
        full,
        drop_all (store header) body 8 (length-store header object),
        decode_mtbt_order_body-some body order size e kind,
      )
      refl

-- The handler on a packet with more of the frame behind it.
gather_mtbt-some :
    (orders : List MtbtDecodedOrder) (p : Packet) (rest : List ℕ) (order : MtbtNewOrder)
    → IsObject p.header
    → p.header.msg_len ≡ 34
    → length p.body ≡ 26
    → load p.body ≡ order
    → order.message_type ≡ 0x4e
    → gather_mtbt orders (packet_bytes p ++ rest) p.header.msg_len p.header
      ≡ (true, orders ++ record { header = p.header; order = order } ∷ [])
gather_mtbt-some orders p rest order object told size e kind =
    let all : length (packet_bytes p) ≡ p.header.msg_len =
      omega
        (arith, length-append (store p.header) p.body, length-store p.header object, size, told) in
    ap
      (λ (d : Option MtbtDecodedOrder).
        let r : Bool × List MtbtDecodedOrder = elim d [
          | none ↦ (false, orders)
          | some order ↦ (true, orders ++ order ∷ [])
        ] in
        r)
      (ap (λ x. decode_mtbt_order (some x)) (take_all (packet_bytes p) rest p.header.msg_len all)
        ∙ decode_mtbt_order-some p.header p.body order object told size e kind)

module _ (stream_id token quantity price : ℕ)
    (object : IsObject (new_order token quantity price)) where
  abbrev packet : ℕ → Packet
  packet offset = record {
    header = order_header offset stream_id;
    body = store (new_order token quantity price);
  }

  body_length : length (store (new_order token quantity price)) ≡ 26
  body_length = length-store (new_order token quantity price) object

  back : load (store (new_order token quantity price)) ≡ new_order token quantity price
  back =
      ap load (sym (append-nil (store (new_order token quantity price))))
      ∙ load-store (new_order token quantity price) [] object

  packet-IsPacket :
      (offset : ℕ) → IsObject (order_header offset stream_id) → IsPacket (packet offset)
  packet-IsPacket offset h = record {
    object = h;
    told = omega (arith, body_length);
    small = omega arith;
  }

  packet_size :
      (offset : ℕ)
      → IsObject (order_header offset stream_id)
      → length (packet_bytes (packet offset)) ≡ 34
  packet_size offset h = omega (
    arith,
    length-append (store (order_header offset stream_id)) (store (new_order token quantity price)),
    length-store (order_header offset stream_id) h,
    body_length,
  )

  appended :
      (frame : List ℕ)
      → append_mtbt_order stream_id token quantity price frame
        ≡ frame ++ packet_bytes (packet (length frame))
  unfolding append_mtbt_order
  appended frame = refl

gathered :
    (one two : Packet) (order order' : MtbtDecodedOrder)
    → gather_mtbt [] (mtbt_frame (one ∷ two ∷ [])) one.header.msg_len one.header
      ≡ (true, order ∷ [])
    → gather_mtbt (order ∷ []) (mtbt_frame (two ∷ [])) two.header.msg_len two.header
      ≡ (true, order ∷ order' ∷ [])
    → deliver gather_mtbt (one ∷ two ∷ []) stats_init []
      ≡ (record { saved = 2; skipped = 0; consumed = 0 }, order ∷ order' ∷ [])
gathered one two order order' e e' =
    ap
      (λ (r : Bool × List MtbtDecodedOrder).
        deliver gather_mtbt (two ∷ []) (count r.0 stats_init) r.1)
      e
    ∙ ap (λ (r : Bool × List MtbtDecodedOrder). (count r.0 (record stats_init { saved = 1 }), r.1))
        e'

-- A frame to which two MTBT orders in range are appended is split, within three turns, into two
-- packets, which decode to these orders with their headers, in order; both are counted, and the
-- whole frame is consumed.
pub mtbt_frame_read :
    (fuel a b c d e f g h : ℕ)
    → IsObject (order_header 0 a)
    → IsObject (new_order b c d)
    → IsObject (order_header 34 e)
    → IsObject (new_order f g h)
    → 2 < fuel
    → split_mtbt_frame gather_mtbt fuel []
        (some (append_mtbt_order e f g h (append_mtbt_order a b c d [])))
      ≡ some (
        record { saved = 2; skipped = 0; consumed = 68 },
        record { header = order_header 0 a; order = new_order b c d }
            ∷ record { header = order_header 34 e; order = new_order f g h }
            ∷ [],
      )
mtbt_frame_read fuel a b c d e f g h first order second order' enough =
    let one = packet a b c d order 0 in
    let two = packet e f g h order' 34 in
    let size = packet_size a b c d order 0 first in
    let size' = packet_size e f g h order' 34 second in
    let frame : append_mtbt_order e f g h (append_mtbt_order a b c d [])
        ≡ packet_bytes one ++ (packet_bytes two ++ []) =
      appended e f g h order' _
      ∙ ap (λ x. x ++ packet_bytes (packet e f g h order' (length x))) (appended a b c d order [])
      ∙ ap (λ n. packet_bytes one ++ packet_bytes (packet e f g h order' n)) size
      ∙ sym (ap (λ x. packet_bytes one ++ x) (append-nil (packet_bytes two))) in
    let total : length (mtbt_frame (one ∷ two ∷ [])) ≡ 68 = omega (
      arith,
      size,
      size',
      length-append (packet_bytes one) (packet_bytes two ++ []),
      length-append (packet_bytes two) [],
    ) in
    ap (λ x. split_mtbt_frame gather_mtbt fuel [] (some x)) frame
    ∙ split_mtbt_frame_packets gather_mtbt fuel (one ∷ two ∷ []) [] (omega (arith, total))
        (packet-IsPacket a b c d order 0 first, (packet-IsPacket e f g h order' 34 second, tt))
        enough
    ∙ ap
        (λ (r : Stats × List MtbtDecodedOrder).
          some (record (r.0) { consumed = length (mtbt_frame (one ∷ two ∷ [])) }, r.1))
        (gathered one two _ _
          (gather_mtbt-some [] one _ (new_order b c d) first refl (body_length a b c d order)
            (back a b c d order) refl)
          (gather_mtbt-some _ two [] (new_order f g h) second refl (body_length e f g h order')
            (back e f g h order') refl))
    ∙ ap
        (λ n. some (
          record { saved = 2; skipped = 0; consumed = n },
          record { header = order_header 0 a; order = new_order b c d }
              ∷ record { header = order_header 34 e; order = new_order f g h }
              ∷ [],
        ))
        total
