-- ===== src/Proto/MtbtDecode/Framing.antt =====
-- A frame of packets, each with its own size in its header, is split into those packets.
use mathlib.Core.List.{append_assoc, append-nil}
use mpmc_with_memory_managem.Base.{
  ℕ, zero, suc, ◌+◌, ◌^◌, ◌≤◌, ◌<◌, ◌≡◌, refl, sym, ap, ◌∙◌, arith, Bool, true, false, ◌||◌, some,
  List, [], ◌∷◌, ◌++◌, All, length, length-append, drop_all, drop, ltb,
}
use mpmc_with_memory_managem.Wire.Struct.{store, load-store, length-store, IsObject}
use mpmc_with_memory_managem.Proto.Nse.{MtbtStreamHeader, mtbt_stream_header_struct}
use mpmc_with_memory_managem.Proto.Frame.{Stats, stats_init, count}
use mpmc_with_memory_managem.Proto.MtbtDecode.{
  decode_mtbt_stream_header, to_size_t, add_size_t, mtbt_loop, split_mtbt_frame,
}

pub record Packet : Type 0 where
  pub header : MtbtStreamHeader
  pub body : List ℕ

abbrev pub packet_bytes : Packet → List ℕ
packet_bytes p = store p.header ++ p.body

-- The packet's size is the one that its header tells, and no negative number.
pub record IsPacket (p : Packet) : Type 0 where
  pub object : IsObject p.header
  pub told : p.header.msg_len ≡ 8 + length p.body
  pub small : p.header.msg_len < 2 ^ 15

abbrev pub mtbt_frame : List Packet → List ℕ
mtbt_frame [] = []
mtbt_frame (p ∷ packets) = packet_bytes p ++ mtbt_frame packets

pub length-packet_bytes : (p : Packet) → IsPacket p → length (packet_bytes p) ≡ p.header.msg_len
length-packet_bytes p h =
    omega (arith, length-append (store p.header) p.body, length-store p.header h.object, h.told)

pub read_header :
    (header : MtbtStreamHeader) (rest : List ℕ)
    → IsObject header
    → decode_mtbt_stream_header (some (store header ++ rest)) ≡ some header
unfolding decode_mtbt_stream_header
read_header header rest object = rw long_enough (ap some (load-store header rest object))
  where
    long_enough : ltb (length (store header ++ rest)) 8 ≡ false
    long_enough = ground (arith, length-append (store header) rest, length-store header object)

module _ {S : Type 0} (on_packet : S → List ℕ → ℕ → MtbtStreamHeader → Bool × S) where
  -- One turn of the loop at a header whose packet it takes to be inside the frame.
  pub mtbt_loop_step :
      (fuel offset : ℕ) (frame bytes rest : List ℕ) (header : MtbtStreamHeader) (stats : Stats)
      (s : S)
      → length frame < 2 ^ 63
      → offset + 8 ≤ length frame
      → drop offset frame ≡ bytes
      → bytes ≡ store header ++ rest
      → IsObject header
      → 8 ≤ to_size_t header.msg_len
      → add_size_t offset (to_size_t header.msg_len) ≤ length frame
      → let r = on_packet s bytes (to_size_t header.msg_len) header in
        mtbt_loop on_packet (suc fuel) frame offset stats s
        ≡ mtbt_loop on_packet fuel frame
            (add_size_t offset (to_size_t header.msg_len))
            (count r.0 stats)
            r.1
  unfolding mtbt_loop
  mtbt_loop_step fuel offset frame bytes rest header stats s big room at starts object lo hi =
      rw (mtbt_loop, more, at, here, inside, at) refl
    where
      more : ltb (length frame) (add_size_t offset 8) ≡ false
      more = ground arith

      here : decode_mtbt_stream_header (some bytes) ≡ some header
      here = rw starts (read_header header rest object)

      inside :
          (ltb (to_size_t header.msg_len) 8
            || ltb (length frame) (add_size_t offset (to_size_t header.msg_len)))
          ≡ false
      inside = ground arith

  -- The handler on one packet after the other, and its answers counted.
  abbrev pub deliver : List Packet → Stats → S → Stats × S
  deliver [] stats s = (stats, s)
  deliver (p ∷ packets) stats s =
      let r = on_packet s (mtbt_frame (p ∷ packets)) p.header.msg_len p.header in
      deliver packets (count r.0 stats) r.1

  -- `r` with this `consumed`.
  abbrev consuming : ℕ → Stats × S → Stats × S
  consuming n r = (record (r.0) { consumed = n }, r.1)

  mtbt_loop_end :
      (fuel : ℕ) (frame : List ℕ) (stats : Stats) (s : S)
      → length frame < 2 ^ 63
      → mtbt_loop on_packet (suc fuel) frame (length frame) stats s
        ≡ some (record stats { consumed = length frame }, s)
  unfolding mtbt_loop
  mtbt_loop_end fuel frame stats s big =
      let out : ltb (length frame) (add_size_t (length frame) 8) ≡ true = ground arith in
      rw (mtbt_loop, out) refl

  mtbt_loop_packets :
      (fuel : ℕ) (before : List ℕ) (packets : List Packet) (stats : Stats) (s : S)
      → length (before ++ mtbt_frame packets) < 2 ^ 63
      → All IsPacket packets
      → length packets < fuel
      → mtbt_loop on_packet fuel (before ++ mtbt_frame packets) (length before) stats s
        ≡ some (consuming (length (before ++ mtbt_frame packets)) (deliver packets stats s))
  mtbt_loop_packets zero before packets stats s big h f = absurd (omega arith)
  mtbt_loop_packets (suc fuel) before [] stats s big h f =
      rw (append-nil before)
        (mtbt_loop_end fuel before stats s (omega (arith, length-append before [])))
  mtbt_loop_packets (suc fuel) before (p ∷ packets) stats s big h f =
      mtbt_loop_step fuel (length before) frame (packet_bytes p ++ rest) (p.body ++ rest) p.header
        stats s big (omega (arith, sizes, told, h.0.told))
        (drop_all before (packet_bytes p ++ rest) (length before) refl)
        (append_assoc (store p.header) p.body rest) h.0.object
        (rw length_told (omega (arith, h.0.told)))
        (rw length_told (omega (arith, sizes, told, big)))
      ∙ rw (length_told, goes_on)
          (ap
              (λ f.
                mtbt_loop on_packet fuel f (length (before ++ packet_bytes p)) (count r.0 stats)
                  r.1)
              (sym (append_assoc before (packet_bytes p) rest))
            ∙ mtbt_loop_packets fuel (before ++ packet_bytes p) packets (count r.0 stats) r.1
                (rw (append_assoc before (packet_bytes p) rest) big) h.1 (omega arith)
            ∙ ap (λ n. some (consuming n (deliver packets (count r.0 stats) r.1)))
                (ap length (append_assoc before (packet_bytes p) rest)))
    where
      rest : List ℕ
      rest = mtbt_frame packets

      frame : List ℕ
      frame = before ++ (packet_bytes p ++ rest)

      r : Bool × S
      r = on_packet s (packet_bytes p ++ rest) p.header.msg_len p.header

      told : length (packet_bytes p) ≡ p.header.msg_len
      told = length-packet_bytes p h.0

      sizes : length frame ≡ length before + length (packet_bytes p) + length rest
      sizes = omega (
        arith,
        length-append before (packet_bytes p ++ rest),
        length-append (packet_bytes p) rest,
      )

      length_told : to_size_t p.header.msg_len ≡ p.header.msg_len
      length_told = let small = h.0.small in ground arith

      goes_on : add_size_t (length before) p.header.msg_len ≡ length (before ++ packet_bytes p)
      goes_on = omega (arith, told, sizes, big, length-append before (packet_bytes p))

  -- A frame of packets, each with its own size in its header and below 2 ^ 15, is split into
  -- exactly those packets: the handler sees each in order, every answer is counted, and the whole
  -- frame is consumed, given more fuel than packets.
  pub split_mtbt_frame_packets :
      (fuel : ℕ) (packets : List Packet) (s : S)
      → length (mtbt_frame packets) < 2 ^ 63
      → All IsPacket packets
      → length packets < fuel
      → split_mtbt_frame on_packet fuel s (some (mtbt_frame packets))
        ≡ some (consuming (length (mtbt_frame packets)) (deliver packets stats_init s))
  unfolding split_mtbt_frame
  split_mtbt_frame_packets fuel packets s big h f =
      mtbt_loop_packets fuel [] packets stats_init s big h f
