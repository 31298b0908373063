-- ===== src/Proto/MtbtDecode/Hang.antt =====
-- A negative `msg_len` takes the loop of `split_mtbt_frame` back.
use mathlib.Core.List.{append_assoc}
use mpmc_with_memory_managem.Base.{
  ℕ, zero, suc, ◌+◌, ◌^◌, ◌≤◌, ◌<◌, ◌≡◌, refl, ◌∙◌, arith, Bool, none, some, List, ◌++◌, length,
  length-append, drop_all, drop,
}
use mpmc_with_memory_managem.Wire.Struct.{store, length-store, IsObject}
use mpmc_with_memory_managem.Proto.Nse.{MtbtStreamHeader, mtbt_stream_header_struct}
use mpmc_with_memory_managem.Proto.Frame.{Stats, stats_init}
use mpmc_with_memory_managem.Proto.MtbtDecode.{to_size_t, add_size_t, mtbt_loop, split_mtbt_frame}
use mpmc_with_memory_managem.Proto.MtbtDecode.Framing.{
  Packet, IsPacket, packet_bytes, length-packet_bytes, mtbt_loop_step,
}

-- A packet, then a header that tells minus its size.
abbrev pub hanging_frame : Packet → MtbtStreamHeader → List ℕ → List ℕ
hanging_frame p back rest = packet_bytes p ++ (store back ++ rest)

module _ {S : Type 0} (on_packet : S → List ℕ → ℕ → MtbtStreamHeader → Bool × S) (p : Packet)
    (h : IsPacket p) (back : MtbtStreamHeader) (object : IsObject back)
    (minus : back.msg_len + p.header.msg_len ≡ 2 ^ 16) (rest : List ℕ)
    (big : length (hanging_frame p back rest) < 2 ^ 63) where
  told : length (packet_bytes p) ≡ p.header.msg_len
  told = length-packet_bytes p h

  sizes : length (hanging_frame p back rest) ≡ p.header.msg_len + 8 + length rest
  sizes = omega (
    arith,
    told,
    length-append (packet_bytes p) (store back ++ rest),
    length-append (store back) rest,
    length-store back object,
  )

  abbrev frame : List ℕ
  frame = hanging_frame p back rest

  -- If the loop does not end from `k`, it does not end from a header that takes it to `k`.
  turn :
      (fuel offset k : ℕ) (bytes more : List ℕ) (header : MtbtStreamHeader) (stats : Stats) (s : S)
      → offset + 8 ≤ length frame
      → drop offset frame ≡ bytes
      → bytes ≡ store header ++ more
      → IsObject header
      → 8 ≤ to_size_t header.msg_len
      → add_size_t offset (to_size_t header.msg_len) ≡ k
      → k ≤ length frame
      → ((stats' : Stats) (s' : S) → mtbt_loop on_packet fuel frame k stats' s' ≡ none)
      → mtbt_loop on_packet (suc fuel) frame offset stats s ≡ none
  turn fuel offset k bytes more header stats s room at starts ok lo e hi ih =
      mtbt_loop_step on_packet fuel offset frame bytes more header stats s big room at starts ok lo
        (rw e hi)
      ∙ rw e (ih _ _)

  loops :
      (fuel : ℕ) (stats : Stats) (s : S)
      → (mtbt_loop on_packet fuel frame 0 stats s ≡ none)
        × (mtbt_loop on_packet fuel frame p.header.msg_len stats s ≡ none)
  unfolding mtbt_loop
  loops zero stats s = (refl, refl)
  loops (suc fuel) stats s = (
    turn fuel 0 p.header.msg_len frame (p.body ++ (store back ++ rest)) p.header stats s
        (omega (arith, sizes)) refl (append_assoc (store p.header) p.body (store back ++ rest))
        h.object (let small = h.small in ground (arith, h.told))
        (let small = h.small in ground arith) (omega (arith, sizes)) (λ t u. (loops fuel t u).1),
    turn fuel p.header.msg_len 0 (store back ++ rest) rest back stats s (omega (arith, sizes))
        (drop_all (packet_bytes p) (store back ++ rest) p.header.msg_len told) refl object
        (let small = h.small in ground (arith, minus, h.told))
        (let small = h.small in ground (arith, minus, h.told)) (omega arith)
        (λ t u. (loops fuel t u).0),
  )

  -- On a frame of a well-formed packet and then a header whose `msg_len` is minus that packet's
  -- size, `split_mtbt_frame` does not return, for any handler and any number of turns: the sum of
  -- offset and length wraps, and the loop starts over.
  pub split_mtbt_frame_hangs :
      (fuel : ℕ) (s : S)
      → split_mtbt_frame on_packet fuel s (some (hanging_frame p back rest)) ≡ none
  unfolding split_mtbt_frame
  split_mtbt_frame_hangs fuel s = (loops fuel stats_init s).0
