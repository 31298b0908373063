-- ===== src/Proto/ItchDecode.antt =====
-- include/proto/itch_decode.hpp. The handler is a function of the state that it captures; a payload
-- is the `len` bytes behind a pointer, `none` for `nullptr`.
pub mod Framing
use mpmc_with_memory_managem.Base.{
  ℕ, zero, suc, ◌+◌, ◌*◌, ◌%◌, ◌^◌, Bool, not, ◌||◌, Option, none, some, List, [], ◌∷◌, length,
  take, drop, ltb, ◌==◌, if◌then◌else◌,
}
use mpmc_with_memory_managem.Wire.Struct.{size_of, load}
use mpmc_with_memory_managem.Proto.Nasdaq.{ItchAddOrder, itch_add_order_struct}
use mpmc_with_memory_managem.Proto.Frame.{Stats, stats_init, count}

abbrev pub itch_length_prefix : ℕ
itch_length_prefix = 2

-- `|` of the two disjoint bytes.
abbrev pub itch_read_be16 : ℕ → ℕ → ℕ
itch_read_be16 high low = (high * 2 ^ 8 + low) % 2 ^ 16

-- `kType` is 'A'.
unfoldable pub decode_itch_add_order : Option (List ℕ) → Option ItchAddOrder
unfolding load
decode_itch_add_order none = none
decode_itch_add_order (some body) =
    if not (length body == size_of ItchAddOrder)
    then none
    else if out.message_type == 0x41
    then some out
    else none
  where
    out : ItchAddOrder
    out = load body

module _ {S : Type 0} (on_message : S → List ℕ → Bool × S) where
  -- The loop, at `offset`, with the bytes of the frame from there on.
  unfoldable pub itch_loop : ℕ → ℕ → List ℕ → Stats → S → Option (Stats × S)
  itch_loop zero offset rest stats s = none
  itch_loop (suc fuel) offset (high ∷ low ∷ rest) stats s =
      let body_len = itch_read_be16 high low in
      let r = on_message s (take body_len rest) in
      let next =
        itch_loop fuel (offset + itch_length_prefix + body_len) (drop body_len rest)
          (count r.0 stats) r.1 in
      if body_len == 0 || ltb (length rest) body_len
      then some (record stats { consumed = offset + itch_length_prefix }, s)
      else next
  itch_loop (suc fuel) offset _ stats s = some (record stats { consumed = offset }, s)

  unfoldable pub split_itch_frame : S → Option (List ℕ) → Option (Stats × S)
  unfolding itch_loop
  split_itch_frame s none = some (stats_init, s)
  split_itch_frame s (some frame) = itch_loop (suc (length frame)) 0 frame stats_init s
