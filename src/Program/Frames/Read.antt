-- ===== src/Program/Frames/Read.antt =====
-- The splitters find in a frame that src/main.cpp builds the orders that it was built of.
use mathlib.Core.List.{append-nil}
use mpmc_with_memory_managem.Base.{
  ℕ, ◌≡◌, refl, sym, ap, ◌∙◌, arith, Bool, true, false, Option, none, some, List, [], ◌∷◌, ◌++◌,
  ◌==◌, length, length-append,
}
use mpmc_with_memory_managem.Wire.Struct.{IsObject, store, load, load-store, length-store}
use mpmc_with_memory_managem.Proto.Frame.{Stats, stats_init, count}
use mpmc_with_memory_managem.Proto.Nasdaq.{ItchAddOrder, itch_add_order_struct}
use mpmc_with_memory_managem.Proto.ItchDecode.{decode_itch_add_order, split_itch_frame}
use mpmc_with_memory_managem.Proto.ItchDecode.Framing.{
  itch_message, itch_frame, deliver, split_itch_frame_messages,
}
use mpmc_with_memory_managem.Program.Frames.{add_order, append_itch_add_order}

-- A handler that keeps what it decodes.
abbrev pub gather_itch : List ItchAddOrder → List ℕ → Bool × List ItchAddOrder
gather_itch orders body = elim (decode_itch_add_order (some body)) [
  | none ↦ (false, orders)
  | some order ↦ (true, orders ++ order ∷ [])
]

decode_itch_add_order-some :
    (body : List ℕ) (order : ItchAddOrder)
    → length body ≡ 36
    → load body ≡ order
    → order.message_type ≡ 0x41
    → decode_itch_add_order (some body) ≡ some order
unfolding decode_itch_add_order
decode_itch_add_order-some body order size e kind =
    let sized : (length body == 36) ≡ true = ground (arith, size) in
    let an_order : ((load {A = ItchAddOrder} body).message_type == 0x41) ≡ true =
      ap (λ (o : ItchAddOrder). o.message_type == 0x41) e ∙ ap (λ n. n == 0x41) kind in
    rw (sized, an_order) (ap some e)

gather_itch-some :
    (orders : List ItchAddOrder) (body : List ℕ) (order : ItchAddOrder)
    → decode_itch_add_order (some body) ≡ some order
    → gather_itch orders body ≡ (true, orders ++ order ∷ [])
gather_itch-some orders body order e =
    ap
      (λ (o : Option ItchAddOrder).
        let r : Bool × List ItchAddOrder = elim o [
          | none ↦ (false, orders)
          | some order ↦ (true, orders ++ order ∷ [])
        ] in
        r)
      e

gathered :
    (one two : List ℕ) (order order' : ItchAddOrder)
    → decode_itch_add_order (some one) ≡ some order
    → decode_itch_add_order (some two) ≡ some order'
    → deliver gather_itch (one ∷ two ∷ []) stats_init []
      ≡ (record { saved = 2; skipped = 0; consumed = 0 }, order ∷ order' ∷ [])
gathered one two order order' e e' =
    ap (λ (r : Bool × List ItchAddOrder). deliver gather_itch (two ∷ []) (count r.0 stats_init) r.1)
      (gather_itch-some [] one order e)
    ∙ ap (λ (r : Bool × List ItchAddOrder). (count r.0 (record stats_init { saved = 1 }), r.1))
        (gather_itch-some (order ∷ []) two order' e')

module _ (stock_locate shares price : ℕ)
    (object : IsObject (add_order stock_locate shares price)) where
  body_length : length (store (add_order stock_locate shares price)) ≡ 36
  body_length = length-store (add_order stock_locate shares price) object

  back : load (store (add_order stock_locate shares price)) ≡ add_order stock_locate shares price
  back =
      ap load (sym (append-nil (store (add_order stock_locate shares price))))
      ∙ load-store (add_order stock_locate shares price) [] object

  decoded :
      decode_itch_add_order (some (store (add_order stock_locate shares price)))
      ≡ some (add_order stock_locate shares price)
  decoded =
      decode_itch_add_order-some (store (add_order stock_locate shares price)) _ body_length back
        refl

  message :
      (frame : List ℕ)
      → append_itch_add_order stock_locate shares price frame
        ≡ frame ++ itch_message (store (add_order stock_locate shares price))
  unfolding append_itch_add_order
  message frame = rw body_length refl

-- A frame to which two ITCH orders in range are appended is split into two messages, which decode
-- to these orders, in order; both are counted, and the whole frame is consumed.
pub itch_frame_read :
    (a b c d e f : ℕ)
    → IsObject (add_order a b c)
    → IsObject (add_order d e f)
    → split_itch_frame gather_itch []
        (some (append_itch_add_order d e f (append_itch_add_order a b c [])))
      ≡ some
          (record { saved = 2; skipped = 0; consumed = 76 }, add_order a b c ∷ add_order d e f ∷ [])
itch_frame_read a b c d e f h k =
    let one = store (add_order a b c) in
    let two = store (add_order d e f) in
    let frame : append_itch_add_order d e f (append_itch_add_order a b c [])
        ≡ itch_message one ++ (itch_message two ++ []) =
      message d e f k _
      ∙ ap (λ x. x ++ itch_message two) (message a b c h [])
      ∙ sym (ap (λ x. itch_message one ++ x) (append-nil (itch_message two))) in
    let size = body_length a b c h in
    let size' = body_length d e f k in
    ap (λ x. split_itch_frame gather_itch [] (some x)) frame
    ∙ split_itch_frame_messages gather_itch (one ∷ two ∷ []) [] (
      (omega (arith, size), omega (arith, size)),
      ((omega (arith, size'), omega (arith, size')), tt),
    )
    ∙ ap
        (λ (r : Stats × List ItchAddOrder).
          some (record (r.0) { consumed = length (itch_frame (one ∷ two ∷ [])) }, r.1))
        (gathered one two _ _ (decoded a b c h) (decoded d e f k))
    ∙ ap
        (λ n.
          some (
            record { saved = 2; skipped = 0; consumed = n },
            add_order a b c ∷ add_order d e f ∷ [],
          ))
        (omega
          (arith, size, size', length-append one (itch_message two ++ []), length-append two []))
