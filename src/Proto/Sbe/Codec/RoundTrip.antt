-- ===== src/Proto/Sbe/Codec/RoundTrip.antt =====
-- What the decoders of include/proto/sbe/decode.hpp read of what its encoders wrote.
use mathlib.Core.List.{append_assoc, append-nil}
use mpmc_with_memory_managem.Base.{
  ℕ, ◌+◌, ◌≤◌, ◌<◌, ◌^◌, ◌≡◌, refl, sym, ap, ◌∙◌, arith, false, inl, inr, Bool-cases, none, some,
  List, [], ◌∷◌, ◌++◌, length, length-append, length-take, take_all, drop_all, take, drop, ltb, leb,
  if◌then◌else◌, ◌||◌,
}
use mpmc_with_memory_managem.Wire.Struct.{Struct, store, load, load-store, length-store, IsObject}
use mpmc_with_memory_managem.Proto.Sbe.Header.{MessageHeader, message_header_struct}
use mpmc_with_memory_managem.Proto.Sbe.Market.{BestObRpiBody, BestObRpi, best_ob_rpi_body_struct}
use mpmc_with_memory_managem.Proto.Sbe.OrderEntry.{CreateOrderReqV5, create_order_req_v5_struct}
use mpmc_with_memory_managem.Proto.Sbe.FastOrder.{
  FastOrderRespBody, FastOrderResp, fast_order_resp_body_struct,
}
use mpmc_with_memory_managem.Proto.Sbe.Codec.{
  read_header, read_var_string8, decode_best_ob_rpi, decode_create_order_req, read_symbol,
  read_order_ids, decode_fast_order_resp, encode_header, append_var_string8, encode_best_ob_rpi,
  encode_create_order_req, encode_fast_order_resp,
}

-- An object at the start of some bytes.
load_first :
    {A : Type 0} ⦃r : Struct A⦄ → (a : A) (rest : List ℕ) → IsObject a → load (store a ++ rest) ≡ a
load_first a rest h = load-store a rest h

load_all : {A : Type 0} ⦃r : Struct A⦄ → (a : A) → IsObject a → load (store a) ≡ a
load_all a h = ap load (sym (append-nil (store a))) ∙ load-store a [] h

module _ (block_length template_id schema_id version : ℕ) (b : block_length < 2 ^ 16)
    (t : template_id < 2 ^ 16) (i : schema_id < 2 ^ 16) (v : version < 2 ^ 16) where
  abbrev header : MessageHeader
  header = record {
    block_length = block_length;
    template_id = template_id;
    schema_id = schema_id;
    version = version;
  }

  header-IsObject : IsObject header
  header-IsObject = (b, (t, (i, (v, tt))))

  length-encode_header : length (encode_header block_length template_id schema_id version) ≡ 8
  unfolding encode_header
  length-encode_header = length-store header header-IsObject

  read_header-encode_header :
      (rest : List ℕ)
      → read_header (some (encode_header block_length template_id schema_id version ++ rest))
        ≡ some header
  unfolding read_header encode_header
  read_header-encode_header rest =
      let enough : ltb (length (encode_header block_length template_id schema_id version ++ rest)) 8
          ≡ false =
        ground (
          arith,
          length-append (encode_header block_length template_id schema_id version) rest,
          length-encode_header,
        ) in
      rw enough (ap some (load-store header rest header-IsObject))

-- The bytes that a decoder tests and reads past: 8 of the header, then those of the body.
tail_of : (a b : List ℕ) → length a ≡ 8 → drop 8 (a ++ b) ≡ b
tail_of a b h = drop_all a b 8 h

-- An order request in range, encoded and decoded: nothing if the buffer is smaller than 250 bytes,
-- and otherwise the request.
pub decode-encode_create_order_req :
    (msg : CreateOrderReqV5) (cap : ℕ)
    → IsObject msg
    → decode_create_order_req (encode_create_order_req msg cap)
      ≡ (if ltb cap 250 then none else some msg)
unfolding encode_create_order_req decode_create_order_req
decode-encode_create_order_req msg cap h = elim (Bool-cases (ltb cap 250)) [
  | inl small ↦ rw small refl
  | inr fits ↦
      rw
        (
          fits,
          long_enough,
          read_header-encode_header 242 5 2 2 (omega arith) (omega arith) (omega arith)
              (omega arith) (store msg),
          drop_all (encode_header 242 5 2 2) (store msg) 8 head_length,
        )
        (ap some (load_all msg h))
]
  where
    head_length : length (encode_header 242 5 2 2) ≡ 8
    head_length =
        length-encode_header 242 5 2 2 (omega arith) (omega arith) (omega arith) (omega arith)

    long_enough : ltb (length (encode_header 242 5 2 2 ++ store msg)) 250 ≡ false
    long_enough = ground (
      arith,
      head_length,
      length-append (encode_header 242 5 2 2) (store msg),
      length-store msg h,
    )

-- A string of less than its array's size is read back with its terminator, a longer one refused.
read-append_var_string8 :
    (str : List ℕ) (n : ℕ) (rest out : List ℕ)
    → n ≤ length str
    → read_var_string8 (n ∷ take n str ++ rest) out
      ≡ (if leb (length out) n then none else some (n, take n str ++ (0 ∷ drop (n + 1) out), rest))
unfolding read_var_string8
read-append_var_string8 str n rest out h =
    rw (within, take_all (take n str) rest n size, drop_all (take n str) rest n size) refl
  where
    size : length (take n str) ≡ n
    size = omega (arith, length-take n str)

    within : ltb (length (take n str ++ rest)) n ≡ false
    within = ground (arith, size, length-append (take n str) rest)

append_fits :
    (cap : ℕ) (dst str : List ℕ) (n : ℕ)
    → length dst + 1 + n ≤ cap
    → append_var_string8 cap dst str n ≡ dst ++ (n ∷ take n str)
unfolding append_var_string8
append_fits cap dst str n h =
    let fits : ltb cap (length dst + 1 + n) ≡ false = ground arith in rw fits refl

read_last_string :
    (str : List ℕ) (n : ℕ) (out : List ℕ)
    → n ≤ length str
    → read_var_string8 (n ∷ take n str) out
      ≡ (if leb (length out) n then none else some (n, take n str ++ (0 ∷ drop (n + 1) out), []))
read_last_string str n out h =
    ap (λ t. read_var_string8 (n ∷ t) out) (sym (append-nil (take n str)))
    ∙ read-append_var_string8 str n [] out h

encoded_best_ob_rpi :
    (msg : BestObRpi) (cap : ℕ)
    → IsObject msg.body
    → encode_best_ob_rpi msg cap ≡ (
        if ltb cap (107 + msg.symbol_len)
        then none
        else some (
            encode_header 98 20000 1 0
            ++ (store msg.body ++ (msg.symbol_len ∷ take msg.symbol_len msg.symbol))))
unfolding encode_best_ob_rpi
encoded_best_ob_rpi msg cap h = elim (Bool-cases (ltb cap (107 + msg.symbol_len))) [
  | inl small ↦ rw small refl
  | inr fits ↦
      rw
        (
          fits,
          append_fits cap (encode_header 98 20000 1 0 ++ store msg.body) msg.symbol msg.symbol_len
              (room fits),
          append_assoc (encode_header 98 20000 1 0) (store msg.body)
              (msg.symbol_len ∷ take msg.symbol_len msg.symbol),
        )
        refl
]
  where
    room :
        ltb cap (107 + msg.symbol_len) ≡ false
        → length (encode_header 98 20000 1 0 ++ store msg.body) + 1 + msg.symbol_len ≤ cap
    room fits = ground (
      arith,
      length-append (encode_header 98 20000 1 0) (store msg.body),
      length-store msg.body h,
      length-encode_header 98 20000 1 0 (omega arith) (omega arith) (omega arith) (omega arith),
    )

decoded_best_ob_rpi :
    (body : BestObRpiBody) (n : ℕ) (str : List ℕ) (out : BestObRpi)
    → IsObject body
    → decode_best_ob_rpi (some (encode_header 98 20000 1 0 ++ (store body ++ (n ∷ str)))) out
      ≡ read_symbol (n ∷ str) body out
unfolding decode_best_ob_rpi
decoded_best_ob_rpi body n str out h =
    rw
      (
        long_enough,
        read_header-encode_header 98 20000 1 0 (omega arith) (omega arith) (omega arith)
            (omega arith) (store body ++ (n ∷ str)),
        drop_all (encode_header 98 20000 1 0) (store body ++ (n ∷ str)) 8 head_length,
        drop_all (store body) (n ∷ str) 98 (length-store body h),
        load-store body (n ∷ str) h,
      )
      refl
  where
    head_length : length (encode_header 98 20000 1 0) ≡ 8
    head_length =
        length-encode_header 98 20000 1 0 (omega arith) (omega arith) (omega arith) (omega arith)

    long_enough : ltb (length (encode_header 98 20000 1 0 ++ (store body ++ (n ∷ str)))) 107 ≡ false
    long_enough = ground (
      arith,
      head_length,
      length-append (encode_header 98 20000 1 0) (store body ++ (n ∷ str)),
      length-append (store body) (n ∷ str),
      length-store body h,
    )

-- A quote in range, encoded with a symbol of at most 16 characters and decoded: nothing if the
-- buffer is too small, rejected if the symbol fills its array, and otherwise the quote with its
-- symbol terminated.
pub decode-encode_best_ob_rpi :
    (msg out : BestObRpi) (cap : ℕ)
    → IsObject msg.body
    → length msg.symbol ≡ 16
    → length out.symbol ≡ 16
    → msg.symbol_len ≤ 16
    → decode_best_ob_rpi (encode_best_ob_rpi msg cap) out ≡ (
        if ltb cap (107 + msg.symbol_len)
        then none
        else if leb 16 msg.symbol_len
        then none
        else some (record {
          body = msg.body;
          symbol_len = msg.symbol_len;
          symbol = take msg.symbol_len msg.symbol ++ (0 ∷ drop (msg.symbol_len + 1) out.symbol);
        }))
unfolding decode_best_ob_rpi read_symbol
decode-encode_best_ob_rpi msg out cap h sized room n =
    rw (encoded_best_ob_rpi msg cap h) (elim (Bool-cases (ltb cap (107 + msg.symbol_len))) [
      | inl small ↦ rw small refl
      | inr fits ↦
          rw
            (
              fits,
              decoded_best_ob_rpi msg.body msg.symbol_len (take msg.symbol_len msg.symbol) out h,
              read_symbol,
              read_last_string msg.symbol msg.symbol_len out.symbol (omega arith),
              room,
            )
            (elim (Bool-cases (leb 16 msg.symbol_len)) [
              | inl long ↦ rw long refl
              | inr short ↦ rw short refl
            ])
    ])

encoded_fast_order_resp :
    (msg : FastOrderResp) (cap : ℕ)
    → IsObject msg.body
    → msg.order_id_len ≤ length msg.order_id
    → encode_fast_order_resp msg cap ≡ (
        if ltb cap (70 + msg.order_id_len + msg.order_link_id_len)
        then none
        else some (
            encode_header 60 21000 1 0
            ++ (store msg.body
                ++ (msg.order_id_len ∷ take msg.order_id_len msg.order_id
                    ++ (msg.order_link_id_len ∷ take msg.order_link_id_len msg.order_link_id)))))
unfolding encode_fast_order_resp
encoded_fast_order_resp msg cap h sized =
    elim (Bool-cases (ltb cap (70 + msg.order_id_len + msg.order_link_id_len))) [
      | inl small ↦ rw small refl
      | inr fits ↦
          rw
            (
              fits,
              append_fits cap start msg.order_id msg.order_id_len
                  (ground (arith, fits, start_length)),
              append_fits cap (start ++ first) msg.order_link_id msg.order_link_id_len
                  (ground (arith, fits, start_length, length-append start first, first_length)),
              append_assoc start first second,
              append_assoc (encode_header 60 21000 1 0) (store msg.body) (first ++ second),
            )
            refl
    ]
  where
    start : List ℕ
    start = encode_header 60 21000 1 0 ++ store msg.body

    first : List ℕ
    first = msg.order_id_len ∷ take msg.order_id_len msg.order_id

    second : List ℕ
    second = msg.order_link_id_len ∷ take msg.order_link_id_len msg.order_link_id

    first_length : length first ≡ 1 + msg.order_id_len
    first_length = omega (arith, length-take msg.order_id_len msg.order_id)

    start_length : length start ≡ 68
    start_length = omega (
      arith,
      length-append (encode_header 60 21000 1 0) (store msg.body),
      length-store msg.body h,
      length-encode_header 60 21000 1 0 (omega arith) (omega arith) (omega arith) (omega arith),
    )

decoded_fast_order_resp :
    (body : FastOrderRespBody) (strings : List ℕ) (out : FastOrderResp)
    → IsObject body
    → 1 ≤ length strings
    → decode_fast_order_resp (some (encode_header 60 21000 1 0 ++ (store body ++ strings))) out
      ≡ read_order_ids strings body out
unfolding decode_fast_order_resp
decoded_fast_order_resp body strings out h one =
    rw
      (
        long_enough,
        read_header-encode_header 60 21000 1 0 (omega arith) (omega arith) (omega arith)
            (omega arith) (store body ++ strings),
        drop_all (encode_header 60 21000 1 0) (store body ++ strings) 8 head_length,
        drop_all (store body) strings 60 (length-store body h),
        load-store body strings h,
      )
      refl
  where
    head_length : length (encode_header 60 21000 1 0) ≡ 8
    head_length =
        length-encode_header 60 21000 1 0 (omega arith) (omega arith) (omega arith) (omega arith)

    long_enough : ltb (length (encode_header 60 21000 1 0 ++ (store body ++ strings))) 69 ≡ false
    long_enough = ground (
      arith,
      head_length,
      length-append (encode_header 60 21000 1 0) (store body ++ strings),
      length-append (store body) strings,
      length-store body h,
    )

-- An order response in range, encoded with two strings that their arrays hold and decoded: nothing
-- if the buffer is too small, rejected if a string has 32 characters or more, and otherwise the
-- response with its strings terminated.
pub decode-encode_fast_order_resp :
    (msg out : FastOrderResp) (cap : ℕ)
    → IsObject msg.body
    → msg.order_id_len ≤ length msg.order_id
    → msg.order_link_id_len ≤ length msg.order_link_id
    → length out.order_id ≡ 32
    → length out.order_link_id ≡ 32
    → decode_fast_order_resp (encode_fast_order_resp msg cap) out ≡ (
        if ltb cap (70 + msg.order_id_len + msg.order_link_id_len)
        then none
        else if leb 32 msg.order_id_len || leb 32 msg.order_link_id_len
        then none
        else some (record {
          body = msg.body;
          order_id_len = msg.order_id_len;
          order_id =
              take msg.order_id_len msg.order_id ++ (0 ∷ drop (msg.order_id_len + 1) out.order_id);
          order_link_id_len = msg.order_link_id_len;
          order_link_id =
              take msg.order_link_id_len msg.order_link_id
              ++ (0 ∷ drop (msg.order_link_id_len + 1) out.order_link_id);
        }))
unfolding decode_fast_order_resp read_order_ids
decode-encode_fast_order_resp msg out cap h m n room_m room_n =
    rw (encoded_fast_order_resp msg cap h m)
      (elim (Bool-cases (ltb cap (70 + msg.order_id_len + msg.order_link_id_len))) [
        | inl small ↦ rw small refl
        | inr fits ↦
            rw
              (
                fits,
                decoded_fast_order_resp msg.body
                    (msg.order_id_len ∷ take msg.order_id_len msg.order_id ++ second) out h
                    (omega arith),
                read_order_ids,
                read-append_var_string8 msg.order_id msg.order_id_len second out.order_id m,
                room_m,
              )
              (elim (Bool-cases (leb 32 msg.order_id_len)) [
                | inl long ↦ rw long refl
                | inr short ↦
                    rw
                      (
                        short,
                        read_last_string msg.order_link_id msg.order_link_id_len out.order_link_id
                            n,
                        room_n,
                      )
                      (elim (Bool-cases (leb 32 msg.order_link_id_len)) [
                        | inl long ↦ rw long refl
                        | inr short ↦ rw short refl
                      ])
              ])
      ])
  where
    second : List ℕ
    second = msg.order_link_id_len ∷ take msg.order_link_id_len msg.order_link_id
