-- ===== src/Feed/Stored.antt =====
-- Ingestion puts into the queue exactly what it acquires.
use mathlib.Core.Option
use mpmc_with_memory_managem.Base.{
  ℕ, zero, suc, ◌+◌, arith, Bool, true, false, not, ◌||◌, inl, inr, Bool-cases, Option,
  Option-cases, none, some, List, [], ◌∷◌, length, take, drop, ltb, ◌==◌, if◌then◌else◌,
}
use mpmc_with_memory_managem.Wire.Struct.{size_of, load}
use mpmc_with_memory_managem.Proto.Nse.{MtbtStreamHeader, mtbt_stream_header_struct}
use mpmc_with_memory_managem.Proto.Mcx.Order.{TopOfBook, top_of_book_struct}
use mpmc_with_memory_managem.Proto.Message.{
  WireMessage, itch_add_order_wire, mtbt_new_order_wire, top_of_book_wire,
}
use mpmc_with_memory_managem.Proto.Frame.{Stats, stats_init, count}
use mpmc_with_memory_managem.Proto.ItchDecode.{
  itch_read_be16, itch_loop, split_itch_frame, decode_itch_add_order,
}
use mpmc_with_memory_managem.Proto.MtbtDecode.{
  add_size_t, to_size_t, mtbt_loop, split_mtbt_frame, decode_mtbt_stream_header, decode_mtbt_order,
}
use mpmc_with_memory_managem.Pool.{TaggedPool, acquire_filled}
use mpmc_with_memory_managem.Ring.{Mpmc, push}
use mpmc_with_memory_managem.Ring.Probe.{IsSized}
use mpmc_with_memory_managem.Runtime.Counts.{same, in_ring}
use mpmc_with_memory_managem.Trading.Ledger.{Each, Each-map, Books, Books-same, Puts, push-Puts}
use mpmc_with_memory_managem.Trading.Ledger.Took.{Took, Took-none, Took-one, acquire_filled-Took}
use mpmc_with_memory_managem.Feed.Ingress.{
  Store, keep, on_itch_message, ingest_itch_frame, on_mtbt_packet, ingest_mtbt_frame,
  ingest_mcx_tob_frame,
}

-- Every acquired message is in the queue, or one of the `others` has it.
pub record IsStored (others : ℕ → ℕ) (s : Store) : Type 0 where
  pub sized : IsSized s.queue.ring
  pub books : Books s.pool (λ a. in_ring a s.queue.ring + others a)

module _ (others : ℕ → ℕ) (busy spurious : ℕ → Bool) (fuel : ℕ) where
  Kept : Bool × Option Store → Type 0
  Kept r = Each (IsStored others) r.1

  kept :
      (s : Store) (r : ℕ × TaggedPool)
      → IsStored others s
      → Took (λ a. in_ring a s.queue.ring + others a) r
      → Kept (
          if r.0 == 0 then (false, some (record s { pool = r.1 })) else (
            true,
            Option.map (λ q. record { pool = r.1; queue = q }) (push spurious fuel s.queue r.0),
          ))
  unfolding Took Kept
  kept s r h t = elim (Bool-cases (r.0 == 0)) [
    | inl null ↦ rw null (record { sized = h.sized; books = Took-none _ r null t })
    | inr real ↦ rw real (
        Each-map (IsStored others) _ (push spurious fuel s.queue r.0) (
          weaken (Took-one _ r real t) (push spurious fuel s.queue r.0)
            (push-Puts spurious fuel s.queue r.0 h.sized (ground (arith, real)))))
  ]
    where
      weaken :
          Books r.1 (λ a. in_ring a s.queue.ring + others a + same a r.0)
          → (o : Option Mpmc) → Each (λ q. Puts s.queue r.0 q.ring) o
          → Each (λ q. IsStored others (record { pool = r.1; queue = q })) o
      weaken b none u = tt
      weaken b (some q) u = record {
        sized = u.sized;
        books = Books-same b (λ a x. omega (arith, u.moved a x));
      }

  keep-IsStored :
      {A : Type 0} ⦃w : WireMessage A⦄
      → (decoded : A) (s : Store) → IsStored others s
      → Each (IsStored others) (keep busy spurious fuel decoded s).1
  unfolding keep Kept
  keep-IsStored decoded s h =
      kept s (acquire_filled busy s.pool decoded) h
        (acquire_filled-Took busy s.pool decoded _ h.books)

  on_itch-IsStored :
      (s : Option Store) (body : List ℕ)
      → Each (IsStored others) s
      → Each (IsStored others) (on_itch_message busy spurious fuel s body).1
  unfolding on_itch_message
  on_itch-IsStored none body h = tt
  on_itch-IsStored (some s) body h = elim (Option-cases (decode_itch_add_order (some body))) [
    | inl bad ↦ rw (Each, on_itch_message, bad) h
    | inr (decoded, good) ↦ rw (Each, on_itch_message, good) (keep-IsStored decoded s h)
  ]

  on_mtbt-IsStored :
      (s : Option Store) (packet : List ℕ) (packet_len : ℕ) (header : MtbtStreamHeader)
      → Each (IsStored others) s
      → Each (IsStored others) (on_mtbt_packet busy spurious fuel s packet packet_len header).1
  unfolding on_mtbt_packet
  on_mtbt-IsStored none packet packet_len header h = tt
  on_mtbt-IsStored (some s) packet packet_len header h =
      elim (Option-cases (decode_mtbt_order (some (take packet_len packet)))) [
        | inl bad ↦ rw (Each, on_mtbt_packet, bad) h
        | inr (decoded, good) ↦ rw (Each, on_mtbt_packet, good) (keep-IsStored decoded.order s h)
      ]

-- What a handler keeps, the loop that calls it keeps.
module _ {S : Type 0} (I : S → Type 0) where
  itch_loop-keeps :
      (on_message : S → List ℕ → Bool × S)
      → ((s : S) (body : List ℕ) → I s → I (on_message s body).1)
      → (fuel offset : ℕ) (rest : List ℕ) (stats : Stats) (s : S) → I s
      → Each (λ (r : Stats × S). I r.1) (itch_loop on_message fuel offset rest stats s)
  unfolding itch_loop
  itch_loop-keeps on_message k zero offset rest stats s h = tt
  itch_loop-keeps on_message k (suc fuel) offset [] stats s h = h
  itch_loop-keeps on_message k (suc fuel) offset (x ∷ []) stats s h = h
  itch_loop-keeps on_message k (suc fuel) offset (high ∷ low ∷ rest) stats s h =
      elim (Bool-cases
        (itch_read_be16 high low == 0 || ltb (length rest) (itch_read_be16 high low))) [
          | inl e ↦ rw e h
          | inr e ↦ rw e (itch_loop-keeps on_message k fuel _ _ _ _ (k s _ h))
        ]

  mtbt_loop-keeps :
      (on_packet : S → List ℕ → ℕ → MtbtStreamHeader → Bool × S)
      → ((s : S) (packet : List ℕ) (n : ℕ) (header : MtbtStreamHeader)
          → I s
          → I (on_packet s packet n header).1)
      → (fuel : ℕ) (frame : List ℕ) (offset : ℕ) (stats : Stats) (s : S) → I s
      → Each (λ (r : Stats × S). I r.1) (mtbt_loop on_packet fuel frame offset stats s)
  unfolding mtbt_loop
  mtbt_loop-keeps on_packet k zero frame offset stats s h = tt
  mtbt_loop-keeps on_packet k (suc fuel) frame offset stats s h =
      go
        (if ltb (length frame) (add_size_t offset (size_of MtbtStreamHeader))
          then none
          else decode_mtbt_stream_header (some (drop offset frame)))
        (λ o t u g. mtbt_loop-keeps on_packet k fuel frame o t u g)
    where
      go :
          (o : Option MtbtStreamHeader)
          → ((offset' : ℕ) (stats' : Stats) (s' : S)
              → I s'
              → Each (λ (r : Stats × S). I r.1) (mtbt_loop on_packet fuel frame offset' stats' s'))
          → Each
              (λ (r : Stats × S). I r.1)
              (elim o [
                | none ↦ some (record stats { consumed = offset }, s)
                | some header ↦
                    let packet_len = to_size_t header.msg_len in
                    let r = on_packet s (drop offset frame) packet_len header in
                    let next =
                      mtbt_loop on_packet fuel frame
                        (add_size_t offset packet_len)
                        (count r.0 stats)
                        r.1 in
                    if ltb packet_len (size_of MtbtStreamHeader)
                      || ltb (length frame) (add_size_t offset packet_len)
                    then some (record stats { consumed = offset }, s)
                    else next
              ])
      go none ih = h
      go (some header) ih =
          elim (Bool-cases (
            ltb (to_size_t header.msg_len) (size_of MtbtStreamHeader)
            || ltb (length frame) (add_size_t offset (to_size_t header.msg_len)))) [
              | inl e ↦ rw e h
              | inr e ↦ rw e (ih _ _ _ (k s _ _ header h))
            ]

-- If the acquired messages of the pool are those in the queue and those that others have, each
-- once, then this holds after the ingestion of any frame, of each of the three kinds, that returns.
pub ingest-IsStored :
    (others : ℕ → ℕ) (busy spurious : ℕ → Bool) (fuel : ℕ) (frame : Option (List ℕ)) (s : Store)
    → IsStored others s
    → Each
        (λ (r : Stats × Option Store). Each (IsStored others) r.1)
        (ingest_itch_frame busy spurious fuel frame s)
      × ((turns : ℕ)
          → Each
              (λ (r : Stats × Option Store). Each (IsStored others) r.1)
              (ingest_mtbt_frame busy spurious fuel turns frame s))
      × Each (IsStored others) (ingest_mcx_tob_frame busy spurious fuel frame s).1
unfolding ingest_itch_frame ingest_mtbt_frame ingest_mcx_tob_frame split_itch_frame split_mtbt_frame
ingest-IsStored others busy spurious fuel none s h = (h, λ turns. h, h)
ingest-IsStored others busy spurious fuel (some frame) s h = (
  itch_loop-keeps (Each (IsStored others)) (on_itch_message busy spurious fuel)
      (on_itch-IsStored others busy spurious fuel) (suc (length frame)) 0 frame stats_init (some s)
      h,
  λ turns.
      mtbt_loop-keeps (Each (IsStored others)) (on_mtbt_packet busy spurious fuel)
        (on_mtbt-IsStored others busy spurious fuel) turns frame 0 stats_init (some s) h,
  elim (Bool-cases (not (length frame == size_of TopOfBook))) [
    | inl e ↦ rw e h
    | inr e ↦
        rw e (let tick : TopOfBook = load frame in keep-IsStored others busy spurious fuel tick s h)
  ],
)
