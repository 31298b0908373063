-- ===== src/Feed/Handoff/Members.antt =====
-- What a slot holds of a frame while `publish` fills it, and what the reader has of it.
use mathlib.Core.Option
use mpmc_with_memory_managem.Base.{
  ℕ, zero, suc, ◌%◌, ◌^◌, ◌≤◌, ◌<◌, ◌≡◌, ◌∙◌, refl, arith, Bool, true, false, not, ◌&&◌, ◌||◌, inl,
  inr, Bool-cases, Option, none, some, List, length, take, take_all, ltb, ◌==◌, if◌then◌else◌,
}
use mpmc_with_memory_managem.Proto.Frame.{frame_capacity}
use mpmc_with_memory_managem.Feed.Inlet.{FeedKind, FrameSlot, frame_magic, has_flag, lz4_compressed}
use mpmc_with_memory_managem.Feed.Reader.{is_mtbt, frame_of}
use mpmc_with_memory_managem.Feed.Handoff.{
  Frame, write_member, members_written, fetch_member, members_fetched, rejected,
}

-- The member that is written `k`-th is that of the frame.
abbrev pub IsWritten : ℕ → Frame → FrameSlot → Type 0
IsWritten zero f s = s.magic ≡ frame_magic
IsWritten (suc zero) f s = s.kind ≡ f.kind
IsWritten (suc (suc zero)) f s = s.flags ≡ f.flags
IsWritten (suc (suc (suc zero))) f s = s.payload_len ≡ length f.bytes % 2 ^ 32
IsWritten (suc (suc (suc (suc zero)))) f s = s.uncompressed_len ≡ f.uncompressed_len
IsWritten (suc (suc (suc (suc (suc zero))))) f s = s.reserved ≡ 0
IsWritten (suc (suc (suc (suc (suc (suc k)))))) f s = take (length f.bytes) s.payload ≡ f.bytes

abbrev pub Holds : ℕ → Frame → FrameSlot → Type 0
Holds zero f s = Unit
Holds (suc k) f s = IsWritten k f s × Holds k f s

pub Holds-write_member :
    (k : ℕ) (f : Frame) (s : FrameSlot)
    → k < members_written
    → Holds k f s
    → Holds (suc k) f (write_member k f s)
unfolding write_member
Holds-write_member zero f s l h = (refl, tt)
Holds-write_member (suc zero) f s l h = (refl, h)
Holds-write_member (suc (suc zero)) f s l h = (refl, h)
Holds-write_member (suc (suc (suc zero))) f s l h = (refl, h)
Holds-write_member (suc (suc (suc (suc zero)))) f s l h = (refl, h)
Holds-write_member (suc (suc (suc (suc (suc zero))))) f s l h = (refl, h)
Holds-write_member (suc (suc (suc (suc (suc (suc zero)))))) f s l h =
    (take_all f.bytes _ (length f.bytes) refl, h)
Holds-write_member (suc (suc (suc (suc (suc (suc (suc k))))))) f s l h = absurd (omega arith)

-- The member that is fetched `k`-th is that of the frame.
abbrev pub IsFetched : ℕ → Frame → FrameSlot → Type 0
IsFetched zero f s = s.magic ≡ frame_magic
IsFetched (suc zero) f s = s.kind ≡ f.kind
IsFetched (suc (suc zero)) f s = s.flags ≡ f.flags
IsFetched (suc (suc (suc zero))) f s = s.payload_len ≡ length f.bytes % 2 ^ 32
IsFetched (suc (suc (suc (suc zero)))) f s = s.uncompressed_len ≡ f.uncompressed_len
IsFetched (suc (suc (suc (suc (suc k))))) f s = take (length f.bytes) s.payload ≡ f.bytes

abbrev pub Fetched : ℕ → Frame → FrameSlot → Type 0
Fetched zero f s = Unit
Fetched (suc k) f s = IsFetched k f s × Fetched k f s

pub Fetched-fetch_member :
    (k : ℕ) (f : Frame) (s got : FrameSlot)
    → k < members_fetched
    → Holds members_written f s
    → Fetched k f got
    → Fetched (suc k) f (fetch_member k s got)
unfolding fetch_member
Fetched-fetch_member zero f s got l h g = (h.1.1.1.1.1.1.0, tt)
Fetched-fetch_member (suc zero) f s got l h g = (h.1.1.1.1.1.0, g)
Fetched-fetch_member (suc (suc zero)) f s got l h g = (h.1.1.1.1.0, g)
Fetched-fetch_member (suc (suc (suc zero))) f s got l h g = (h.1.1.1.0, g)
Fetched-fetch_member (suc (suc (suc (suc zero)))) f s got l h g = (h.1.1.0, g)
Fetched-fetch_member (suc (suc (suc (suc (suc zero))))) f s got l h g = (h.0, g)
Fetched-fetch_member (suc (suc (suc (suc (suc (suc k)))))) f s got l h g = absurd (omega arith)

module _ (decompress : List ℕ → ℕ → Option (List ℕ)) where
  -- What the ingestion of a frame is given, `none` where it is to be dropped.
  abbrev pub delivery : Frame → Option (FeedKind × List ℕ)
  delivery f =
      if length f.bytes == 0
      then none
      else if not (is_mtbt f.kind && has_flag f.flags lz4_compressed)
      then some (f.kind, f.bytes)
      else if f.uncompressed_len == 0 || ltb frame_capacity f.uncompressed_len
      then none
      else elim (decompress f.bytes frame_capacity) [
        | none ↦ none
        | some decoded ↦
            if length decoded == f.uncompressed_len then some (f.kind, decoded) else none
      ]

  -- The kind and the bytes that a turn of the reader hands on from a slot.
  abbrev pub handed : FrameSlot → Option (FeedKind × List ℕ)
  handed got = Option.map (λ bytes. (got.kind, bytes)) (frame_of decompress got)

  out_of_bounds :
      (got : FrameSlot)
      → (got.magic == frame_magic) ≡ true
      → (got.payload_len == 0 || ltb frame_capacity got.payload_len) ≡ true
      → handed got ≡ none
  unfolding frame_of
  out_of_bounds got e l = rw (e, l)

  raw_out_of_bounds :
      (got : FrameSlot)
      → (got.magic == frame_magic) ≡ true
      → (got.payload_len == 0 || ltb frame_capacity got.payload_len) ≡ false
      → (is_mtbt got.kind && has_flag got.flags lz4_compressed) ≡ true
      → (got.uncompressed_len == 0 || ltb frame_capacity got.uncompressed_len) ≡ true
      → handed got ≡ none
  unfolding frame_of
  raw_out_of_bounds got e l c r = rw (e, l, c, r)

  decoded_of :
      (f : Frame) (o : Option (List ℕ))
      → Option.map {B = FeedKind × List ℕ}
          (λ bytes. (f.kind, bytes))
          (elim o [
            | none ↦ none
            | some decoded ↦ if length decoded == f.uncompressed_len then some decoded else none
          ])
        ≡ elim o [
          | none ↦ none
          | some decoded ↦
              if length decoded == f.uncompressed_len then some (f.kind, decoded) else none
        ]
  decoded_of f none = refl
  decoded_of f (some decoded) = elim (Bool-cases (length decoded == f.uncompressed_len)) [
    | inl e ↦ rw e
    | inr e ↦ rw e
  ]

  -- The whole of a frame.
  whole_of :
      (f : Frame) (len reserved : ℕ) (payload : List ℕ)
      → length f.bytes ≤ frame_capacity
      → len ≡ length f.bytes
      → take (length f.bytes) payload ≡ f.bytes
      → handed (record {
        magic = frame_magic;
        payload_len = len;
        kind = f.kind;
        flags = f.flags;
        uncompressed_len = f.uncompressed_len;
        reserved = reserved;
        payload = payload;
      })
        ≡ delivery f
  unfolding frame_of
  whole_of f len reserved payload fits l p =
      let small : ltb frame_capacity (length f.bytes) ≡ false = ground arith in
      elim (Bool-cases (length f.bytes == 0)) [
        | inl e ↦ rw (l, e)
        | inr e ↦ elim (Bool-cases (is_mtbt f.kind && has_flag f.flags lz4_compressed)) [
          | inr c ↦ rw (l, e, small, c, p)
          | inl c ↦
              elim (Bool-cases (f.uncompressed_len == 0 || ltb frame_capacity f.uncompressed_len)) [
                | inl r ↦ rw (l, e, small, c, r)
                | inr r ↦
                    rw (l, e, small, c, r, p) (decoded_of f (decompress f.bytes frame_capacity))
              ]
        ]
      ]

  replaced :
      (f : Frame) (magic len flags raw reserved : ℕ) (kind : FeedKind) (payload : List ℕ)
      → length f.bytes ≤ frame_capacity
      → magic ≡ frame_magic
      → kind ≡ f.kind
      → flags ≡ f.flags
      → len ≡ length f.bytes
      → raw ≡ f.uncompressed_len
      → take (length f.bytes) payload ≡ f.bytes
      → handed (record {
        magic = magic;
        payload_len = len;
        kind = kind;
        flags = flags;
        uncompressed_len = raw;
        reserved = reserved;
        payload = payload;
      })
        ≡ delivery f
  replaced f magic len flags raw reserved kind payload fits m k fl l r p =
      rw (m, k, fl, r) (whole_of f len reserved payload fits l p)

  is_magic : (got : FrameSlot) → got.magic ≡ frame_magic → (got.magic == frame_magic) ≡ true
  is_magic got e = ground (arith, e)

  and_true : (a b : Bool) → (a && b) ≡ true → (a ≡ true) × (b ≡ true)
  and_true true b e = (refl, e)
  and_true false b e = absurd cc

  bad_raw :
      (got : FrameSlot)
      → (got.magic == frame_magic) ≡ true
      → (is_mtbt got.kind && has_flag got.flags lz4_compressed) ≡ true
      → (got.uncompressed_len == 0 || ltb frame_capacity got.uncompressed_len) ≡ true
      → handed got ≡ none
  bad_raw got m c r =
      elim (Bool-cases (got.payload_len == 0 || ltb frame_capacity got.payload_len)) [
        | inl l ↦ out_of_bounds got m l
        | inr l ↦ raw_out_of_bounds got m l c r
      ]

  nothing_empty : (f : Frame) → (length f.bytes == 0) ≡ true → none ≡ delivery f
  nothing_empty f e = rw e

  carried :
      {kind kind' : FeedKind} {flags flags' : ℕ}
      → kind ≡ kind'
      → flags ≡ flags'
      → (is_mtbt kind && has_flag flags lz4_compressed) ≡ true
      → (is_mtbt kind' && has_flag flags' lz4_compressed) ≡ true
  carried k l c = rw (k, l) at c

  nothing_raw :
      (f : Frame)
      → (is_mtbt f.kind && has_flag f.flags lz4_compressed) ≡ true
      → (f.uncompressed_len == 0 || ltb frame_capacity f.uncompressed_len) ≡ true
      → none ≡ delivery f
  nothing_raw f c r = elim (Bool-cases (length f.bytes == 0)) [
    | inl e ↦ rw e
    | inr e ↦ rw (e, c, r)
  ]

  length_kept :
      (n len : ℕ)
      → n ≤ frame_capacity
      → len ≡ n % 2 ^ 32
      → (len == 0 || ltb frame_capacity len) ≡ true
      → (n == 0) ≡ true
  length_kept n len fits e bad = ground arith

  -- The whole of a frame, or what it is rejected on, is what was sent.
  pub whole-handed :
      (f : Frame) (got : FrameSlot)
      → length f.bytes ≤ frame_capacity
      → Fetched members_fetched f got
      → handed got ≡ delivery f
  whole-handed f got fits h =
      replaced f got.magic got.payload_len got.flags got.uncompressed_len got.reserved got.kind
        got.payload fits h.1.1.1.1.1.0 h.1.1.1.1.0 h.1.1.1.0 (h.1.1.0 ∙ omega arith) h.1.0 h.0

  pub rejected-handed :
      (f : Frame) (k : ℕ) (got : FrameSlot)
      → length f.bytes ≤ frame_capacity
      → Fetched k f got
      → rejected k got ≡ true
      → handed got ≡ delivery f
  unfolding rejected
  rejected-handed f zero got fits h e = absurd cc
  rejected-handed f (suc zero) got fits h e = absurd (ground (arith, e, h.0))
  rejected-handed f (suc (suc zero)) got fits h e = absurd cc
  rejected-handed f (suc (suc (suc zero))) got fits h e = absurd cc
  rejected-handed f (suc (suc (suc (suc zero)))) got fits h e =
      out_of_bounds got (is_magic got h.1.1.1.0) e
      ∙ nothing_empty f (length_kept (length f.bytes) got.payload_len fits h.0 e)
  rejected-handed f (suc (suc (suc (suc (suc zero))))) got fits h e =
      let (c, r) = and_true _ _ e in
      bad_raw got (is_magic got h.1.1.1.1.0) c r
      ∙ nothing_raw f (carried h.1.1.1.0 h.1.1.0 c) (rw h.0 at r)
  rejected-handed f (suc (suc (suc (suc (suc (suc k)))))) got fits h e = absurd cc
