-- ===== src/Feed/Tests.antt =====
-- A frame published to an inlet, read, and ingested.
use mpmc_with_memory_managem.Base.{
  ℕ, ◌%◌, ◌^◌, ◌≡◌, refl, arith, Option, none, some, List, [], ◌∷◌, take,
}
use mpmc_with_memory_managem.Base.Sum.{total}
use mpmc_with_memory_managem.Proto.Frame.{Stats}
use mpmc_with_memory_managem.Pool.{slot_init}
use mpmc_with_memory_managem.Ring.Probe.{never}
use mpmc_with_memory_managem.Runtime.Counts.{acquired}
use mpmc_with_memory_managem.Trading.Ledger.{Each}
use mpmc_with_memory_managem.Codec.{compress, decoder}
use mpmc_with_memory_managem.Codec.Copy.{copy, copy-IsLz4}
use mpmc_with_memory_managem.Feed.Compressed.{compressed_frame_read}
use mpmc_with_memory_managem.Feed.Handoff.Members.{handed}
use mpmc_with_memory_managem.Feed.Inlet.{
  mtbt, lz4_compressed, shared_inlet_init, published_slot, publish, itch,
}
use mpmc_with_memory_managem.Arch.{x86_64}
use mpmc_with_memory_managem.Os.{region_init}
use mpmc_with_memory_managem.Os.Ledger.{Accounts}
use mpmc_with_memory_managem.Os.Paging.{kernel, kernel-IsPosix}
use mpmc_with_memory_managem.Feed.InletMap.{map_inlet, IsInletMapping, map_inlet_lem}
use mpmc_with_memory_managem.Feed.Ingress.{
  Store, ingest_itch_frame, ingest_mtbt_frame, ingest_mcx_tob_frame,
}
use mpmc_with_memory_managem.Feed.Stored.{IsStored, ingest-IsStored}
use mpmc_with_memory_managem.Feed.Reader.{Reader}

abbrev bytes : List ℕ
bytes = 0 ∷ 1 ∷ 65 ∷ []

abbrev nobody : ℕ → ℕ
nobody a = 0

abbrev store : Store
store = record {
  pool = record { base = 384; slots = slot_init ∷ slot_init ∷ [] };
  queue = record { ring = 0 ∷ 0 ∷ []; post_cursor = 0; pop_cursor = 0 };
}

store-IsStored : IsStored nobody store
unfolding total acquired
store-IsStored = record {
  sized = record { exponent = 1; small = omega arith; sized = refl };
  books = record {
    mapped = record { not_null = omega arith; in_range = omega arith };
    states = (omega arith, (omega arith, tt));
    owned = λ a real. ground (arith, real);
  };
}

ingest-IsStored_example :
    Each
      (λ (r : Stats × Option Store). Each (IsStored nobody) r.1)
      (ingest_itch_frame never never 2 (some bytes) store)
    × ((turns : ℕ)
        → Each
            (λ (r : Stats × Option Store). Each (IsStored nobody) r.1)
            (ingest_mtbt_frame never never 2 turns (some bytes) store))
    × Each (IsStored nobody) (ingest_mcx_tob_frame never never 2 (some bytes) store).1
ingest-IsStored_example = ingest-IsStored nobody never never 2 (some bytes) store store-IsStored

-- A decoder that never succeeds.
abbrev no_lz4 : List ℕ → ℕ → Option (List ℕ)
no_lz4 compressed capacity = none

abbrev reader : Reader
reader = record {
  inlet = publish itch 0 (some bytes) 0 shared_inlet_init;
  store = store;
  last_sequence = 0;
}

compressed_frame_read_example :
    handed (decoder copy) (
      published_slot
        (publish mtbt lz4_compressed (some (take 3 bytes)) (3 % 2 ^ 32) shared_inlet_init))
    ≡ some (mtbt, bytes)
unfolding copy compress shared_inlet_init
compressed_frame_read_example =
    compressed_frame_read copy-IsLz4 bytes (record { len = 3; bytes = bytes }) shared_inlet_init
      (omega arith) refl refl

empty-Accounts : Accounts [] (region_init ∷ [])
unfolding Accounts total
empty-Accounts a n real = ground (arith, real)

map_inlet_lem_example :
    let (r, calls') = map_inlet kernel x86_64 region_init [] in
    Each (IsInletMapping x86_64 calls' []) r
map_inlet_lem_example = map_inlet_lem kernel x86_64 region_init [] [] kernel-IsPosix empty-Accounts
