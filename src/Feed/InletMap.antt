-- ===== src/Feed/InletMap.antt =====
-- include/feed/shared_inlet_map.hpp.
use mpmc_with_memory_managem.Base.{
  ℕ, ◌+◌, ◌*◌, ◌^◌, ◌≤◌, ◌≡◌, refl, arith, true, false, Option, none, some, List, ◌∷◌,
}
use mpmc_with_memory_managem.Arch.{Target, cache_line_size, page_size, round_up}
use mpmc_with_memory_managem.Proto.Frame.{frame_capacity}
use mpmc_with_memory_managem.Feed.Inlet.{slot_count}
use mpmc_with_memory_managem.Trading.Ledger.{Each}
use mpmc_with_memory_managem.Os.{Call, Kernel, Region, release, move_assign, map_impl, map_shared}
use mpmc_with_memory_managem.Os.Ledger.{Accounts, with_result, map_impl-Accounts}
use mpmc_with_memory_managem.Os.Regions.{release-Accounts, Accounts-swap}
use mpmc_with_memory_managem.Os.Mapping.{IsPosix, IsMapping, map_impl_lem}

-- `sizeof(FrameSlot)`: the members before the payload stand in one cache line.
abbrev pub sizeof_frame_slot : ℕ
sizeof_frame_slot = round_up (cache_line_size + frame_capacity) cache_line_size

-- `sizeof(SharedInlet)`: so do those before the slots.
abbrev pub shared_inlet_mapped_size : ℕ
shared_inlet_mapped_size = cache_line_size + slot_count * sizeof_frame_slot

-- The region and the pointer afterwards; `none` is `std::abort`. The region that `map_shared` returns
-- is a temporary, which is destroyed at the end.
unfoldable pub map_inlet : Kernel → Target → Region → List Call → Option (Region × ℕ) × List Call
unfolding map_shared move_assign release
map_inlet k target region calls =
    let (mapped, calls') = map_shared k target shared_inlet_mapped_size cache_line_size 0 calls in
    elim mapped [
      | none ↦ (none, calls')
      | some temporary ↦
          let (region', temporary', calls'') = move_assign false region temporary calls' in
          (some (region', region'.base), (release temporary' calls'').1)
    ]

-- A region that holds an inlet at the pointer.
pub record IsInletMapping (target : Target) (calls : List Call) (regions : List Region)
    (r : Region × ℕ) : Type 0 where
  pub mapping : IsMapping target shared_inlet_mapped_size 6 r.0
  pub pointer : r.1 ≡ r.0.base
  pub accounts : Accounts calls (r.0 ∷ regions)

-- Given a kernel that maps at page boundaries and never at null: `map_inlet` either aborts or
-- leaves a region that is not null, starts at a page boundary and has room for the inlet, returns
-- its base, and has released what the region held before, so that each mapping is still held by one
-- region.
pub map_inlet_lem :
    (k : Kernel) (target : Target) (region : Region) (calls : List Call) (regions : List Region)
    → IsPosix target k
    → Accounts calls (region ∷ regions)
    → let (r, calls') = map_inlet k target region calls in
      Each (IsInletMapping target calls' regions) r
unfolding map_inlet map_shared page_size
map_inlet_lem k target region calls regions posix h =
    go (map_impl k target shared_inlet_mapped_size cache_line_size 0 true calls)
      (map_impl_lem target k shared_inlet_mapped_size 6 0 true calls posix (omega arith)
        (omega arith) (room target))
      (map_impl-Accounts k (region ∷ regions) target shared_inlet_mapped_size cache_line_size 0 true
        calls h)
  where
    room : (t : Target) → shared_inlet_mapped_size + 2 ^ 6 + page_size t ≤ 2 ^ 64
    room Target.x86_64 = omega arith
    room Target.arm64 = omega arith

    go :
        (r : Option Region × List Call)
        → Each (IsMapping target shared_inlet_mapped_size 6) r.0
        → Accounts r.1 (with_result r.0 (region ∷ regions))
        → let out : Option (Region × ℕ) × List Call = elim r.0 [
          | none ↦ (none, r.1)
          | some temporary ↦
              let (region', temporary', calls'') = move_assign false region temporary r.1 in
              (some (region', region'.base), (release temporary' calls'').1)
        ] in
          Each (IsInletMapping target out.1 regions) out.0
    go (none, calls') m a = tt
    go (some temporary, calls') m a = record {
      mapping = m;
      pointer = refl;
      accounts =
          release-Accounts region calls' (temporary ∷ regions)
            (Accounts-swap temporary region calls' regions a);
    }
