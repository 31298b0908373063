-- ===== src/Ring.antt =====
-- `MPMC` of include/mpmc/mpmc.hpp, one whole call at a time. A slot holds the address of a message,
-- and 0 is `nullptr`. An `int` is its pattern below 2 ^ 32: the cursors wrap.
pub mod Probe
pub mod Calls
pub mod Fifo
pub mod Queue
mod Tests
use Prim.Native.Nat.{bit_and}
use mathlib.Core.Option
use mpmc_with_memory_managem.Base.{
  ℕ, zero, suc, ◌+◌, ◌-◌, ◌%◌, ◌^◌, Bool, not, ◌&&◌, Option, none, some, List, length, get_or, set,
  replicate, ◌==◌, if◌then◌else◌,
}

pub record Mpmc : Type 0 where
  pub ring : List ℕ
  pub post_cursor : ℕ
  pub pop_cursor : ℕ

abbrev pub capacity : Mpmc → ℕ
capacity q = length q.ring

-- `kMask`
abbrev pub mask : List ℕ → ℕ
mask ring = length ring - 1

unfoldable pub init : ℕ → Mpmc
init n = record { ring = replicate n 0; post_cursor = 0; pop_cursor = 0 }

-- `fetch_add(1)` on an `std::atomic<int>`
abbrev pub next_cursor : ℕ → ℕ
next_cursor c = (c + 1) % 2 ^ 32

-- The loop of `push`, from attempt `n` on. `spurious n` is a failure of its weak compare-exchange
-- on an empty slot. `none`: still spinning when the fuel ran out.
unfoldable pub push_loop : (ℕ → Bool) → ℕ → ℕ → ℕ → List ℕ → ℕ → Option (List ℕ)
push_loop spurious zero n slot ring message = none
push_loop spurious (suc fuel) n slot ring message =
    let rest = push_loop spurious fuel (n + 1) (bit_and (slot + 1) (mask ring)) ring message in
    if get_or ring slot 0 == 0 && not (spurious n) then some (set ring slot message) else rest

unfoldable pub push : (ℕ → Bool) → ℕ → Mpmc → ℕ → Option Mpmc
push spurious fuel q message =
    if message == 0
    then some q
    else Option.map
        (λ ring. record {
          ring = ring;
          post_cursor = next_cursor q.post_cursor;
          pop_cursor = q.pop_cursor;
        })
        (push_loop spurious fuel 0 (bit_and q.post_cursor (mask q.ring)) q.ring message)

-- The loop of `pop`: the message and the ring that its exchanges leave.
unfoldable pub pop_loop : ℕ → ℕ → List ℕ → Option (ℕ × List ℕ)
pop_loop zero slot ring = none
pop_loop (suc fuel) slot ring =
    let message = get_or ring slot 0 in
    let ring' = set ring slot 0 in
    let rest = pop_loop fuel (bit_and (slot + 1) (mask ring)) ring' in
    if message == 0 then rest else some (message, ring')

unfoldable pub pop : ℕ → Mpmc → Option (ℕ × Mpmc)
pop fuel q =
    Option.map (λ r. (r.0, record q { ring = r.1; pop_cursor = next_cursor q.pop_cursor }))
      (pop_loop fuel (bit_and q.pop_cursor (mask q.ring)) q.ring)

-- The loop of `try_pop`, with `rounds` probes left: the message, its slot, and the ring.
unfoldable pub try_pop_loop : ℕ → ℕ → ℕ → List ℕ → Option (ℕ × ℕ × List ℕ)
try_pop_loop zero probe slot ring = none
try_pop_loop (suc rounds) probe slot ring =
    let idx = bit_and ((slot + probe) % 2 ^ 32) (mask ring) in
    let message = get_or ring idx 0 in
    let ring' = set ring idx 0 in
    let rest = try_pop_loop rounds (probe + 1) slot ring' in
    if message == 0 then rest else some (message, idx, ring')

-- `none` is `false`: the slots probed were all empty, and nothing changed.
unfoldable pub try_pop : Mpmc → Option (ℕ × Mpmc)
try_pop q =
    Option.map (λ r. (r.0, record q { ring = r.2; pop_cursor = bit_and (r.1 + 1) (mask q.ring) }))
      (try_pop_loop (capacity q) 0 q.pop_cursor q.ring)
