-- ===== src/Feed/Multicast.antt =====
-- include/feed/multicast_receiver.hpp and multicast_simulator.hpp, with the endpoints of
-- include/config/feed_multicast.hpp. The three sockets of an array are the members of a record.
pub mod Opened
pub mod Served
mod Tests
use mathlib.Core.Option
use mpmc_with_memory_managem.Base.{
  ℕ, zero, suc, ◌+◌, ◌%◌, ◌^◌, Bool, true, false, not, Option, none, some, List, [], ◌∷◌, length,
  take, ltb, ◌==◌, if◌then◌else◌,
}
use mpmc_with_memory_managem.Base.Int.{ℤ, pos, negsuc}
use mpmc_with_memory_managem.Proto.Frame.{frame_capacity}
use mpmc_with_memory_managem.Net.{
  Call, Network, MulticastEndpoint, UdpMulticastSocket, udp_multicast_socket_init, close,
  open_receiver, open_sender, recv, send,
}
use mpmc_with_memory_managem.Feed.Inlet.{FeedKind, SharedInlet, publish}
use mpmc_with_memory_managem.Feed.Inlet

abbrev pub lab_group : ℕ → List ℕ
lab_group last = b'2' ∷ b'3' ∷ b'9' ∷ b'.' ∷ b'2' ∷ b'5' ∷ b'5' ∷ b'.' ∷ b'1' ∷ b'.' ∷ last ∷ []

abbrev pub itch_feed : MulticastEndpoint
itch_feed = record { group = some (lab_group b'1'); port = 30001; ttl = 1 }

abbrev pub mtbt_feed : MulticastEndpoint
mtbt_feed = record { group = some (lab_group b'2'); port = 30002; ttl = 1 }

abbrev pub mcx_feed : MulticastEndpoint
mcx_feed = record { group = some (lab_group b'3'); port = 30003; ttl = 1 }

abbrev pub multicast_loopback : Bool
multicast_loopback = true

pub data MulticastChannel : Type 0 where
  itch mtbt mcx : MulticastChannel

abbrev pub feed_of : MulticastChannel → MulticastEndpoint
feed_of itch = itch_feed
feed_of mtbt = mtbt_feed
feed_of mcx = mcx_feed

pub record Sockets : Type 0 where
  pub itch_socket : UdpMulticastSocket
  pub mtbt_socket : UdpMulticastSocket
  pub mcx_socket : UdpMulticastSocket

abbrev pub socket_of : MulticastChannel → Sockets → UdpMulticastSocket
socket_of itch s = s.itch_socket
socket_of mtbt s = s.mtbt_socket
socket_of mcx s = s.mcx_socket

abbrev pub with_socket : MulticastChannel → UdpMulticastSocket → Sockets → Sockets
with_socket itch x s = record s { itch_socket = x }
with_socket mtbt x s = record s { mtbt_socket = x }
with_socket mcx x s = record s { mcx_socket = x }

-- `for (auto &socket : sockets_) { socket.close(); }`
unfoldable pub close_all : Sockets → List Call → Sockets × List Call
unfolding close
close_all s calls =
    let (itch_socket, calls') = close s.itch_socket calls in
    let (mtbt_socket, calls'') = close s.mtbt_socket calls' in
    let (mcx_socket, calls''') = close s.mcx_socket calls'' in
    (
      record { itch_socket = itch_socket; mtbt_socket = mtbt_socket; mcx_socket = mcx_socket },
      calls''',
    )

abbrev pub Opener : Type 0
Opener =
    MulticastEndpoint
    → Bool
    → UdpMulticastSocket
    → List Call
    → Bool × UdpMulticastSocket × List Call

-- `open_channel`, and `open_sender` of the simulator
unfoldable pub open_channel :
    Opener → MulticastChannel → Sockets → List Call → Bool × Sockets × List Call
open_channel opens channel s calls =
    let (ok, socket, calls') =
      opens (feed_of channel) multicast_loopback (socket_of channel s) calls in
    (ok, with_socket channel socket s, calls')

-- The channels in turn, up to one that fails.
unfoldable pub open_channels :
    Opener → List MulticastChannel → Sockets → List Call → Bool × Sockets × List Call
unfolding open_channel
open_channels opens [] s calls = (true, s, calls)
open_channels opens (channel ∷ channels) s calls =
    let (ok, s', calls') = open_channel opens channel s calls in
    let rest = open_channels opens channels s' calls' in if ok then rest else (false, s', calls')

abbrev pub all_channels : List MulticastChannel
all_channels = itch ∷ mtbt ∷ mcx ∷ []

-- `joinable` tells whether the thread has been started and not joined.
pub record MulticastHub : Type 0 where
  pub inlet : Option SharedInlet
  pub sockets : Sockets
  pub running : Bool
  pub joinable : Bool
  pub itch_datagrams : ℕ
  pub mtbt_datagrams : ℕ
  pub mcx_datagrams : ℕ

-- `MulticastHub::stop`, once the thread has ended.
unfoldable pub stop : MulticastHub → List Call → MulticastHub × List Call
unfolding close_all
stop hub calls =
    let (sockets, calls') = close_all hub.sockets calls in
    (record hub { inlet = none; sockets = sockets; running = false; joinable = false }, calls')

-- `datagrams`
unfoldable pub datagrams : MulticastChannel → MulticastHub → ℕ
datagrams itch hub = hub.itch_datagrams
datagrams mtbt hub = hub.mtbt_datagrams
datagrams mcx hub = hub.mcx_datagrams

abbrev pub counted : MulticastChannel → MulticastHub → MulticastHub
counted itch hub = record hub { itch_datagrams = (hub.itch_datagrams + 1) % 2 ^ 64 }
counted mtbt hub = record hub { mtbt_datagrams = (hub.mtbt_datagrams + 1) % 2 ^ 64 }
counted mcx hub = record hub { mcx_datagrams = (hub.mcx_datagrams + 1) % 2 ^ 64 }

abbrev pub kind_of : MulticastChannel → FeedKind
kind_of itch = Inlet.itch
kind_of mtbt = Inlet.mtbt
kind_of mcx = Inlet.mcx

-- `wait_until_processed`: `moves n` is what other threads do to the inlet before the next load.
unfoldable pub wait_until_processed :
    (ℕ → SharedInlet → SharedInlet) → ℕ → ℕ → ℕ → SharedInlet → Option SharedInlet
wait_until_processed moves zero n sequence inlet = none
wait_until_processed moves (suc fuel) n sequence inlet =
    let rest = wait_until_processed moves fuel (n + 1) sequence (moves n inlet) in
    if ltb inlet.processed sequence then rest else some inlet

module _ (net : Network) where
  -- Whether it succeeds; the inlet is `none` for `nullptr`.
  unfoldable pub start :
      Option SharedInlet → MulticastHub → List Call → Bool × MulticastHub × List Call
  unfolding stop open_channels open_receiver
  start inlet hub calls =
      let (stopped, calls') = stop hub calls in
      elim inlet [
        | none ↦ (false, stopped, calls')
        | some mapped ↦
            let (ok, sockets, calls'') =
              open_channels (open_receiver net) all_channels stopped.sockets calls' in
            let hub' = record stopped { sockets = sockets } in
            if ok
            then (
              true,
              record hub' { inlet = some mapped; running = true; joinable = true },
              calls'',
            )
            else (false, (stop hub' calls'').0, (stop hub' calls'').1)
      ]

  module _ (moves : ℕ → SharedInlet → SharedInlet) (fuel : ℕ) where
    -- `none` while it still waits for the reader after `fuel` loads.
    unfoldable pub publish_to :
        MulticastChannel → List ℕ → MulticastHub → SharedInlet → Option MulticastHub
    unfolding publish wait_until_processed
    publish_to channel bytes hub inlet =
        let inlet' = publish (kind_of channel) 0 (some bytes) 0 inlet in
        Option.map (λ served. record (counted channel hub) { inlet = some served })
          (wait_until_processed moves fuel 0 inlet'.sequence inlet')

    -- No inlet is no behaviour.
    unfoldable pub publish_datagram : MulticastChannel → List ℕ → MulticastHub → Option MulticastHub
    unfolding publish_to
    publish_datagram channel bytes hub = elim hub.inlet [
      | none ↦ none
      | some inlet ↦ publish_to channel bytes hub inlet
    ]

    -- What `recv` has returned.
    abbrev pub received : MulticastChannel → ℤ × List ℕ → MulticastHub → Option MulticastHub
    received channel (pos zero, bytes) hub = some hub
    received channel (pos (suc n), bytes) hub = publish_datagram channel (take (suc n) bytes) hub
    received channel (negsuc n, bytes) hub = some hub

    -- A round of the inner loop of `run`; `readable` is the descriptor's `POLLIN`.
    unfoldable pub serve :
        MulticastChannel → Bool → MulticastHub → List Call → Option (MulticastHub × List Call)
    unfolding recv publish_datagram
    serve channel false hub calls = some (hub, calls)
    serve channel true hub calls =
        let (r, calls') = recv net (socket_of channel hub.sockets) frame_capacity calls in
        Option.map (λ hub'. (hub', calls')) (received channel r hub)

    -- The inner loop.
    unfoldable pub serve_all :
        List (MulticastChannel × Bool)
        → MulticastHub
        → List Call
        → Option (MulticastHub × List Call)
    unfolding serve
    serve_all [] hub calls = some (hub, calls)
    serve_all ((channel, readable) ∷ rest) hub calls = elim (serve channel readable hub calls) [
      | none ↦ none
      | some (hub', calls') ↦ serve_all rest hub' calls'
    ]

    -- A round of the outer loop: `none` for a `poll` that returned 0 or a negative number, or which
    -- of the descriptors are readable.
    unfoldable pub turn :
        Option (Bool × Bool × Bool) → MulticastHub → List Call → Option (MulticastHub × List Call)
    unfolding serve_all
    turn none hub calls = some (hub, calls)
    turn (some (a, b, c)) hub calls = serve_all ((itch, a) ∷ (mtbt, b) ∷ (mcx, c) ∷ []) hub calls

  -- `MulticastSimulator::start`, whose `stop` is `close_all`.
  unfoldable pub start_simulator : Sockets → List Call → Bool × Sockets × List Call
  unfolding close_all open_channels open_sender
  start_simulator s calls =
      let (s', calls') = close_all s calls in open_channels (open_sender net) all_channels s' calls'

  -- The loop of `MulticastSimulator::send`.
  unfoldable pub attempt_sends : ℕ → UdpMulticastSocket → List ℕ → List Call → List Call
  unfolding send
  attempt_sends zero s bytes calls = calls
  attempt_sends (suc attempts) s bytes calls =
      let (sent, calls') = send net s bytes calls in
      let rest = attempt_sends attempts s bytes calls' in
      elim sent [ pos zero ↦ rest | pos (suc n) ↦ calls' | negsuc n ↦ rest ]

  -- `publish_itch`, `publish_mtbt` and `publish_mcx`; no bytes for `nullptr`.
  unfoldable pub publish_on : MulticastChannel → Option (List ℕ) → Sockets → List Call → List Call
  unfolding attempt_sends
  publish_on channel none s calls = calls
  publish_on channel (some bytes) s calls =
      if length bytes == 0 then calls else attempt_sends 3 (socket_of channel s) bytes calls
