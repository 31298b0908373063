-- ===== src/Feed/Multicast/Tests.antt =====
-- A hub whose second socket is refused, and a datagram that a reader acknowledges.
use mpmc_with_memory_managem.Base.{
  ℕ, ◌≡◌, ◌≢◌, refl, arith, true, false, Option, none, some, List, [], ◌∷◌, if◌then◌else◌,
}
use mpmc_with_memory_managem.Base.Int.{pos}
use mpmc_with_memory_managem.Base.Sum.{total}
use mpmc_with_memory_managem.Trading.Ledger.{Each}
use mpmc_with_memory_managem.Net.{Call, Network, udp_multicast_socket_init}
use mpmc_with_memory_managem.Net.Ledger.{Accounts}
use mpmc_with_memory_managem.Feed.Inlet.{SharedInlet, shared_inlet_init, publish}
use mpmc_with_memory_managem.Feed.Multicast.{MulticastHub, start, publish_datagram, itch}
use mpmc_with_memory_managem.Feed.Multicast.Opened.{Starts, start_lem}
use mpmc_with_memory_managem.Feed.Multicast.Served.{
  IsReader, moved, IsDelivered, publish_datagram_lem,
}

abbrev one_socket : List Call → Option ℕ
one_socket [] = some 3
one_socket (_ ∷ _) = none

abbrev net : Network
net = record {
  sockets = one_socket;
  accepts = λ calls fd setting. true;
  receives = λ calls fd capacity. (pos 0, []);
  sends = λ calls fd bytes address port. pos 0;
  inet_pton = λ text. some 1;
}

abbrev hub : MulticastHub
hub = record {
  inlet = some shared_inlet_init;
  sockets = record {
    itch_socket = udp_multicast_socket_init;
    mtbt_socket = udp_multicast_socket_init;
    mcx_socket = udp_multicast_socket_init;
  };
  running = false;
  joinable = false;
  itch_datagrams = 0;
  mtbt_datagrams = 0;
  mcx_datagrams = 0;
}

hub-Accounts :
    Accounts []
      (udp_multicast_socket_init ∷ udp_multicast_socket_init ∷ udp_multicast_socket_init ∷ [])
unfolding Accounts total
hub-Accounts a = omega arith

start_lem_example :
    let (ok, hub', calls') = start net (some shared_inlet_init) hub [] in
    Starts net [] ok hub' calls' × (hub'.inlet ≡ (if ok then some shared_inlet_init else none))
start_lem_example = start_lem net [] (some shared_inlet_init) hub [] hub-Accounts

-- It processes what it sees at once.
abbrev moves : ℕ → SharedInlet → SharedInlet
moves n inlet = record inlet { processed = inlet.sequence }

moves-IsReader : IsReader moves
moves-IsReader = record {
  slots = λ n inlet. refl;
  published = λ n inlet. refl;
  sequence = λ n inlet. refl;
}

publish_datagram_lem_example :
    let r = publish_datagram net moves 2 itch (7 ∷ 8 ∷ []) hub in
    (r ≢ none) × Each (IsDelivered itch (7 ∷ 8 ∷ []) shared_inlet_init hub) r
unfolding shared_inlet_init publish moved
publish_datagram_lem_example =
    publish_datagram_lem moves-IsReader net 2 itch (7 ∷ 8 ∷ []) shared_inlet_init hub 1 refl
      (omega arith) refl (omega arith) (omega arith)
