-- ===== src/Net.antt =====
-- src/udp_multicast.cpp and include/net/udp_multicast.hpp. What the system answers to a call is a
-- parameter that may depend on all calls so far, the last one first; so is `inet_pton`.
pub mod Ledger
use mpmc_with_memory_managem.Base.{
  ℕ, ◌-◌, ◌%◌, ◌^◌, Bool, true, false, not, ◌||◌, Option, none, some, List, [], ◌∷◌, length, ◌==◌,
  if◌then◌else◌,
}
use mpmc_with_memory_managem.Base.Int.{ℤ, pos, negsuc}

-- The arguments of `setsockopt` and of `bind`. The interface is 127.0.0.1 if `local`.
pub data Setting : Type 0 where
  reuse_address : Setting
  multicast_loop : (enabled : Bool) → Setting
  multicast_ttl : (ttl : ℕ) → Setting
  add_membership : (address : ℕ) (local : Bool) → Setting
  multicast_if : (local : Bool) → Setting
  port_of : (port : ℕ) → Setting

-- The calls with their answers: a descriptor or `none` for a negative number, whether a setting
-- returned 0, and what the transfers returned.
pub data Call : Type 0 where
  socket : Option ℕ → Call
  configure : (fd : ℕ) → Setting → Bool → Call
  close_fd : (fd : ℕ) → Call
  recvfrom : (fd capacity : ℕ) → ℤ → Call
  sendto : (fd : ℕ) → List ℕ → (address port : ℕ) → ℤ → Call

pub record Network : Type 0 where
  pub sockets : List Call → Option ℕ
  pub accepts : List Call → ℕ → Setting → Bool
  pub receives : List Call → (fd capacity : ℕ) → ℤ × List ℕ
  pub sends : List Call → (fd : ℕ) → List ℕ → (address port : ℕ) → ℤ
  pub inet_pton : List ℕ → Option ℕ

-- `group` is `none` for `nullptr`.
pub record MulticastEndpoint : Type 0 where
  pub group : Option (List ℕ)
  pub port : ℕ
  pub ttl : ℕ

abbrev pub multicast_endpoint_init : MulticastEndpoint
multicast_endpoint_init = record { group = none; port = 0; ttl = 1 }

-- `fd` is `none` for a negative number.
pub record UdpMulticastSocket : Type 0 where
  pub fd : Option ℕ
  pub endpoint : MulticastEndpoint

abbrev pub udp_multicast_socket_init : UdpMulticastSocket
udp_multicast_socket_init = record { fd = none; endpoint = multicast_endpoint_init }

-- `valid`
abbrev pub is_valid : UdpMulticastSocket → Bool
is_valid s = elim s.fd [ none ↦ false | some fd ↦ true ]

unfoldable pub closed : Option ℕ → List Call → List Call
closed none calls = calls
closed (some fd) calls = close_fd fd ∷ calls

-- `close`, and the destructor
unfoldable pub close : UdpMulticastSocket → List Call → UdpMulticastSocket × List Call
unfolding closed
close s calls = (record s { fd = none }, closed s.fd calls)

abbrev pub minus_one : ℤ
minus_one = negsuc 0

module _ (net : Network) where
  -- The settings in turn, up to one that fails; `none` for an address that `inet_pton` refuses.
  unfoldable pub configure_all : ℕ → List (Option Setting) → List Call → Bool × List Call
  configure_all fd [] calls = (true, calls)
  configure_all fd (none ∷ settings) calls = (false, calls)
  configure_all fd (some setting ∷ settings) calls =
      let ok = net.accepts calls fd setting in
      let rest = configure_all fd settings (configure fd setting ok ∷ calls) in
      if ok then rest else (false, configure fd setting ok ∷ calls)

  -- `join_group`; a null group is not passed.
  abbrev pub join_group : Option (List ℕ) → Bool → Option Setting
  join_group group loopback = elim group [
    | none ↦ none
    | some text ↦ elim (net.inet_pton text) [
      | none ↦ none
      | some address ↦ some (add_membership address loopback)
    ]
  ]

  abbrev pub receiver_settings : MulticastEndpoint → Bool → List (Option Setting)
  receiver_settings endpoint loopback =
      some reuse_address
      ∷ some (port_of endpoint.port)
      ∷ join_group endpoint.group loopback
      ∷ some (multicast_loop loopback)
      ∷ []

  abbrev pub sender_settings : MulticastEndpoint → Bool → List (Option Setting)
  sender_settings endpoint loopback =
      some (multicast_ttl endpoint.ttl)
      ∷ some (multicast_loop loopback)
      ∷ some (multicast_if loopback)
      ∷ []

  -- From `::socket` on, given its answer.
  unfoldable pub open_fd :
      MulticastEndpoint
      → List (Option Setting)
      → Option ℕ
      → List Call
      → Bool × UdpMulticastSocket × List Call
  unfolding configure_all
  open_fd endpoint settings none calls = (false, record { fd = none; endpoint = endpoint }, calls)
  open_fd endpoint settings (some fd) calls =
      let (ok, calls') = configure_all fd settings calls in
      if ok
      then (true, record { fd = some fd; endpoint = endpoint }, calls')
      else (false, record { fd = none; endpoint = endpoint }, close_fd fd ∷ calls')

  -- What `open_receiver` and `open_sender` have in common.
  unfoldable pub reopen :
      MulticastEndpoint
      → List (Option Setting)
      → UdpMulticastSocket
      → List Call
      → Bool × UdpMulticastSocket × List Call
  unfolding close open_fd
  reopen endpoint settings s calls =
      let calls' = (close s calls).1 in
      let answer = net.sockets calls' in open_fd endpoint settings answer (socket answer ∷ calls')

  unfoldable pub open_receiver :
      MulticastEndpoint
      → Bool
      → UdpMulticastSocket
      → List Call
      → Bool × UdpMulticastSocket × List Call
  unfolding reopen
  open_receiver endpoint loopback s calls =
      reopen endpoint (receiver_settings endpoint loopback) s calls

  unfoldable pub open_sender :
      MulticastEndpoint
      → Bool
      → UdpMulticastSocket
      → List Call
      → Bool × UdpMulticastSocket × List Call
  unfolding reopen
  open_sender endpoint loopback s calls =
      reopen endpoint (sender_settings endpoint loopback) s calls

  -- The number and the bytes received; the buffer is not null.
  unfoldable pub recv : UdpMulticastSocket → ℕ → List Call → (ℤ × List ℕ) × List Call
  recv s capacity calls = elim s.fd [
    | none ↦ ((minus_one, []), calls)
    | some fd ↦
        let r = net.receives calls fd capacity in
        if capacity == 0 then ((minus_one, []), calls) else (r, recvfrom fd capacity r.0 ∷ calls)
  ]

  -- From the checks on; the buffer is not null.
  unfoldable pub send_to : ℕ → List ℕ → ℕ → List ℕ → List Call → ℤ × List Call
  send_to fd group port buffer calls = elim (net.inet_pton group) [
    | none ↦ (minus_one, calls)
    | some address ↦
        let sent = net.sends calls fd buffer address port in
        (sent, sendto fd buffer address port sent ∷ calls)
  ]

  unfoldable pub send : UdpMulticastSocket → List ℕ → List Call → ℤ × List Call
  unfolding send_to
  send s buffer calls = elim s.fd [
    | none ↦ (minus_one, calls)
    | some fd ↦ elim s.endpoint.group [
      | none ↦ (minus_one, calls)
      | some group ↦
          if length buffer == 0 || s.endpoint.port == 0
          then (minus_one, calls)
          else send_to fd group s.endpoint.port buffer calls
    ]
  ]
