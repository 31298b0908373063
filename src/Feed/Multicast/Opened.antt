-- ===== src/Feed/Multicast/Opened.antt =====
-- Every descriptor that the hub or the simulator opens is closed, or is in one of its sockets.
use mpmc_with_memory_managem.Base.{
  ◌≡◌, refl, ◌∙◌, arith, Bool, true, false, inl, inr, Bool-cases, Option, none, some, List, ◌∷◌,
  if◌then◌else◌,
}
use mpmc_with_memory_managem.Base.Sum.{total}
use mpmc_with_memory_managem.Net.{
  Call, Network, MulticastEndpoint, UdpMulticastSocket, is_valid, open_receiver, open_sender,
  receiver_settings, sender_settings,
}
use mpmc_with_memory_managem.Net.Ledger.{Accounts, close-Accounts, reopen-Accounts}
use mpmc_with_memory_managem.Feed.Inlet.{SharedInlet}
use mpmc_with_memory_managem.Feed.Multicast.{
  MulticastChannel, itch, mtbt, mcx, feed_of, Sockets, socket_of, close_all, Opener, open_channel,
  open_channels, all_channels, MulticastHub, stop, start, start_simulator,
}

-- Each open descriptor is in one of the three sockets, or one of the `others` has it.
abbrev pub Owned : List UdpMulticastSocket → Sockets → List Call → Type 0
Owned others s calls = Accounts calls (s.itch_socket ∷ s.mtbt_socket ∷ s.mcx_socket ∷ others)

-- All three are open, or all three are closed.
abbrev pub All3 : Bool → Sockets → Type 0
All3 b s = (is_valid s.itch_socket ≡ b) × (is_valid s.mtbt_socket ≡ b) × (is_valid s.mcx_socket ≡ b)

module _ (others : List UdpMulticastSocket) where
  -- The second and the third socket in front.
  second :
      (a b c : UdpMulticastSocket) (calls : List Call)
      → Accounts calls (a ∷ b ∷ c ∷ others)
      → Accounts calls (b ∷ a ∷ c ∷ others)
  unfolding Accounts total
  second a b c calls h n = omega (arith, h n)

  third :
      (a b c : UdpMulticastSocket) (calls : List Call)
      → Accounts calls (a ∷ b ∷ c ∷ others)
      → Accounts calls (c ∷ b ∷ a ∷ others)
  unfolding Accounts total
  third a b c calls h n = omega (arith, h n)

  pub close_all-Owned :
      (s : Sockets) (calls : List Call)
      → Owned others s calls
      → let (s', calls') = close_all s calls in Owned others s' calls' × All3 false s'
  unfolding close_all
  close_all-Owned s calls h =
      let first = close-Accounts s.itch_socket calls (s.mtbt_socket ∷ s.mcx_socket ∷ others) h in
      let then_second = close-Accounts s.mtbt_socket _ _ (second _ _ _ _ first) in
      let then_third =
        close-Accounts s.mcx_socket _ _ (third _ _ _ _ (second _ _ _ _ then_second)) in
      (third _ _ _ _ then_third, (refl, refl, refl))

  -- What `open_receiver` and `open_sender` keep.
  abbrev Keeps : Opener → Type 0
  Keeps opens =
      (endpoint : MulticastEndpoint) (loopback : Bool) (s : UdpMulticastSocket) (calls : List Call)
      (rest : List UdpMulticastSocket)
      → Accounts calls (s ∷ rest)
      → let (ok, s', calls') = opens endpoint loopback s calls in
        Accounts calls' (s' ∷ rest) × (is_valid s' ≡ ok)

  open_channel-Owned :
      (opens : Opener) (channel : MulticastChannel) (s : Sockets) (calls : List Call)
      → Keeps opens
      → Owned others s calls
      → let (ok, s', calls') = open_channel opens channel s calls in
        Owned others s' calls' × (is_valid (socket_of channel s') ≡ ok)
  unfolding open_channel
  open_channel-Owned opens itch s calls k h =
      k (feed_of itch) true s.itch_socket calls (s.mtbt_socket ∷ s.mcx_socket ∷ others) h
  open_channel-Owned opens mtbt s calls k h =
      let (kept, valid) =
        k (feed_of mtbt) true s.mtbt_socket calls (s.itch_socket ∷ s.mcx_socket ∷ others)
          (second _ _ _ _ h) in
      (second _ _ _ _ kept, valid)
  open_channel-Owned opens mcx s calls k h =
      let (kept, valid) =
        k (feed_of mcx) true s.mcx_socket calls (s.mtbt_socket ∷ s.itch_socket ∷ others)
          (third _ _ _ _ h) in
      (third _ _ _ _ kept, valid)

  pub open_channels-Owned :
      (opens : Opener) (s : Sockets) (calls : List Call)
      → Keeps opens
      → Owned others s calls
      → let (ok, s', calls') = open_channels opens all_channels s calls in
        Owned others s' calls' × (ok ≡ true → All3 true s')
  unfolding open_channels open_channel
  open_channels-Owned opens s calls k h =
      let (kept, valid) = open_channel-Owned opens itch s calls k h in
      let r = open_channel opens itch s calls in
      let (kept', valid') = open_channel-Owned opens mtbt r.1 r.2 k kept in
      let r' = open_channel opens mtbt r.1 r.2 in
      let (kept'', valid'') = open_channel-Owned opens mcx r'.1 r'.2 k kept' in
      let r'' = open_channel opens mcx r'.1 r'.2 in
      elim (Bool-cases r.0) [
        | inr e ↦ rw (e, open_channels) (kept, (λ f. absurd cc))
        | inl e ↦ elim (Bool-cases r'.0) [
          | inr e' ↦ rw (e, e', open_channels) (kept', (λ f. absurd cc))
          | inl e' ↦ elim (Bool-cases r''.0) [
            | inr e'' ↦ rw (e, e', e'', open_channels) (kept'', (λ f. absurd cc))
            | inl e'' ↦
                rw (e, e', e'', open_channels)
                  (kept'', (λ f. (valid ∙ e, valid' ∙ e', valid'' ∙ e'')))
          ]
        ]
      ]

module _ (net : Network) (others : List UdpMulticastSocket) where
  receiver-Keeps : Keeps others (open_receiver net)
  unfolding open_receiver
  receiver-Keeps endpoint loopback s calls rest h =
      reopen-Accounts net rest endpoint (receiver_settings net endpoint loopback) s calls h

  sender-Keeps : Keeps others (open_sender net)
  unfolding open_sender
  sender-Keeps endpoint loopback s calls rest h =
      reopen-Accounts net rest endpoint (sender_settings net endpoint loopback) s calls h

  pub stop-Owned :
      (hub : MulticastHub) (calls : List Call)
      → Owned others hub.sockets calls
      → let (hub', calls') = stop hub calls in
        Owned others hub'.sockets calls' × All3 false hub'.sockets
  unfolding stop
  stop-Owned hub calls h = close_all-Owned others hub.sockets calls h

  -- How `start` of the hub ends.
  pub record Starts (ok : Bool) (hub : MulticastHub) (calls : List Call) : Type 0 where
    pub owned : Owned others hub.sockets calls
    pub valid : All3 ok hub.sockets
    pub running : hub.running ≡ ok
    pub joinable : hub.joinable ≡ ok

  -- Whatever the network answers: `start` of the hub ends running, with its three sockets open and
  -- the given inlet, or not running, with all three closed and no inlet; and each open descriptor
  -- is in one of the three, if it was so or another socket had it before.
  pub start_lem :
      (inlet : Option SharedInlet) (hub : MulticastHub) (calls : List Call)
      → Owned others hub.sockets calls
      → let (ok, hub', calls') = start net inlet hub calls in
        Starts ok hub' calls' × (hub'.inlet ≡ (if ok then inlet else none))
  unfolding start stop
  start_lem none hub calls h =
      let (owned, valid) = close_all-Owned others hub.sockets calls h in
      (record { owned = owned; valid = valid; running = refl; joinable = refl }, refl)
  start_lem (some mapped) hub calls h =
      let (owned, valid) = close_all-Owned others hub.sockets calls h in
      let s = close_all hub.sockets calls in
      let (kept, all) =
        open_channels-Owned others (open_receiver net) s.0 s.1 receiver-Keeps owned in
      let r = open_channels (open_receiver net) all_channels s.0 s.1 in
      elim (Bool-cases r.0) [
        | inl e ↦
            rw (e, start)
              (record { owned = kept; valid = all e; running = refl; joinable = refl }, refl)
        | inr e ↦
            let (owned', valid') = close_all-Owned others r.1 r.2 kept in
            rw (e, start)
              (record { owned = owned'; valid = valid'; running = refl; joinable = refl }, refl)
      ]

  pub start_simulator_lem :
      (s : Sockets) (calls : List Call)
      → Owned others s calls
      → let (ok, s', calls') = start_simulator net s calls in
        Owned others s' calls' × (ok ≡ true → All3 true s')
  unfolding start_simulator
  start_simulator_lem s calls h =
      let (owned, valid) = close_all-Owned others s calls h in
      let r = close_all s calls in
      open_channels-Owned others (open_sender net) r.0 r.1 sender-Keeps owned
