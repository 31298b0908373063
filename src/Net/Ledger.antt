-- ===== src/Net/Ledger.antt =====
-- The account of the descriptors: what was opened and not closed is what some socket holds.
use mpmc_with_memory_managem.Base.{
  ℕ, ◌+◌, ◌≡◌, refl, arith, Bool, true, false, inl, inr, Bool-cases, Option, none, some, List, [],
  ◌∷◌, ◌==◌, if◌then◌else◌,
}
use mpmc_with_memory_managem.Base.Sum.{total}
use mpmc_with_memory_managem.Net.{
  Call, socket, configure, close_fd, Setting, Network, MulticastEndpoint, UdpMulticastSocket,
  is_valid, closed, close, configure_all, open_fd, reopen,
}

abbrev pub same_fd : ℕ → ℕ → ℕ
same_fd a fd = if fd == a then 1 else 0

abbrev pub opens : ℕ → Call → ℕ
opens a (socket (some fd)) = same_fd a fd
opens a _ = 0

abbrev pub closes : ℕ → Call → ℕ
closes a (close_fd fd) = same_fd a fd
closes a _ = 0

abbrev pub held : ℕ → Option ℕ → ℕ
held a none = 0
held a (some fd) = same_fd a fd

abbrev pub holds : ℕ → UdpMulticastSocket → ℕ
holds a s = held a s.fd

unfoldable pub Accounts : List Call → List UdpMulticastSocket → Type 0
Accounts calls sockets =
    (a : ℕ) → total (opens a) calls ≡ total (closes a) calls + total (holds a) sockets

closed-Accounts :
    (fd : Option ℕ) (endpoint : MulticastEndpoint) (calls : List Call)
    (others : List UdpMulticastSocket)
    → Accounts calls (record { fd = fd; endpoint = endpoint } ∷ others)
    → Accounts (closed fd calls) (record { fd = none; endpoint = endpoint } ∷ others)
unfolding closed Accounts total
closed-Accounts none endpoint calls others h a = omega (arith, h a)
closed-Accounts (some fd) endpoint calls others h a = omega (arith, h a)

pub close-Accounts :
    (s : UdpMulticastSocket) (calls : List Call) (others : List UdpMulticastSocket)
    → Accounts calls (s ∷ others)
    → let (s', calls') = close s calls in Accounts calls' (s' ∷ others)
unfolding close
close-Accounts s calls others h = closed-Accounts s.fd s.endpoint calls others h

-- A closed socket holds nothing, whatever its endpoint.
null_endpoint :
    (endpoint endpoint' : MulticastEndpoint) (calls : List Call) (others : List UdpMulticastSocket)
    → Accounts calls (record { fd = none; endpoint = endpoint } ∷ others)
    → Accounts calls (record { fd = none; endpoint = endpoint' } ∷ others)
unfolding Accounts total
null_endpoint endpoint endpoint' calls others h = h

module _ (net : Network) (others : List UdpMulticastSocket) where
  -- While the descriptor is in no socket.
  Pending : ℕ → List Call → Type 0
  Pending fd calls =
      (a : ℕ)
      → total (opens a) calls ≡ total (closes a) calls + (same_fd a fd + total (holds a) others)

  configure_all-Pending :
      (fd : ℕ) (settings : List (Option Setting)) (calls : List Call)
      → Pending fd calls
      → Pending fd (configure_all net fd settings calls).1
  unfolding configure_all Pending total
  configure_all-Pending fd [] calls h = h
  configure_all-Pending fd (none ∷ settings) calls h = h
  configure_all-Pending fd (some setting ∷ settings) calls h =
      elim (Bool-cases (net.accepts calls fd setting)) [
        | inl e ↦ rw e (
            configure_all-Pending fd settings (configure fd setting true ∷ calls)
              (λ a. omega (arith, h a)))
        | inr e ↦ rw e (λ a. omega (arith, h a))
      ]

  configured-Accounts :
      (endpoint : MulticastEndpoint) (fd : ℕ) (r : Bool × List Call)
      → Pending fd r.1
      → let t : Bool × UdpMulticastSocket × List Call =
          if r.0
          then (true, record { fd = some fd; endpoint = endpoint }, r.1)
          else (false, record { fd = none; endpoint = endpoint }, close_fd fd ∷ r.1) in
        Accounts t.2 (t.1 ∷ others) × (is_valid t.1 ≡ t.0)
  unfolding Pending Accounts total
  configured-Accounts endpoint fd (true, calls) h = ((λ a. omega (arith, h a)), refl)
  configured-Accounts endpoint fd (false, calls) h = ((λ a. omega (arith, h a)), refl)

  open_fd-Accounts :
      (endpoint : MulticastEndpoint) (settings : List (Option Setting)) (answer : Option ℕ)
      (calls : List Call)
      → Accounts calls (record { fd = none; endpoint = endpoint } ∷ others)
      → let t = open_fd net endpoint settings answer (socket answer ∷ calls) in
        Accounts t.2 (t.1 ∷ others) × (is_valid t.1 ≡ t.0)
  unfolding open_fd Pending Accounts total
  open_fd-Accounts endpoint settings none calls h = ((λ a. omega (arith, h a)), refl)
  open_fd-Accounts endpoint settings (some fd) calls h =
      configured-Accounts endpoint fd (configure_all net fd settings (socket (some fd) ∷ calls))
        (configure_all-Pending fd settings _ (λ a. omega (arith, h a)))

  -- Each open descriptor is in a socket after opening one, and the socket is open just if that
  -- succeeded.
  pub reopen-Accounts :
      (endpoint : MulticastEndpoint) (settings : List (Option Setting)) (s : UdpMulticastSocket)
      (calls : List Call)
      → Accounts calls (s ∷ others)
      → let (ok, s', calls') = reopen net endpoint settings s calls in
        Accounts calls' (s' ∷ others) × (is_valid s' ≡ ok)
  unfolding reopen
  reopen-Accounts endpoint settings s calls h =
      open_fd-Accounts endpoint settings _ _
        (null_endpoint s.endpoint endpoint _ others (close-Accounts s calls others h))
