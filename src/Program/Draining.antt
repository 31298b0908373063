-- ===== src/Program/Draining.antt =====
-- The rounds of the consumers and of the gateway, and the loop over the confirmations.
use mathlib.Core.Path.{subst}
use mpmc_with_memory_managem.Base.{
  ℕ, zero, suc, ◌≡◌, refl, sym, arith, Bool, false, Option, none, some, ◌==◌, if◌then◌else◌,
}
use mpmc_with_memory_managem.Proto.Nasdaq.{itch_add_order_struct}
use mpmc_with_memory_managem.Proto.Nse.{mtbt_new_order_struct}
use mpmc_with_memory_managem.Proto.Mcx.Order.{top_of_book_struct}
use mpmc_with_memory_managem.Pool.{release, message_at}
use mpmc_with_memory_managem.Ring.{Mpmc, try_pop}
use mpmc_with_memory_managem.Trading.Ledger.{Each, Each-map, Gets, try_pop-Gets}
use mpmc_with_memory_managem.Trading.Consumer.{Consumer}
use mpmc_with_memory_managem.Trading.Consumer.Owned.{consumers-IsSettled}
use mpmc_with_memory_managem.Trading.Gateway.Confirms.{gateway-IsSettled}
use mpmc_with_memory_managem.Program.{
  Program, to_gateway, from_gateway, Confirmed, count, collect, repeated, poll_ouch, poll_nnf,
  poll_mcx, poll_consumers, poll_gateway,
}
use mpmc_with_memory_managem.Program.Lent.{
  IsSettled, Each-mono, Each-then, not_consumers, not_gateways, to_consumer-IsSettled,
  from_consumer-IsSettled, to_gateway-IsSettled, from_gateway-IsSettled, let_go, confirm_popped,
}

if_false : {A : Type 0} {b : Bool} → (x y : A) → b ≡ false → (if b then x else y) ≡ y
if_false x y e = rw e refl

module _ (others : ℕ → ℕ) where
  pub collect-IsSettled :
      (rounds : ℕ) (n : Confirmed) (s : Program)
      → IsSettled others s
      → IsSettled others (collect rounds n s).1
  unfolding collect
  collect-IsSettled zero n s h = h
  collect-IsSettled (suc rounds) n s h =
      go (collect-IsSettled rounds) (try_pop s.confirm_queue)
        (try_pop-Gets s.confirm_queue h.confirm_sized)
    where
      go :
          ((n : Confirmed) (s : Program)
            → IsSettled others s
            → IsSettled others (collect rounds n s).1)
          → (o : Option (ℕ × Mpmc)) → Each (Gets s.confirm_queue) o
          → let r : Confirmed × Program = elim o [
            | none ↦ (n, s)
            | some (confirm, q) ↦
                let rest =
                  collect rounds
                    (count (message_at s.pool confirm).kind n)
                    (record s { confirm_queue = q; pool = release s.pool confirm }) in
                if confirm == 0 then (n, record s { confirm_queue = q }) else rest
          ] in
            IsSettled others r.1
      go k none g = h
      go k (some (confirm, q)) g =
          let real : (confirm == 0) ≡ false = let r = g.real in ground (arith, r) in
          subst (λ (r : Confirmed × Program). IsSettled others r.1)
            (sym (if_false (n, record s { confirm_queue = q }) _ real))
            (k _ _ (let_go others (confirm_popped others {s = s} (confirm, q) h g)))

  pub repeated-IsSettled :
      (f : Program → Option Program)
      → ((s : Program) → IsSettled others s → Each (IsSettled others) (f s))
      → (rounds : ℕ) (s : Program) → IsSettled others s
      → Each (IsSettled others) (repeated rounds f s)
  unfolding repeated
  repeated-IsSettled f k zero s h = h
  repeated-IsSettled f k (suc rounds) s h =
      Each-then (IsSettled others) (repeated rounds f) (repeated-IsSettled f k rounds) (f s) (k s h)

  module _ (spurious : ℕ → Bool) (fuel : ℕ) where
    poll_ouch-IsSettled :
        (s : Program) → IsSettled others s → Each (IsSettled others) (poll_ouch spurious fuel s)
    unfolding poll_ouch
    poll_ouch-IsSettled s h = Each-map (IsSettled others) _ _ (
        Each-mono _ (λ c. from_consumer-IsSettled others s c h) _
          (consumers-IsSettled (not_consumers others s) spurious fuel _
            (to_consumer-IsSettled others s s.ouch_consumer h)).0)

    poll_nnf-IsSettled :
        (s : Program) → IsSettled others s → Each (IsSettled others) (poll_nnf spurious fuel s)
    unfolding poll_nnf
    poll_nnf-IsSettled s h = Each-map (IsSettled others) _ _ (
        Each-mono _ (λ c. from_consumer-IsSettled others s c h) _
          ((consumers-IsSettled (not_consumers others s) spurious fuel _
              (to_consumer-IsSettled others s s.nnf_consumer h)).1
            1))

    poll_mcx-IsSettled :
        (s : Program) → IsSettled others s → Each (IsSettled others) (poll_mcx spurious fuel s)
    unfolding poll_mcx
    poll_mcx-IsSettled s h = Each-map (IsSettled others) _ _ (
        Each-mono _ (λ (r : ℕ × Consumer). from_consumer-IsSettled others s r.1 h) _
          ((consumers-IsSettled (not_consumers others s) spurious fuel _
              (to_consumer-IsSettled others s s.mcx_consumer.1 h)).3
            s.mcx_consumer.0 1 5001))

    pub poll_consumers-IsSettled :
        (s : Program)
        → IsSettled others s
        → Each (IsSettled others) (poll_consumers spurious fuel s)
    unfolding poll_consumers
    poll_consumers-IsSettled s h =
        Each-then (IsSettled others) _
          (λ s' h'.
            Each-then (IsSettled others) (poll_mcx spurious fuel) poll_mcx-IsSettled _
              (poll_nnf-IsSettled s' h'))
          (poll_ouch spurious fuel s) (poll_ouch-IsSettled s h)

    pub poll_gateway-IsSettled :
        (s : Program) → IsSettled others s → Each (IsSettled others) (poll_gateway spurious fuel s)
    unfolding poll_gateway
    poll_gateway-IsSettled s h = Each-map (IsSettled others) (from_gateway s) _ (
        Each-mono _ (λ g. from_gateway-IsSettled others s g h) _
          (gateway-IsSettled (not_gateways others s) spurious fuel (to_gateway s)
            (to_gateway-IsSettled others s h)))
