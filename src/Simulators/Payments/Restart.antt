-- ===== src/Simulators/Payments/Restart.antt =====
-- A restart that restores the snapshot loses nothing (app/simulators/payments.py).
use agent_identity_platform.Common.{
  ℕ, ◌<◌, String, ◌≡◌, refl, inl, inr, Option, none, some, List, [], ◌∷◌, arith, Dict, lookup,
  values, In, Bool-cases, Option-cases,
}
use agent_identity_platform.Simulators.Data.{next_id_number, le-highest}
use agent_identity_platform.Simulators.Data.Keyed.{IsKeyed, insert-IsKeyed, refile-values}
use agent_identity_platform.Simulators.Payments
use agent_identity_platform.Simulators.Payments.{Money, Order, Refund, Payments as State}
use agent_identity_platform.Simulators.Payments.Retry.{Ask, after}

module _ {A : Type 0} (money : Money A) (orders : Dict (Order A)) where
  issue_new-IsKeyed :
      (order_id : String) (amount : A) (tenant : String) (key : Option String)
      (o : Option (Order A)) (s : State A)
      → IsKeyed (Payments.key_of money orders) s.refunds
      → IsKeyed
          (Payments.key_of money orders)
          (Payments.issue_new money orders order_id amount tenant key o s).1.refunds
  unfolding Payments.issue_new
  issue_new-IsKeyed order_id amount tenant key none s h = h
  issue_new-IsKeyed order_id amount tenant key (some o) s h =
      elim (Bool-cases (money.is_positive amount)) [
        | inr c ↦ rw (c, Payments.issue_new) h
        | inl c ↦
            rw (c, Payments.issue_new)
              (insert-IsKeyed (Payments.key_of money orders)
                (Payments.key_of money orders
                  (Payments.new_refund money orders order_id amount tenant key s.seq))
                (Payments.new_refund money orders order_id amount tenant key s.seq) s.refunds refl
                h)
      ]

  pub issue_refund-IsKeyed :
      (order_id : String) (amount : A) (tenant : String) (key : Option String) (s : State A)
      → IsKeyed (Payments.key_of money orders) s.refunds
      → IsKeyed
          (Payments.key_of money orders)
          (Payments.issue_refund money orders order_id amount tenant key s).1.refunds
  unfolding Payments.issue_refund
  issue_refund-IsKeyed order_id amount tenant key s h =
      elim (Option-cases (Payments.known money orders key s)) [
        | inr (x, c) ↦ rw (c, Payments.issue_refund) h
        | inl c ↦
            rw (c, Payments.issue_refund)
              (issue_new-IsKeyed order_id amount tenant key
                (Payments.get_order money orders order_id tenant) s h)
      ]

  after-IsKeyed :
      (asks : List (Ask A)) (s : State A)
      → IsKeyed (Payments.key_of money orders) s.refunds
      → IsKeyed (Payments.key_of money orders) (after money orders asks s).refunds
  unfolding after
  after-IsKeyed [] s h = h
  after-IsKeyed (a ∷ asks) s h =
      after-IsKeyed asks (Payments.issue_refund money orders a.order_id a.amount a.tenant a.key s).1
        (issue_refund-IsKeyed a.order_id a.amount a.tenant a.key s h)

  -- After any calls of `issue_refund` on an empty store, a process that restores the snapshot, whatever
  -- it held, finds the same refund under every key, and its next number is above that of every
  -- refund.
  pub restart_keeps_refunds :
      (asks : List (Ask A)) (t : State A)
      → let s = after money orders asks (record { refunds = []; seq = 1 }) in
        let s' = Payments.restore money orders (Payments.snapshot money orders s) t in
        ((k : String) → lookup k s'.refunds ≡ lookup k s.refunds)
        × ((r : Refund A) (n : ℕ)
            → In r (values s.refunds)
            → money.number_of r.id ≡ some n
            → n < s'.seq)
  unfolding Payments.restore Payments.snapshot next_id_number
  restart_keeps_refunds asks t =
      let start : State A = record { refunds = []; seq = 1 } in
      let d = (after money orders asks start).refunds in
      (
        λ k. refile-values (Payments.key_of money orders) d k (after-IsKeyed asks start tt),
        λ r n h e. omega (arith, le-highest (λ x. money.number_of x.id) r (values d) n h e),
      )
