-- ===== src/Simulators/Payments/Retry.antt =====
-- A retried refund is not a second one (app/simulators/payments.py).
use agent_identity_platform.Common.{
  String, ◌≡◌, refl, sym, ◌≢◌, inl, inr, ◌∙◌, ap, Option, none, some, List, [], ◌∷◌, arith, Dict,
  lookup, lookup-insert_self, lookup-insert_ne, Option-cases, Bool-cases, ℕ, get_or,
}
use agent_identity_platform.Simulators.Payments
use agent_identity_platform.Simulators.Payments.{Money, Order, Refund, Payments as State}

-- The arguments of one call of `issue_refund`.
pub record Ask (A : Type 0) : Type 0 where
  pub order_id : String
  pub amount : A
  pub tenant : String
  pub key : Option String

module _ {A : Type 0} (money : Money A) (orders : Dict (Order A)) where
  unfoldable pub after : List (Ask A) → State A → State A
  after [] s = s
  after (a ∷ asks) s =
      after asks (Payments.issue_refund money orders a.order_id a.amount a.tenant a.key s).1

  issue_new_keeps :
      (k : String) (r : Refund A) (order_id : String) (amount : A) (tenant : String)
      (key : Option String) (o : Option (Order A)) (s : State A)
      → get_or key (money.id_of s.seq) ≢ k
      → lookup k s.refunds ≡ some r
      → lookup k (Payments.issue_new money orders order_id amount tenant key o s).1.refunds ≡ some r
  unfolding Payments.issue_new Payments.key_of Payments.new_refund
  issue_new_keeps k r order_id amount tenant key none s ne h = h
  issue_new_keeps k r order_id amount tenant key (some o) s ne h =
      elim (Bool-cases (money.is_positive amount)) [
        | inr c ↦ rw (c, Payments.issue_new) h
        | inl c ↦
            rw (c, Payments.issue_new)
              (lookup-insert_ne (get_or key (money.id_of s.seq)) k
                  (Payments.new_refund money orders order_id amount tenant key s.seq) s.refunds ne
                ∙ h)
      ]

  issue_refund_keeps :
      (k : String) (r : Refund A) (order_id : String) (amount : A) (tenant : String)
      (key : Option String) (s : State A)
      → ((n : ℕ) → money.id_of n ≢ k)
      → lookup k s.refunds ≡ some r
      → lookup k (Payments.issue_refund money orders order_id amount tenant key s).1.refunds
        ≡ some r
  unfolding Payments.issue_refund Payments.known
  issue_refund_keeps k r order_id amount tenant none s foreign h =
      issue_new_keeps k r order_id amount tenant none
        (Payments.get_order money orders order_id tenant) s (foreign s.seq) h
  issue_refund_keeps k r order_id amount tenant (some j) s foreign h =
      elim (Option-cases (lookup j s.refunds)) [
        | inr (x, c) ↦ rw (c, Payments.issue_refund) h
        | inl c ↦
            rw (c, Payments.issue_refund)
              (issue_new_keeps k r order_id amount tenant (some j)
                (Payments.get_order money orders order_id tenant) s (other c) h)
      ]
    where
      other : lookup j s.refunds ≡ none → j ≢ k
      other c p = ground (arith, sym c ∙ ap (λ x. lookup x s.refunds) p ∙ h)

  after_keeps :
      (k : String) (r : Refund A) (asks : List (Ask A)) (s : State A)
      → ((n : ℕ) → money.id_of n ≢ k)
      → lookup k s.refunds ≡ some r
      → lookup k (after asks s).refunds ≡ some r
  unfolding after
  after_keeps k r [] s foreign h = h
  after_keeps k r (a ∷ asks) s foreign h =
      after_keeps k r asks
        (Payments.issue_refund money orders a.order_id a.amount a.tenant a.key s).1 foreign
        (issue_refund_keeps k r a.order_id a.amount a.tenant a.key s foreign h)

  -- What a call with a key returned is in the store under the key.
  issued_under_key :
      (order_id : String) (amount : A) (tenant k : String) (s : State A) (r : Refund A)
      → (Payments.issue_refund money orders order_id amount tenant (some k) s).0
        ≡ Payments.refunded r
      → lookup k (Payments.issue_refund money orders order_id amount tenant (some k) s).1.refunds
        ≡ some r
  unfolding Payments.issue_refund Payments.known Payments.issue_new Payments.key_of
      Payments.new_refund
  issued_under_key order_id amount tenant k s r =
      by_cases (lookup k s.refunds) (Payments.get_order money orders order_id tenant) refl refl
    where
      by_cases :
          (x : Option (Refund A)) (o : Option (Order A))
          → lookup k s.refunds ≡ x
          → Payments.get_order money orders order_id tenant ≡ o
          → (Payments.issue_refund money orders order_id amount tenant (some k) s).0
            ≡ Payments.refunded r
          → lookup k
              (Payments.issue_refund money orders order_id amount tenant (some k) s).1.refunds
            ≡ some r
      by_cases (some x) o p q = rw (p, Payments.issue_refund) (λ h. p ∙ ground (arith, h))
      by_cases none none p q = rw (p, q, Payments.issue_refund) (λ h. ground (arith, h))
      by_cases none (some o) p q = elim (Bool-cases (money.is_positive amount)) [
        | inr c ↦ rw (p, q, c, Payments.issue_refund, Payments.issue_new) (λ h. ground (arith, h))
        | inl c ↦
            rw (p, q, c, Payments.issue_refund, Payments.issue_new)
              (λ h.
                lookup-insert_self k
                  (Payments.new_refund money orders order_id amount tenant (some k) s.seq) s.refunds
                ∙ ground (arith, h))
      ]

  -- When a call with a key returned a refund, a later call with that key returns the same refund and
  -- changes nothing, whatever its order, amount and tenant and whatever calls came in between. The key
  -- is none of the numbered ids that refunds without a key are kept under.
  pub retry_returns_first :
      (order_id : String) (amount : A) (tenant k : String) (s : State A) (r : Refund A)
      → ((n : ℕ) → money.id_of n ≢ k)
      → (Payments.issue_refund money orders order_id amount tenant (some k) s).0
        ≡ Payments.refunded r
      → (asks : List (Ask A)) (order_id' : String) (amount' : A) (tenant' : String)
      → let s' =
          after asks (Payments.issue_refund money orders order_id amount tenant (some k) s).1 in
        Payments.issue_refund money orders order_id' amount' tenant' (some k) s'
        ≡ (Payments.refunded r, s')
  unfolding Payments.issue_refund Payments.known
  retry_returns_first order_id amount tenant k s r foreign h asks order_id' amount' tenant' =
      rw
        (
          after_keeps k r asks
              (Payments.issue_refund money orders order_id amount tenant (some k) s).1 foreign
              (issued_under_key order_id amount tenant k s r h),
          Payments.issue_refund,
        )
        refl
