-- ===== src/Simulators/Payments/Tests.antt =====
-- Refunds at concrete inputs (app/simulators/payments.py).
use agent_identity_platform.Common.{
  ℕ, zero, suc, ◌+◌, ◌-◌, String, ◌≡◌, ◌≢◌, refl, ap, true, false, Option, none, some, [], ◌∷◌,
  ◌==◌, arith, Dict, ltb,
}
use agent_identity_platform.Simulators.Data.{scoped}
use agent_identity_platform.Simulators.Payments
use agent_identity_platform.Simulators.Payments.{Money, Order, Refund, Payments as State}
use agent_identity_platform.Simulators.Payments.Retry.{Ask, after, retry_returns_first}

-- The numbered ids, of any number.
abbrev id_of : ℕ → String
id_of (suc zero) = "r-0001"
id_of _ = "r-0002"

abbrev number_of : String → Option ℕ
number_of s = elim (s == "r-0001") [ true ↦ some 1 | false ↦ some 2 ]

abbrev money : Money ℕ
money = record {
  zero = 0;
  add = λ a b. a + b;
  minus = λ a b. a - b;
  round = λ a. a;
  is_positive = λ a. ltb 0 a;
  id_of = id_of;
  number_of = number_of;
}

abbrev orders : Dict (Order ℕ)
orders =
    (
      "o-1001",
      record {
        id = "o-1001";
        tenant = "acme";
        customer_id = "c-100";
        items = [];
        total = 8000;
        status = "delivered";
        payment_token = "tok";
        created_at = "2025-02-10";
      },
    )
    ∷ []

abbrev empty : State ℕ
empty = record { refunds = []; seq = 1 }

abbrev first : Refund ℕ
first = record {
  id = "r-0001";
  order_id = "o-1001";
  tenant = "acme";
  amount = 500;
  idempotency_key = some "ap-1";
}

abbrev plain : Ask ℕ
plain = record { order_id = "o-1001"; amount = 100; tenant = "acme"; key = none }

abbrev keyed : Ask ℕ
keyed = record { order_id = "o-1001"; amount = 500; tenant = "acme"; key = some "ap-1" }

issued :
    (Payments.issue_refund money orders "o-1001" 500 "acme" (some "ap-1") empty).0
    ≡ Payments.refunded first
unfolding Payments.issue_refund Payments.new_refund scoped
issued = refl

other_tenant : Payments.quote_refund money orders "o-1001" "globex" empty ≡ none
unfolding Payments.quote_refund scoped
other_tenant = refl

no_number : (n : ℕ) → id_of n ≢ "ap-1"
no_number zero p = ground (arith, ap (λ s. s == "ap-1") p)
no_number (suc zero) p = ground (arith, ap (λ s. s == "ap-1") p)
no_number (suc (suc n)) p = ground (arith, ap (λ s. s == "ap-1") p)

retry_returns_first_example :
    let s' =
      after money orders
        (plain ∷ [])
        (Payments.issue_refund money orders "o-1001" 500 "acme" (some "ap-1") empty).1 in
    Payments.issue_refund money orders "o-1001" 900 "acme" (some "ap-1") s'
    ≡ (Payments.refunded first, s')
retry_returns_first_example =
    retry_returns_first money orders "o-1001" 500 "acme" "ap-1" empty first no_number issued
      (plain ∷ []) "o-1001" 900 "acme"
