-- ===== src/Simulators/Payments.antt =====
-- app/simulators/payments.py and app/simulators/orders.py. The orders are a parameter; amounts are floats, whose operations are an
-- interface, and so are the formatting of an id's number and the reading of it.
pub mod Retry
pub mod Restart
mod Tests
use Prim.Native.Nat.{max}
use agent_identity_platform.Common.{
  ℕ, suc, ◌+◌, String, Bool, true, false, ◌&&◌, not, Option, none, some, List, [], ◌∷◌, ◌==◌, Dict,
  lookup, insert, values, select, get_or, if◌then◌else◌,
}
use agent_identity_platform.Simulators.Data.{scoped, next_id_number, refile}

pub record Money (A : Type 0) : Type 0 where
  pub zero : A
  pub add : A → A → A
  -- `max(0.0, a - b)`
  pub minus : A → A → A
  -- `round(a, 2)`
  pub round : A → A
  -- `not (a <= 0)`
  pub is_positive : A → Bool
  -- `f"r-{n:04d}"`, and the number of an id, if its suffix is digits
  pub id_of : ℕ → String
  pub number_of : String → Option ℕ

pub record Item (A : Type 0) : Type 0 where
  pub sku : String
  pub qty : ℕ
  pub price : A

pub record Order (A : Type 0) : Type 0 where
  pub id : String
  pub tenant : String
  pub customer_id : String
  pub items : List (Item A)
  pub total : A
  pub status : String
  pub payment_token : String
  pub created_at : String

-- The status of a refund is always "issued". A falsy key is none.
pub record Refund (A : Type 0) : Type 0 where
  pub id : String
  pub order_id : String
  pub tenant : String
  pub amount : A
  pub idempotency_key : Option String

pub record Quote (A : Type 0) : Type 0 where
  pub order_id : String
  pub total : A
  pub already_refunded : A
  pub refundable : A

-- `_refunds` and the next number of `_seq`.
pub record Payments (A : Type 0) : Type 0 where
  pub refunds : Dict (Refund A)
  pub seq : ℕ

pub data Issued (A : Type 0) : Type 0 where
  not_found : String → Issued A
  not_positive : Issued A
  refunded : Refund A → Issued A

module _ {A : Type 0} (money : Money A) (orders : Dict (Order A)) where
  unfoldable pub get_order : String → String → Option (Order A)
  get_order id tenant = scoped (λ o. o.tenant) (lookup id orders) tenant

  unfoldable pub list_orders : String → String → List (Order A)
  list_orders customer_id tenant =
      select (λ o. o.customer_id == customer_id && o.tenant == tenant) (values orders)

  unfoldable pub sum_from : A → List (Refund A) → A
  sum_from total [] = total
  sum_from total (r ∷ rs) = sum_from (money.add total r.amount) rs

  unfoldable pub total_of : List (Refund A) → A
  unfolding sum_from
  total_of rs = sum_from money.zero rs

  unfoldable pub quote_refund : String → String → Payments A → Option (Quote A)
  unfolding get_order total_of
  quote_refund order_id tenant s = elim (get_order order_id tenant) [
    | none ↦ none
    | some o ↦
        let already = total_of (select (λ r. r.order_id == order_id) (values s.refunds)) in
        some (record {
          order_id = order_id;
          total = o.total;
          already_refunded = money.round already;
          refundable = money.round (money.minus o.total already);
        })
  ]

  -- The key of a refund in `_refunds`.
  unfoldable pub key_of : Refund A → String
  key_of r = get_or r.idempotency_key r.id

  unfoldable pub new_refund : String → A → String → Option String → ℕ → Refund A
  new_refund order_id amount tenant key n = record {
    id = money.id_of n;
    order_id = order_id;
    tenant = tenant;
    amount = money.round amount;
    idempotency_key = key;
  }

  -- The part of `issue_refund` after the lookup of the key.
  unfoldable pub issue_new :
      String → A → String → Option String → Option (Order A) → Payments A → Issued A × Payments A
  unfolding key_of new_refund
  issue_new order_id amount tenant key none s = (not_found order_id, s)
  issue_new order_id amount tenant key (some o) s =
      if not (money.is_positive amount)
      then (not_positive, s)
      else let r = new_refund order_id amount tenant key s.seq in
        (refunded r, record { refunds = insert (key_of r) r s.refunds; seq = suc s.seq })

  -- The refund that an idempotency key already has.
  unfoldable pub known : Option String → Payments A → Option (Refund A)
  known none s = none
  known (some k) s = lookup k s.refunds

  unfoldable pub issue_refund :
      String → A → String → Option String → Payments A → Issued A × Payments A
  unfolding known issue_new get_order
  issue_refund order_id amount tenant key s = elim (known key s) [
    | some r ↦ (refunded r, s)
    | none ↦ issue_new order_id amount tenant key (get_order order_id tenant) s
  ]

  -- An `order_id` that is absent or empty is no filter.
  unfoldable pub list_refunds : String → Option String → Payments A → List (Refund A)
  list_refunds tenant order_id s =
      let mine = select (λ r. r.tenant == tenant) (values s.refunds) in
      elim order_id [
        | none ↦ mine
        | some id ↦ if id == "" then mine else select (λ r. r.order_id == id) mine
      ]

  unfoldable pub snapshot : Payments A → List (Refund A)
  snapshot s = values s.refunds

  unfoldable pub restore : List (Refund A) → Payments A → Payments A
  unfolding refile key_of next_id_number
  restore records s = record {
    refunds = refile key_of records [];
    seq = next_id_number (λ r. money.number_of r.id) records;
  }
