-- ===== src/Sandbox.antt =====
-- app/sandbox/app.py: the simulated systems behind a REST contract. The records of the systems are
-- parameters, and so are the verification of a bearer token (app/sandbox/auth.py calls the JWT library)
-- and Python's `repr`. An answer's body is the value that it carries.
pub mod State
pub mod Saved
pub mod Restart
mod Tests
use Prim.Native.String.{◌++◌ as ◌⧺◌}
use agent_identity_platform.Common.{
  ℕ, String, Bool, true, false, Option, none, some, List, [], ◌∷◌, ◌==◌, not, Dict, get_or,
  if◌then◌else◌,
}
use agent_identity_platform.Common.Http.{Response, fail, answer, ◌>>=◌}
use agent_identity_platform.Simulators.Data.{Called, raised, returned}
use agent_identity_platform.Simulators.Payments as P
use agent_identity_platform.Simulators.Payments.{
  Money, Order, Refund, Quote, Issued, not_found, not_positive, refunded,
}
use agent_identity_platform.Simulators.Tickets as T
use agent_identity_platform.Simulators.Tickets.{Ticket, Draft, Drafted, unknown_ticket, drafted}
use agent_identity_platform.Simulators.Crm as C
use agent_identity_platform.Simulators.Crm.{Pii}
use agent_identity_platform.Simulators.Systems.{Systems, Snapshot, snapshot}
use agent_identity_platform.Sandbox.State.{Sandbox, Storage, save}

-- `auth.enabled()`, and the claim `tenant` of a verified header; none when `auth.verify` raises.
pub record Auth : Type 0 where
  pub enabled : Bool
  pub verify : Option String → Option (Option String)

unfoldable pub verified : Option (Option String) → Response (Option String)
verified none = fail 401 "a valid bearer token is required"
verified (some tenant) = answer tenant

-- `_identify`: the tenant of the token, where tokens are required.
unfoldable pub identify : Auth → Option String → Response (Option String)
unfolding verified
identify auth authorization =
    if auth.enabled then verified (auth.verify authorization) else answer none

-- `_tenant`
unfoldable pub tenant_of : Option String → Option String → Response String
tenant_of ctx x_tenant =
    let tenant = if get_or ctx "" == "" then get_or x_tenant "" else get_or ctx "" in
    if tenant == "" then fail 400 "X-Tenant header or a bearer token is required" else answer tenant

unfoldable pub or_404 : {R : Type 0} → String → Option R → Response R
or_404 detail none = fail 404 detail
or_404 detail (some r) = answer r

-- An exception that no handler catches is a 500.
unfoldable pub or_500 : {R : Type 0} → Called R → Response R
or_500 (raised text) = fail 500 text
or_500 (returned r) = answer r

-- The demo's records, what the systems compute of amounts and texts, and Python's `repr`.
pub record World (A : Type 0) : Type 0 where
  pub money : Money A
  pub orders : Dict (Order A)
  pub tickets : Dict Ticket
  pub customers : Dict (Dict String)
  pub draft_id : ℕ → String
  pub draft_number : String → Option ℕ
  pub repr : String → String

-- The "amount" of a body, by what `float` does with it: a number, a ValueError with its text, or another
-- exception.
pub data Amount (A : Type 0) : Type 0 where
  readable : A → Amount A
  no_number : String → Amount A
  unreadable : Amount A

abbrev same : String → String
same s = s

module _ {A : Type 0} (w : World A) where
  unfoldable pub get_customer : Option String → String → Option String → Response (Dict String)
  unfolding tenant_of or_404
  get_customer ctx customer_id x_tenant = do
    tenant ← tenant_of ctx x_tenant
    or_404 "unknown customer" (C.get_customer same w.customers customer_id tenant)

  unfoldable pub get_pii : Option String → String → Option String → Response (Pii String)
  unfolding tenant_of or_404 or_500
  get_pii ctx customer_id x_tenant = do
    tenant ← tenant_of ctx x_tenant
    pii ← or_500 (C.get_pii same w.customers customer_id tenant)
    or_404 "unknown customer" pii

  unfoldable pub list_orders : Option String → String → Option String → Response (List (Order A))
  unfolding tenant_of
  list_orders ctx customer_id x_tenant = do
    tenant ← tenant_of ctx x_tenant
    answer (P.list_orders w.money w.orders customer_id tenant)

  unfoldable pub get_ticket : Option String → String → Option String → Response Ticket
  unfolding tenant_of or_404
  get_ticket ctx ticket_id x_tenant = do
    tenant ← tenant_of ctx x_tenant
    or_404 "unknown ticket" (T.get_ticket w.tickets w.draft_id ticket_id tenant)

  -- `_simulate`: NotFound is a 404, any other ValueError a 400.
  unfoldable pub simulate_draft : Drafted → Response Draft
  simulate_draft (unknown_ticket id) = fail 404 ("unknown ticket " ⧺ w.repr id)
  simulate_draft (drafted d) = answer d

  unfoldable pub simulate_refund : Issued A → Response (Refund A)
  simulate_refund (not_found id) = fail 404 ("unknown order " ⧺ w.repr id)
  simulate_refund not_positive = fail 400 "refund amount must be positive"
  simulate_refund (refunded r) = answer r

  -- `_persist` after a write that was answered; after a refusal the handler has raised.
  unfoldable pub persisted :
      {R : Type 0} → Storage → Response R → Systems A → Sandbox A → Response R × Sandbox A
  unfolding save
  persisted storage (fail code detail) systems s =
      (fail code detail, record s { systems = systems })
  persisted storage (answer r) systems s = (
    answer r,
    record { systems = systems; file = save storage (snapshot w.money w.orders systems) s.file },
  )

  unfoldable pub draft_reply :
      Storage
      → Option String
      → String
      → Option String
      → Option String
      → Sandbox A
      → Response Draft × Sandbox A
  unfolding tenant_of simulate_draft persisted
  draft_reply storage ctx ticket_id body x_tenant s = elim (tenant_of ctx x_tenant) [
    | fail code detail ↦ (fail code detail, s)
    | answer tenant ↦
        let (done, drafts) =
          T.draft_reply w.tickets w.draft_id ticket_id (get_or body "") tenant s.systems.drafts in
        persisted storage (simulate_draft done) (record (s.systems) { drafts = drafts }) s
  ]

  unfoldable pub quote_refund :
      Option String → String → Option String → Sandbox A → Response (Quote A)
  unfolding tenant_of or_404
  quote_refund ctx order_id x_tenant s = do
    tenant ← tenant_of ctx x_tenant
    or_404 "unknown order" (P.quote_refund w.money w.orders order_id tenant s.systems.payments)

  -- `float(body.get("amount", 0))` inside `_simulate`: a ValueError is a 400.
  unfoldable pub amount_of : Option (Amount A) → Response A
  amount_of none = answer w.money.zero
  amount_of (some (readable n)) = answer n
  amount_of (some (no_number text)) = fail 400 text
  amount_of (some unreadable) = fail 500 "Internal Server Error"

  -- The arguments of the call, in their order.
  unfoldable pub refund_arguments :
      Option String → Option (Amount A) → Option String → Response (A × String)
  unfolding amount_of tenant_of
  refund_arguments ctx amount x_tenant = do
    n ← amount_of amount
    tenant ← tenant_of ctx x_tenant
    answer (n, tenant)

  unfoldable pub issue_refund :
      Storage
      → Option String
      → String
      → Option (Amount A)
      → Option String
      → Option String
      → Sandbox A
      → Response (Refund A) × Sandbox A
  unfolding refund_arguments simulate_refund persisted
  issue_refund storage ctx order_id amount key x_tenant s =
      elim (refund_arguments ctx amount x_tenant) [
        | fail code detail ↦ (fail code detail, s)
        | answer (n, tenant) ↦
            let (done, payments) =
              P.issue_refund w.money w.orders order_id n tenant key s.systems.payments in
            persisted storage (simulate_refund done) (record (s.systems) { payments = payments }) s
      ]
