-- ===== src/Tools/Backends.antt =====
-- app/tools/backends.py: the seam between the tools and the systems. A tenant of None is the empty text.
-- The token exchange is a parameter (it calls the identity provider), and the client that sends
-- a request to the sandbox is its handler, for an id that is one segment of a path.
pub mod Agreement
use Prim.Native.String.{◌++◌ as ◌⧺◌}
use agent_identity_platform.Common.{
  ℕ, String, Bool, true, false, Option, none, some, List, [], ◌∷◌, ◌==◌, ◌||◌, not, Dict, get_or,
  eqb, if◌then◌else◌,
}
use agent_identity_platform.Common.Http.{Response, fail, answer, ◌>>=◌}
use agent_identity_platform.Simulators.Data.{Called, raised, returned}
use agent_identity_platform.Simulators.Payments as P
use agent_identity_platform.Simulators.Payments.{
  Order, Refund, Quote, Issued, not_found, not_positive, refunded,
}
use agent_identity_platform.Simulators.Tickets as T
use agent_identity_platform.Simulators.Tickets.{Ticket, Draft, Drafted, unknown_ticket, drafted}
use agent_identity_platform.Simulators.Crm as C
use agent_identity_platform.Simulators.Crm.{Pii}
use agent_identity_platform.Simulators.Systems.{Systems}
use agent_identity_platform.Sandbox
use agent_identity_platform.Sandbox.{World, Auth}
use agent_identity_platform.Sandbox.State.{Sandbox as State, Storage}

-- `Backend`, over the state S of the systems behind it.
pub record Backend (A S : Type 0) : Type 0 where
  pub get_customer : String → String → S → Called (Option (Dict String))
  pub get_pii : String → String → S → Called (Option (Pii String))
  pub list_orders : String → String → S → Called (List (Order A))
  pub get_ticket : String → String → S → Called (Option Ticket)
  pub draft_reply : String → String → String → S → Called (Option Draft) × S
  pub quote_refund : String → String → S → Called (Option (Quote A))
  pub issue_refund : String → A → String → Option String → S → Called (Option (Refund A)) × S

-- `except NotFound: return None`
unfoldable pub draft_or_none : Drafted → Called (Option Draft)
draft_or_none (unknown_ticket id) = returned none
draft_or_none (drafted d) = returned (some d)

unfoldable pub refund_or_none : {A : Type 0} → Issued A → Called (Option (Refund A))
refund_or_none (not_found id) = returned none
refund_or_none not_positive = raised "refund amount must be positive"
refund_or_none (refunded r) = returned (some r)

unfoldable pub simulator_backend : {A : Type 0} → World A → Backend A (Systems A)
unfolding draft_or_none refund_or_none
simulator_backend w = record {
  get_customer = λ id tenant s. returned (C.get_customer (λ t. t) w.customers id tenant);
  get_pii = λ id tenant s. C.get_pii (λ t. t) w.customers id tenant;
  list_orders = λ id tenant s. returned (P.list_orders w.money w.orders id tenant);
  get_ticket = λ id tenant s. returned (T.get_ticket w.tickets w.draft_id id tenant);
  draft_reply = λ id body tenant s.
      let (done, drafts) = T.draft_reply w.tickets w.draft_id id body tenant s.drafts in
      (draft_or_none done, record s { drafts = drafts });
  quote_refund = λ id tenant s. returned (P.quote_refund w.money w.orders id tenant s.payments);
  issue_refund = λ id amount tenant key s.
      let (done, payments) = P.issue_refund w.money w.orders id amount tenant key s.payments in
      (refund_or_none done, record s { payments = payments });
}

-- What the HTTP backend is configured with: the tools client's credentials, the static token, and the
-- exchange of the caller's token, which may raise.
pub record Client : Type 0 where
  pub client_id : String
  pub client_secret : String
  pub token : String
  pub exchange : String → Option String

unfoldable pub downstream_token : Client → Option String → Option String
downstream_token c none = none
downstream_token c (some subject) =
    if subject == "" || c.client_id == "" || c.client_secret == "" then none else c.exchange subject

-- `self._downstream_token() or self._token`, as the header Authorization.
unfoldable pub authorization : Client → Option String → Option String
unfolding downstream_token
authorization c subject =
    let exchanged = get_or (downstream_token c subject) "" in
    let bearer = if exchanged == "" then c.token else exchanged in
    if bearer == "" then none else some ("Bearer " ⧺ bearer)

-- The end of `_request`: a 404 is None, and `raise_for_status` raises on any other error.
unfoldable pub received : {R : Type 0} → Response R → Called (Option R)
received (fail code detail) = if eqb code 404 then returned none else raised detail
received (answer r) = returned (some r)

-- `(self._request(...) or {}).get("orders", [])`
unfoldable pub orders_or_empty : {R : Type 0} → Called (Option (List R)) → Called (List R)
orders_or_empty (raised text) = raised text
orders_or_empty (returned none) = returned []
orders_or_empty (returned (some xs)) = returned xs

-- The middleware of the sandbox, and the handler with what it found.
unfoldable pub read :
    {R : Type 0} → Auth → Option String → (Option String → Response R) → Response R
unfolding Sandbox.identify
read auth header handler = Sandbox.identify auth header >>= handler

unfoldable pub write :
    {R S : Type 0}
    → Auth
    → Option String
    → (Option String → S → Response R × S)
    → S
    → Response R × S
unfolding Sandbox.identify
write auth header handler s = elim (Sandbox.identify auth header) [
  | fail code detail ↦ (fail code detail, s)
  | answer ctx ↦ handler ctx s
]

unfoldable pub written : {R S : Type 0} → Response R × S → Called (Option R) × S
unfolding received
written (r, s) = (received r, s)

-- What lies between `HttpBackend` and the handlers of the sandbox: httpx, and the router of FastAPI.
-- `_request` writes the id into the path as it is. If the id makes one segment of it, the request
-- reaches the route of that path with that id. With a "/", a "?" or the like in the id it may reach
-- another route, which is left open. An amount goes through `json.dumps` and `float`, which may raise.
pub record Transport (A : Type 0) : Type 0 where
  pub is_segment : String → Bool
  pub astray : Backend A (State A)
  pub sent : A → Option A

-- `HttpBackend` against the sandbox, for the calls of one user token.
unfoldable pub http_backend :
    {A : Type 0}
    → World A
    → Storage
    → Auth
    → Transport A
    → Client
    → Option String
    → Backend A (State A)
unfolding read write received orders_or_empty written authorization
http_backend w storage auth net c subject =
    let header = authorization c subject in
    record {
      get_customer = λ id tenant s.
          if net.is_segment id
          then received (read auth header (λ ctx. Sandbox.get_customer w ctx id (some tenant)))
          else net.astray.get_customer id tenant s;
      get_pii = λ id tenant s.
          if net.is_segment id
          then received (read auth header (λ ctx. Sandbox.get_pii w ctx id (some tenant)))
          else net.astray.get_pii id tenant s;
      list_orders = λ id tenant s.
          if net.is_segment id
          then orders_or_empty
              (received (read auth header (λ ctx. Sandbox.list_orders w ctx id (some tenant))))
          else net.astray.list_orders id tenant s;
      get_ticket = λ id tenant s.
          if net.is_segment id
          then received (read auth header (λ ctx. Sandbox.get_ticket w ctx id (some tenant)))
          else net.astray.get_ticket id tenant s;
      draft_reply = λ id body tenant s.
          if net.is_segment id
          then written (
              write auth header
                (λ ctx. Sandbox.draft_reply w storage ctx id (some body) (some tenant)) s)
          else net.astray.draft_reply id body tenant s;
      quote_refund = λ id tenant s.
          if net.is_segment id
          then received (read auth header (λ ctx. Sandbox.quote_refund w ctx id (some tenant) s))
          else net.astray.quote_refund id tenant s;
      -- A falsy key is left out of the body.
      issue_refund = λ id amount tenant key s.
          if net.is_segment id
          then elim (net.sent amount) [
            | none ↦ (raised "amount", s)
            | some n ↦ written (
                write auth header
                  (λ ctx.
                    Sandbox.issue_refund w storage ctx id (some (Sandbox.readable n)) key
                      (some tenant))
                  s)
          ]
          else net.astray.issue_refund id amount tenant key s;
    }
