-- ===== src/Sandbox/Tests.antt =====
-- The sandbox and the backends on the demo's records (app/sandbox/app.py, app/tools/backends.py,
-- app/tools/catalog.py).
use agent_identity_platform.Common.{
  ℕ, zero, suc, Bool, not, contains, ◌&&◌, ◌+◌, ◌-◌, String, ◌≡◌, ◌≢◌, refl, ap, true, false,
  Option, none, some, List, [], ◌∷◌, ◌==◌, arith, Dict, ltb,
}
use agent_identity_platform.Common.Sample.{Json, label, number, json}
use agent_identity_platform.Simulators.Data.{scoped, highest, next_id_number}
use agent_identity_platform.Simulators.Data
use agent_identity_platform.Simulators.Demo as Demo
use agent_identity_platform.Simulators.Payments as P
use agent_identity_platform.Simulators.Payments.{Money, Refund}
use agent_identity_platform.Simulators.Crm as C
use agent_identity_platform.Sandbox
use agent_identity_platform.Sandbox.{World, Auth}
use agent_identity_platform.Sandbox.State.{Sandbox as State, start, started, load, read, foreign}
use agent_identity_platform.Sandbox.Saved.{Request, drafts, refunds, storage, serve_all, fresh}
use agent_identity_platform.Sandbox.Restart.{Keeps, restart_loses_nothing}
use agent_identity_platform.Tools.Backends.{
  Client, Backend, Transport, authorization, simulator_backend, http_backend,
}
use agent_identity_platform.Tools.Backends.Agreement.{IsSame, IsTenant, backends_agree}
use agent_identity_platform.Tools.Enforcement.{Tool, returned}
use agent_identity_platform.Tools.Catalog.{
  Output, refund, refund_tool, accepts, amount_arg, text_arg,
}
use agent_identity_platform.Tools.Catalog.Refunds.{repeated_refund}

abbrev cents : ℕ → ℕ
cents n = n

-- The numbered ids, of any number.
abbrev refund_id : ℕ → String
refund_id (suc zero) = "r-0001"
refund_id _ = "r-0002"

abbrev number_of : String → Option ℕ
number_of s = elim (s == "r-0001") [ true ↦ some 1 | false ↦ some 2 ]

abbrev money : Money ℕ
money = record {
  zero = 0;
  add = λ a b. a + b;
  minus = λ a b. a - b;
  round = λ a. a;
  is_positive = λ a. ltb 0 a;
  id_of = refund_id;
  number_of = number_of;
}

abbrev world : World ℕ
world = record {
  money = money;
  orders = Demo.orders cents;
  tickets = Demo.tickets;
  customers = Demo.customers;
  draft_id = λ n. "d-0001";
  draft_number = λ s. some 1;
  repr = λ s. s;
}

abbrev open' : Auth
open' = record { enabled = false; verify = λ header. none }

abbrev client : Client
client = record { client_id = ""; client_secret = ""; token = "secret"; exchange = λ token. none }

is_acme : IsTenant open' (authorization client none) "acme"
unfolding Sandbox.identify Sandbox.tenant_of authorization
is_acme = (none, refl, refl)

refused : C.get_customer (λ s. s) Demo.customers "c-900" "acme" ≡ none
unfolding C.get_customer C.tenant_of scoped
refused = refl

abbrev requests : List (Request ℕ)
requests =
    refunds none "o-1001" (some (Sandbox.readable 500)) (some "ap-1") (some "acme")
    ∷ drafts none "t-9001" (some "Sorry") (some "acme")
    ∷ drafts none "t-5001" (some "Sorry") (some "acme")
    ∷ []

restart_loses_nothing_example :
    (s' : State ℕ) × (start money
        (Demo.orders cents)
        world.draft_number
        storage
        (serve_all world requests (fresh world))
      ≡ Data.returned s')
    × Keeps world (serve_all world requests (fresh world)) s'
restart_loses_nothing_example = restart_loses_nothing world requests

-- A file that is JSON but no object: the process does not start.
no_start :
    start money
      (Demo.orders cents)
      world.draft_number
      storage
      (record (fresh world) { file = foreign })
    ≡ Data.raised "AttributeError"
unfolding start started load read
no_start = refl

-- Ids with one of these characters go astray: they find nothing.
abbrev astray : Backend ℕ (State ℕ)
astray = record {
  get_customer = λ id tenant s. Data.returned none;
  get_pii = λ id tenant s. Data.returned none;
  list_orders = λ id tenant s. Data.returned [];
  get_ticket = λ id tenant s. Data.returned none;
  draft_reply = λ id body tenant s. (Data.returned none, s);
  quote_refund = λ id tenant s. Data.returned none;
  issue_refund = λ id amount tenant key s. (Data.returned none, s);
}

is_plain : String → Bool
is_plain String.[] = true
is_plain (String.◌∷◌ c s) =
    not (contains (String.◌∷◌ c "") ("/" ∷ "?" ∷ "#" ∷ "%" ∷ [])) && is_plain s

abbrev net : Transport ℕ
net = record { is_segment = is_plain; astray = astray; sent = λ n. some n }

exact : (x y : ℕ) → net.sent x ≡ some y → y ≡ x
exact x y p = ground (arith, p)

backends_agree_example :
    let sim = simulator_backend world in
    let http = http_backend world storage open' net client none in
    let s = fresh world in
    IsSame (sim.get_customer "o-1001" "acme" s.systems) (http.get_customer "o-1001" "acme" s)
    × IsSame (sim.get_pii "o-1001" "acme" s.systems) (http.get_pii "o-1001" "acme" s)
    × IsSame (sim.list_orders "o-1001" "acme" s.systems) (http.list_orders "o-1001" "acme" s)
    × IsSame (sim.get_ticket "o-1001" "acme" s.systems) (http.get_ticket "o-1001" "acme" s)
    × IsSame (sim.quote_refund "o-1001" "acme" s.systems) (http.quote_refund "o-1001" "acme" s)
    × IsSame
        (sim.draft_reply "o-1001" "Sorry" "acme" s.systems).0
        (http.draft_reply "o-1001" "Sorry" "acme" s).0
    × ((http.draft_reply "o-1001" "Sorry" "acme" s).1.systems
        ≡ (sim.draft_reply "o-1001" "Sorry" "acme" s.systems).1)
    × IsSame
        (sim.issue_refund "o-1001" 500 "acme" none s.systems).0
        (http.issue_refund "o-1001" 500 "acme" none s).0
    × ((http.issue_refund "o-1001" 500 "acme" none s).1.systems
        ≡ (sim.issue_refund "o-1001" 500 "acme" none s.systems).1)
unfolding is_plain
backends_agree_example =
    backends_agree world storage open' net client none "o-1001" "Sorry" 500 "acme" none
      (fresh world) is_acme refl refl

abbrev amount : Json → Option ℕ
amount (number n) = some n
amount _ = none

abbrev args : Dict Json
args = ("order_id", label "o-1001") ∷ ("amount", number 500) ∷ []

abbrev first : Refund ℕ
first = record {
  id = "r-0001";
  order_id = "o-1001";
  tenant = "acme";
  amount = 500;
  idempotency_key = some "ap-1";
}

abbrev tool : Tool Json (Output ℕ) (State ℕ)
tool = refund_tool json amount (http_backend world storage open' net client none)

abbrev paid : State ℕ
paid = (tool.handler args (some "acme") (some "ap-1") (fresh world)).1

is_paid :
    tool.handler args (some "acme") (some "ap-1") (fresh world)
    ≡ (returned (refund first) none, paid)
unfolding refund_tool http_backend Sandbox.issue_refund P.issue_refund scoped is_plain
is_paid = refl

no_number : (n : ℕ) → refund_id n ≢ "ap-1"
no_number zero p = ground (arith, ap (λ s. s == "ap-1") p)
no_number (suc zero) p = ground (arith, ap (λ s. s == "ap-1") p)
no_number (suc (suc n)) p = ground (arith, ap (λ s. s == "ap-1") p)

is_accepted : accepts ("order_id" ∷ "amount" ∷ []) args ≡ true
unfolding accepts
is_accepted = refl

is_amount :
    amount_arg json amount (http_backend world storage open' net client none) args ≡ some 500
unfolding amount_arg
is_amount = refl

repeated_refund_example :
    ((tool.handler args (some "acme") (some "ap-1") paid).0 ≡ returned (refund first) none)
    × ((tool.handler args (some "acme") (some "ap-1") paid).1.systems ≡ paid.systems)
unfolding is_plain text_arg
repeated_refund_example =
    repeated_refund world storage open' net client none json amount args args (some "acme")
      (some "acme") "ap-1" (fresh world) paid first 500 exact refl refl refl no_number is_acme
      is_acme is_paid is_accepted is_amount
