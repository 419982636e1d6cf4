-- ===== src/Tools/Catalog.antt =====
-- app/tools/catalog.py: the tools over a backend. The arguments are values of V; an id or a text among them
-- reaches the backend as its text, and `amount` is `float` of a value, none when that raises.
pub mod Refunds
use Prim.Native.String.{◌++◌ as ◌⧺◌}
use agent_identity_platform.Common.{
  String, Bool, true, false, ◌&&◌, Option, none, some, List, [], ◌∷◌, Dict, lookup, keys, contains,
  is_some, get_or, if◌then◌else◌,
}
use agent_identity_platform.Common.Values.{Values}
use agent_identity_platform.Simulators.Data.{Called}
use agent_identity_platform.Simulators.Data
use agent_identity_platform.Simulators.Payments.{Order, Refund, Quote}
use agent_identity_platform.Simulators.Tickets.{Ticket, Draft}
use agent_identity_platform.Simulators.Crm.{Pii, found}
use agent_identity_platform.Tools.Backends.{Backend}
use agent_identity_platform.Tools.Enforcement.{Tool, Handled, raised, returned}

-- What the tools return: `unknown` is the dictionary of `_not_found`.
pub data Output (A : Type 0) : Type 0 where
  profile : Dict String → Output A
  pii : Pii String → Output A
  orders : List (Order A) → Output A
  ticket : Ticket → Output A
  draft : Draft → Output A
  quote : Quote A → Output A
  refund : Refund A → Output A
  unknown : String → Output A

pub data Risk : Type 0 where
  low high : Risk

-- The fields of a tool that are only shown, with the tool.
pub record Entry (V R W : Type 0) : Type 0 where
  pub description : String
  pub risk : Risk
  pub required : List String
  pub tool : Tool V R W

-- Every name of the list is an argument.
unfoldable pub has_all : {V : Type 0} → List String → Dict V → Bool
has_all [] args = true
has_all (name ∷ names) args = is_some (lookup name args) && has_all names args

unfoldable pub only : List String → List String → Bool
only [] names = true
only (k ∷ ks) names = contains k names && only ks names

-- A call with keyword arguments fits the parameters of the handler; else it is a TypeError.
unfoldable pub accepts : {V : Type 0} → List String → Dict V → Bool
unfolding has_all only
accepts names args = has_all names args && only (keys args) names

unfoldable pub not_found : {A : Type 0} → String → Handled (Output A)
not_found what = returned (unknown what) (some ("unknown " ⧺ what))

-- `... or _not_found(what)`
unfoldable pub or_not_found :
    {A R : Type 0} → (R → Output A) → String → Called (Option R) → Handled (Output A)
unfolding not_found
or_not_found show what (Data.raised text) = raised text
or_not_found show what (Data.returned none) = not_found what
or_not_found show what (Data.returned (some r)) = returned (show r) none

-- A customer's profile without fields is falsy.
unfoldable pub profile_or_not_found :
    {A : Type 0} → Called (Option (Dict String)) → Handled (Output A)
unfolding not_found found
profile_or_not_found (Data.raised text) = raised text
profile_or_not_found (Data.returned c) =
    if found c then returned (profile (get_or c [])) none else not_found "customer"

unfoldable pub orders_of : {A : Type 0} → Called (List (Order A)) → Handled (Output A)
orders_of (Data.raised text) = raised text
orders_of (Data.returned xs) = returned (orders xs) none

module _ {V A S : Type 0} (py : Values V) (amount : V → Option A) (b : Backend A S) where
  unfoldable pub text_arg : String → Dict V → String
  text_arg name args = elim (lookup name args) [ none ↦ "" | some v ↦ py.str v ]

  -- `float(amount)`
  unfoldable pub amount_arg : Dict V → Option A
  amount_arg args = elim (lookup "amount" args) [ none ↦ none | some v ↦ amount v ]

  -- A handler that takes these arguments.
  unfoldable pub taking :
      List String
      → (Dict V → String → Option String → S → Handled (Output A) × S)
      → Dict V
      → Option String
      → Option String
      → S
      → Handled (Output A) × S
  unfolding accepts
  taking names run args tenant key s =
      if accepts names args then run args (get_or tenant "") key s else (raised "TypeError", s)

  unfoldable pub refund_with :
      String → Option A → String → Option String → S → Handled (Output A) × S
  unfolding or_not_found
  refund_with order_id none tenant key s = (raised "could not convert to float", s)
  refund_with order_id (some n) tenant key s =
      let (r, s') = b.issue_refund order_id n tenant key s in (or_not_found refund "order" r, s')

  unfoldable pub refund_tool : Tool V (Output A) S
  unfolding taking refund_with text_arg amount_arg
  refund_tool = record {
    name = "refunds.issue";
    properties = ("order_id", some "string") ∷ ("amount", some "number") ∷ [];
    idempotent = true;
    handler = taking ("order_id" ∷ "amount" ∷ []) (λ args tenant key s.
        refund_with (text_arg "order_id" args) (amount_arg args) tenant key s);
  }

  unfoldable pub build_tools : List (Entry V (Output A) S)
  unfolding taking text_arg refund_tool or_not_found profile_or_not_found orders_of
  build_tools =
      record {
        description = "Read a customer's profile (non-sensitive fields).";
        risk = low;
        required = "customer_id" ∷ [];
        tool = record {
          name = "crm.customer.read";
          properties = ("customer_id", some "string") ∷ [];
          idempotent = false;
          handler = taking ("customer_id" ∷ []) (λ args tenant key s.
              (profile_or_not_found (b.get_customer (text_arg "customer_id" args) tenant s), s));
        };
      }
      ∷ record {
        description = "List a customer's orders.";
        risk = low;
        required = "customer_id" ∷ [];
        tool = record {
          name = "crm.orders.list";
          properties = ("customer_id", some "string") ∷ [];
          idempotent = false;
          handler = taking ("customer_id" ∷ []) (λ args tenant key s.
              (orders_of (b.list_orders (text_arg "customer_id" args) tenant s), s));
        };
      }
      ∷ record {
        description = "Read a support ticket and its messages.";
        risk = low;
        required = "ticket_id" ∷ [];
        tool = record {
          name = "tickets.read";
          properties = ("ticket_id", some "string") ∷ [];
          idempotent = false;
          handler = taking ("ticket_id" ∷ []) (λ args tenant key s. (
            or_not_found ticket "ticket" (b.get_ticket (text_arg "ticket_id" args) tenant s),
            s,
          ));
        };
      }
      ∷ record {
        description = "Draft a reply to a ticket. Does NOT send it.";
        risk = low;
        required = "ticket_id" ∷ "body" ∷ [];
        tool = record {
          name = "tickets.reply.draft";
          properties = ("ticket_id", some "string") ∷ ("body", some "string") ∷ [];
          idempotent = false;
          handler = taking ("ticket_id" ∷ "body" ∷ []) (λ args tenant key s.
              let (d, s') =
                b.draft_reply (text_arg "ticket_id" args) (text_arg "body" args) tenant s in
              (or_not_found draft "ticket" d, s'));
        };
      }
      ∷ record {
        description = "Quote how much of an order is refundable.";
        risk = low;
        required = "order_id" ∷ [];
        tool = record {
          name = "refunds.quote";
          properties = ("order_id", some "string") ∷ [];
          idempotent = false;
          handler = taking ("order_id" ∷ []) (λ args tenant key s.
              (or_not_found quote "order" (b.quote_refund (text_arg "order_id" args) tenant s), s));
        };
      }
      ∷ record {
        description = "Issue a refund for an order. High-risk: policy may require approval.";
        risk = high;
        required = "order_id" ∷ "amount" ∷ [];
        tool = refund_tool;
      }
      ∷ record {
        description = "Read a customer's direct identifiers (name, email, phone). High-risk.";
        risk = high;
        required = "customer_id" ∷ [];
        tool = record {
          name = "privacy.pii.read";
          properties = ("customer_id", some "string") ∷ [];
          idempotent = false;
          handler = taking ("customer_id" ∷ []) (λ args tenant key s.
              (or_not_found pii "customer" (b.get_pii (text_arg "customer_id" args) tenant s), s));
        };
      }
      ∷ []

-- `{t.name: t for t in [...]}`; no name occurs twice.
unfoldable pub by_name : {V R W : Type 0} → List (Entry V R W) → Dict (Tool V R W)
by_name [] = []
by_name (e ∷ es) = (e.tool.name, e.tool) ∷ by_name es
