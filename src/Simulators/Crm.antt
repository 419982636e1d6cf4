-- ===== src/Simulators/Crm.antt =====
-- app/simulators/crm.py. A customer is a dictionary; the customers are a parameter,
-- with the text of a value.
pub mod Privacy
mod Tests
use agent_identity_platform.Common.{
  String, Bool, true, false, not, Option, none, some, List, [], ◌∷◌, ◌==◌, ◌&&◌, Dict, lookup,
  contains, get_or, if◌then◌else◌,
}
use agent_identity_platform.Simulators.Data.{scoped, Called, raised, returned}

abbrev pub identifiers : List String
identifiers = "name" ∷ "email" ∷ "phone" ∷ []

pub record Pii (V : Type 0) : Type 0 where
  pub id : V
  pub name : V
  pub email : V
  pub phone : V

unfoldable pub pii_with : {V : Type 0} → Option V → Option V → Option V → Option V → Option (Pii V)
pii_with (some i) (some n) (some e) (some p) =
    some (record { id = i; name = n; email = e; phone = p })
pii_with _ _ _ _ = none

-- The fields of `get_pii`; a customer without one of them is a KeyError.
unfoldable pub pii_of : {V : Type 0} → Dict V → Option (Pii V)
unfolding pii_with
pii_of c = pii_with (lookup "id" c) (lookup "name" c) (lookup "email" c) (lookup "phone" c)

unfoldable pub or_key_error : {A : Type 0} → Option A → Called (Option A)
or_key_error none = raised "KeyError"
or_key_error (some x) = returned (some x)

-- What is not none and not empty.
unfoldable pub found : {V : Type 0} → Option (Dict V) → Bool
found none = false
found (some []) = false
found (some (x ∷ c)) = true

module _ {V : Type 0} (str : V → String) (customers : Dict (Dict V)) where
  -- `record.get("tenant")`, which every customer has.
  unfoldable pub tenant_of : Dict V → String
  tenant_of c = elim (lookup "tenant" c) [ none ↦ "" | some v ↦ str v ]

  -- `{k: v for k, v in customer.items() if k not in {...}}`
  unfoldable pub profile : Dict V → Dict V
  profile [] = []
  profile ((k, v) ∷ c) =
      let rest = profile c in if contains k identifiers then rest else (k, v) ∷ rest

  unfoldable pub get_customer : String → String → Option (Dict V)
  unfolding profile tenant_of
  get_customer id tenant = elim (scoped tenant_of (lookup id customers) tenant) [
    | none ↦ none
    | some c ↦ some (profile c)
  ]

  unfoldable pub list_customers : List String → String → List (Dict V)
  unfolding get_customer found
  list_customers [] tenant = []
  list_customers (id ∷ ids) tenant =
      let rest = list_customers ids tenant in
      let c = get_customer id tenant in if found c then get_or c [] ∷ rest else rest

  unfoldable pub get_pii : String → String → Called (Option (Pii V))
  unfolding pii_of or_key_error tenant_of
  get_pii id tenant = elim (scoped tenant_of (lookup id customers) tenant) [
    | none ↦ returned none
    | some c ↦ or_key_error (pii_of c)
  ]
