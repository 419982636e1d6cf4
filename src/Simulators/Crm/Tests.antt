-- ===== src/Simulators/Crm/Tests.antt =====
-- Customers at concrete inputs (app/simulators/crm.py).
use agent_identity_platform.Common.{
  String, ◌≡◌, refl, none, some, [], ◌∷◌, Dict, lookup, contains, if◌then◌else◌,
}
use agent_identity_platform.Simulators.Data.{scoped}
use agent_identity_platform.Simulators.Crm.{identifiers, tenant_of, get_customer}
use agent_identity_platform.Simulators.Crm.Privacy.{get_customer_lem}

abbrev customers : Dict (Dict String)
customers = ("c-100", ("tenant", "acme") ∷ ("name", "Ada") ∷ ("tier", "gold") ∷ []) ∷ []

shown :
    get_customer (λ s. s) customers "c-100" "acme"
    ≡ some (("tenant", "acme") ∷ ("tier", "gold") ∷ [])
unfolding get_customer scoped
shown = refl

get_customer_lem_example :
    (x : Dict String) × (lookup "c-100" customers ≡ some x)
    × (tenant_of (λ s. s) customers x ≡ "acme")
    × ((k : String)
        → lookup k (("tenant", "acme") ∷ ("tier", "gold") ∷ [])
          ≡ (if contains k identifiers then none else lookup k x))
get_customer_lem_example =
    get_customer_lem (λ s. s) customers "c-100" "acme" (("tenant", "acme") ∷ ("tier", "gold") ∷ [])
      shown
