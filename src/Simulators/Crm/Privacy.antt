-- ===== src/Simulators/Crm/Privacy.antt =====
-- The profile view leaves out the direct identifiers (app/simulators/crm.py).
use agent_identity_platform.Common.{
  String, Bool, ◌≡◌, refl, ap, ◌∙◌, true, Option, none, some, [], ◌∷◌, ◌==◌, eq_iff, arith, Dict,
  lookup, contains, if◌then◌else◌,
}
use agent_identity_platform.Simulators.Data.{scoped, scoped_lem}
use agent_identity_platform.Simulators.Crm.{identifiers, tenant_of, profile, get_customer}

some_inj : {A : Type 0} (a b : A) → some a ≡ some b → b ≡ a
some_inj a b p = ground (arith, p)

module _ {V : Type 0} (str : V → String) (customers : Dict (Dict V)) where
  lookup-profile :
      (k : String) (c : Dict V)
      → lookup k (profile str customers c) ≡ (if contains k identifiers then none else lookup k c)
  unfolding profile
  lookup-profile k [] = ground arith
  lookup-profile k ((j, v) ∷ c) =
      by_test (contains j identifiers) (contains k identifiers)
        (λ e. ap (λ s. contains s identifiers) ((eq_iff j k).0 e)) (lookup-profile k c)
    where
      by_test :
          (p q : Bool)
          → ((j == k) ≡ true → p ≡ q)
          → lookup k (profile str customers c) ≡ (if q then none else lookup k c)
          → lookup k (if p then profile str customers c else (j, v) ∷ profile str customers c)
            ≡ (if q then none else if j == k then some v else lookup k c)
      by_test p q same rest = ground (arith, same, rest)

  -- A customer's profile is shown only to the customer's tenant; it has none of the direct identifiers,
  -- and every other field as it is stored.
  pub get_customer_lem :
      (id tenant : String) (c : Dict V)
      → get_customer str customers id tenant ≡ some c
      → (x : Dict V) × (lookup id customers ≡ some x)
        × (tenant_of str customers x ≡ tenant)
        × ((k : String) → lookup k c ≡ (if contains k identifiers then none else lookup k x))
  unfolding get_customer
  get_customer_lem id tenant c =
      by_found (scoped (tenant_of str customers) (lookup id customers) tenant) refl
    where
      by_found :
          (o : Option (Dict V))
          → scoped (tenant_of str customers) (lookup id customers) tenant ≡ o
          → get_customer str customers id tenant ≡ some c
          → (x : Dict V) × (lookup id customers ≡ some x)
            × (tenant_of str customers x ≡ tenant)
            × ((k : String) → lookup k c ≡ (if contains k identifiers then none else lookup k x))
      by_found none p = rw (p, get_customer) (λ h. ground (arith, h))
      by_found (some x) p =
          rw (p, get_customer)
            (λ h.
              let (e, f) = scoped_lem (tenant_of str customers) (lookup id customers) tenant x p in
              (
                x,
                e,
                f,
                λ k. ap (lookup k) (some_inj (profile str customers x) c h) ∙ lookup-profile k x,
              ))
