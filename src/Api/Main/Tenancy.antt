-- ===== src/Api/Main/Tenancy.antt =====
-- What the routes that read show of other tenants (app/api/main.py).
use Prim.Native.Nat.{max, min}
use agent_identity_platform.Common.{
  ℕ, String, Bool, ◌≡◌, refl, sym, ap, ◌∙◌, inl, inr, Option, none, some, List, [], ◌∷◌, ◌==◌, ◌&&◌,
  arith, get_or, contains, values, select, take, Bool-cases,
}
use agent_identity_platform.Common.Http.{answer}
use agent_identity_platform.Approvals.Store
use agent_identity_platform.Approvals.Store.{Approval, Items}
use agent_identity_platform.Audit.{Record, Filter, matches, is_of_tenant, query}
use agent_identity_platform.Tools.Tokens.{Delegation}
use agent_identity_platform.Api.Authz.{Auth, current_delegation, require_roles, holds_any}
use agent_identity_platform.Api.State.{Platform, Callers}
use agent_identity_platform.Api.Approvals.{list_approvals}
use agent_identity_platform.Api.Oversight.{
  AuditParams, pii_tool, tool_events, get_audit, pii_records, privacy_access,
}

-- A test that implies another selects among what the other selects.
select-select :
    {A : Type 0} (p q r : A → Bool) (xs : List A)
    → ((x : A) → r x ≡ (p x && q x))
    → select r xs ≡ select p (select q xs)
select-select p q r [] h = refl
select-select p q r (x ∷ xs) h = ground (arith, h x, select-select p q r xs h)

pending_of-eq :
    {V : Type 0} (t : String) (i j : Items V)
    → Store.all_of t i ≡ Store.all_of t j
    → Store.pending_of t i ≡ Store.pending_of t j
unfolding Store.all_of Store.pending_of
pending_of-eq t i j h =
    select-select (λ a. Store.is_pending a.status) (λ a. a.tenant == t) _ (values i) (λ a. refl)
    ∙ ap (select (λ a. Store.is_pending a.status)) h
    ∙ sym (
        select-select (λ a. Store.is_pending a.status) (λ a. a.tenant == t) _ (values j)
          (λ a. refl))

matches_of_tenant :
    {B : Type 0} (event tool sub : Option String) (t : String) (r : Record B)
    → matches (record { event = event; tool = tool; sub = sub; tenant = some t }) r ≡ (
        matches (record { event = event; tool = tool; sub = sub; tenant = none }) r
        && is_of_tenant (some t) r.tenant)
unfolding matches is_of_tenant
matches_of_tenant event tool sub t r = ground arith

module _ {V B : Type 0} where
  -- The records of a tenant.
  abbrev pub trail_of : String → Platform V B → List (Record B)
  trail_of t s = select (λ r. is_of_tenant (some t) r.tenant) s.trail

  query-eq :
      (limit : ℕ) (event tool sub : Option String) (t : String) (s u : Platform V B)
      → trail_of t s ≡ trail_of t u
      → query limit (record { event = event; tool = tool; sub = sub; tenant = some t }) s.trail
        ≡ query limit (record { event = event; tool = tool; sub = sub; tenant = some t }) u.trail
  unfolding query
  query-eq limit event tool sub t s u h =
      ap (take limit) (split s.trail ∙ ap (select (matches rest)) h ∙ sym (split u.trail))
    where
      whole : Filter
      whole = record { event = event; tool = tool; sub = sub; tenant = some t }

      rest : Filter
      rest = record { event = event; tool = tool; sub = sub; tenant = none }

      split :
          (xs : List (Record B))
          → select (matches whole) xs
            ≡ select (matches rest) (select (λ r. is_of_tenant (some t) r.tenant) xs)
      split xs =
          select-select (matches rest) (λ r. is_of_tenant (some t) r.tenant) (matches whole) xs
            (matches_of_tenant event tool sub t)

  pii_records-eq :
      (t : String) (s u : Platform V B)
      → trail_of t s ≡ trail_of t u
      → pii_records t s ≡ pii_records t u
  unfolding pii_records
  pii_records-eq t s u h =
      ap (select (λ r. contains (get_or r.event "") tool_events))
        (query-eq 500 none (some pii_tool) none t s u h)

  -- What the routes that list approvals, query the trail and show personal-data access answer depends on
  -- the data of the caller's tenant alone: for any two states of the service that have the same
  -- approvals of that tenant and the same audit records of it, whatever they hold of other tenants, the
  -- three routes give that caller the same answers, errors included.
  pub reads_see_one_tenant :
      (auth : Auth) (callers : Callers) (decision_of : B → Option String)
      (header status : Option String) (params : AuditParams) (who : Delegation) (s u : Platform V B)
      → current_delegation auth header ≡ answer who
      → Store.all_of (get_or who.tenant "") s.approvals
        ≡ Store.all_of (get_or who.tenant "") u.approvals
      → trail_of (get_or who.tenant "") s ≡ trail_of (get_or who.tenant "") u
      → (list_approvals auth callers header status s ≡ list_approvals auth callers header status u)
        × (get_audit auth callers header params s ≡ get_audit auth callers header params u)
        × (privacy_access auth callers decision_of header s
            ≡ privacy_access auth callers decision_of header u)
  unfolding list_approvals get_audit privacy_access require_roles pii_records
  reads_see_one_tenant auth callers decision_of header status params who s u token a t = (
    rw (token, list_approvals)
        (rw (a, pending_of-eq (get_or who.tenant "") s.approvals u.approvals a) refl),
    rw (token, get_audit)
        (ap answer (
          query-eq (max 1 (min params.limit 500)) params.event params.tool params.sub
            (get_or who.tenant "") s u t)),
    elim (Bool-cases (holds_any ("manager" ∷ []) who.roles)) [
      | inl e ↦ rw (token, e, privacy_access, a, pii_records-eq (get_or who.tenant "") s u t) refl
      | inr e ↦ rw (token, e, privacy_access) refl
    ],
  )
