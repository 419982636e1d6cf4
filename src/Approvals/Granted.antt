-- ===== src/Approvals/Granted.antt =====
-- An approval that is granted verifies for the call that it was requested for (app/approvals/store.py).
use agent_identity_platform.Common.{
  ℕ, String, Bool, ◌≡◌, ◌≢◌, refl, sym, true, Option, none, some, [], ◌∷◌, arith, eq_iff, eq_refl,
  Dict, lookup, insert, lookup-insert_self,
}
use agent_identity_platform.Approvals.Args.{
  place, normalize, dict_eq, lookup-place, lookup-normalize,
}
use agent_identity_platform.Approvals.Binding.{Distinct, Agrees, dict_eq-Agrees}
use agent_identity_platform.Approvals.Store
use agent_identity_platform.Approvals.Store.{
  Approval, Request, Claim, Verdict, Items, new_approval, create, settled, decide, is_exact, verify,
  pending,
}
use agent_identity_platform.Approvals.Safety.{decide_allowed}

module _ {V : Type 0} where
  place-Distinct :
      (k : String) (v : V) (d : Dict V) → lookup k d ≡ none → Distinct d → Distinct (place k v d)
  unfolding place
  place-Distinct k v [] n h = (refl, tt)
  place-Distinct k v ((j, w) ∷ d) n (f, h) =
      ground (arith, eq_iff j k, eq_iff k j, lookup-place k j v d, place-Distinct k v d)

  normalize-Distinct : (d : Dict V) → Distinct d → Distinct (normalize d)
  unfolding normalize
  normalize-Distinct [] h = tt
  normalize-Distinct ((k, v) ∷ d) (n, h) =
      ground (arith, place-Distinct k v (normalize d), lookup-normalize k d, normalize-Distinct d)

  -- The claim that a request's own call makes.
  abbrev pub claim_of : Request V → Claim V
  claim_of r = record {
    tool = r.tool;
    args = r.args;
    user = r.user;
    agent = r.agent;
    tenant = r.tenant;
  }

  Agrees-refl : (eqv : V → V → Bool) (o : Option V) → ((v : V) → eqv v v ≡ true) → Agrees eqv o o
  Agrees-refl eqv none h = tt
  Agrees-refl eqv (some v) h = h v

  dict_eq-normalize_self :
      (eqv : V → V → Bool) (args : Dict V)
      → ((v : V) → eqv v v ≡ true)
      → Distinct args
      → dict_eq eqv (normalize args) (normalize args) ≡ true
  dict_eq-normalize_self eqv args h d =
      (dict_eq-Agrees eqv (normalize args) args (normalize-Distinct args d) d).1
        (λ k. rw (lookup-normalize k args) (Agrees-refl eqv (lookup k args) h))

  verify-found :
      (eqv : V → V → Bool) (id : String) (c : Claim V) (s : Items V) (a : Approval V)
      → lookup id s ≡ some a
      → a.status ≡ Store.approved
      → a.tenant ≡ c.tenant
      → is_exact eqv c a ≡ true
      → verify eqv id c s ≡ true
  unfolding verify
  verify-found eqv id c s a e st t x = ground (arith, eq_iff a.tenant c.tenant)

  -- A request of a store, approved by somebody else of its tenant, verifies for its own call.
  pub granted_verifies :
      (eqv : V → V → Bool) (id : String) (now : ℕ) (r : Request V) (v : Verdict) (s : Items V)
      → ((x : V) → eqv x x ≡ true)
      → Distinct r.args
      → v.approved ≡ true
      → v.approver ≢ r.user
      → v.tenant ≡ r.tenant
      → (decide id v (create id now r s).1 ≡ (
        some (settled v (new_approval id now r)),
        insert id (settled v (new_approval id now r)) (create id now r s).1,
      ))
        × (verify eqv id (claim_of r) (decide id v (create id now r s).1).1 ≡ true)
  unfolding create new_approval settled is_exact
  granted_verifies eqv id now r v s same d yes_ other t =
      let a = new_approval id now r in
      let made =
        decide_allowed id v (insert id a s) a (lookup-insert_self id a s) refl (sym t) other in
      (
        made,
        rw made (
            verify-found eqv id (claim_of r) (insert id (settled v a) (insert id a s)) (settled v a)
              (lookup-insert_self id (settled v a) (insert id a s)) (rw yes_ refl) refl
              (ground (
                arith,
                eq_refl r.tool,
                eq_refl r.user,
                eq_refl r.agent,
                dict_eq-normalize_self eqv r.args same d,
              ))),
      )
