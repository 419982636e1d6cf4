-- ===== src/Approvals/Postgres/Refines.antt =====
-- The two backends of app/approvals/store.py agree: the table refines the dictionary.
use mathlib.Core.Option
use agent_identity_platform.Common.{
  ℕ, String, ◌≡◌, refl, ◌≢◌, inl, inr, Bool, true, none, some, [], ◌∷◌, ◌++◌, arith, ◌==◌, eq_iff,
  Dict, lookup, insert, lookup-insert_ne, lookup-insert_self, ◌∙◌, ◌⊎◌, false, select, Option-cases,
  Bool-cases,
}
use agent_identity_platform.Approvals.Args.{dict_eq, normalize}
use agent_identity_platform.Approvals.Store.{
  Approval, Request, Claim, Verdict, Items, pending, new_approval, create, get, settled, decide,
  is_exact, verify,
}
use agent_identity_platform.Approvals.Safety.{decide_lem}
use agent_identity_platform.Approvals.Postgres.{
  Rows, update_where, stored, pg_create, pg_get, undecided, pg_decide, pg_verify,
}

module _ {V : Type 0} (jsonb : Dict V → Dict V) where
  -- The rows are the stored approvals, each under its own identifier, which no other has.
  abbrev pub Reflects : Items V → Rows V → Type 0
  Reflects [] [] = Unit
  Reflects ((k, a) ∷ s) (r ∷ rows) =
      (r ≡ stored jsonb a) × (a.id ≡ k) × (lookup k s ≡ none) × Reflects s rows
  Reflects _ _ = ⊥

  -- A row that is not there is not updated.
  update_missing :
      (id : String) (v : Verdict) (s : Items V) (rows : Rows V)
      → Reflects s rows
      → lookup id s ≡ none
      → update_where (undecided id v) (settled v) rows ≡ ([], rows)
  unfolding undecided update_where stored
  update_missing id v [] [] h e = refl
  update_missing id v [] (r ∷ rows) h e = absurd h
  update_missing id v ((k, a) ∷ s) [] h e = absurd h
  update_missing id v ((k, a) ∷ s) (r ∷ rows) h e =
      ground (arith, eq_iff k id, eq_iff r.id id, update_missing id v s rows h.3)

  update_refused :
      (id : String) (v : Verdict) (s : Items V) (rows : Rows V)
      → Reflects s rows
      → ((a : Approval V)
          → lookup id s ≡ some a
          → a.status ≡ pending
          → a.tenant ≡ v.tenant
          → v.approver ≡ a.user)
      → update_where (undecided id v) (settled v) rows ≡ ([], rows)
  unfolding undecided update_where stored
  update_refused id v [] [] h e = refl
  update_refused id v [] (r ∷ rows) h e = absurd h
  update_refused id v ((k, a) ∷ s) [] h e = absurd h
  update_refused id v ((k, a) ∷ s) (r ∷ rows) h e = elim (Bool-cases (k == id)) [
    | inl same ↦
        let q : k ≡ id = ground (arith, eq_iff k id) in
        ground (
          arith,
          eq_iff k id,
          eq_iff a.tenant v.tenant,
          eq_iff a.user v.approver,
          e a,
          update_missing id v s rows h.3,
        )
    | inr other ↦
        ground (arith, eq_iff k id, update_refused id v s rows h.3 (λ b x. e b (ground arith)))
  ]

  insert_missing :
      (k j : String) (a : Approval V) (s : Items V)
      → lookup j s ≡ none
      → k ≢ j
      → lookup j (insert k a s) ≡ none
  insert_missing k j a s e n = lookup-insert_ne k j a s n ∙ e

  update_allowed :
      (id : String) (v : Verdict) (s : Items V) (rows : Rows V) (a : Approval V)
      → Reflects s rows
      → lookup id s ≡ some a
      → undecided id v a ≡ true
      → ((update_where (undecided id v) (settled v) rows).0 ≡ stored jsonb (settled v a) ∷ [])
        × Reflects (insert id (settled v a) s) (update_where (undecided id v) (settled v) rows).1
  unfolding undecided update_where stored settled
  update_allowed id v [] rows a h e u = ground arith
  update_allowed id v ((k, b) ∷ s) [] a h e u = absurd h
  update_allowed id v ((k, b) ∷ s) (r ∷ rows) a h e u = elim (Bool-cases (k == id)) [
    | inl same ↦ ground (arith, eq_iff k id, eq_iff a.id id, update_missing id v s rows h.3)
    | inr other ↦ ground (
      arith,
      eq_iff k id,
      eq_iff b.id id,
      insert_missing id k (settled v a) s,
      update_allowed id v s rows a h.3,
    )
  ]

  undecided_of :
      (id : String) (v : Verdict) (a : Approval V)
      → a.id ≡ id
      → a.status ≡ pending
      → a.tenant ≡ v.tenant
      → v.approver ≢ a.user
      → undecided id v a ≡ true
  unfolding undecided
  undecided_of id v a i p t n =
      ground (arith, eq_iff a.id id, eq_iff a.tenant v.tenant, eq_iff a.user v.approver)

  Reflects-id :
      (id : String) (a : Approval V) (s : Items V) (rows : Rows V)
      → Reflects s rows
      → lookup id s ≡ some a
      → a.id ≡ id
  Reflects-id id a [] rows h e = ground arith
  Reflects-id id a ((k, b) ∷ s) [] h e = absurd h
  Reflects-id id a ((k, b) ∷ s) (r ∷ rows) h e =
      ground (arith, eq_iff k id, Reflects-id id a s rows h.3)

  -- Deciding through the UPDATE statement gives what `ApprovalStore.decide` gives on every branch, up
  -- to the `jsonb` form of the arguments, and leaves a table that reflects the dictionary it leaves.
  pub pg_decide-Reflects :
      (id : String) (v : Verdict) (s : Items V) (rows : Rows V)
      → Reflects s rows
      → ((pg_decide id v rows).0 ≡ Option.map (stored jsonb) (decide id v s).0)
        × Reflects (decide id v s).1 (pg_decide id v rows).1
  unfolding pg_decide
  pg_decide-Reflects id v s rows h = elim (decide_lem id v s) [
    | inl (a, e, p, t, n, q) ↦
        let i = Reflects-id id a s rows h e in
        let (got, kept) = update_allowed id v s rows a h e (undecided_of id v a i p t n) in
        rw q (rw got refl, kept)
    | inr (c, q) ↦ let u = update_refused id v s rows h c in rw (q, u) (refl, h)
  ]

  select_missing :
      (id : String) (s : Items V) (rows : Rows V)
      → Reflects s rows
      → lookup id s ≡ none
      → select (λ (x : Approval V). x.id == id) rows ≡ []
  unfolding stored
  select_missing id [] [] h e = refl
  select_missing id [] (r ∷ rows) h e = absurd h
  select_missing id ((k, a) ∷ s) [] h e = absurd h
  select_missing id ((k, a) ∷ s) (r ∷ rows) h e =
      ground (arith, eq_iff k id, eq_iff r.id id, select_missing id s rows h.3)

  Reflects-insert_new :
      (id : String) (a : Approval V) (s : Items V) (rows : Rows V)
      → Reflects s rows
      → lookup id s ≡ none
      → a.id ≡ id
      → Reflects (insert id a s) (rows ++ stored jsonb a ∷ [])
  Reflects-insert_new id a [] [] h e i = (refl, i, refl, tt)
  Reflects-insert_new id a [] (r ∷ rows) h e i = absurd h
  Reflects-insert_new id a ((k, b) ∷ s) [] h e i = absurd h
  Reflects-insert_new id a ((k, b) ∷ s) (r ∷ rows) h e i =
      ground (arith, eq_iff k id, insert_missing id k a s, Reflects-insert_new id a s rows h.3)

  create_taken :
      (takes : Approval V → Bool) (id : String) (now : ℕ) (r : Request V) (s : Items V)
      (rows : Rows V)
      → Reflects s rows
      → lookup id s ≡ none
      → takes (new_approval id now r) ≡ true
      → (pg_create jsonb takes id now r rows
          ≡ some ((create id now r s).0, rows ++ stored jsonb (new_approval id now r) ∷ []))
        × Reflects (create id now r s).1 (rows ++ stored jsonb (new_approval id now r) ∷ [])
  unfolding pg_create create
  create_taken takes id now r s rows h e t = (
    rw (t, select_missing id s rows h e, pg_create) refl,
    Reflects-insert_new id (new_approval id now r) s rows h e refl,
  )

  create_refused :
      (takes : Approval V → Bool) (id : String) (now : ℕ) (r : Request V) (rows : Rows V)
      → takes (new_approval id now r) ≡ false
      → pg_create jsonb takes id now r rows ≡ none
  unfolding pg_create
  create_refused takes id now r rows t = rw (t, pg_create) refl

  -- With an identifier that is not in use, either PostgreSQL takes the values of the new row: then the
  -- INSERT goes through, returns the approval that `ApprovalStore.create` returns, and leaves a table
  -- that reflects the dictionary it leaves; or it refuses them: then the call raises, where
  -- `ApprovalStore.create` stores the approval.
  pub pg_create-Reflects :
      (takes : Approval V → Bool) (id : String) (now : ℕ) (r : Request V) (s : Items V)
      (rows : Rows V)
      → Reflects s rows
      → lookup id s ≡ none
      → ((rows' : Rows V) × (takes (create id now r s).0 ≡ true)
          × (pg_create jsonb takes id now r rows ≡ some ((create id now r s).0, rows'))
          × Reflects (create id now r s).1 rows')
        ⊎ ((takes (create id now r s).0 ≡ false)
            × (pg_create jsonb takes id now r rows ≡ none)
            × (lookup id (create id now r s).1 ≡ some (create id now r s).0))
  unfolding create
  pg_create-Reflects takes id now r s rows h e = elim (Bool-cases (takes (new_approval id now r))) [
    | inl t ↦
        let (got, kept) = create_taken takes id now r s rows h e t in
        inl (rows ++ stored jsonb (new_approval id now r) ∷ [], t, got, kept)
    | inr t ↦
        inr
          (t, create_refused takes id now r rows t, lookup-insert_self id (new_approval id now r) s)
  ]

  get_missing :
      (id tenant : String) (s : Items V) (rows : Rows V)
      → Reflects s rows
      → lookup id s ≡ none
      → pg_get id tenant rows ≡ none
  unfolding pg_get stored
  get_missing id tenant [] [] h e = refl
  get_missing id tenant [] (r ∷ rows) h e = absurd h
  get_missing id tenant ((k, a) ∷ s) [] h e = absurd h
  get_missing id tenant ((k, a) ∷ s) (r ∷ rows) h e =
      ground (arith, eq_iff k id, eq_iff r.id id, get_missing id tenant s rows h.3)

  -- While the rows reflect the dictionary, both backends show an approval to its own tenant only, and
  -- the same one.
  pub pg_get-Reflects :
      (id tenant : String) (s : Items V) (rows : Rows V)
      → Reflects s rows
      → pg_get id tenant rows ≡ Option.map (stored jsonb) (get id tenant s)
  unfolding pg_get get stored
  pg_get-Reflects id tenant [] [] h = refl
  pg_get-Reflects id tenant [] (r ∷ rows) h = absurd h
  pg_get-Reflects id tenant ((k, a) ∷ s) [] h = absurd h
  pg_get-Reflects id tenant ((k, a) ∷ s) (r ∷ rows) h = ground (
    arith,
    eq_iff k id,
    eq_iff r.id id,
    eq_iff a.tenant tenant,
    eq_iff r.tenant tenant,
    get_missing id tenant s rows h.3,
    pg_get-Reflects id tenant s rows h.3,
  )

  module _ (eqv : V → V → Bool)
      (same : (a b : Dict V) → dict_eq eqv (jsonb a) b ≡ dict_eq eqv a b) where
    exact_stored :
        (c : Claim V) (a : Approval V) → is_exact eqv c (stored jsonb a) ≡ is_exact eqv c a
    unfolding is_exact stored
    exact_stored c a = ground (arith, same a.args (normalize c.args))

    -- If `jsonb` keeps a dictionary equal to the one that was dumped, both backends answer every claim
    -- alike.
    pub pg_verify-Reflects :
        (id : String) (c : Claim V) (s : Items V) (rows : Rows V)
        → Reflects s rows
        → pg_verify eqv id c rows ≡ verify eqv id c s
    unfolding pg_verify verify get stored
    pg_verify-Reflects id c s rows h = elim (Option-cases (lookup id s)) [
      | inl e ↦ ground (arith, pg_get-Reflects id c.tenant s rows h)
      | inr (a, e) ↦
          ground (
            arith,
            pg_get-Reflects id c.tenant s rows h,
            exact_stored c a,
            eq_iff a.tenant c.tenant,
          )
    ]
