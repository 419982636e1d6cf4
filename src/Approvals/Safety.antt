-- ===== src/Approvals/Safety.antt =====
-- What every history of `create` and `decide` keeps: separation of duties, and decisions that stay.
use agent_identity_platform.Common.{
  ℕ, String, ◌≡◌, refl, sym, ◌∙◌, ◌≢◌, ◌⊎◌, inl, inr, Bool, true, false, Option, none, some, [],
  arith, ◌==◌, eq_iff, lookup, insert, lookup-insert, lookup-insert_self, if◌then◌else◌,
  Option-cases, Bool-cases, ◌&&◌, not,
}
use agent_identity_platform.Approvals.Args.{dict_eq, normalize}
use agent_identity_platform.Approvals.Store.{
  Status, pending, approved, denied, is_pending, Approval, Request, Claim, Verdict, Items,
  new_approval, create, get, settled, decide, is_exact, verify,
}

-- One call that writes. The identifier drawn for a new approval is not in use.
pub data Step {V : Type 0} : Items V → Items V → Type 0 where
  created :
      (id : String) (now : ℕ) (r : Request V) (s : Items V)
      → lookup id s ≡ none
      → Step s (create id now r s).1
  decided : (id : String) (v : Verdict) (s : Items V) → Step s (decide id v s).1

pub data Reach {V : Type 0} (s : Items V) : Items V → Type 0 where
  here : Reach s s
  next : {t u : Items V} → Reach s t → Step t u → Reach s u

-- Who decided, by the status.
abbrev pub IsSettledBy : Status → Option String → String → Type 0
IsSettledBy pending approver user = approver ≡ none
IsSettledBy approved none user = ⊥
IsSettledBy approved (some p) user = p ≢ user
IsSettledBy denied none user = ⊥
IsSettledBy denied (some p) user = p ≢ user

-- Every stored approval is filed under its identifier, and only another person has decided it.
pub record IsSound {V : Type 0} (s : Items V) : Type 0 where
  pub filed : (k : String) (a : Approval V) → lookup k s ≡ some a → a.id ≡ k
  pub duties :
      (k : String) (a : Approval V) → lookup k s ≡ some a → IsSettledBy a.status a.approver a.user

module _ {V : Type 0} where
  pub create-IsSound :
      (id : String) (now : ℕ) (r : Request V) (s : Items V)
      → IsSound s
      → IsSound (create id now r s).1
  unfolding create
  create-IsSound id now r s h = record {
    filed = λ k a e.
        ground (arith, lookup-insert id k (new_approval id now r) s, h.filed k a, eq_iff id k);
    duties = λ k a e. ground (arith, lookup-insert id k (new_approval id now r) s, h.duties k a);
  }

  pub decide_missing :
      (id : String) (v : Verdict) (s : Items V) → lookup id s ≡ none → decide id v s ≡ (none, s)
  unfolding decide
  decide_missing id v s e = rw (e, decide)

  pub decide_allowed :
      (id : String) (v : Verdict) (s : Items V) (a : Approval V)
      → lookup id s ≡ some a
      → a.status ≡ pending
      → a.tenant ≡ v.tenant
      → v.approver ≢ a.user
      → decide id v s ≡ (some (settled v a), insert id (settled v a) s)
  unfolding decide
  decide_allowed id v s a e p t n =
      ground (arith, eq_iff a.tenant v.tenant, eq_iff v.approver a.user)

  -- The stored approval passes the three tests of `decide`.
  abbrev pub may_settle : Verdict → Approval V → Bool
  may_settle v a = is_pending a.status && a.tenant == v.tenant && not (v.approver == a.user)

  decide_refused :
      (id : String) (v : Verdict) (s : Items V) (a : Approval V)
      → lookup id s ≡ some a
      → may_settle v a ≡ false
      → decide id v s ≡ (none, s)
  unfolding decide
  decide_refused id v s a e h = ground arith

  pub decide_lem :
      (id : String) (v : Verdict) (s : Items V)
      → ((a : Approval V) × (lookup id s ≡ some a)
          × (a.status ≡ pending)
          × (a.tenant ≡ v.tenant)
          × (v.approver ≢ a.user)
          × (decide id v s ≡ (some (settled v a), insert id (settled v a) s)))
        ⊎ (((a : Approval V)
              → lookup id s ≡ some a
              → a.status ≡ pending
              → a.tenant ≡ v.tenant
              → v.approver ≡ a.user)
            × (decide id v s ≡ (none, s)))
  decide_lem id v s = elim (Option-cases (lookup id s)) [
    | inl e ↦ inr (λ a x p t. cc, decide_missing id v s e)
    | inr (a, e) ↦ elim (Bool-cases (may_settle v a)) [
      | inl h ↦
          let p : a.status ≡ pending = ground arith in
          let t : a.tenant ≡ v.tenant = ground (arith, eq_iff a.tenant v.tenant) in
          let n : v.approver ≢ a.user = ground (arith, eq_iff v.approver a.user) in
          inl (a, e, p, t, n, decide_allowed id v s a e p t n)
      | inr h ↦ inr (
        λ b x p t. ground (arith, eq_iff b.tenant v.tenant, eq_iff v.approver b.user),
        decide_refused id v s a e h,
      )
    ]
  ]

  -- The approval is the pending one with the verdict written in, and nothing else changed.
  abbrev pub IsVerdictOf : Verdict → Approval V → Approval V → Type 0
  IsVerdictOf v a b =
      (b.status ≡ (if v.approved then approved else denied))
      × (b.approver ≡ some v.approver)
      × (b.note ≡ v.note)
      × (b.decided_at ≡ some v.now)
      × (b.id ≡ a.id)
      × (b.tool ≡ a.tool)
      × (b.args ≡ a.args)
      × (b.user ≡ a.user)
      × (b.agent ≡ a.agent)
      × (b.reason ≡ a.reason)
      × (b.tenant ≡ a.tenant)
      × (b.created_at ≡ a.created_at)

  settled-IsVerdictOf : (v : Verdict) (a : Approval V) → IsVerdictOf v a (settled v a)
  unfolding settled
  settled-IsVerdictOf v a = (refl, refl, refl, refl, refl, refl, refl, refl, refl, refl, refl, refl)

  get_stored :
      (id tenant : String) (a : Approval V) (s : Items V)
      → a.tenant ≡ tenant
      → get id tenant (insert id a s) ≡ some a
  unfolding get
  get_stored id tenant a s t = ground (arith, lookup-insert_self id a s, eq_iff a.tenant tenant)

  -- `decide` succeeds exactly on a pending approval of the verdict's tenant whose user is not the
  -- approver. It then returns that approval with the status, approver, note and time of the verdict
  -- and all else as it was, replaces it in the store by this one alone, and the tenant gets it from
  -- there afterwards. In every other case it returns nothing and leaves the store as it was.
  pub decide_writes :
      (id : String) (v : Verdict) (s : Items V)
      → ((a : Approval V) × (b : Approval V) × (lookup id s ≡ some a)
          × (a.status ≡ pending)
          × (a.tenant ≡ v.tenant)
          × (v.approver ≢ a.user)
          × IsVerdictOf v a b
          × (decide id v s ≡ (some b, insert id b s))
          × (get id v.tenant (decide id v s).1 ≡ some b))
        ⊎ (((a : Approval V)
              → lookup id s ≡ some a
              → a.status ≡ pending
              → a.tenant ≡ v.tenant
              → v.approver ≡ a.user)
            × (decide id v s ≡ (none, s)))
  decide_writes id v s = elim (decide_lem id v s) [
    | inl (a, e, p, t, n, r) ↦
        let w = settled-IsVerdictOf v a in
        inl (
          a,
          settled v a,
          e,
          p,
          t,
          n,
          w,
          r,
          rw r (get_stored id v.tenant (settled v a) s (settled-tenant a t)),
        )
    | inr x ↦ inr x
  ]
    where
      settled-tenant : (a : Approval V) → a.tenant ≡ v.tenant → (settled v a).tenant ≡ v.tenant
      settled-tenant a t = (settled-IsVerdictOf v a).10 ∙ t

  stored-IsSound :
      (id : String) (v : Verdict) (s : Items V) (a : Approval V)
      → IsSound s
      → lookup id s ≡ some a
      → v.approver ≢ a.user
      → IsSound (insert id (settled v a) s)
  unfolding settled
  stored-IsSound id v s a h e n = record {
    filed = λ k b x.
        ground (arith, lookup-insert id k (settled v a) s, h.filed k b, h.filed id a, eq_iff id k);
    duties = λ k b x. ground (arith, lookup-insert id k (settled v a) s, h.duties k b);
  }

  pub decide-IsSound :
      (id : String) (v : Verdict) (s : Items V) → IsSound s → IsSound (decide id v s).1
  decide-IsSound id v s h = elim (decide_lem id v s) [
    | inl (a, e, p, t, n, r) ↦ rw r (stored-IsSound id v s a h e n)
    | inr (_, r) ↦ rw r h
  ]

  Step-IsSound : {s t : Items V} → Step s t → IsSound s → IsSound t
  Step-IsSound (created id now r s fresh) h = create-IsSound id now r s h
  Step-IsSound (decided id v s) h = decide-IsSound id v s h

  -- In every store that calls of `create` and `decide` reach from a sound one (the empty store is
  -- sound), each approval is filed under its own identifier, a pending one has no approver, and an
  -- approved or denied one has an approver who is not its user.
  pub Reach-IsSound : {s t : Items V} → IsSound s → Reach s t → IsSound t
  Reach-IsSound h here = h
  Reach-IsSound h (next r st) = Step-IsSound st (Reach-IsSound h r)

  pub IsSound-empty : IsSound {V = V} []
  IsSound-empty = record { filed = λ k a e. cc; duties = λ k a e. cc }

  create_keeps :
      (id k : String) (now : ℕ) (r : Request V) (s : Items V) (a : Approval V)
      → lookup id s ≡ none
      → lookup k s ≡ some a
      → lookup k (create id now r s).1 ≡ some a
  unfolding create
  create_keeps id k now r s a fresh e =
      ground (arith, lookup-insert id k (new_approval id now r) s, eq_iff id k)

  decide_keeps :
      (id k : String) (v : Verdict) (s : Items V) (a : Approval V)
      → lookup k s ≡ some a
      → a.status ≢ pending
      → lookup k (decide id v s).1 ≡ some a
  decide_keeps id k v s a e ne = elim (decide_lem id v s) [
    | inl (b, x, p, t, n, r) ↦
        rw r (ground (arith, lookup-insert id k (settled v b) s, eq_iff id k))
    | inr (_, r) ↦ rw r e
  ]

  Step-keeps :
      {s t : Items V} (k : String) (a : Approval V)
      → Step s t
      → lookup k s ≡ some a
      → a.status ≢ pending
      → lookup k t ≡ some a
  Step-keeps k a (created id now r s fresh) e ne = create_keeps id k now r s a fresh e
  Step-keeps k a (decided id v s) e ne = decide_keeps id k v s a e ne

  -- A decision is final: an approval that is no longer pending is found unchanged, in every field,
  -- after any further calls of `create` (with unused identifiers) and `decide`.
  pub decided_stays :
      {s t : Items V} (k : String) (a : Approval V)
      → Reach s t
      → lookup k s ≡ some a
      → a.status ≢ pending
      → lookup k t ≡ some a
  decided_stays k a here e ne = e
  decided_stays k a (next r st) e ne = Step-keeps k a st (decided_stays k a r e ne) ne

  verify_inv :
      (eqv : V → V → Bool) (id : String) (c : Claim V) (s : Items V)
      → verify eqv id c s ≡ true
      → (a : Approval V) × (lookup id s ≡ some a)
        × (a.status ≡ approved)
        × (a.tenant ≡ c.tenant)
        × (is_exact eqv c a ≡ true)
  unfolding verify
  verify_inv eqv id c s h = elim (Option-cases (lookup id s)) [
    | inl e ↦ ground arith
    | inr (a, e) ↦ (a, e, ground arith, ground (arith, eq_iff a.tenant c.tenant), ground arith)
  ]

  is_exact_inv :
      (eqv : V → V → Bool) (c : Claim V) (a : Approval V)
      → is_exact eqv c a ≡ true
      → (a.tool ≡ c.tool)
        × (a.user ≡ c.user)
        × (a.agent ≡ c.agent)
        × (dict_eq eqv a.args (normalize c.args) ≡ true)
  unfolding is_exact
  is_exact_inv eqv c a h =
      ground (arith, eq_iff a.tool c.tool, eq_iff a.user c.user, eq_iff a.agent c.agent)

  settled_by_other :
      (a : Approval V)
      → IsSettledBy a.status a.approver a.user
      → a.status ≡ approved
      → (p : String) × (a.approver ≡ some p) × (p ≢ a.user)
  settled_by_other a h e = elim (Option-cases a.approver) [
    | inl n ↦ ground arith
    | inr (p, x) ↦ (p, x, ground arith)
  ]

  -- In a reachable store a call of `verify` succeeds only for an approval that is approved, in the
  -- claim's tenant, by somebody other than its user, and that agrees with the claim on tool, user,
  -- agent and arguments.
  pub verify_sound :
      (eqv : V → V → Bool) {s : Items V} (id : String) (c : Claim V)
      → Reach [] s
      → verify eqv id c s ≡ true
      → (a : Approval V) × (p : String) × (lookup id s ≡ some a)
        × (a.status ≡ approved)
        × (a.approver ≡ some p)
        × (p ≢ c.user)
        × (a.tenant ≡ c.tenant)
        × (a.tool ≡ c.tool)
        × (a.user ≡ c.user)
        × (a.agent ≡ c.agent)
        × (dict_eq eqv a.args (normalize c.args) ≡ true)
  verify_sound eqv {s} id c r h =
      let (a, e, st, t, x) = verify_inv eqv id c s h in
      let sound = Reach-IsSound IsSound-empty r in
      let (p, ap, n) = settled_by_other a (sound.duties id a e) st in
      let m = is_exact_inv eqv c a x in
      (a, p, e, st, ap, (λ q. n (q ∙ sym m.1)), t, m.0, m.1, m.2, m.3)
