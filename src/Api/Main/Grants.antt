-- ===== src/Api/Main/Grants.antt =====
-- Who can have approved what the store of the running service holds (app/api/main.py).
use mathlib.Core.Path.{subst}
use agent_identity_platform.Common.{
  ℕ, String, ◌≡◌, ◌≢◌, refl, sym, ◌⊎◌, inl, inr, true, Option, none, some, List, [], ◌∷◌, eq_iff,
  arith, lookup, insert, lookup-insert, contains, get_or, In,
}
use agent_identity_platform.Common.Http.{answer, Response-cases}
use agent_identity_platform.Audit
use agent_identity_platform.Approvals.Store
use agent_identity_platform.Approvals.Store.{
  Approval, Items, Request, Status, pending, approved, denied, settled, new_approval,
}
use agent_identity_platform.Approvals.Safety.{decide_lem}
use agent_identity_platform.Tools.Tokens.{Delegation}
use agent_identity_platform.Api.Authz.{Auth, current_delegation, require_roles, holds_any}
use agent_identity_platform.Api.State.{Platform, Callers, empty_platform, named}
use agent_identity_platform.Api.Approvals.{
  DecisionBody, NewApproval, request_of, verdict_of, decided, decide_approval, create_approval,
  may_create,
}
use agent_identity_platform.Api.Workloads.{may_revoke, revoke_workload, restore_workload}
use agent_identity_platform.Api.Oversight.{ingest_audit}
use agent_identity_platform.Api.Main.{
  Call, creates, decides, revokes, restores, ingests, serve, serve_all,
}

-- The role is held, when the gate of one role opens.
pub require_one_role :
    (auth : Auth) (role : String) (header : Option String) (who : Delegation)
    → require_roles auth (role ∷ []) header ≡ answer who
    → (current_delegation auth header ≡ answer who) × (contains role who.roles ≡ true)
unfolding require_roles holds_any
require_one_role auth role header who h = elim (Response-cases (current_delegation auth header)) [
  | inl (code, detail, e) ↦ ground arith
  | inr (d, e) ↦ ground arith
]

-- What a request does to the approvals.
pub data Effect {V B : Type 0} (auth : Auth) (c : Call V B) (s t : Items V) : Type 0 where
  same : t ≡ s → Effect auth c s t
  adds :
      (id : String) (now : ℕ) (r : Request V) → t ≡ (Store.create id now r s).1 → Effect auth c s t
  settles :
      (header : Option String) (id : String) (body : DecisionBody) (now : ℕ) (who : Delegation)
      → c ≡ decides header id body now
      → require_roles auth ("manager" ∷ []) header ≡ answer who
      → t ≡ (Store.decide id (verdict_of who body now) s).1
      → Effect auth c s t

pub decided-approvals :
    {V B : Type 0} (who : Delegation) (r : Option (Approval V) × Items V) (s : Platform V B)
    → (decided who r s).1.approvals ≡ r.1
unfolding decided
decided-approvals who (none, items) s = refl
decided-approvals who (some a, items) s = refl

module _ {V B : Type 0} (auth : Auth) (callers : Callers) (strip : String → String) where
  create_approval-Effect :
      (header workload_header : Option String) (body : NewApproval V) (id : String) (now : ℕ)
      (s : Platform V B)
      → Effect {B = B} auth
          (creates header workload_header body id now)
          s.approvals
          (create_approval auth callers header workload_header body id now s).1.approvals
  unfolding create_approval Store.create
  create_approval-Effect header workload_header body id now s =
      elim (Response-cases (may_create auth callers header workload_header body s)) [
        | inl (code, detail, e) ↦ same (rw (e, create_approval) refl)
        | inr (who, e) ↦ adds id now (request_of who body) (rw (e, create_approval) refl)
      ]

  decide_approval-Effect :
      (header : Option String) (id : String) (body : DecisionBody) (now : ℕ) (s : Platform V B)
      → Effect {B = B} auth
          (decides header id body now)
          s.approvals
          (decide_approval auth callers header id body now s).1.approvals
  unfolding decide_approval
  decide_approval-Effect header id body now s =
      elim (Response-cases (require_roles auth ("manager" ∷ []) header)) [
        | inl (code, detail, e) ↦ same (rw (e, decide_approval) refl)
        | inr (who, e) ↦ settles header id body now who refl e (
            rw (e, decide_approval)
              (decided-approvals who (Store.decide id (verdict_of who body now) s.approvals) s))
      ]

  revoke_workload-approvals :
      (header : Option String) (id reason : String) (now : ℕ) (s : Platform V B)
      → (revoke_workload auth callers strip header id reason now s).1.approvals ≡ s.approvals
  unfolding revoke_workload
  revoke_workload-approvals header id reason now s =
      elim (Response-cases (may_revoke auth strip header id)) [
        | inl (code, detail, e) ↦ rw (e, revoke_workload) refl
        | inr (who, e) ↦ rw (e, revoke_workload) refl
      ]

  restore_workload-approvals :
      (header : Option String) (id : String) (s : Platform V B)
      → (restore_workload auth callers strip header id s).1.approvals ≡ s.approvals
  unfolding restore_workload
  restore_workload-approvals header id s = elim (Response-cases (may_revoke auth strip header id)) [
    | inl (code, detail, e) ↦ rw (e, restore_workload) refl
    | inr (who, e) ↦ rw (e, restore_workload) refl
  ]

  ingest_audit-approvals :
      (workload_header : Option String) (r : Audit.Record B) (s : Platform V B)
      → (ingest_audit auth callers workload_header r s).1.approvals ≡ s.approvals
  unfolding ingest_audit
  ingest_audit-approvals workload_header r s =
      elim (Response-cases (named auth (callers.agent ∷ callers.tools ∷ []) workload_header s)) [
        | inl (code, detail, e) ↦ rw (e, ingest_audit) refl
        | inr (who, e) ↦ rw (e, ingest_audit) refl
      ]

  pub serve-Effect :
      (c : Call V B) (s : Platform V B)
      → Effect auth c s.approvals (serve auth callers strip c s).approvals
  unfolding serve
  serve-Effect (creates header workload_header body id now) s =
      create_approval-Effect header workload_header body id now s
  serve-Effect (decides header id body now) s = decide_approval-Effect header id body now s
  serve-Effect (revokes header id reason now) s =
      same (revoke_workload-approvals header id reason now s)
  serve-Effect (restores header id) s = same (restore_workload-approvals header id s)
  serve-Effect (ingests workload_header r) s = same (ingest_audit-approvals workload_header r s)

-- A request that granted an approval, and what it was.
pub record Grant {V B : Type 0} (auth : Auth) (calls : List (Call V B)) (id : String)
    (a : Approval V) : Type 0 where
  pub header : Option String
  pub body : DecisionBody
  pub now : ℕ
  pub who : Delegation
  pub received : In (decides header id body now) calls
  pub granted : body.approved ≡ true
  pub token : current_delegation auth header ≡ answer who
  pub is_manager : contains "manager" who.roles ≡ true
  pub approver : a.approver ≡ some who.user
  pub other : who.user ≢ a.user
  pub tenant : a.tenant ≡ get_or who.tenant ""

abbrev IsGranted : {V B : Type 0} → Auth → List (Call V B) → Items V → Type 0
IsGranted {V} auth calls s =
    (id : String) (a : Approval V)
    → lookup id s ≡ some a
    → a.status ≡ approved
    → Grant auth calls id a

inserted :
    {V : Type 0} (id k : String) (b a : Approval V) (s : Items V)
    → lookup k (insert id b s) ≡ some a
    → ((k ≡ id) × (a ≡ b)) ⊎ (lookup k s ≡ some a)
inserted id k b a s e = ground (arith, lookup-insert id k b s, eq_iff id k)

module _ {V B : Type 0} (auth : Auth) where
  Grant-earlier :
      (c : Call V B) (calls : List (Call V B)) (id : String) (a : Approval V)
      → Grant auth calls id a
      → Grant auth (c ∷ calls) id a
  Grant-earlier c calls id a g = record {
    header = g.header;
    body = g.body;
    now = g.now;
    who = g.who;
    received = inr g.received;
    granted = g.granted;
    token = g.token;
    is_manager = g.is_manager;
    approver = g.approver;
    other = g.other;
    tenant = g.tenant;
  }

  settled-Grant :
      (calls : List (Call V B)) (header : Option String) (id : String) (body : DecisionBody)
      (now : ℕ) (who : Delegation) (b : Approval V)
      → require_roles auth ("manager" ∷ []) header ≡ answer who
      → b.tenant ≡ get_or who.tenant ""
      → who.user ≢ b.user
      → (settled (verdict_of who body now) b).status ≡ approved
      → Grant auth (decides header id body now ∷ calls) id (settled (verdict_of who body now) b)
  unfolding settled verdict_of
  settled-Grant calls header id body now who b gate t n st =
      let (token, is_manager) = require_one_role auth "manager" header who gate in
      record {
        header = header;
        body = body;
        now = now;
        who = who;
        received = inl refl;
        granted = ground arith;
        token = token;
        is_manager = is_manager;
        approver = refl;
        other = n;
        tenant = t;
      }

  adds-IsGranted :
      (c : Call V B) (calls : List (Call V B)) (id : String) (now : ℕ) (r : Request V) (s : Items V)
      → IsGranted auth calls s
      → IsGranted auth (c ∷ calls) (Store.create id now r s).1
  unfolding Store.create new_approval
  adds-IsGranted c calls id now r s h k a e st =
      Grant-earlier c calls k a
        (h k a (ground (arith, lookup-insert id k (new_approval id now r) s)) st)

  settles-IsGranted :
      (header : Option String) (id : String) (body : DecisionBody) (now : ℕ) (who : Delegation)
      (calls : List (Call V B)) (s : Items V)
      → require_roles auth ("manager" ∷ []) header ≡ answer who
      → IsGranted auth calls s
      → IsGranted auth
          (decides header id body now ∷ calls)
          (Store.decide id (verdict_of who body now) s).1
  unfolding verdict_of
  settles-IsGranted header id body now who calls s gate h k a e st =
      let v = verdict_of who body now in
      let earlier : lookup k s ≡ some a → Grant auth (decides header id body now ∷ calls) k a =
        λ x. Grant-earlier (decides header id body now) calls k a (h k a x st) in
      elim (decide_lem id v s) [
        | inr (_, r) ↦ earlier (subst (λ d. lookup k d.1 ≡ some a) r e)
        | inl (b, x, p, t, n, r) ↦
            elim (inserted id k (settled v b) a s (subst (λ d. lookup k d.1 ≡ some a) r e)) [
              | inr y ↦ earlier y
              | inl (i, f) ↦ rw i (
                  subst (λ z. Grant auth (decides header id body now ∷ calls) id z) (sym f)
                    (settled-Grant calls header id body now who b gate t n
                      (subst (λ z. z.status ≡ approved) f st)))
            ]
      ]

  Effect-IsGranted :
      (c : Call V B) (calls : List (Call V B)) (s t : Items V)
      → Effect auth c s t
      → IsGranted auth calls s
      → IsGranted auth (c ∷ calls) t
  Effect-IsGranted c calls s t (same e) h k a x st =
      Grant-earlier c calls k a (h k a (subst (λ z. lookup k z ≡ some a) e x) st)
  Effect-IsGranted c calls s t (adds id now r e) h k a x st =
      adds-IsGranted c calls id now r s h k a (subst (λ z. lookup k z ≡ some a) e x) st
  Effect-IsGranted c calls s t (settles header id body now who f gate e) h k a x st =
      subst (λ z. Grant auth (z ∷ calls) k a) (sym f)
        (settles-IsGranted header id body now who calls s gate h k a
          (subst (λ z. lookup k z ≡ some a) e x) st)

  -- Whatever requests the service has answered from its start, by whatever callers, each approved
  -- approval that its store finds was granted by one of the requests: it carried a token that verifies,
  -- of a holder of the role manager, in the tenant of the approval, who is its recorded approver and not
  -- the user that it is for.
  pub serve_all-IsGranted :
      (callers : Callers) (strip : String → String) (calls : List (Call V B)) (id : String)
      (a : Approval V)
      → lookup id (serve_all auth callers strip calls empty_platform).approvals ≡ some a
      → a.status ≡ approved
      → Grant auth calls id a
  unfolding serve_all
  serve_all-IsGranted callers strip [] id a e st = ground arith
  serve_all-IsGranted callers strip (c ∷ calls) id a e st =
      Effect-IsGranted c calls (serve_all auth callers strip calls empty_platform).approvals
        (serve auth callers strip c (serve_all auth callers strip calls empty_platform)).approvals
        (serve-Effect auth callers strip c (serve_all auth callers strip calls empty_platform))
        (serve_all-IsGranted callers strip calls) id a e st
