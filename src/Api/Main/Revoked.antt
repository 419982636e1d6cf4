-- ===== src/Api/Main/Revoked.antt =====
-- What a revocation through the API takes effect on (app/api/main.py, app/common/workload.py).
use mathlib.Core.Path.{subst}
use Prim.Native.String.{◌++◌ as ◌⧺◌}
use agent_identity_platform.Common.{
  ℕ, ◌+◌, ◌≤◌, String, ◌≡◌, ◌≢◌, refl, sym, ◌∙◌, inl, inr, true, false, Option, none, some, List,
  [], ◌∷◌, ◌==◌, arith, eq_iff, Dict, lookup, keys, lookup-insert, lookup-erase, contains, is_some,
  All,
}
use agent_identity_platform.Common.Http.{fail, answer, Response-cases}
use agent_identity_platform.Approvals.Store
use agent_identity_platform.Approvals.Store.{Approval, Items}
use agent_identity_platform.Audit
use agent_identity_platform.Revocations
use agent_identity_platform.Revocations.{Revocation}
use agent_identity_platform.Tools.Tokens.{Delegation}
use agent_identity_platform.Tools.Workload
use agent_identity_platform.Tools.Revocation.{ttl, Cache, is_revoked}
use agent_identity_platform.Tools.Revocation.Staleness.{Query, after, IsTold, revoked_within_ttl}
use agent_identity_platform.Api.Authz.{
  Auth, require_roles, require_workload, own_identity, route_allows,
}
use agent_identity_platform.Api.State.{Platform, Callers, named}
use agent_identity_platform.Api.Approvals.{
  DecisionBody, NewApproval, verdict_of, decided, decide_approval, create_approval, may_create,
}
use agent_identity_platform.Api.Workloads.{
  list_revoked, may_revoke, revoke_workload, restore_workload,
}
use agent_identity_platform.Api.Oversight.{ingest_audit}
use agent_identity_platform.Api.Main.{
  Call, creates, decides, revokes, restores, ingests, serve, serve_all,
}

contains-keys : {V : Type 0} (k : String) (d : Dict V) → contains k (keys d) ≡ is_some (lookup k d)
contains-keys k [] = refl
contains-keys k ((j, v) ∷ d) = ground (arith, eq_iff k j, eq_iff j k, contains-keys k d)

contains-ids :
    (k : String) (d : Dict Revocation) → contains k (Revocations.ids d) ≡ is_some (lookup k d)
unfolding Revocations.ids
contains-ids k d = contains-keys k d

-- The denylist holds the identity.
abbrev pub IsRevoked : {V B : Type 0} → String → Platform V B → Type 0
IsRevoked id s = is_some (lookup id s.revocations) ≡ true

-- No request lifts the revocation of the identity.
abbrev pub IsNoRestore : {V B : Type 0} → (String → String) → String → Call V B → Type 0
IsNoRestore strip id (restores header k) = strip k ≢ id
IsNoRestore strip id _ = Unit

decided-revocations :
    {V B : Type 0} (who : Delegation) (r : Option (Approval V) × Items V) (s : Platform V B)
    → (decided who r s).1.revocations ≡ s.revocations
unfolding decided
decided-revocations who (none, items) s = refl
decided-revocations who (some a, items) s = refl

admit_revoked :
    (identity : Workload.Identity) (now : ℕ) (fetch : Option (List String)) (token id : String)
    (c : Cache)
    → (identity.audience == "") ≡ false
    → (token == "") ≡ false
    → identity.decode (identity.bare token) identity.audience ≡ Workload.subject (some id)
    → (is_revoked identity.denylist now fetch id c).0 ≡ true
    → (Workload.verify identity now fetch (some token) c).0 ≡ Workload.refused (Workload.revoked id)
unfolding Workload.verify Workload.admit
admit_revoked identity now fetch token id c a t d h = rw (a, t, d, Workload.verify) (rw h refl)

module _ {V B : Type 0} (auth : Auth) (callers : Callers) (strip : String → String) where
  create_approval-revocations :
      (header workload_header : Option String) (body : NewApproval V) (id : String) (now : ℕ)
      (s : Platform V B)
      → (create_approval auth callers header workload_header body id now s).1.revocations
        ≡ s.revocations
  unfolding create_approval
  create_approval-revocations header workload_header body id now s =
      elim (Response-cases (may_create auth callers header workload_header body s)) [
        | inl (code, detail, e) ↦ rw (e, create_approval) refl
        | inr (who, e) ↦ rw (e, create_approval) refl
      ]

  decide_approval-revocations :
      (header : Option String) (id : String) (body : DecisionBody) (now : ℕ) (s : Platform V B)
      → (decide_approval auth callers header id body now s).1.revocations ≡ s.revocations
  unfolding decide_approval
  decide_approval-revocations header id body now s =
      elim (Response-cases (require_roles auth ("manager" ∷ []) header)) [
        | inl (code, detail, e) ↦ rw (e, decide_approval) refl
        | inr (who, e) ↦
            rw (e, decide_approval)
              (decided-revocations who (Store.decide id (verdict_of who body now) s.approvals) s)
      ]

  ingest_audit-revocations :
      (workload_header : Option String) (r : Audit.Record B) (s : Platform V B)
      → (ingest_audit auth callers workload_header r s).1.revocations ≡ s.revocations
  unfolding ingest_audit
  ingest_audit-revocations workload_header r s =
      elim (Response-cases (named auth (callers.agent ∷ callers.tools ∷ []) workload_header s)) [
        | inl (code, detail, e) ↦ rw (e, ingest_audit) refl
        | inr (who, e) ↦ rw (e, ingest_audit) refl
      ]

  revoke_workload-IsRevoked :
      (header : Option String) (k reason id : String) (now : ℕ) (s : Platform V B)
      → IsRevoked id s
      → IsRevoked id (revoke_workload auth callers strip header k reason now s).1
  unfolding revoke_workload Revocations.revoke
  revoke_workload-IsRevoked header k reason id now s h =
      elim (Response-cases (may_revoke auth strip header k)) [
        | inl (code, detail, e) ↦ rw (e, revoke_workload) h
        | inr (who, e) ↦
            let r : Revocation = record {
              spiffe_id = strip k;
              reason = reason;
              revoked_by = who.user;
              revoked_at = now;
            } in
            rw (e, revoke_workload)
              (rw (lookup-insert (strip k) id r s.revocations) (ground (arith, h)))
      ]

  restore_workload-IsRevoked :
      (header : Option String) (k id : String) (s : Platform V B)
      → strip k ≢ id
      → IsRevoked id s
      → IsRevoked id (restore_workload auth callers strip header k s).1
  unfolding restore_workload Revocations.restore
  restore_workload-IsRevoked header k id s n h =
      elim (Response-cases (may_revoke auth strip header k)) [
        | inl (code, detail, e) ↦ rw (e, restore_workload) h
        | inr (who, e) ↦
            rw (e, restore_workload)
              (rw (lookup-erase (strip k) id s.revocations)
                (ground (arith, h, n, eq_iff (strip k) id)))
      ]

  serve-IsRevoked :
      (id : String) (c : Call V B) (s : Platform V B)
      → IsNoRestore strip id c
      → IsRevoked id s
      → IsRevoked id (serve auth callers strip c s)
  unfolding serve
  serve-IsRevoked id (creates header workload_header body k now) s n h =
      subst (λ d. is_some (lookup id d) ≡ true)
        (sym (create_approval-revocations header workload_header body k now s)) h
  serve-IsRevoked id (decides header k body now) s n h =
      subst (λ d. is_some (lookup id d) ≡ true)
        (sym (decide_approval-revocations header k body now s)) h
  serve-IsRevoked id (revokes header k reason now) s n h =
      revoke_workload-IsRevoked header k reason id now s h
  serve-IsRevoked id (restores header k) s n h = restore_workload-IsRevoked header k id s n h
  serve-IsRevoked id (ingests workload_header r) s n h =
      subst (λ d. is_some (lookup id d) ≡ true) (sym (ingest_audit-revocations workload_header r s))
        h

  pub revoke_workload-IsRevoked_self :
      (header : Option String) (k reason : String) (now : ℕ) (who : Delegation) (s : Platform V B)
      → may_revoke auth strip header k ≡ answer who
      → IsRevoked (strip k) (revoke_workload auth callers strip header k reason now s).1
  unfolding revoke_workload Revocations.revoke
  revoke_workload-IsRevoked_self header k reason now who s e =
      let r : Revocation = record {
        spiffe_id = strip k;
        reason = reason;
        revoked_by = who.user;
        revoked_at = now;
      } in
      rw (e, revoke_workload)
        (rw (lookup-insert (strip k) (strip k) r s.revocations)
          (ground (arith, eq_iff (strip k) (strip k))))

  -- After an administrator's revocation and any later requests that do not restore that identity, it is
  -- on the denylist.
  pub serve_all-IsRevoked :
      (id : String) (calls : List (Call V B)) (s : Platform V B)
      → All (IsNoRestore strip id) calls
      → IsRevoked id s
      → IsRevoked id (serve_all auth callers strip calls s)
  unfolding serve_all
  serve_all-IsRevoked id [] s n h = h
  serve_all-IsRevoked id (c ∷ calls) s (n, ns) h =
      serve-IsRevoked id c (serve_all auth callers strip calls s) n
        (serve_all-IsRevoked id calls s ns h)

  pub named-revoked :
      (allowed : List String) (token id : String) (s : Platform V B)
      → (auth.identity.audience == "") ≡ false
      → (token == "") ≡ false
      → auth.identity.decode (auth.identity.bare token) auth.identity.audience
        ≡ Workload.subject (some id)
      → IsRevoked id s
      → named auth allowed (some token) s
        ≡ fail 403 ("workload identity rejected: " ⧺ auth.workload_text (Workload.revoked id))
  unfolding named require_workload own_identity Workload.enabled Workload.verify Workload.admit
      is_revoked route_allows
  named-revoked allowed token id s a t d h =
      let r = contains-ids id s.revocations ∙ h in
      rw (a, t, d, named, require_workload, Workload.verify) (ground (arith, r))

  listed_revoked :
      (sorted : List String → List String) (workload_header : Option String) (id : String)
      (s : Platform V B) (shown : List String)
      → ((x : String) (xs : List String) → contains x (sorted xs) ≡ contains x xs)
      → list_revoked auth callers sorted workload_header s ≡ answer shown
      → IsRevoked id s
      → contains id shown ≡ true
  unfolding list_revoked
  listed_revoked sorted workload_header id s shown same e h =
      elim (Response-cases
        (named auth (callers.agent ∷ callers.tools ∷ callers.gateway ∷ []) workload_header s)) [
          | inl (code, detail, f) ↦ ground arith
          | inr (who, f) ↦
              ground (arith, same id (Revocations.ids s.revocations), contains-ids id s.revocations)
        ]

  -- A service that reads the denylist from the API refuses a revoked workload within `ttl` seconds:
  -- after an administrator's revocation and any later requests that do not restore the workload, when
  -- the service's cache dates from `t` or before and every fetch since then succeeds with a list that
  -- holds the workload, as every list that the API shows does, then a token of that workload checked at
  -- `t + ttl` or later is refused as revoked.
  pub revoked_elsewhere :
      (header : Option String) (k reason : String) (now : ℕ) (who : Delegation) (s : Platform V B)
      (calls : List (Call V B)) (sorted : List String → List String)
      (workload_header : Option String) (shown : List String) (identity : Workload.Identity)
      (token : String) (t : ℕ) (queries : List Query) (c : Cache) (time : ℕ)
      → may_revoke auth strip header k ≡ answer who
      → All (IsNoRestore strip (strip k)) calls
      → ((x : String) (xs : List String) → contains x (sorted xs) ≡ contains x xs)
      → list_revoked auth callers sorted workload_header (
          serve_all auth callers strip calls
            (revoke_workload auth callers strip header k reason now s).1)
        ≡ answer shown
      → identity.denylist.source ≡ none
      → (identity.denylist.url == "") ≡ false
      → c.cached_at ≤ t
      → All (IsTold (strip k) t) queries
      → t + ttl ≤ time
      → (identity.audience == "") ≡ false
      → (token == "") ≡ false
      → identity.decode (identity.bare token) identity.audience ≡ Workload.subject (some (strip k))
      → (Workload.verify identity time
          (some shown)
          (some token)
          (after identity.denylist queries c)).0
        ≡ Workload.refused (Workload.revoked (strip k))
  revoked_elsewhere header k reason now who s calls sorted workload_header shown identity token t
        queries c time e n same l local remote old told late a ne d =
      let s' = (revoke_workload auth callers strip header k reason now s).1 in
      let held =
        serve_all-IsRevoked (strip k) calls s' n
          (revoke_workload-IsRevoked_self header k reason now who s e) in
      let told_now =
        listed_revoked sorted workload_header (strip k) (serve_all auth callers strip calls s')
          shown same l held in
      admit_revoked identity time (some shown) token (strip k) (after identity.denylist queries c) a
        ne d
        (revoked_within_ttl identity.denylist (strip k) t queries c time shown local remote old told
          late told_now)
