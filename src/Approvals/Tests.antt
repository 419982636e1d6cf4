-- ===== src/Approvals/Tests.antt =====
-- Tests of the approval store (app/approvals/store.py), and the theorems at concrete inputs.
use mathlib.Core.Option
use agent_identity_platform.Common.{
  ℕ, String, ◌≡◌, refl, ◌≢◌, ◌⊎◌, ◌↔◌, Bool, ◌==◌, not, true, false, none, some, [], ◌∷◌, eqb, Dict,
  lookup, insert,
}
use agent_identity_platform.Approvals.Args.{dict_eq, normalize, place, is_within}
use agent_identity_platform.Approvals.Store.{
  pending, approved, Approval, Request, Claim, Verdict, Items, new_approval, create, get, settled,
  decide, is_exact, verify,
}
use agent_identity_platform.Approvals.Binding.{Agrees, dict_eq-Agrees}
use agent_identity_platform.Approvals.Safety.{
  Reach, here, next, created, decided, IsSound, IsSound-empty, Reach-IsSound, decided_stays,
  IsVerdictOf, decide_writes, verify_sound,
}
use agent_identity_platform.Approvals.Postgres.{Rows, stored, pg_create, pg_decide, pg_verify}
use agent_identity_platform.Approvals.Postgres.Refines.{
  Reflects, pg_create-Reflects, pg_decide-Reflects, pg_verify-Reflects,
}

abbrev request : Request ℕ
request = record {
  tool = "refunds.issue";
  args = ("order_id", 1001) ∷ ("amount", 200) ∷ [];
  user = "alice";
  agent = "agent";
  reason = "above the limit";
  tenant = "acme";
}

abbrev yes_by_mia : Verdict
yes_by_mia = record { approver = "mia"; approved = true; note = none; tenant = "acme"; now = 7 }

abbrev claim : Claim ℕ
claim = record {
  tool = "refunds.issue";
  args = ("amount", 200) ∷ ("order_id", 1001) ∷ [];
  user = "alice";
  agent = "agent";
  tenant = "acme";
}

abbrev waiting : Items ℕ
waiting =
    (
      "ap-1",
      record {
        id = "ap-1";
        tool = "refunds.issue";
        args = ("amount", 200) ∷ ("order_id", 1001) ∷ [];
        user = "alice";
        agent = "agent";
        reason = "above the limit";
        tenant = "acme";
        status = pending;
        approver = none;
        note = none;
        created_at = 5;
        decided_at = none;
      },
    )
    ∷ []

abbrev done : Approval ℕ
done = record {
  id = "ap-1";
  tool = "refunds.issue";
  args = ("amount", 200) ∷ ("order_id", 1001) ∷ [];
  user = "alice";
  agent = "agent";
  reason = "above the limit";
  tenant = "acme";
  status = approved;
  approver = some "mia";
  note = none;
  created_at = 5;
  decided_at = some 7;
}

create-waiting : (create "ap-1" 5 request []).1 ≡ waiting
unfolding create new_approval normalize place
create-waiting = refl

decide-done : (decide "ap-1" yes_by_mia waiting).1 ≡ ("ap-1", done) ∷ []
unfolding decide settled
decide-done = refl

-- The requester may not decide, and another tenant sees nothing.
self_approval : (decide "ap-1" (record yes_by_mia { approver = "alice" }) waiting).0 ≡ none
unfolding decide
self_approval = refl

verify-done : verify eqb "ap-1" claim (("ap-1", done) ∷ []) ≡ true
unfolding verify is_exact dict_eq is_within normalize place
verify-done = refl

history : Reach {V = ℕ} [] (("ap-1", done) ∷ [])
unfolding create new_approval normalize place decide settled
history = next (next here (created "ap-1" 5 request [] refl)) (decided "ap-1" yes_by_mia waiting)

Reach-IsSound_example : IsSound (("ap-1", done) ∷ [])
Reach-IsSound_example = Reach-IsSound IsSound-empty history

-- A second verdict on the same approval.
later : Reach {V = ℕ} (("ap-1", done) ∷ []) (decide "ap-1" yes_by_mia (("ap-1", done) ∷ [])).1
later = next here (decided "ap-1" yes_by_mia (("ap-1", done) ∷ []))

decided_stays_example : lookup "ap-1" (decide "ap-1" yes_by_mia (("ap-1", done) ∷ [])).1 ≡ some done
decided_stays_example = decided_stays "ap-1" done later refl (λ e. cc)

decide_writes_example :
    ((a : Approval ℕ) × (b : Approval ℕ) × (lookup "ap-1" waiting ≡ some a)
      × (a.status ≡ pending)
      × (a.tenant ≡ "acme")
      × ("mia" ≢ a.user)
      × IsVerdictOf yes_by_mia a b
      × (decide "ap-1" yes_by_mia waiting ≡ (some b, insert "ap-1" b waiting))
      × (get "ap-1" "acme" (decide "ap-1" yes_by_mia waiting).1 ≡ some b))
    ⊎ (((a : Approval ℕ)
          → lookup "ap-1" waiting ≡ some a
          → a.status ≡ pending
          → a.tenant ≡ "acme"
          → "mia" ≡ a.user)
        × (decide "ap-1" yes_by_mia waiting ≡ (none, waiting)))
decide_writes_example = decide_writes "ap-1" yes_by_mia waiting

verify_sound_example :
    (a : Approval ℕ) × (p : String) × (lookup "ap-1" (("ap-1", done) ∷ []) ≡ some a)
    × (a.status ≡ approved)
    × (a.approver ≡ some p)
    × (p ≢ "alice")
    × (a.tenant ≡ "acme")
    × (a.tool ≡ "refunds.issue")
    × (a.user ≡ "alice")
    × (a.agent ≡ "agent")
    × (dict_eq eqb a.args (normalize claim.args) ≡ true)
verify_sound_example = verify_sound eqb "ap-1" claim history verify-done

abbrev args : Dict ℕ
args = ("a", 1) ∷ ("b", 2) ∷ []

dict_eq-Agrees_example :
    (dict_eq eqb args (normalize args) ≡ true)
    ↔ ((k : String) → Agrees eqb (lookup k args) (lookup k args))
dict_eq-Agrees_example = dict_eq-Agrees eqb args args (refl, (refl, tt)) (refl, (refl, tt))

-- A codec that changes nothing.
abbrev plain : Dict ℕ → Dict ℕ
plain d = d

abbrev table : Rows ℕ
table = (record done { status = pending; approver = none; decided_at = none }) ∷ []

waiting-Reflects : Reflects plain waiting table
unfolding stored
waiting-Reflects = (refl, refl, refl, tt)

pg_decide-Reflects_example :
    ((pg_decide "ap-1" yes_by_mia table).0
      ≡ Option.map (stored plain) (decide "ap-1" yes_by_mia waiting).0)
    × Reflects plain (decide "ap-1" yes_by_mia waiting).1 (pg_decide "ap-1" yes_by_mia table).1
pg_decide-Reflects_example =
    pg_decide-Reflects plain "ap-1" yes_by_mia waiting table waiting-Reflects

-- A database that refuses an empty reason.
abbrev takes : Approval ℕ → Bool
takes a = not (a.reason == "")

pg_create-Reflects_example :
    ((rows' : Rows ℕ) × (takes (create "ap-2" 6 request waiting).0 ≡ true)
      × (pg_create plain takes "ap-2" 6 request table
          ≡ some ((create "ap-2" 6 request waiting).0, rows'))
      × Reflects plain (create "ap-2" 6 request waiting).1 rows')
    ⊎ ((takes (create "ap-2" 6 request waiting).0 ≡ false)
        × (pg_create plain takes "ap-2" 6 request table ≡ none)
        × (lookup "ap-2" (create "ap-2" 6 request waiting).1
            ≡ some (create "ap-2" 6 request waiting).0))
pg_create-Reflects_example =
    pg_create-Reflects plain takes "ap-2" 6 request waiting table waiting-Reflects refl

pg_verify-Reflects_example : pg_verify eqb "ap-1" claim table ≡ verify eqb "ap-1" claim waiting
pg_verify-Reflects_example =
    pg_verify-Reflects plain eqb (λ a b. refl) "ap-1" claim waiting table waiting-Reflects
