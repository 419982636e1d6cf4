-- ===== src/Approvals/Postgres.antt =====
-- `PostgresApprovalStore` of app/approvals/store.py: its SQL statements over the rows of the table
-- `approvals`. A row is the `Approval` that `_row_to_approval` builds from it. What PostgreSQL does
-- with a `jsonb` column and with ORDER BY are parameters.
pub mod Refines
use agent_identity_platform.Common.{
  ℕ, String, Bool, true, false, ◌&&◌, ◌||◌, not, Option, none, some, List, [], ◌∷◌, ◌++◌, ◌==◌,
  Dict, select, first, length, if◌then◌else◌,
}
use agent_identity_platform.Approvals.Store.{
  Approval, Request, Claim, Verdict, is_pending, is_approved, new_approval, settled, is_exact,
}

abbrev pub Rows : Type 0 → Type 0
Rows V = List (Approval V)

-- UPDATE ... SET ... WHERE ... RETURNING: the rows returned, and the table afterwards.
unfoldable pub update_where {ℓ} : {A : Type ℓ} → (A → Bool) → (A → A) → List A → List A × List A
update_where p f [] = ([], [])
update_where p f (r ∷ rs) =
    let (got, rest) = update_where p f rs in
    if p r then (f r ∷ got, f r ∷ rest) else (got, r ∷ rest)

-- What PostgreSQL does with the values of a row. It may refuse them, such as a text or a `jsonb` with
-- the character NUL, or the NaN that `json.dumps` writes; the arguments that it takes are read back as
-- `jsonb` keeps them.
module _ {V : Type 0} (jsonb : Dict V → Dict V) where
  -- A row as it is read back: the arguments have been through `json.dumps` and `jsonb`.
  unfoldable pub stored : Approval V → Approval V
  stored a = record a { args = jsonb a.args }

  -- INSERT, none for the exception: a value that PostgreSQL refuses, or a second row with the same
  -- primary key.
  unfoldable pub pg_create :
      (Approval V → Bool) → String → ℕ → Request V → Rows V → Option (Approval V × Rows V)
  unfolding new_approval stored
  pg_create takes id now r rows =
      if takes (new_approval id now r)
      then elim (first (select (λ (x : Approval V). x.id == id) rows)) [
        | some _ ↦ none
        | none ↦ some (new_approval id now r, rows ++ stored (new_approval id now r) ∷ [])
      ]
      else none

module _ {V : Type 0} where
  unfoldable pub pg_get : String → String → Rows V → Option (Approval V)
  pg_get id tenant rows = first (select (λ r. r.id == id && r.tenant == tenant) rows)

  unfoldable pub pg_pending : (Rows V → Rows V) → String → Rows V → List (Approval V)
  pg_pending by_created_at tenant rows =
      by_created_at (select (λ r. is_pending r.status && r.tenant == tenant) rows)

  unfoldable pub pg_all : (Rows V → Rows V) → String → Rows V → List (Approval V)
  pg_all by_created_at_desc tenant rows = by_created_at_desc (select (λ r. r.tenant == tenant) rows)

  unfoldable pub pg_pending_count : Rows V → ℕ
  pg_pending_count rows = length (select (λ r. is_pending r.status) rows)

  -- The WHERE clause of the UPDATE, for texts that PostgreSQL takes.
  unfoldable pub undecided : String → Verdict → Approval V → Bool
  undecided id v r =
      r.id == id && is_pending r.status && r.tenant == v.tenant && not (r.user == v.approver)

  unfoldable pub pg_decide : String → Verdict → Rows V → Option (Approval V) × Rows V
  unfolding undecided settled update_where
  pg_decide id v rows =
      let (got, rest) = update_where (undecided id v) (settled v) rows in (first got, rest)

  unfoldable pub pg_verify : (V → V → Bool) → String → Claim V → Rows V → Bool
  pg_verify eqv id c rows = elim (pg_get id c.tenant rows) [
    | none ↦ false
    | some a ↦ if not (is_approved a.status) then false else is_exact eqv c a
  ]
