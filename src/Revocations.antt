-- ===== src/Revocations.antt =====
-- app/api/revocations.py: the denylist, in memory and in Postgres. The time is an argument of `revoke`.
pub mod Agreement
mod Tests
use agent_identity_platform.Common.{
  ℕ, String, Bool, true, false, Option, none, some, List, [], ◌∷◌, ◌==◌, Dict, lookup, insert,
  erase, keys, is_some, if◌then◌else◌,
}

pub record Revocation : Type 0 where
  pub spiffe_id : String
  pub reason : String
  pub revoked_by : String
  pub revoked_at : ℕ

unfoldable pub revoke :
    String → String → String → ℕ → Dict Revocation → Revocation × Dict Revocation
revoke id reason by now items =
    let r : Revocation = record {
      spiffe_id = id;
      reason = reason;
      revoked_by = by;
      revoked_at = now;
    } in
    (r, insert id r items)

-- `pop(spiffe_id, None) is not None`
unfoldable pub restore : String → Dict Revocation → Bool × Dict Revocation
restore id items = (is_some (lookup id items), erase id items)

unfoldable pub ids : Dict Revocation → List String
ids items = keys items

-- INSERT ... ON CONFLICT DO UPDATE: the row is overwritten, or added.
unfoldable pub upsert_row : Revocation → List Revocation → List Revocation
upsert_row r [] = r ∷ []
upsert_row r (x ∷ rows) =
    let rest = upsert_row r rows in if x.spiffe_id == r.spiffe_id then r ∷ rows else x ∷ rest

unfoldable pub pg_revoke :
    String → String → String → ℕ → List Revocation → Revocation × List Revocation
unfolding upsert_row
pg_revoke id reason by now rows =
    let r : Revocation = record {
      spiffe_id = id;
      reason = reason;
      revoked_by = by;
      revoked_at = now;
    } in
    (r, upsert_row r rows)

-- DELETE ... RETURNING: whether a row was deleted, and the rows that are left.
unfoldable pub pg_restore : String → List Revocation → Bool × List Revocation
pg_restore id [] = (false, [])
pg_restore id (x ∷ rows) =
    let (hit, rest) = pg_restore id rows in
    if x.spiffe_id == id then (true, rest) else (hit, x ∷ rest)

unfoldable pub pg_ids : List Revocation → List String
pg_ids [] = []
pg_ids (x ∷ rows) = x.spiffe_id ∷ pg_ids rows
