-- ===== src/Revocations/Tests.antt =====
-- The denylist at concrete inputs (app/api/revocations.py).
use agent_identity_platform.Common.{◌≡◌, refl, [], ◌∷◌, Dict, List}
use agent_identity_platform.Revocations.{
  Revocation, revoke, restore, ids, pg_revoke, pg_restore, pg_ids,
}
use agent_identity_platform.Revocations.Agreement.{Reflects, backends-Reflects}

abbrev agent : Revocation
agent = record { spiffe_id = "agent"; reason = "leak"; revoked_by = "mia"; revoked_at = 3 }

abbrev items : Dict Revocation
items = ("agent", agent) ∷ []

abbrev rows : List Revocation
rows = agent ∷ []

backends-Reflects_example :
    (ids items ≡ pg_ids rows)
    × ((revoke "api" "test" "mia" 4 items).0 ≡ (pg_revoke "api" "test" "mia" 4 rows).0)
    × Reflects (revoke "api" "test" "mia" 4 items).1 (pg_revoke "api" "test" "mia" 4 rows).1
    × ((restore "api" items).0 ≡ (pg_restore "api" rows).0)
    × Reflects (restore "api" items).1 (pg_restore "api" rows).1
backends-Reflects_example = backends-Reflects "api" "test" "mia" 4 items rows (refl, refl, tt)
