-- ===== src/Tools/Revocation.antt =====
-- app/common/revocation.py: the denylist of revoked workloads, read from a source in the process or
-- fetched and cached. A query takes the time in seconds and what a fetch at that time would give: none
-- when it raises.
pub mod Staleness
use agent_identity_platform.Common.{
  ℕ, ◌-◌, String, Bool, true, false, ◌&&◌, not, Option, none, some, List, [], ◌∷◌, ◌==◌, contains,
  ltb, is_some, if◌then◌else◌,
}

abbrev pub ttl : ℕ
ttl = 5

-- The registered source's set, REVOCATION_URL, and REVOCATION_FAIL_CLOSED.
pub record Setup : Type 0 where
  pub source : Option (List String)
  pub url : String
  pub fail_closed : Bool

-- `_cache`, `_cached_at` and `_available`.
pub record Cache : Type 0 where
  pub ids : List String
  pub cached_at : ℕ
  pub available : Bool

abbrev pub empty_cache : Cache
empty_cache = record { ids = []; cached_at = 0; available = false }

unfoldable pub unavailable : Setup → Cache → Bool
unavailable setup c = not (is_some setup.source) && not (setup.url == "") && not c.available

-- The cache after a fetch was tried: what was fetched, or the last known set.
unfoldable pub refreshed : ℕ → Option (List String) → Cache → Cache
refreshed now none c = record c { cached_at = now }
refreshed now (some ids) c = record { ids = ids; cached_at = now; available = true }

unfoldable pub revoked_ids : Setup → ℕ → Option (List String) → Cache → List String × Cache
unfolding refreshed
revoked_ids setup now fetch c = elim setup.source [
  | some ids ↦ (ids, c)
  | none ↦
      if setup.url == ""
      then ([], c)
      else if ltb (now - c.cached_at) ttl
      then (c.ids, c)
      else ((refreshed now fetch c).ids, refreshed now fetch c)
]

unfoldable pub is_revoked : Setup → ℕ → Option (List String) → String → Cache → Bool × Cache
unfolding unavailable revoked_ids
is_revoked setup now fetch id c =
    if setup.fail_closed && unavailable setup c
    then (true, c)
    else let (ids, next) = revoked_ids setup now fetch c in (contains id ids, next)
