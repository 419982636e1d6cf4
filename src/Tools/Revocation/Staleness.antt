-- ===== src/Tools/Revocation/Staleness.antt =====
-- How long a revocation may go unseen, and what an outage leaves (app/common/revocation.py).
use agent_identity_platform.Common.{
  ℕ, ◌+◌, ◌≤◌, String, ◌≡◌, ◌⊎◌, true, false, Option, none, some, List, [], ◌∷◌, ◌==◌, arith,
  contains, All,
}
use agent_identity_platform.Tools.Revocation.{
  ttl, Setup, Cache, refreshed, revoked_ids, is_revoked, unavailable,
}

-- Queries, each with its time, what its fetch would give, and the identity it is about.
pub record Query : Type 0 where
  pub now : ℕ
  pub fetch : Option (List String)
  pub id : String

-- The cache after a series of queries.
unfoldable pub after : Setup → List Query → Cache → Cache
after setup [] c = c
after setup (q ∷ qs) c = after setup qs (is_revoked setup q.now q.fetch q.id c).1

-- A query from `t` on whose fetch, if it is made, succeeds and holds the identity.
abbrev pub IsTold : String → ℕ → Query → Type 0
IsTold id t q =
    (t ≤ q.now) × ((ids : List String) × (q.fetch ≡ some ids) × (contains id ids ≡ true))

-- The cache is from before the revocation, or holds it.
abbrev IsInformed : String → ℕ → Cache → Type 0
IsInformed id t c = (c.cached_at ≤ t) ⊎ (contains id c.ids ≡ true)

is_revoked-IsInformed :
    (setup : Setup) (id : String) (t : ℕ) (q : Query) (c : Cache)
    → IsTold id t q
    → IsInformed id t c
    → IsInformed id t (is_revoked setup q.now q.fetch q.id c).1
unfolding is_revoked revoked_ids refreshed unavailable
is_revoked-IsInformed setup id t q c (later, told) i = by_told told
  where
    by_told :
        ((ids : List String) × (q.fetch ≡ some ids) × (contains id ids ≡ true))
        → IsInformed id t (is_revoked setup q.now q.fetch q.id c).1
    by_told (ids, e, h) = rw (e, is_revoked) (ground (arith, h, i))

after-IsInformed :
    (setup : Setup) (id : String) (t : ℕ) (qs : List Query) (c : Cache)
    → All (IsTold id t) qs
    → IsInformed id t c
    → IsInformed id t (after setup qs c)
unfolding after
after-IsInformed setup id t [] c h i = i
after-IsInformed setup id t (q ∷ qs) c (h, hs) i =
    after-IsInformed setup id t qs (is_revoked setup q.now q.fetch q.id c).1 hs
      (is_revoked-IsInformed setup id t q c h i)

-- A service with REVOCATION_URL and no source of its own refuses a revoked identity within `ttl`
-- seconds: when the cache dates from `t` or before, and every fetch from `t` on succeeds and holds
-- the identity, a query at `t + ttl` or later refuses it, whatever queries came in between.
pub revoked_within_ttl :
    (setup : Setup) (id : String) (t : ℕ) (qs : List Query) (c : Cache) (now : ℕ)
    (ids : List String)
    → setup.source ≡ none
    → (setup.url == "") ≡ false
    → c.cached_at ≤ t
    → All (IsTold id t) qs
    → t + ttl ≤ now
    → contains id ids ≡ true
    → (is_revoked setup now (some ids) id (after setup qs c)).0 ≡ true
unfolding is_revoked revoked_ids refreshed unavailable
revoked_within_ttl setup id t qs c now ids local remote old told late h =
    ground (arith, after-IsInformed setup id t qs c)
