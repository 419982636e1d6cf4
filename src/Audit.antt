-- ===== src/Audit.antt =====
-- app/audit/store.py: the audit trail, in memory and in Postgres. A record is the fields that queries
-- read, each a text or absent, and the whole record as it was written. (The services write texts or
-- None there; a JSON value of another type is not modelled.) The rows of the table are newest first,
-- the order in which queries read them.
pub mod Trail
pub mod Redaction
mod Tests
use agent_identity_platform.Common.{
  ℕ, String, Bool, true, false, ◌&&◌, Option, none, some, List, [], ◌∷◌, ◌==◌, take, select, get_or,
  map, if◌then◌else◌,
}

abbrev pub max_in_memory : ℕ
max_in_memory = 500

pub record Record (B : Type 0) : Type 0 where
  pub event : Option String
  pub tool : Option String
  pub sub : Option String
  pub tenant : Option String
  pub body : B

-- The filters of a query.
pub record Filter : Type 0 where
  pub event : Option String
  pub tool : Option String
  pub sub : Option String
  pub tenant : Option String

-- `record.get(key) != value` for a value that is given and not empty.
unfoldable pub passes : Option String → Option String → Bool
passes none field = true
passes (some v) none = v == ""
passes (some v) (some s) = if v == "" then true else s == v

-- `(record.get("tenant") or "") != tenant` for a tenant that is not None.
unfoldable pub is_of_tenant : Option String → Option String → Bool
is_of_tenant none field = true
is_of_tenant (some t) field = get_or field "" == t

-- A row's columns, and the record itself.
pub record Row (B : Type 0) : Type 0 where
  pub event : String
  pub tool : Option String
  pub sub : String
  pub tenant : String
  pub record' : Record B

-- `%s IS NULL OR column = %s`, where the column may be NULL.
unfoldable pub is_null_or : Option String → Option String → Bool
is_null_or none column = true
is_null_or (some v) none = false
is_null_or (some v) (some s) = s == v

module _ {B : Type 0} where
  unfoldable pub matches : Filter → Record B → Bool
  unfolding passes is_of_tenant
  matches f r =
      passes f.event r.event
      && (passes f.tool r.tool && (passes f.sub r.sub && is_of_tenant f.tenant r.tenant))

  -- `appendleft` on a deque of that length.
  unfoldable pub append : ℕ → Record B → List (Record B) → List (Record B)
  append maxlen r records = take maxlen (r ∷ records)

  unfoldable pub query : ℕ → Filter → List (Record B) → List (Record B)
  unfolding matches
  query limit f records = take limit (select (matches f) records)

  unfoldable pub columns : Record B → Row B
  columns r = record {
    event = get_or r.event "";
    tool = r.tool;
    sub = get_or r.sub "";
    tenant = get_or r.tenant "";
    record' = r;
  }

  -- INSERT, none for the exception: `float` of a "ts" that is no number, or a value that PostgreSQL
  -- refuses, such as a text or a `jsonb` with the character NUL. What is read back is the record as
  -- `jsonb` keeps it.
  unfoldable pub pg_append :
      (Record B → Bool) → (Record B → Record B) → Record B → List (Row B) → Option (List (Row B))
  unfolding columns
  pg_append takes jsonb r rows =
      if takes r then some (record (columns r) { record' = jsonb r } ∷ rows) else none

  unfoldable pub selects : Filter → Row B → Bool
  unfolding is_null_or
  selects f row =
      is_null_or f.event (some row.event)
      && (is_null_or f.tool row.tool
          && (is_null_or f.sub (some row.sub) && is_null_or f.tenant (some row.tenant)))

  unfoldable pub pg_query : ℕ → Filter → List (Row B) → List (Record B)
  unfolding selects
  pg_query limit f rows = map (λ row. row.record') (take limit (select (selects f) rows))
