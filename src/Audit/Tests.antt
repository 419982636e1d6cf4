-- ===== src/Audit/Tests.antt =====
-- Queries of the trail at concrete inputs (app/audit/store.py).
use agent_identity_platform.Common.{
  ℕ, Bool, not, eqb, map, select, ◌≡◌, refl, ◌==◌, inr, Bool-cases, if◌then◌else◌, none, some, [],
  ◌∷◌, arith, In, inl,
}
use agent_identity_platform.Audit.Redaction.{
  Patterns, Fields, str, dict, items, other, end, field, nil, cons, redacted, redacted_pii,
  redact_string, is_pii_key, under_key, redact_fields, update, set_field, audit,
}
use agent_identity_platform.Audit.Redaction.Clean.{IsMasking, IsCleanFields, audit-IsClean}
use agent_identity_platform.Audit.{
  Record, Filter, query, pg_query, max_in_memory, append, pg_append,
}
use agent_identity_platform.Audit.Trail.{trail, rows, query-pg_query}

abbrev acme : Record ℕ
acme = record {
  event = some "tool.allowed";
  tool = some "refunds.issue";
  sub = some "alice";
  tenant = some "acme";
  body = 1;
}

abbrev globex : Record ℕ
globex = record {
  event = some "tool.denied";
  tool = none;
  sub = none;
  tenant = some "globex";
  body = 2;
}

-- A record with a body that the table does not take.
abbrev bad : Record ℕ
bad = record acme { body = 0 }

abbrev takes : Record ℕ → Bool
takes r = not (eqb r.body 0)

abbrev jsonb : Record ℕ → Record ℕ
jsonb r = r

abbrev of_acme : Filter
of_acme = record { event = none; tool = none; sub = none; tenant = some "acme" }

-- The filter "" is no filter in memory, and the column's value in Postgres.
abbrev empty_event : Filter
empty_event = record { event = some ""; tool = none; sub = none; tenant = none }

shown : query 10 empty_event (trail 500 (acme ∷ [])) ≡ acme ∷ []
unfolding query trail append
shown = refl

pg_shown : pg_query 10 empty_event (rows takes jsonb (acme ∷ [])) ≡ []
unfolding pg_query rows pg_append
pg_shown = refl

query-pg_query_example :
    pg_query 10 of_acme (rows takes jsonb (bad ∷ globex ∷ acme ∷ []))
    ≡ map jsonb (query 10 of_acme (trail max_in_memory (select takes (bad ∷ globex ∷ acme ∷ []))))
query-pg_query_example =
    query-pg_query max_in_memory 10 of_acme takes jsonb (bad ∷ globex ∷ acme ∷ []) (omega arith) tt
      tt tt

found : In acme (query 10 of_acme (trail max_in_memory (globex ∷ acme ∷ [])))
unfolding query trail append
found = inl refl

-- Patterns that know one name and one text.
abbrev patterns : Patterns
patterns = record {
  secret = λ k. k == "token";
  folded = λ k. k;
  mask_jwt = λ s. if s == "eyJ" then "[REDACTED:jwt]" else s;
  mask_bearer = λ s. s;
  extra_keys = [];
}

masking : IsMasking patterns
masking = record {
  jwt = λ s. elim (Bool-cases (s == "eyJ")) [ inl e ↦ rw e refl | inr e ↦ rw (e, e) refl ];
  bearer = λ s. refl;
  marker = (refl, refl);
  pii_marker = (refl, refl);
}

abbrev fields : Fields ℕ
fields =
    field "args" (dict (field "email" (str "ada@example.com") (field "token" (other 7) end)))
      (field "note" (items (cons (str "eyJ") nil)) end)

emitted :
    audit patterns 5 "tool.allowed" fields
    ≡ field "ts" (other 5) (
        field "event" (str "tool.allowed") (
          field "args"
            (dict (field "email" (str redacted_pii) (field "token" (str redacted) end)))
            (field "note" (items (cons (str "[REDACTED:jwt]") nil)) end)))
unfolding audit redact_fields update set_field is_pii_key under_key redact_string
emitted = refl

audit-IsClean_example :
    IsCleanFields patterns (audit patterns 5 "tool.allowed" fields)
    × (redact_fields patterns (audit patterns 5 "tool.allowed" fields)
        ≡ audit patterns 5 "tool.allowed" fields)
unfolding is_pii_key
audit-IsClean_example =
    audit-IsClean patterns 5 "tool.allowed" fields masking (refl, refl) refl refl refl refl
