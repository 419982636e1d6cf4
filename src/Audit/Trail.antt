-- ===== src/Audit/Trail.antt =====
-- What a query of the trail shows (app/audit/store.py).
use mathlib.Core.Path.{subst}
use agent_identity_platform.Common.{
  ℕ, zero, suc, ◌≤◌, String, Bool, ◌≡◌, refl, ◌∙◌, inl, inr, ap, sym, true, false, Option, none,
  some, List, [], ◌∷◌, ◌==◌, arith, eq_iff, take, select, length, map, In, In-take, select→In,
  get_or, Bool-cases,
}
use agent_identity_platform.Audit.{
  Record, Filter, Row, passes, is_of_tenant, is_null_or, matches, append, query, columns, pg_append,
  selects, pg_query,
}

take-take : {A : Type 0} (m n : ℕ) (xs : List A) → m ≤ n → take m (take n xs) ≡ take m xs
take-take zero n xs h = refl
take-take (suc m) zero xs h = absurd (omega (arith, h))
take-take (suc m) (suc n) [] h = refl
take-take (suc m) (suc n) (x ∷ xs) h = ap (λ l. x ∷ l) (take-take m n xs (omega (arith, h)))

take-cons : {A : Type 0} (n : ℕ) (x : A) (xs : List A) → take n (x ∷ take n xs) ≡ take n (x ∷ xs)
take-cons zero x xs = refl
take-cons (suc n) x xs = ap (λ l. x ∷ l) (take-take n (suc n) xs (omega arith))

take-all : {A : Type 0} (n : ℕ) (xs : List A) → length xs ≤ n → take n xs ≡ xs
take-all zero [] h = refl
take-all zero (x ∷ xs) h = absurd (omega (arith, h))
take-all (suc n) [] h = refl
take-all (suc n) (x ∷ xs) h = ap (λ l. x ∷ l) (take-all n xs (omega (arith, h)))

map-take : {A C : Type 0} (f : A → C) (n : ℕ) (xs : List A) → map f (take n xs) ≡ take n (map f xs)
map-take f zero xs = refl
map-take f (suc n) [] = refl
map-take f (suc n) (x ∷ xs) = ap (λ l. f x ∷ l) (map-take f n xs)

-- A filter on text is not the empty text.
abbrev pub IsProper : Option String → Type 0
IsProper none = Unit
IsProper (some v) = (v == "") ≡ false

passes_lem :
    (filter field : Option String)
    → IsProper filter
    → passes filter field ≡ is_null_or filter (some (get_or field ""))
unfolding passes is_null_or
passes_lem none field h = refl
passes_lem (some v) none h = ground (arith, h, eq_iff v "", eq_iff "" v)
passes_lem (some v) (some s) h = rw h refl

passes_tool :
    (filter field : Option String) → IsProper filter → passes filter field ≡ is_null_or filter field
unfolding passes is_null_or
passes_tool none field h = refl
passes_tool (some v) none h = h
passes_tool (some v) (some s) h = rw h refl

tenant_lem :
    (filter field : Option String)
    → is_of_tenant filter field ≡ is_null_or filter (some (get_or field ""))
unfolding is_of_tenant is_null_or
tenant_lem none field = refl
tenant_lem (some v) field = refl

of_tenant_lem :
    (t : String) (field : Option String) → is_of_tenant (some t) field ≡ true → get_or field "" ≡ t
unfolding is_of_tenant
of_tenant_lem t field h = (eq_iff (get_or field "") t).0 h

module _ {B : Type 0} where
  -- The trail after records were appended, the last of them first.
  unfoldable pub trail : ℕ → List (Record B) → List (Record B)
  trail maxlen [] = []
  trail maxlen (r ∷ rs) = append maxlen r (trail maxlen rs)

  -- The table after those records, the refused ones left out: an INSERT that raises changes nothing.
  unfoldable pub rows : (Record B → Bool) → (Record B → Record B) → List (Record B) → List (Row B)
  rows takes jsonb [] = []
  rows takes jsonb (r ∷ rs) =
      let before = rows takes jsonb rs in get_or (pg_append takes jsonb r before) before

  -- The trail in memory holds the newest records, up to its length, newest first.
  pub trail_lem : (maxlen : ℕ) (rs : List (Record B)) → trail maxlen rs ≡ take maxlen rs
  unfolding trail append
  trail_lem zero [] = refl
  trail_lem (suc n) [] = refl
  trail_lem n (r ∷ rs) = ap (λ l. take n (r ∷ l)) (trail_lem n rs) ∙ take-cons n r rs

  matches-selects :
      (f : Filter) (r : Record B)
      → IsProper f.event
      → IsProper f.tool
      → IsProper f.sub
      → selects f (columns r) ≡ matches f r
  unfolding matches selects columns
  matches-selects f r e t s =
      rw
        (
          passes_lem f.event r.event e,
          passes_tool f.tool r.tool t,
          passes_lem f.sub r.sub s,
          tenant_lem f.tenant r.tenant,
        )
        refl

  select-row :
      (f : Filter) (jsonb : Record B → Record B) (r : Record B)
      → IsProper f.event
      → IsProper f.tool
      → IsProper f.sub
      → selects f (record (columns r) { record' = jsonb r }) ≡ matches f r
  unfolding selects columns
  select-row f jsonb r e t s = matches-selects f r e t s

  select-rows :
      (f : Filter) (takes : Record B → Bool) (jsonb : Record B → Record B) (rs : List (Record B))
      → IsProper f.event
      → IsProper f.tool
      → IsProper f.sub
      → map (λ row. row.record') (select (selects f) (rows takes jsonb rs))
        ≡ map jsonb (select (matches f) (select takes rs))
  unfolding rows pg_append
  select-rows f takes jsonb [] e t s = refl
  select-rows f takes jsonb (r ∷ rs) e t s = elim (Bool-cases (takes r)) [
    | inr d ↦ rw d (select-rows f takes jsonb rs e t s)
    | inl d ↦ elim (Bool-cases (matches f r)) [
      | inl c ↦
          rw (d, c, select-row f jsonb r e t s ∙ c)
            (ap (λ l. jsonb r ∷ l) (select-rows f takes jsonb rs e t s))
      | inr c ↦ rw (d, c, select-row f jsonb r e t s ∙ c) (select-rows f takes jsonb rs e t s)
    ]
  ]

  -- After any series of appends, a query of the table answers what a query of the trail in memory
  -- answers that was given the records which the INSERT took and no others, each read back as `jsonb`
  -- keeps it; while those are no more than the deque holds, and no filter on event, tool or user is
  -- the empty text.
  pub query-pg_query :
      (maxlen limit : ℕ) (f : Filter) (takes : Record B → Bool) (jsonb : Record B → Record B)
      (rs : List (Record B))
      → length (select takes rs) ≤ maxlen
      → IsProper f.event
      → IsProper f.tool
      → IsProper f.sub
      → pg_query limit f (rows takes jsonb rs)
        ≡ map jsonb (query limit f (trail maxlen (select takes rs)))
  unfolding query pg_query
  query-pg_query maxlen limit f takes jsonb rs h e t s =
      map-take (λ row. row.record') limit (select (selects f) (rows takes jsonb rs))
      ∙ ap (take limit) (select-rows f takes jsonb rs e t s)
      ∙ sym (map-take jsonb limit (select (matches f) (select takes rs)))
      ∙ ap (λ l. map jsonb (take limit (select (matches f) l)))
          (sym (trail_lem maxlen (select takes rs) ∙ take-all maxlen (select takes rs) h))

  -- A query for a tenant shows only records of that tenant, and only recorded ones.
  pub query_of_tenant :
      (maxlen limit : ℕ) (f : Filter) (tenant : String) (rs : List (Record B)) (r : Record B)
      → f.tenant ≡ some tenant
      → In r (query limit f (trail maxlen rs))
      → (get_or r.tenant "" ≡ tenant) × In r rs
  unfolding query matches
  query_of_tenant maxlen limit f tenant rs r e h =
      let (kept, m) =
        select→In (matches f) r (trail maxlen rs)
          (In-take limit r (select (matches f) (trail maxlen rs)) h) in
      (of_tenant m, In-take maxlen r rs (subst (In r) (trail_lem maxlen rs) kept))
    where
      last : matches f r ≡ true → is_of_tenant f.tenant r.tenant ≡ true
      last m = ground (arith, m)

      of_tenant : matches f r ≡ true → get_or r.tenant "" ≡ tenant
      of_tenant m =
          of_tenant_lem tenant r.tenant (subst (λ o. is_of_tenant o r.tenant ≡ true) e (last m))
