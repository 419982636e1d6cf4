-- ===== src/Revocations/Agreement.antt =====
-- Both backends of the denylist agree (app/api/revocations.py).
use agent_identity_platform.Common.{
  ℕ, String, ◌≡◌, refl, sym, ap, ◌∙◌, ◌⊎◌, inl, inr, true, false, List, [], ◌∷◌, ◌==◌, eq_iff, Dict,
  lookup, insert, erase, is_some, Bool-cases,
}
use agent_identity_platform.Revocations.{
  Revocation, revoke, restore, ids, upsert_row, pg_revoke, pg_restore, pg_ids,
}

-- The rows are the records of the dictionary, each under its identifier.
abbrev pub Reflects : Dict Revocation → List Revocation → Type 0
Reflects [] [] = Unit
Reflects [] (x ∷ rows) = ⊥
Reflects ((k, r) ∷ d) [] = ⊥
Reflects ((k, r) ∷ d) (x ∷ rows) = (k ≡ r.spiffe_id) × (r ≡ x) × Reflects d rows

insert-Reflects :
    (r : Revocation) (d : Dict Revocation) (rows : List Revocation)
    → Reflects d rows
    → Reflects (insert r.spiffe_id r d) (upsert_row r rows)
unfolding upsert_row
insert-Reflects r [] [] h = (refl, refl, tt)
insert-Reflects r [] (x ∷ rows) h = absurd h
insert-Reflects r ((k, y) ∷ d) [] h = absurd h
insert-Reflects r ((k, y) ∷ d) (x ∷ rows) (e, f, h) =
    by_id (Bool-cases (k == r.spiffe_id)) (insert-Reflects r d rows h)
  where
    key : x.spiffe_id ≡ k
    key = sym (e ∙ ap (λ z. z.spiffe_id) f)

    by_id :
        ((k == r.spiffe_id) ≡ true) ⊎ ((k == r.spiffe_id) ≡ false)
        → Reflects (insert r.spiffe_id r d) (upsert_row r rows)
        → Reflects (insert r.spiffe_id r ((k, y) ∷ d)) (upsert_row r (x ∷ rows))
    by_id (inl c) rest =
        rw (c, ap (λ s. s == r.spiffe_id) key ∙ c) ((eq_iff k r.spiffe_id).0 c, refl, h)
    by_id (inr c) rest = rw (c, ap (λ s. s == r.spiffe_id) key ∙ c) (e, f, rest)

erase-Reflects :
    (id : String) (d : Dict Revocation) (rows : List Revocation)
    → Reflects d rows
    → Reflects (erase id d) (pg_restore id rows).1
      × (is_some (lookup id d) ≡ (pg_restore id rows).0)
unfolding pg_restore
erase-Reflects id [] [] h = (tt, refl)
erase-Reflects id [] (x ∷ rows) h = absurd h
erase-Reflects id ((k, y) ∷ d) [] h = absurd h
erase-Reflects id ((k, y) ∷ d) (x ∷ rows) (e, f, h) =
    by_id (Bool-cases (k == id)) (erase-Reflects id d rows h)
  where
    key : x.spiffe_id ≡ k
    key = sym (e ∙ ap (λ z. z.spiffe_id) f)

    by_id :
        ((k == id) ≡ true) ⊎ ((k == id) ≡ false)
        → Reflects (erase id d) (pg_restore id rows).1
          × (is_some (lookup id d) ≡ (pg_restore id rows).0)
        → Reflects (erase id ((k, y) ∷ d)) (pg_restore id (x ∷ rows)).1
          × (is_some (lookup id ((k, y) ∷ d)) ≡ (pg_restore id (x ∷ rows)).0)
    by_id (inl c) rest = rw (c, ap (λ s. s == id) key ∙ c) (rest.0, refl)
    by_id (inr c) rest = rw (c, ap (λ s. s == id) key ∙ c) ((e, f, rest.0), rest.1)

ids-Reflects :
    (d : Dict Revocation) (rows : List Revocation) → Reflects d rows → ids d ≡ pg_ids rows
unfolding ids pg_ids
ids-Reflects [] [] h = refl
ids-Reflects [] (x ∷ rows) h = absurd h
ids-Reflects ((k, y) ∷ d) [] h = absurd h
ids-Reflects ((k, y) ∷ d) (x ∷ rows) (e, f, h) =
    rw (e ∙ ap (λ z. z.spiffe_id) f) (ap (λ l. x.spiffe_id ∷ l) (ids-Reflects d rows h))

-- While the rows reflect the dictionary, both backends name the same identities; revoking keeps
-- them so and returns the same record, and restoring keeps them so and answers alike.
pub backends-Reflects :
    (id reason by : String) (now : ℕ) (d : Dict Revocation) (rows : List Revocation)
    → Reflects d rows
    → (ids d ≡ pg_ids rows)
      × ((revoke id reason by now d).0 ≡ (pg_revoke id reason by now rows).0)
      × Reflects (revoke id reason by now d).1 (pg_revoke id reason by now rows).1
      × ((restore id d).0 ≡ (pg_restore id rows).0)
      × Reflects (restore id d).1 (pg_restore id rows).1
unfolding revoke pg_revoke restore
backends-Reflects id reason by now d rows h =
    let (kept, answer) = erase-Reflects id d rows h in
    (
      ids-Reflects d rows h,
      refl,
      insert-Reflects
          (record { spiffe_id = id; reason = reason; revoked_by = by; revoked_at = now }) d rows h,
      answer,
      kept,
    )
