-- ===== src/Gateway/Durable/Rate.antt =====
-- The rate limit of `PostgresLimiter` (app/gateway/limits.py) over a whole run: a counter for each
-- caller and minute of the clock.
use Prim.Native.Nat.{max}
use agent_identity_platform.Common.{
  ℕ, suc, ◌+◌, ◌≤◌, ◌<◌, ◌/◌, String, ◌≡◌, refl, ap, ◌≢◌, inl, inr, true, ◌&&◌, List, [], ◌∷◌,
  arith, ◌==◌, eq_iff, eqb, leb, Bool-cases, if◌then◌else◌,
}
use agent_identity_platform.Gateway.Limits.{minute}
use agent_identity_platform.Gateway.Durable.{
  Row, Tables, Limits, total_of, count_of, upsert, delete_before, counted, pg_check, pg_charge,
}

-- What reaches the limiter: a request that asks, or the charge after an answer, which reads the clock
-- twice.
pub data Event : Type 0 where
  ask : String → ℕ → Event
  spend : String → ℕ → ℕ → ℕ → Event

abbrev pub time : Event → ℕ
time (ask caller now) = now
time (spend caller n now later) = later

abbrev pub After : ℕ → List Event → Type 0
After t [] = Unit
After t (e ∷ es) = (t ≤ time e) × After t es

-- The clock does not run backwards.
abbrev pub Ordered : List Event → Type 0
Ordered [] = Unit
Ordered (e ∷ es) = After (time e) es × Ordered es

module _ (k : Limits) where
  -- How many requests of the caller are admitted in the minute `m` of the clock.
  unfoldable pub admitted_in : String → ℕ → List Event → Tables → ℕ
  admitted_in c m [] t = 0
  admitted_in c m (ask d now ∷ es) t =
      let n = admitted_in c m es (pg_check k d now t).1 in
      if d == c && eqb (now / minute) m && (pg_check k d now t).0.allowed then suc n else n
  admitted_in c m (spend d n now later ∷ es) t = admitted_in c m es (pg_charge k d n now later t)

count-upsert :
    (c d : String) (p q n : ℕ) (rows : List Row)
    → count_of c p (upsert d q n rows)
      ≡ (if d == c && eqb q p then count_of c p rows + n else count_of c p rows)
unfolding total_of upsert
count-upsert c d p q n [] = ground arith
count-upsert c d p q n (r ∷ rows) =
    ground (arith, eq_iff d c, eq_iff r.caller c, eq_iff r.caller d, count-upsert c d p q n rows)

count-delete_before :
    (c : String) (p q : ℕ) (rows : List Row)
    → q ≤ p
    → count_of c p (delete_before q rows) ≡ count_of c p rows
unfolding total_of delete_before
count-delete_before c p q [] h = refl
count-delete_before c p q (r ∷ rows) h =
    ground (arith, eq_iff r.caller c, count-delete_before c p q rows h)

module _ (k : Limits) (c : String) (m : ℕ) where
  rate-check :
      (d : String) (now : ℕ) (t : Tables)
      → 0 < k.rpm
      → count_of c m (pg_check k d now t).1.llm_rate ≡ (
          if d == c && eqb (now / minute) m
          then count_of c m t.llm_rate + 1
          else count_of c m t.llm_rate)
  unfolding pg_check counted
  rate-check d now t h = ground (arith, count-upsert c d m (now / minute) 1 t.llm_rate)

  allowed→count :
      (now : ℕ) (t : Tables)
      → 0 < k.rpm
      → (pg_check k c now t).0.allowed ≡ true
      → count_of c (now / minute) t.llm_rate + 1 ≤ k.rpm
  unfolding pg_check counted
  allowed→count now t h e =
      ground (arith, count-upsert c c (now / minute) (now / minute) 1 t.llm_rate, eq_iff c c)

  rate-charge :
      (d : String) (n now later : ℕ) (t : Tables)
      → later / minute ≤ m
      → count_of c m (pg_charge k d n now later t).llm_rate ≡ count_of c m t.llm_rate
  unfolding pg_charge
  rate-charge d n now later t h =
      ground (arith, count-delete_before c m (later / minute) t.llm_rate h)

  admitted_late :
      (x : ℕ) (es : List Event) (t : Tables)
      → m < x / minute
      → After x es
      → admitted_in k c m es t ≡ 0
  unfolding admitted_in
  admitted_late x [] t h a = refl
  admitted_late x (ask d now ∷ es) t h a =
      let other : now / minute ≢ m = omega arith in
      ground (arith, admitted_late x es (pg_check k d now t).1 h a.1)
  admitted_late x (spend d n now later ∷ es) t h a =
      admitted_late x es (pg_charge k d n now later t) h a.1

  counted_ask :
      (d : String) (now : ℕ) (es : List Event) (t : Tables)
      → 0 < k.rpm
      → admitted_in k c m es (pg_check k d now t).1 + count_of c m (pg_check k d now t).1.llm_rate
        ≤ max k.rpm (count_of c m (pg_check k d now t).1.llm_rate)
      → admitted_in k c m (ask d now ∷ es) t + count_of c m t.llm_rate
        ≤ max k.rpm (count_of c m t.llm_rate)
  unfolding admitted_in
  counted_ask d now es t pos ih = elim (Bool-cases (d == c && eqb (now / minute) m)) [
    | inl own ↦
        let e : d ≡ c = ground (arith, eq_iff d c) in
        let q : now / minute ≡ m = ground arith in
        let room : (pg_check k d now t).0.allowed ≡ true → count_of c m t.llm_rate + 1 ≤ k.rpm =
          rw (e, ← q) (allowed→count now t pos) in
        ground (arith, own, ih, room, rate-check d now t pos)
    | inr other ↦ ground (arith, other, ih, rate-check d now t pos)
  ]

  -- What the counter shows and what is still admitted in its minute stay within the limit together.
  counted_rate :
      (es : List Event) (t : Tables)
      → 0 < k.rpm
      → Ordered es
      → admitted_in k c m es t + count_of c m t.llm_rate ≤ max k.rpm (count_of c m t.llm_rate)
  unfolding admitted_in
  counted_rate [] t pos o = omega arith
  counted_rate (ask d now ∷ es) t pos o =
      counted_ask d now es t pos (counted_rate es (pg_check k d now t).1 pos o.1)
  counted_rate (spend d n now later ∷ es) t pos o = elim (Bool-cases (leb (later / minute) m)) [
    | inl soon ↦ omega (
      arith,
      counted_rate es (pg_charge k d n now later t) pos o.1,
      rate-charge d n now later t (ground arith),
      ap (λ (x : ℕ). max k.rpm x) (rate-charge d n now later t (ground arith)),
    )
    | inr far ↦
        omega (arith, admitted_late later es (pg_charge k d n now later t) (ground arith) o.0)
  ]

-- Starting from any tables, if the clock does not run backwards, at most `rpm` requests of a caller
-- are admitted in any minute of the clock, clean-ups of the rate table included.
pub pg_admitted_per_minute :
    (k : Limits) (c : String) (m : ℕ) (es : List Event) (t : Tables)
    → 0 < k.rpm
    → Ordered es
    → admitted_in k c m es t ≤ k.rpm
pg_admitted_per_minute k c m es t pos o = omega (arith, counted_rate k c m es t pos o)
