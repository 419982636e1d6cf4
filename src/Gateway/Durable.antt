-- ===== src/Gateway/Durable.antt =====
-- `PostgresLimiter` of app/gateway/limits.py: its SQL statements over the tables `llm_rate` and
-- `llm_daily`. Times are whole microseconds.
pub mod Rate
use Prim.Native.Nat.{max}
use agent_identity_platform.Common.{
  ℕ, ◌+◌, ◌-◌, ◌/◌, ◌%◌, String, Bool, true, false, ◌&&◌, ◌||◌, not, Option, none, some, List, [],
  ◌∷◌, ◌==◌, select, ltb, leb, eqb, if◌then◌else◌,
}
use agent_identity_platform.Gateway.Limits.{
  Decision, allow, rate_limit_reached, daily_budget_reached, second, minute, day,
}

-- A row of either table: the caller, the minute or day, and the count.
pub record Row : Type 0 where
  pub caller : String
  pub period : ℕ
  pub total : ℕ

pub record Tables : Type 0 where
  pub llm_rate : List Row
  pub llm_daily : List Row

pub record Limits : Type 0 where
  pub rpm : ℕ
  pub tpd : ℕ

abbrev pub is_key : String → ℕ → Row → Bool
is_key c p r = r.caller == c && eqb r.period p

-- SELECT ... WHERE caller = %s AND period = %s, by the primary key.
unfoldable pub total_of : String → ℕ → List Row → Option ℕ
total_of c p [] = none
total_of c p (r ∷ rows) = if is_key c p r then some r.total else total_of c p rows

-- INSERT ... ON CONFLICT DO UPDATE SET total = total + n.
unfoldable pub upsert : String → ℕ → ℕ → List Row → List Row
upsert c p n [] = record { caller = c; period = p; total = n } ∷ []
upsert c p n (r ∷ rows) =
    if is_key c p r then record r { total = r.total + n } ∷ rows else r ∷ upsert c p n rows

-- The total that RETURNING reads back.
abbrev pub count_of : String → ℕ → List Row → ℕ
count_of c p rows = elim (total_of c p rows) [ none ↦ 0 | some n ↦ n ]

-- DELETE ... WHERE period < %s.
unfoldable pub delete_before : ℕ → List Row → List Row
delete_before p [] = []
delete_before p (r ∷ rows) =
    let rest = delete_before p rows in if ltb r.period p then rest else r ∷ rest

unfoldable pub pg_check_budget : Limits → String → ℕ → Tables → Decision
pg_check_budget k caller now t =
    if eqb k.tpd 0 then allow else elim (total_of caller (now / day) t.llm_daily) [
      | none ↦ allow
      | some n ↦
          if leb k.tpd n
          then record { allowed = false; reason = daily_budget_reached k.tpd; retry_after = 3600 }
          else allow
    ]

-- The counter of the minute is raised by every request, and read back.
unfoldable pub counted : String → ℕ → Tables → Tables
counted caller now t = record t { llm_rate = upsert caller (now / minute) 1 t.llm_rate }

unfoldable pub pg_check : Limits → String → ℕ → Tables → Decision × Tables
unfolding counted
pg_check k caller now t =
    if eqb k.rpm 0
    then (pg_check_budget k caller now t, t)
    else let t' = counted caller now t in
      if ltb k.rpm (count_of caller (now / minute) t'.llm_rate)
      then (
        record {
          allowed = false;
          reason = rate_limit_reached k.rpm;
          retry_after = max 1 ((minute - now % minute) / second + 1);
        },
        t',
      )
      else (pg_check_budget k caller now t', t')

-- The clock is read once for the day and once more for the clean-up of the rate table.
unfoldable pub pg_charge : Limits → String → ℕ → ℕ → ℕ → Tables → Tables
pg_charge k caller spent now later t = if eqb k.tpd 0 || eqb spent 0 then t else record {
  llm_rate = delete_before (later / minute) t.llm_rate;
  llm_daily = delete_before (now / day - 1) (upsert caller (now / day) spent t.llm_daily);
}

unfoldable pub pg_used_today : String → ℕ → Tables → ℕ
pg_used_today caller now t = count_of caller (now / day) t.llm_daily
