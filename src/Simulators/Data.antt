-- ===== src/Simulators/Data.antt =====
-- `scoped` and `next_id_number` of app/simulators/data.py, for records of any kind, and how a call of a
-- simulated system ends. The records of data.py itself are in Simulators/Demo.antt.
pub mod Keyed
use Prim.Native.Nat.{max}
use agent_identity_platform.Common.{
  ℕ, ◌+◌, ◌≤◌, List, [], ◌∷◌, In, inl, inr, get_or, sym, ap, ◌∙◌, Dict, insert, String, ◌≡◌, Option,
  none, some, ◌==◌, eq_iff, arith, if◌then◌else◌,
}

module _ {A : Type 0} (tenant_of : A → String) where
  unfoldable pub scoped : Option A → String → Option A
  scoped none tenant = none
  scoped (some o) tenant =
      if tenant == "" then none else if tenant_of o == tenant then some o else none

  -- Only a record of the tenant is found, and the record that was looked up.
  pub scoped_lem :
      (o : Option A) (tenant : String) (a : A)
      → scoped o tenant ≡ some a
      → (o ≡ some a) × (tenant_of a ≡ tenant)
  unfolding scoped
  scoped_lem none tenant a h = ground (arith, h)
  scoped_lem (some x) tenant a h = ground (arith, h, eq_iff (tenant_of x) tenant)

-- The highest number among the ids; `number` reads the number of a record's id, if its suffix is digits.
unfoldable pub highest : {A : Type 0} → (A → Option ℕ) → List A → ℕ
highest number [] = 0
highest number (r ∷ rs) = max (get_or (number r) 0) (highest number rs)

unfoldable pub next_id_number : {A : Type 0} → (A → Option ℕ) → List A → ℕ
unfolding highest
next_id_number number rs = highest number rs + 1

pub le-highest :
    {A : Type 0} (number : A → Option ℕ) (r : A) (rs : List A) (n : ℕ)
    → In r rs
    → number r ≡ some n
    → n ≤ highest number rs
unfolding highest
le-highest number r [] n h e = absurd h
le-highest number r (x ∷ xs) n (inl p) e =
    rw (ap (λ y. get_or (number y) 0) (sym p) ∙ ap (λ o. get_or o 0) e) (omega arith)
le-highest number r (x ∷ xs) n (inr h) e = omega (arith, le-highest number r xs n h e)

-- The loop of the `restore` functions: each record under its key.
unfoldable pub refile : {A : Type 0} → (A → String) → List A → Dict A → Dict A
refile key [] d = d
refile key (r ∷ rs) d = refile key rs (insert (key r) r d)

-- A call that raises an exception, with its text, or returns.
pub data Called (A : Type 0) : Type 0 where
  raised : String → Called A
  returned : A → Called A
