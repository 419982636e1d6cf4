-- ===== src/Simulators/Data/Keyed.antt =====
-- Records that a process restores are found where they were (the `restore` functions of app/simulators).
use mathlib.Core.Path.{subst}
use agent_identity_platform.Common.{
  String, ◌≡◌, refl, sym, ap, ◌∙◌, ◌⊎◌, inl, inr, true, false, Option, none, some, [], ◌∷◌, ◌==◌,
  arith, eq_iff, Dict, lookup, insert, values, lookup-insert, if◌then◌else◌, Bool-cases,
}
use agent_identity_platform.Simulators.Data.{refile}

module _ {R : Type 0} (key : R → String) where
  -- Every record stands under its key, and no key twice.
  abbrev pub IsKeyed : Dict R → Type 0
  IsKeyed [] = Unit
  IsKeyed ((k, r) ∷ d) = (k ≡ key r) × (lookup k d ≡ none) × IsKeyed d

  pub insert-IsKeyed :
      (k : String) (r : R) (d : Dict R) → k ≡ key r → IsKeyed d → IsKeyed (insert k r d)
  insert-IsKeyed k r [] e h = (e, refl, tt)
  insert-IsKeyed k r ((j, x) ∷ d) e (f, fresh, hs) = elim (Bool-cases (j == k)) [
    | inl c ↦ rw c ((eq_iff j k).0 c ∙ e, fresh, hs)
    | inr c ↦ rw c (f, still c, insert-IsKeyed k r d e hs)
  ]
    where
      still : (j == k) ≡ false → lookup j (insert k r d) ≡ none
      still c = ground (arith, lookup-insert k j r d, eq_iff j k, eq_iff k j, fresh)

  abbrev pub or_else : Option R → Option R → Option R
  or_else none y = y
  or_else (some x) y = some x

  -- Restored records are found under the keys they had, before those that were there.
  pub refile_lem :
      (d e : Dict R) (j : String)
      → IsKeyed d
      → lookup j (refile key (values d) e) ≡ or_else (lookup j d) (lookup j e)
  unfolding refile
  refile_lem [] e j h = refl
  refile_lem ((k, r) ∷ d) e j (f, fresh, hs) =
      refile_lem d (insert (key r) r e) j hs
      ∙ ap (λ i. or_else (lookup j d) (lookup j (insert i r e))) (sym f)
      ∙ ap (or_else (lookup j d)) (lookup-insert k j r e)
      ∙ by_test (Bool-cases (k == j))
    where
      by_test :
          ((k == j) ≡ true) ⊎ ((k == j) ≡ false)
          → or_else (lookup j d) (if k == j then some r else lookup j e)
            ≡ or_else (if k == j then some r else lookup j d) (lookup j e)
      by_test (inl c) =
          rw c
            (ap (λ x. or_else x (some r)) (subst (λ i. lookup i d ≡ none) ((eq_iff k j).0 c) fresh))
      by_test (inr c) = rw c refl

  pub or_else-none : (x : Option R) → or_else x none ≡ x
  or_else-none none = refl
  or_else-none (some x) = refl

  -- The records of a dictionary, restored into an empty one.
  pub refile-values :
      (d : Dict R) (k : String) → IsKeyed d → lookup k (refile key (values d) []) ≡ lookup k d
  refile-values d k h = refile_lem d [] k h ∙ or_else-none (lookup k d)
