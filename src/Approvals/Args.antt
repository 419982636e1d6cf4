-- ===== src/Approvals/Args.antt =====
-- `_normalize` of app/approvals/store.py, and the comparison of two argument dictionaries.
use Prim.Native.String.{compare}
use text.Mathlib.Text.{is_le}
use agent_identity_platform.Common.{
  String, ◌≡◌, refl, Bool, true, ◌&&◌, none, some, [], ◌∷◌, arith, ◌==◌, eq_iff, eq_refl, Dict,
  lookup, length, suc, eqb, if◌then◌else◌,
}

-- The order of `sorted` on texts.
abbrev str_le : String → String → Bool
str_le s t = is_le (compare s t)

module _ {V : Type 0} where
  -- One more key in a dictionary whose keys are sorted.
  unfoldable pub place : String → V → Dict V → Dict V
  place k v [] = (k, v) ∷ []
  place k v ((j, w) ∷ d) = if str_le k j then (k, v) ∷ (j, w) ∷ d else (j, w) ∷ place k v d

  -- `{k: args[k] for k in sorted(args)}`
  unfoldable pub normalize : Dict V → Dict V
  unfolding place
  normalize [] = []
  normalize ((k, v) ∷ d) = place k v (normalize d)

  -- Every entry of the first is in the second, with an equal value.
  unfoldable pub is_within : (V → V → Bool) → Dict V → Dict V → Bool
  is_within eqv [] b = true
  is_within eqv ((k, v) ∷ a) b =
      elim (lookup k b) [ none ↦ Bool.false | some w ↦ eqv v w ] && is_within eqv a b

  -- Python's `==` on two dictionaries, which does not see their order.
  unfoldable pub dict_eq : (V → V → Bool) → Dict V → Dict V → Bool
  unfolding is_within
  dict_eq eqv a b = eqb (length a) (length b) && is_within eqv a b

  length-place : (k : String) (v : V) (d : Dict V) → length (place k v d) ≡ suc (length d)
  unfolding place
  length-place k v [] = refl
  length-place k v ((j, w) ∷ d) = ground (arith, length-place k v d)

  pub length-normalize : (d : Dict V) → length (normalize d) ≡ length d
  unfolding normalize
  length-normalize [] = refl
  length-normalize ((k, v) ∷ d) = ground (arith, length-place k v (normalize d), length-normalize d)

  pub lookup-place :
      (k j : String) (v : V) (d : Dict V)
      → lookup j (place k v d) ≡ (if k == j then some v else lookup j d)
  unfolding place
  lookup-place k j v [] = refl
  lookup-place k j v ((i, w) ∷ d) =
      ground (arith, eq_iff k j, eq_iff i k, eq_iff i j, lookup-place k j v d, eq_refl k)

  pub lookup-normalize : (j : String) (d : Dict V) → lookup j (normalize d) ≡ lookup j d
  unfolding normalize
  lookup-normalize j [] = refl
  lookup-normalize j ((k, v) ∷ d) =
      ground (arith, lookup-place k j v (normalize d), lookup-normalize j d)

  is_within-normalize :
      (eqv : V → V → Bool) (a b : Dict V) → is_within eqv a (normalize b) ≡ is_within eqv a b
  unfolding is_within
  is_within-normalize eqv [] b = refl
  is_within-normalize eqv ((k, v) ∷ a) b =
      ground (arith, lookup-normalize k b, is_within-normalize eqv a b)

  -- Sorting the keys changes no comparison.
  pub dict_eq-normalize :
      (eqv : V → V → Bool) (a b : Dict V) → dict_eq eqv a (normalize b) ≡ dict_eq eqv a b
  unfolding dict_eq
  dict_eq-normalize eqv a b = ground (arith, length-normalize b, is_within-normalize eqv a b)
