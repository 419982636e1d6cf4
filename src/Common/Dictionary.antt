-- ===== src/Common/Dictionary.antt =====
-- Python's `dict` with text keys, in insertion order: a new key is added at the end, an old one
-- keeps its place.
use Prim.Native.String.{String}
use mathlib.Core.Path.{◌≡◌, refl}
use mathlib.Core.Logic.{◌≢◌}
use mathlib.Core.List.{List, [], ◌∷◌}
use mathlib.Core.Option.{Option, none, some}
use native.Mathlib.Omega.{arith}
use text.Mathlib.Text.{◌==◌}
use text.Mathlib.TextEquality.{eq_iff}
use agent_identity_platform.Common.Tests.{if◌then◌else◌}

abbrev pub Dict {ℓ} : Type ℓ → Type ℓ
Dict V = List (String × V)

module _ {ℓ} {V : Type ℓ} where
  -- `d.get(k)`
  abbrev pub lookup : String → Dict V → Option V
  lookup k [] = none
  lookup k ((j, v) ∷ d) = if j == k then some v else lookup k d

  -- `d[k] = v`
  abbrev pub insert : String → V → Dict V → Dict V
  insert k v [] = (k, v) ∷ []
  insert k v ((j, w) ∷ d) = if j == k then (j, v) ∷ d else (j, w) ∷ insert k v d

  -- `d.pop(k, None)`
  abbrev pub erase : String → Dict V → Dict V
  erase k [] = []
  erase k ((j, w) ∷ d) = let rest = erase k d in if j == k then rest else (j, w) ∷ rest

  -- `d.values()` and `list(d)`
  abbrev pub values : Dict V → List V
  values [] = []
  values ((j, v) ∷ d) = v ∷ values d

  abbrev pub keys : Dict V → List String
  keys [] = []
  keys ((j, v) ∷ d) = j ∷ keys d

  pub lookup-insert :
      (k j : String) (v : V) (d : Dict V)
      → lookup j (insert k v d) ≡ (if k == j then some v else lookup j d)
  lookup-insert k j v [] = refl
  lookup-insert k j v ((i, w) ∷ d) =
      ground (arith, eq_iff k j, eq_iff i k, eq_iff i j, lookup-insert k j v d)

  pub lookup-erase :
      (k j : String) (d : Dict V) → lookup j (erase k d) ≡ (if k == j then none else lookup j d)
  lookup-erase k j [] = ground arith
  lookup-erase k j ((i, w) ∷ d) =
      ground (arith, eq_iff k j, eq_iff i k, eq_iff i j, lookup-erase k j d)

  pub lookup-insert_self : (k : String) (v : V) (d : Dict V) → lookup k (insert k v d) ≡ some v
  lookup-insert_self k v d = ground (arith, lookup-insert k k v d, eq_iff k k)

  pub lookup-insert_ne :
      (k j : String) (v : V) (d : Dict V) → k ≢ j → lookup j (insert k v d) ≡ lookup j d
  lookup-insert_ne k j v d h = ground (arith, lookup-insert k j v d, eq_iff k j)
