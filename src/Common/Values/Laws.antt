-- ===== src/Common/Values/Laws.antt =====
-- `coerce_args` of app/common/schema.py, key by key.
use Prim.Native.String.{String}
use mathlib.Core.Path.{◌≡◌}
use mathlib.Core.List.{[], ◌∷◌}
use mathlib.Core.Option.{Option, none, some}
use native.Mathlib.Omega.{arith}
use text.Mathlib.TextEquality.{eq_iff}
use agent_identity_platform.Common.Dictionary.{Dict, lookup}
use agent_identity_platform.Common.Values.{Values, coerce, coerce_args}

-- What is left of one argument, by its declaration and its value.
abbrev pub declared_value : {V : Type 0} → Values V → Option (Option String) → Option V → Option V
declared_value py none value = none
declared_value py (some spec) none = none
declared_value py (some spec) (some v) = some (coerce py v spec)

-- An argument survives exactly if it is declared and given, and then with its value coerced to the
-- declared type.
pub lookup-coerce_args :
    {V : Type 0} (py : Values V) (properties : Dict (Option String)) (k : String) (args : Dict V)
    → lookup k (coerce_args py properties args)
      ≡ declared_value py (lookup k properties) (lookup k args)
unfolding coerce_args
lookup-coerce_args py properties k [] = ground arith
lookup-coerce_args py properties k ((j, v) ∷ args) =
    ground (arith, eq_iff j k, lookup-coerce_args py properties k args)
