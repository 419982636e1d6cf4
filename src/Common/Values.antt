-- ===== src/Common/Values.antt =====
-- The values of tool arguments are Python values that came out of JSON. What the code asks of them, the
-- built-in functions and tests, is an interface; app/common/schema.py is written against it.
pub mod Laws
use Prim.Native.String.{String}
use mathlib.Core.Bool.{Bool, true, false, ◌&&◌, ◌||◌}
use mathlib.Core.List.{List, [], ◌∷◌}
use mathlib.Core.Option.{Option, none, some}
use text.Mathlib.Text.{◌==◌}
use agent_identity_platform.Common.Tests.{if◌then◌else◌, get_or}
use agent_identity_platform.Common.Lists.{contains}
use agent_identity_platform.Common.Dictionary.{Dict, lookup}

pub record Values (V : Type 0) : Type 0 where
  -- `None`, and `value is None`
  pub null : V
  pub is_null : V → Bool
  -- `bool(value)` and `value == 0`
  pub truthy : V → Bool
  pub is_zero : V → Bool
  -- `isinstance(value, bool)` and `isinstance(value, str)`
  pub is_bool : V → Bool
  pub is_text : V → Bool
  -- `str(value)`, and a text as a value
  pub str : V → String
  pub text : String → V
  pub bool : Bool → V
  -- `float(value)` and `int(value)`, which may raise TypeError or ValueError; values on which they
  -- raise OverflowError are not modelled
  pub float : V → Option V
  pub int : V → Option V
  -- `.strip().lower()` of a text
  pub strip_lower : String → String

module _ {V : Type 0} (py : Values V) where
  -- `value in (None, "")`
  unfoldable pub blank : V → Bool
  blank v = py.is_null v || py.is_text v && py.str v == ""

  -- `args.get(name) in (None, "")`
  unfoldable pub lacks : Dict V → String → Bool
  unfolding blank
  lacks args name = elim (lookup name args) [ none ↦ true | some v ↦ blank v ]

  -- `_coerce`: what cannot be read as a number becomes `None`.
  unfoldable pub coerce : V → Option String → V
  coerce v none = v
  coerce v (some t) =
      if py.is_null v
      then v
      else if t == "number"
      then get_or (py.float v) py.null
      else if t == "integer"
      then get_or (py.int v) py.null
      else if t == "boolean"
      then if py.is_bool v
        then v
        else py.bool (contains (py.strip_lower (py.str v)) ("true" ∷ "1" ∷ "yes" ∷ []))
      else if t == "string"
      then if py.is_text v then v else py.text (py.str v)
      else v

  -- `coerce_args`: the declared arguments, in their order, each coerced to its declared type.
  unfoldable pub coerce_args : Dict (Option String) → Dict V → Dict V
  unfolding coerce
  coerce_args properties [] = []
  coerce_args properties ((k, v) ∷ args) =
      let rest = coerce_args properties args in
      elim (lookup k properties) [ none ↦ rest | some spec ↦ (k, coerce v spec) ∷ rest ]
