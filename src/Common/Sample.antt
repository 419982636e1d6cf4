-- ===== src/Common/Sample.antt =====
-- A small type of values at which the interface of Values is instantiated in the tests: numbers are
-- naturals, and texts are read as they are.
use Prim.Native.String.{String}
use mathlib.Core.Bool.{Bool, true, false}
use mathlib.Core.List.{[], ◌∷◌}
use mathlib.Core.Option.{Option, none, some}
use Prim.Native.Nat.{ℕ}
use text.Mathlib.Text.{◌==◌}
use agent_identity_platform.Common.Tests.{eqb, if◌then◌else◌}
use agent_identity_platform.Common.Dictionary.{Dict}
use agent_identity_platform.Common.Values.{Values}

pub data Json : Type 0 where
  nil : Json
  label : String → Json
  number : ℕ → Json
  flag : Bool → Json

abbrev is_nil : Json → Bool
is_nil nil = true
is_nil _ = false

abbrev is_text : Json → Bool
is_text (label s) = true
is_text _ = false

abbrev is_flag : Json → Bool
is_flag (flag b) = true
is_flag _ = false

abbrev is_zero : Json → Bool
is_zero (number n) = eqb n 0
is_zero (flag false) = true
is_zero _ = false

abbrev is_truthy : Json → Bool
is_truthy nil = false
is_truthy (label s) = if s == "" then false else true
is_truthy (number n) = if eqb n 0 then false else true
is_truthy (flag b) = b

abbrev to_text : Json → String
to_text nil = "None"
to_text (label s) = s
to_text (number n) = if eqb n 200 then "200" else "number"
to_text (flag true) = "True"
to_text (flag false) = "False"

abbrev to_number : Json → Option Json
to_number (number n) = some (number n)
to_number (label s) = if s == "200" then some (number 200) else none
to_number _ = none

abbrev pub json : Values Json
json = record {
  null = nil;
  is_null = is_nil;
  truthy = is_truthy;
  is_zero = is_zero;
  is_bool = is_flag;
  is_text = is_text;
  str = to_text;
  text = label;
  bool = flag;
  float = to_number;
  int = to_number;
  strip_lower = λ s. s;
}

-- A declared number that came as a text, and an undeclared argument.
abbrev pub refund_properties : Dict (Option String)
refund_properties = ("order_id", some "string") ∷ ("amount", some "number") ∷ []

abbrev pub refund_args : Dict Json
refund_args =
    ("tenant", label "globex") ∷ ("amount", label "200") ∷ ("order_id", label "o-1001") ∷ []
