-- ===== src/Common/Lists.antt =====
-- Lists measured by native numbers, list comprehensions, and predicates by recursion.
use Prim.Native.Nat.{ℕ, zero, suc, ◌+◌, ◌≤◌, min}
use mathlib.Core.Path.{◌≡◌}
use mathlib.Core.Logic.{◌⊎◌, inl, inr}
use mathlib.Core.Bool.{Bool, true, false}
use mathlib.Core.List.{List, [], ◌∷◌, ◌++◌}
use mathlib.Core.Option.{Option, none, some}
use native.Mathlib.Omega.{arith}
use Prim.Native.String.{String}
use text.Mathlib.Text.{◌==◌}
use text.Mathlib.TextEquality.{eq_iff}
use agent_identity_platform.Common.Tests.{if◌then◌else◌}

module _ {ℓ} {A : Type ℓ} where
  abbrev pub length : List A → ℕ
  length [] = 0
  length (x ∷ xs) = suc (length xs)

  abbrev pub take : ℕ → List A → List A
  take zero xs = []
  take (suc n) [] = []
  take (suc n) (x ∷ xs) = x ∷ take n xs

  -- `[x for x in xs if p(x)]`
  abbrev pub select : (A → Bool) → List A → List A
  select p [] = []
  select p (x ∷ xs) = let rest = select p xs in if p x then x ∷ rest else rest

  -- `xs[0]`, or nothing.
  abbrev pub first : List A → Option A
  first [] = none
  first (x ∷ xs) = some x

-- The occurrences of an element.
abbrev pub In : {A : Type 0} → A → List A → Type 0
In a [] = ⊥
In a (x ∷ xs) = (a ≡ x) ⊎ In a xs

module _ {ℓ κ} {A : Type ℓ} where
  abbrev pub All : (A → Type κ) → List A → Type κ
  All P [] = Unit
  All P (x ∷ xs) = P x × All P xs

-- `x in xs`, for texts.
abbrev pub contains : String → List String → Bool
contains a [] = false
contains a (x ∷ xs) = if a == x then true else contains a xs

pub contains→In : (a : String) (xs : List String) → contains a xs ≡ true → In a xs
contains→In a [] h = ground arith
contains→In a (x ∷ xs) h = ground (arith, eq_iff a x, contains→In a xs)

module _ {ℓ} {A : Type ℓ} where
  pub length-append : (xs ys : List A) → length (xs ++ ys) ≡ length xs + length ys
  length-append [] ys = omega arith
  length-append (x ∷ xs) ys = omega (arith, length-append xs ys)

  pub length-take : (n : ℕ) (xs : List A) → length (take n xs) ≡ min n (length xs)
  length-take zero xs = omega arith
  length-take (suc n) [] = omega arith
  length-take (suc n) (x ∷ xs) = omega (arith, length-take n xs)

  pub length-select-le : (p : A → Bool) (xs : List A) → length (select p xs) ≤ length xs
  length-select-le p [] = omega arith
  length-select-le p (x ∷ xs) = ground (arith, length-select-le p xs)

module _ {A : Type 0} where
  -- Exactly the elements that pass the test are kept.
  pub select→In : (p : A → Bool) (a : A) (xs : List A) → In a (select p xs) → In a xs × (p a ≡ true)
  select→In p a [] h = absurd h
  select→In p a (x ∷ xs) h = ground (arith, select→In p a xs)

  pub In→select : (p : A → Bool) (a : A) (xs : List A) → In a xs → p a ≡ true → In a (select p xs)
  In→select p a [] h e = absurd h
  In→select p a (x ∷ xs) h e = ground (arith, In→select p a xs)

  pub In-take : (n : ℕ) (a : A) (xs : List A) → In a (take n xs) → In a xs
  In-take zero a xs h = absurd h
  In-take (suc n) a [] h = absurd h
  In-take (suc n) a (x ∷ xs) (inl e) = inl e
  In-take (suc n) a (x ∷ xs) (inr h) = inr (In-take n a xs h)
