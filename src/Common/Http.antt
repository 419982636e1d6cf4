-- ===== src/Common/Http.antt =====
-- How a handler of the web services ends: with an HTTPException of a status code and its detail, or with
-- its answer. A `do` block is the code up to the first exception.
use Prim.Native.Nat.{ℕ}
use Prim.Native.String.{String}
use mathlib.Core.Bool.{Bool, true, false}
use mathlib.Core.Path.{◌≡◌, refl}
use mathlib.Core.Logic.{◌⊎◌, inl, inr}

pub data Response {ℓ} (A : Type ℓ) : Type ℓ where
  fail : ℕ → String → Response A
  answer : A → Response A

infixl 5 ◌>>=◌ ◌>>◌
abbrev pub ◌>>=◌ {ℓ κ} : {A : Type ℓ} {B : Type κ} → Response A → (A → Response B) → Response B
answer a >>= f = f a
fail code detail >>= f = fail code detail

abbrev pub ◌>>◌ {ℓ} : {B : Type ℓ} → Response (Unit {0}) → Response B → Response B
m >> k = m >>= λ _. k

-- `if not test: raise HTTPException(code, detail)`
abbrev pub require : Bool → ℕ → String → Response (Unit {0})
require true code detail = answer tt
require false code detail = fail code detail

-- The parts of a block that answered.
pub >>=-eq-answer {ℓ κ} :
    {A : Type ℓ} {B : Type κ} (m : Response A) (f : A → Response B) {b : B}
    → (m >>= f) ≡ answer b
    → (a : A) × (m ≡ answer a) × (f a ≡ answer b)
>>=-eq-answer (answer a) f h = (a, refl, h)
>>=-eq-answer (fail code detail) f h = cc

pub Response-cases {ℓ} :
    {A : Type ℓ} (m : Response A)
    → ((code : ℕ) × (detail : String) × (m ≡ fail code detail)) ⊎ ((a : A) × (m ≡ answer a))
Response-cases (answer a) = inr (a, refl)
Response-cases (fail code detail) = inl (code, detail, refl)
