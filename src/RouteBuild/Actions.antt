-- ===== src/RouteBuild/Actions.antt =====
-- A step of `buildRoutes`: it changes the variables, and returns a value or the error with which
-- the function ends. What was written stays written behind an error.
pub mod Kept
use dnsvard.Base.{Bool, Option, none, some, if◌then◌else◌}
use dnsvard.RouteBuild.{Builder, BuildError}

pub data Result {ℓ} (A : Type ℓ) : Type ℓ where
  ok : A → Result A
  err : BuildError → Result A

abbrev pub Action {ℓ} : Type ℓ → Type ℓ
Action A = Builder → Result A × Builder

module _ {ℓ} {A : Type ℓ} where
  abbrev pub pure : A → Action A
  pure a b = (ok a, b)

  abbrev pub raise : BuildError → Action A
  raise e b = (err e, b)

-- What follows a step, which ends with an error where the step does.
abbrev pub sequel {ℓ κ} :
    {A : Type ℓ} {B : Type κ} → (A → Action B) → Result A × Builder → Result B × Builder
sequel f (ok a, b) = f a b
sequel f (err e, b) = (err e, b)

infixl 5 ◌>>=◌ ◌>>◌
abbrev pub ◌>>=◌ {ℓ κ} : {A : Type ℓ} {B : Type κ} → Action A → (A → Action B) → Action B
◌>>=◌ m f b = sequel f (m b)

abbrev pub ◌>>◌ {ℓ} : {B : Type ℓ} → Action (Unit {0}) → Action B → Action B
m >> k = m >>= λ _. k

abbrev pub modify : (Builder → Builder) → Action (Unit {0})
modify f b = (ok tt, f b)

abbrev pub when : Bool → Action (Unit {0}) → Action (Unit {0})
when c m b = if c then m b else (ok tt, b)

-- The value or the error, behind which the function goes on.
abbrev pub attempted {ℓ} : {A : Type ℓ} → Result A × Builder → Result (Result A) × Builder
attempted (ok a, b) = (ok (ok a), b)
attempted (err e, b) = (ok (err e), b)

abbrev pub attempt {ℓ} : {A : Type ℓ} → Action A → Action (Result A)
attempt m b = attempted (m b)
