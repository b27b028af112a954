-- ===== src/RouteBuild/Actions/Kept.antt =====
-- A statement about the variables that an action keeps, with what holds of its value or its error.
use dnsvard.Base.{◌≡◌, Bool, true, false, if◌then◌else◌, subst, refl}
use dnsvard.RouteBuild.{Builder, BuildError}
use dnsvard.RouteBuild.Actions.{
  Result, ok, err, Action, pure, raise, modify, when, attempt, attempted, sequel, ◌>>=◌, ◌>>◌,
}

value_inj : {A : Type 0} {x y : A} → ◌≡◌ {A = Result A} (ok x) (ok y) → x ≡ y
value_inj e = cc

abbrev pub Anything : {A : Type 0} → A → Type 0
Anything a = Unit

-- What holds behind an action.
abbrev pub Yields :
    (Builder → Type 0)
    → (BuildError → Type 0)
    → {A : Type 0} → (A → Type 0)
    → Result A × Builder
    → Type 0
Yields P E Q (ok a, b) = P b × Q a
Yields P E Q (err e, b) = P b × E e

-- Wherever the statement `P` holds it holds behind the action too.
pub record Keeps (P : Builder → Type 0) (E : BuildError → Type 0) {A : Type 0} (Q : A → Type 0)
    (m : Action A) : Type 0 where
  pub behind : (b : Builder) → P b → Yields P E Q (m b)

module _ {P : Builder → Type 0} {E : BuildError → Type 0} where
  pub attempt-Keeps :
      {A : Type 0} {Q : A → Type 0} {m : Action A}
      → Keeps P E Q m
      → Keeps P E (λ o. (a : A) → o ≡ ok a → Q a) (attempt m)
  attempt-Keeps {A} {Q} {m} k = record { behind = λ b p. after (m b) (k.behind b p) }
    where
      after :
          (r : Result A × Builder)
          → Yields P E Q r
          → Yields P E (λ o. (a : A) → o ≡ ok a → Q a) (attempted r)
      after (ok a, b') (p, q) = (p, λ x e. subst Q (value_inj e) q)
      after (err e, b') (p, q) = (p, λ x e. absurd (cc e))

  pub sequel-Keeps :
      {A B : Type 0} {Q : A → Type 0} {R : B → Type 0} {m : Action A} {f : A → Action B}
      → Keeps P E Q m
      → ((a : A) → Q a → Keeps P E R (f a))
      → Keeps P E R (m >>= f)
  sequel-Keeps {A} {B} {Q} {R} {m} {f} k l = record { behind = λ b p. after (m b) (k.behind b p) }
    where
      after : (r : Result A × Builder) → Yields P E Q r → Yields P E R (sequel f r)
      after (ok a, b') (p, q) = (l a q).behind b' p
      after (err e, b') (p, q) = (p, q)

  pub then-Keeps :
      {B : Type 0} {R : B → Type 0} {m : Action (Unit {0})} {k : Action B}
      → Keeps P E Anything m
      → Keeps P E R k
      → Keeps P E R (m >> k)
  then-Keeps h l = sequel-Keeps h (λ _ _. l)

  pub modify-Keeps :
      (f : Builder → Builder) → ((b : Builder) → P b → P (f b)) → Keeps P E Anything (modify f)
  modify-Keeps f h = record { behind = λ b p. (h b p, tt) }

  pub pure-Keeps : {A : Type 0} {Q : A → Type 0} {a : A} → Q a → Keeps P E Q (pure a)
  pure-Keeps q = record { behind = λ b p. (p, q) }

  pub raise-Keeps : {A : Type 0} {Q : A → Type 0} {e : BuildError} → E e → Keeps P E Q (raise e)
  raise-Keeps q = record { behind = λ b p. (p, q) }

  pub if-Keeps :
      {A : Type 0} {Q : A → Type 0} (c : Bool) {m n : Action A}
      → (c ≡ true → Keeps P E Q m)
      → (c ≡ false → Keeps P E Q n)
      → Keeps P E Q (if c then m else n)
  if-Keeps true h k = h refl
  if-Keeps false h k = k refl

  pub when-Keeps :
      (c : Bool) {m : Action (Unit {0})} → Keeps P E Anything m → Keeps P E Anything (when c m)
  when-Keeps true h = h
  when-Keeps false h = record { behind = λ b p. (p, tt) }

  -- An action that looks at the variables first.
  pub look-Keeps :
      {A B : Type 0} {Q : A → Type 0} (f : Builder → B) (m : B → Action A)
      → ((b : Builder) → P b → Keeps P E Q (m (f b)))
      → Keeps P E Q (λ b. m (f b) b)
  look-Keeps f m h = record { behind = λ b p. (h b p).behind b p }
