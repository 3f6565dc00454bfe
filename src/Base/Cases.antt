-- ===== src/Base/Cases.antt =====
-- Facts about all branches of a term.
use mathlib.Core.Path.{◌≡◌, refl}
use mathlib.Core.Bool.{Bool, true, false}
use mathlib.Core.Option.{Option, none, some}
use murphy.Base.Tests.{if◌then◌else◌}

-- A fact about both branches of a test, and about both cases of a search.
module _ {A : Type 0} (K : A → Type 0) where
  pub if_cases :
      (b : Bool) (x y : A) → (b ≡ true → K x) → (b ≡ false → K y) → K (if b then x else y)
  if_cases true x y h k = h refl
  if_cases false x y h k = k refl

  pub option_cases :
      {B : Type 0} (o : Option B) (x : A) (f : B → A)
      → K x
      → ((b : B) → o ≡ some b → K (f b))
      → K (elim o [ none ↦ x | some b ↦ f b ])
  option_cases none x f h k = h
  option_cases (some b) x f h k = k b refl

  -- The same with what the search's failure tells.
  pub option_split :
      {B : Type 0} (o : Option B) (x : A) (f : B → A)
      → (o ≡ none → K x)
      → ((b : B) → o ≡ some b → K (f b))
      → K (elim o [ none ↦ x | some b ↦ f b ])
  option_split none x f h k = h refl
  option_split (some b) x f h k = k b refl

-- A test whose result is known.
module _ {A : Type 0} where
  pub if_true : (b : Bool) (x y : A) → b ≡ true → (if b then x else y) ≡ x
  if_true b x y h = rw h refl

  pub if_false : (b : Bool) (x y : A) → b ≡ false → (if b then x else y) ≡ y
  if_false b x y h = rw h refl
