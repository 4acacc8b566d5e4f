-- ===== src/Common/Outcomes.antt =====
-- How a part of the program ended: with its result, in an access or a shift that has no meaning in C,
-- not within the fuel, or with the program.
use mathlib.Core.Option.{Option, none, some}
use mathlib.Core.Path.{◌≡◌, refl, subst}

pub data Outcome {ℓ} (A : Type ℓ) : Type ℓ where
  finished : A → Outcome A
  undefined out_of_fuel exits : Outcome A

infixl 5 ◌>=>◌
abbrev pub ◌>=>◌ {ℓ κ} : {A : Type ℓ} {B : Type κ} → Outcome A → (A → Outcome B) → Outcome B
o >=> f = elim o [
  | finished a ↦ f a
  | undefined ↦ undefined
  | out_of_fuel ↦ out_of_fuel
  | exits ↦ exits
]

-- A value that an operation has, or it has no meaning there; or the program ends there.
abbrev pub defined {ℓ} : {A : Type ℓ} → Option A → Outcome A
defined o = elim o [ none ↦ undefined | some a ↦ finished a ]

abbrev pub or_exit {ℓ} : {A : Type ℓ} → Option A → Outcome A
or_exit o = elim o [ none ↦ exits | some a ↦ finished a ]

pub finished-injective {ℓ} : {A : Type ℓ} {a b : A} → finished a ≡ finished b → a ≡ b
finished-injective e = cc

-- What an operation comes to, where it comes to anything.
pub record Yields {ℓ} {A : Type ℓ} (P : A → Type ℓ) (o : Outcome A) : Type ℓ where
  pub yield : (a : A) → o ≡ finished a → P a

pub result_Yields {ℓ} : {A : Type ℓ} (o : Outcome A) → Yields (λ a. o ≡ finished a) o
result_Yields o = record { yield = λ b e. e }

module _ {ℓ} {A : Type ℓ} where
  pub finished_Yields : (P : A → Type ℓ) (a : A) → P a → Yields P (finished a)
  finished_Yields P a h = record { yield = λ b e. subst P (finished-injective e) h }

  pub exits_Yields : (P : A → Type ℓ) → Yields P exits
  exits_Yields P = record { yield = λ b e. absurd cc }

  pub then_Yields :
      {B : Type ℓ} (Q : B → Type ℓ) (P : A → Type ℓ) (o : Outcome B) (f : B → Outcome A)
      → Yields Q o
      → ((b : B) → Q b → Yields P (f b))
      → Yields P (o >=> f)
  then_Yields Q P (finished b) f h next = next b (h.yield b refl)
  then_Yields Q P undefined f h next = record { yield = λ b e. absurd cc }
  then_Yields Q P out_of_fuel f h next = record { yield = λ b e. absurd cc }
  then_Yields Q P exits f h next = record { yield = λ b e. absurd cc }

  -- What comes first does not matter.
  pub pass_Yields :
      {B : Type ℓ} (P : A → Type ℓ) (o : Outcome B) (f : B → Outcome A)
      → ((b : B) → Yields P (f b))
      → Yields P (o >=> f)
  pass_Yields P o f next = then_Yields (λ b. o ≡ finished b) P o f (result_Yields o) (λ b e. next b)

  pub defined-Yields :
      (P : A → Type ℓ) (o : Option A) → ((a : A) → o ≡ some a → P a) → Yields P (defined o)
  defined-Yields P none h = record { yield = λ a e. absurd cc }
  defined-Yields P (some a) h = finished_Yields P a (h a refl)

  pub or_exit-Yields :
      (P : A → Type ℓ) (o : Option A) → ((a : A) → o ≡ some a → P a) → Yields P (or_exit o)
  or_exit-Yields P none h = exits_Yields P
  or_exit-Yields P (some a) h = finished_Yields P a (h a refl)
