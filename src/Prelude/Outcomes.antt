-- ===== src/Prelude/Outcomes.antt =====
-- Rust's `Result`, with `do` blocks for chains of `?`.
use mathlib.Core.Path.{◌≡◌, refl, ap}
use mathlib.Core.Logic.{◌⊎◌, inl, inr}
use mathlib.Core.Bool.{Bool, true, false}
use mathlib.Core.Option.{Option, none, some}

pub data Outcome {ℓ} (E : Type 0) (A : Type ℓ) : Type ℓ where
  ok : A → Outcome E A
  err : E → Outcome E A

infixl 5 ◌>>=◌ ◌>>◌
-- The value goes on to the next step, and an error ends the chain.
abbrev pub ◌>>=◌ {ℓ κ} :
    {Problem : Type 0} {A : Type ℓ} {B : Type κ}
    → Outcome Problem A
    → (A → Outcome Problem B)
    → Outcome Problem B
err problem >>= next = err problem
ok value >>= next = next value

abbrev pub ◌>>◌ {ℓ} :
    {Problem : Type 0} {B : Type ℓ}
    → Outcome Problem (Unit {0})
    → Outcome Problem B
    → Outcome Problem B
first >> next = first >>= λ done. next

-- `if !test { return Err(problem) }`
abbrev pub ensure : {Problem : Type 0} → Bool → Problem → Outcome Problem (Unit {0})
ensure test problem = elim test [ true ↦ ok tt | false ↦ err problem ]

-- `Option::ok_or`
abbrev pub ok_or {ℓ} : {E : Type 0} {A : Type ℓ} → Option A → E → Outcome E A
ok_or none e = err e
ok_or (some a) e = ok a

-- `Option::transpose`
abbrev pub transpose {ℓ} : {E : Type 0} {A : Type ℓ} → Option (Outcome E A) → Outcome E (Option A)
transpose none = ok none
transpose (some (ok a)) = ok (some a)
transpose (some (err e)) = err e

-- A chain that succeeds has succeeded at its first step.
pub first_step {ℓ κ} :
    {Problem : Type 0} {A : Type ℓ} {B : Type κ} (step : Outcome Problem A)
    (next : A → Outcome Problem B) {result : B}
    → (step >>= next) ≡ ok result
    → (value : A) × (step ≡ ok value) × (next value ≡ ok result)
first_step (err problem) next h = cc
first_step (ok value) next h = (value, refl, h)

pub Outcome-cases {ℓ} :
    {E : Type 0} {A : Type ℓ} (m : Outcome E A) → ((a : A) × (m ≡ ok a)) ⊎ ((e : E) × (m ≡ err e))
Outcome-cases (ok a) = inl (a, refl)
Outcome-cases (err e) = inr (e, refl)

-- What a successful outcome carries, and both parts of it where it is a pair.
pub ok-injective {ℓ} :
    {Problem : Type 0} {A : Type ℓ} {a b : A} → ◌≡◌ {A = Outcome Problem A} (ok a) (ok b) → a ≡ b
ok-injective {a = a} h = ap (λ o. elim o [ ok x ↦ x | err e ↦ a ]) h

pub ok-pair {ℓ κ} :
    {Problem : Type 0} {A : Type ℓ} {B : Type κ} {a c : A} {b d : B}
    → ◌≡◌ {A = Outcome Problem (A × B)} (ok (a, b)) (ok (c, d))
    → (a ≡ c) × (b ≡ d)
ok-pair h = let same = ok-injective h in (ap (λ p. p.0) same, ap (λ p. p.1) same)
