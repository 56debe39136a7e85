-- ===== src/Prelude/Results.antt =====
-- A Go pair `(value, error)` of which exactly one half counts.
use mathlib.Core.Path.{◌≡◌, refl}
use mathlib.Core.Logic.{◌⊎◌, inl, inr}

pub data Result {ℓ κ} (E : Type ℓ) (A : Type κ) : Type (ℓ ⊔ κ) where
  ok : A → Result E A
  err : E → Result E A

-- `if err != nil { return err }`, then the rest.
infixl 5 ◌>>=◌
abbrev pub ◌>>=◌ {ℓ κ μ} :
    {E : Type ℓ} {A : Type κ} {B : Type μ} → Result E A → (A → Result E B) → Result E B
ok value >>= rest = rest value
err failure >>= rest = err failure

-- The two ways in which a call returns, with the equation.
pub Result-cases {ℓ κ} :
    {E : Type ℓ} {A : Type κ} (call : Result E A)
    → ((value : A) × (call ≡ ok value)) ⊎ ((failure : E) × (call ≡ err failure))
Result-cases (err failure) = inr (failure, refl)
Result-cases (ok value) = inl (value, refl)

-- A chain that succeeds has a first call that does, and a rest that does on its value.
pub >>=-eq-ok {ℓ κ μ} :
    {E : Type ℓ} {A : Type κ} {B : Type μ} (call : Result E A) (rest : A → Result E B) {final : B}
    → (call >>= rest) ≡ ok final
    → (value : A) × (call ≡ ok value) × (rest value ≡ ok final)
>>=-eq-ok (err failure) rest eq = cc
>>=-eq-ok (ok value) rest eq = (value, refl, eq)
