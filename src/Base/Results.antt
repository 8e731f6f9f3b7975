-- ===== src/Base/Results.antt =====
-- Rust's `Result`, its `?` as a bind, and the two ways in which the handlers return early.
use mathlib.Core.Path.{◌≡◌, refl}
use mathlib.Core.Logic.{◌⊎◌, inl, inr}
use mathlib.Core.Bool.{Bool, true, false}
use mathlib.Core.Option.{Option, none, some}

pub data Result {ℓ κ} (E : Type κ) (A : Type ℓ) : Type (ℓ ⊔ κ) where
  ok : A → Result E A
  err : E → Result E A

infixl 5 ◌>>=◌ ◌>>◌
-- `r?`, and then the rest of the body.
abbrev pub ◌>>=◌ {ℓ κ μ} :
    {E : Type μ} {T : Type ℓ} {U : Type κ} → Result E T → (T → Result E U) → Result E U
err why >>= rest = err why
ok value >>= rest = rest value

abbrev pub ◌>>◌ {ℓ μ} : {E : Type μ} {U : Type ℓ} → Result E (Unit {0}) → Result E U → Result E U
check >> rest = check >>= λ _. rest

-- `if c { return Err(e); }`
abbrev pub err_if {μ} : {E : Type μ} → Bool → E → Result E (Unit {0})
err_if true e = err e
err_if false e = ok tt

-- `o.ok_or(e)?`
abbrev pub ok_or {ℓ μ} : {E : Type μ} {A : Type ℓ} → Option A → E → Result E A
ok_or none e = err e
ok_or (some a) e = ok a

pub Result-cases {ℓ μ} :
    {E : Type μ} {A : Type ℓ} (r : Result E A) → ((a : A) × (r ≡ ok a)) ⊎ ((e : E) × (r ≡ err e))
Result-cases (ok a) = inl (a, refl)
Result-cases (err e) = inr (e, refl)
