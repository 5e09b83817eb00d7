-- ===== src/Prelude/Results.antt =====
-- Fallible code: Rust's `Result`, with the error type of each component.
use mathlib.Core.Path.{◌≡◌, refl}
use mathlib.Core.Logic.{◌≢◌, ◌⊎◌, inl, inr}
use mathlib.Core.Bool.{Bool, true, false}
use mathlib.Core.Option.{Option, none, some}

pub data Result {ℓ κ} (E : Type ℓ) (A : Type κ) : Type (ℓ ⊔ κ) where
  ok : A → Result E A
  err : E → Result E A

-- The `?` operator.
infixl 5 ◌>>=◌ ◌>>◌
abbrev pub ◌>>=◌ {ℓ κ μ} :
    {Fault : Type ℓ} {A : Type κ} {B : Type μ}
    → Result Fault A
    → (A → Result Fault B)
    → Result Fault B
err fault >>= next = err fault
ok value >>= next = next value

abbrev pub ◌>>◌ {ℓ κ} : {E : Type ℓ} {B : Type κ} → Result E (Unit {0}) → Result E B → Result E B
m >> k = m >>= λ _. k

-- An early return of an error.
abbrev pub fail_if {ℓ} : {E : Type ℓ} → Bool → E → Result E (Unit {0})
fail_if true e = err e
fail_if false e = ok tt

abbrev pub ok_or {ℓ κ} : {E : Type ℓ} {A : Type κ} → Option A → E → Result E A
ok_or none e = err e
ok_or (some a) e = ok a

-- A chain does not answer an error that none of its steps answers.
pub bind-ne-err {ℓ κ μ} :
    {Fault : Type ℓ} {A : Type κ} {B : Type μ} (m : Result Fault A) (next : A → Result Fault B)
    (fault : Fault)
    → m ≢ err fault
    → ((value : A) → next value ≢ err fault)
    → (m >>= next) ≢ err fault
bind-ne-err (ok value) next fault first rest = rest value
bind-ne-err (err other) next fault first rest = λ e. first (cc)

pub Result-cases {ℓ κ} :
    {E : Type ℓ} {A : Type κ} (r : Result E A)
    → ((fault : E) × (r ≡ err fault)) ⊎ ((value : A) × (r ≡ ok value))
Result-cases (err fault) = inl (fault, refl)
Result-cases (ok value) = inr (value, refl)

-- A chain that succeeds succeeds at both of its steps.
pub bind-ok {ℓ κ μ} :
    {E : Type ℓ} {A : Type κ} {B : Type μ} (m : Result E A) (next : A → Result E B) (value : B)
    → (m >>= next) ≡ ok value
    → (first : A) × ((m ≡ ok first) × (next first ≡ ok value))
bind-ok (ok first) next value h = (first, (refl, h))
bind-ok (err fault) next value h = absurd (cc)
