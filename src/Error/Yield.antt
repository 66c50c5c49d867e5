-- ===== src/Error/Yield.antt =====
-- Calls of the engine that give no error: the operations of an outcome keep that.
use vexdb.Prelude.{Option, none, some}
use vexdb.Error.{Outcome, ok, err, panic, stuck, ◌>>=◌, expect, expect_ok}

-- The outcome is no error, and a value has the property.
abbrev pub Yields {ℓ} : {A : Type ℓ} → (A → Type 0) → Outcome A → Type 0
Yields P (ok a) = P a
Yields P (err e) = ⊥
Yields P panic = Unit
Yields P stuck = Unit

abbrev pub Any {ℓ} : {A : Type ℓ} → A → Type 0
Any a = Unit

pub >>=-Yields {ℓ κ} :
    {A : Type ℓ} {B : Type κ} (P : A → Type 0) (Q : B → Type 0) (o : Outcome A) (f : A → Outcome B)
    → Yields P o
    → ((a : A) → P a → Yields Q (f a))
    → Yields Q (o >>= f)
>>=-Yields P Q (ok a) f h next = next a h
>>=-Yields P Q (err e) f h next = absurd h
>>=-Yields P Q panic f h next = tt
>>=-Yields P Q stuck f h next = tt

pub expect-Yields {ℓ} : {A : Type ℓ} (o : Option A) → Yields Any (expect o)
expect-Yields none = tt
expect-Yields (some a) = tt

pub expect_ok-Yields {ℓ} : {A : Type ℓ} (o : Outcome A) → Yields Any (expect_ok o)
expect_ok-Yields (ok a) = tt
expect_ok-Yields (err e) = tt
expect_ok-Yields panic = tt
expect_ok-Yields stuck = tt

-- What is known besides the outcome is kept.
pub expect_ok-Keeps {ℓ} :
    {A : Type ℓ} {P : Type 0} (o : Outcome A) → P → Yields (λ _. P) (expect_ok o)
expect_ok-Keeps (ok a) known = known
expect_ok-Keeps (err e) known = tt
expect_ok-Keeps panic known = tt
expect_ok-Keeps stuck known = tt
