-- ===== src/Base/Faults.antt =====
-- What holds of a step if it returns.
use mathlib.Core.Option.{Option, none, some}
use ompt_dependency_tracker.Base.Tests.{◌>>=◌, Returns}

-- If the step returns, the result meets P.
abbrev pub IfReturns {ℓ} : {A : Type ℓ} → Option A → (A → Type 0) → Type 0
IfReturns none P = Unit
IfReturns (some a) P = P a

pub IfReturns->>= {ℓ κ} :
    {A : Type ℓ} {B : Type κ} (P : A → Type 0) (Q : B → Type 0) (m : Option A) (f : A → Option B)
    → IfReturns m P
    → ((a : A) → P a → IfReturns (f a) Q)
    → IfReturns (m >>= f) Q
IfReturns->>= P Q none f p k = tt
IfReturns->>= P Q (some a) f p k = k a p

-- The value that a step read does not matter.
pub IfReturns-read {ℓ κ} :
    {A : Type ℓ} {B : Type κ} (Q : B → Type 0) (m : Option A) (f : A → Option B)
    → ((a : A) → IfReturns (f a) Q)
    → IfReturns (m >>= f) Q
IfReturns-read Q none f k = tt
IfReturns-read Q (some a) f k = k a

pub IfReturns-map {ℓ} :
    {A : Type ℓ} (P Q : A → Type 0) (m : Option A)
    → ((a : A) → P a → Q a)
    → IfReturns m P
    → IfReturns m Q
IfReturns-map P Q none f p = tt
IfReturns-map P Q (some a) f p = f a p

-- A step that returns, with what holds if it does.
pub Returns-both :
    {A : Type 0} (P Q R : A → Type 0) (m : Option A)
    → ((a : A) → P a → Q a → R a)
    → Returns m P
    → IfReturns m Q
    → Returns m R
Returns-both P Q R none f p q = p
Returns-both P Q R (some a) f p q = f a p q
