-- ===== src/Base/Tests.antt =====
-- Boolean tests on the native numbers, the conditional, and the chain of steps that may fault.
use Prim.Native.Nat.{ℕ, compare, Ordering}
use mathlib.Core.Path.{◌≡◌, refl}
use mathlib.Core.Logic.{◌↔◌, ◌⊎◌, inl, inr}
use mathlib.Core.Bool.{Bool, true, false}
use mathlib.Core.Option.{Option, none, some}
use native.Mathlib.Omega.{arith}

-- It computes to `compare`, which `ground` reads.
infix 50 ◌==◌
abbrev pub ◌==◌ : ℕ → ℕ → Bool
a == b = elim (compare a b) [ Ordering.eq ↦ true | _ ↦ false ]

infix 1 if◌then◌else◌
abbrev pub if◌then◌else◌ {ℓ} : {A : Type ℓ} → Bool → A → A → A
if true then x else y = x
if false then x else y = y

pub ==_iff : (a b : ℕ) → ((a == b) ≡ true) ↔ (a ≡ b)
==_iff a b = ground arith

-- To split on a computed value and keep the equation.
pub Bool-cases : (b : Bool) → (b ≡ true) ⊎ (b ≡ false)
Bool-cases true = inl refl
Bool-cases false = inr refl

pub Option-cases {ℓ} : {A : Type ℓ} (o : Option A) → (o ≡ none) ⊎ ((a : A) × (o ≡ some a))
Option-cases none = inl refl
Option-cases (some a) = inr (a, refl)

-- `none` is a fault of the C++ code: a null or dangling pointer, or an iterator past the end.
infixl 5 ◌>>=◌
abbrev pub ◌>>=◌ {ℓ κ} : {A : Type ℓ} {B : Type κ} → Option A → (A → Option B) → Option B
none >>= f = none
some a >>= f = f a

-- The step returns, with a result that meets P.
abbrev pub Returns {ℓ} : {A : Type ℓ} → Option A → (A → Type 0) → Type 0
Returns none P = ⊥
Returns (some a) P = P a

pub Returns-map {ℓ} :
    {A : Type ℓ} (P Q : A → Type 0) (m : Option A)
    → ((a : A) → P a → Q a)
    → Returns m P
    → Returns m Q
Returns-map P Q none f r = elim r [ ]
Returns-map P Q (some a) f r = f a r

-- The next step returns, too.
pub Returns->>= {ℓ κ} :
    {A : Type ℓ} {B : Type κ} (P : A → Type 0) (Q : B → Type 0) (m : Option A) (f : A → Option B)
    → ((a : A) → P a → Returns (f a) Q)
    → Returns m P
    → Returns (m >>= f) Q
Returns->>= P Q none f k r = elim r [ ]
Returns->>= P Q (some a) f k r = k a r

pub Returns-and {ℓ} :
    {A : Type ℓ} (P Q : A → Type 0) (m : Option A)
    → Returns m P
    → Returns m Q
    → Returns m (λ a. P a × Q a)
Returns-and P Q none p q = p
Returns-and P Q (some a) p q = (p, q)

pub Returns-eq :
    {A : Type 0} (P : A → Type 0) (m : Option A) → Returns m P → Returns m (λ a. P a × (m ≡ some a))
Returns-eq P none r = r
Returns-eq P (some a) r = (r, refl)

abbrev pub ltb : ℕ → ℕ → Bool
ltb a b = elim (compare a b) [ Ordering.lt ↦ true | _ ↦ false ]

abbrev pub leb : ℕ → ℕ → Bool
leb a b = elim (compare a b) [ Ordering.gt ↦ false | _ ↦ true ]
