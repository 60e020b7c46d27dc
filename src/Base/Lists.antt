-- ===== src/Base/Lists.antt =====
-- Lists measured and indexed by native numbers, under the library's names.
use Prim.Native.Nat.{ℕ, zero, suc, ◌+◌, ◌<◌}
use Prim.Native.Nat.add
use mathlib.Core.Path.{◌≡◌, refl, sym, subst, ap, ◌∙◌}
use mathlib.Core.List.{List, [], ◌∷◌, ◌++◌, append_assoc, map, Memᴰ}
use mathlib.Core.List.Memᴰ
use mathlib.Core.Logic.{◌↔◌, ◌⊎◌, inl, inr, ⊎_elim}
use mathlib.Core.Option.{Option, none, some}
use native.Mathlib.Omega.{arith}

module _ {ℓ} {A : Type ℓ} where
  abbrev pub length : List A → ℕ
  length [] = 0
  length (x ∷ xs) = suc (length xs)

  abbrev pub get_elem? : List A → ℕ → Option A
  get_elem? [] i = none
  get_elem? (x ∷ xs) zero = some x
  get_elem? (x ∷ xs) (suc i) = get_elem? xs i

  -- A write out of bounds changes nothing.
  abbrev pub set : List A → ℕ → A → List A
  set [] i v = []
  set (x ∷ xs) zero v = v ∷ xs
  set (x ∷ xs) (suc i) v = x ∷ set xs i v

  abbrev pub replicate : ℕ → A → List A
  replicate zero a = []
  replicate (suc n) a = a ∷ replicate n a

  abbrev pub take : ℕ → List A → List A
  take zero xs = []
  take (suc n) [] = []
  take (suc n) (x ∷ xs) = x ∷ take n xs

  pub length-append : (xs ys : List A) → length (xs ++ ys) ≡ length xs + length ys
  length-append [] ys = omega arith
  length-append (x ∷ xs) ys = omega (arith, length-append xs ys)

module _ {ℓ} {A : Type ℓ} where
  pub length-set : (xs : List A) (i : ℕ) (v : A) → length (set xs i v) ≡ length xs
  length-set [] i v = refl
  length-set (x ∷ xs) zero v = refl
  length-set (x ∷ xs) (suc i) v = ap suc (length-set xs i v)

  pub get_elem?-append_length :
      (xs : List A) (x : A) (ys : List A) → get_elem? (xs ++ x ∷ ys) (length xs) ≡ some x
  get_elem?-append_length [] x ys = refl
  get_elem?-append_length (z ∷ xs) x ys = get_elem?-append_length xs x ys

  pub get_elem?-append_last : (xs : List A) (x : A) → get_elem? (xs ++ x ∷ []) (length xs) ≡ some x
  get_elem?-append_last [] x = refl
  get_elem?-append_last (y ∷ xs) x = get_elem?-append_last xs x

  pub length-replicate : (n : ℕ) (a : A) → length (replicate n a) ≡ n
  length-replicate zero a = refl
  length-replicate (suc n) a = ap suc (length-replicate n a)

  pub replicate-add : (m n : ℕ) (a : A) → replicate m a ++ replicate n a ≡ replicate (m + n) a
  replicate-add zero n a = rw (add.zero n) refl
  replicate-add (suc m) n a = rw (add.suc m n) (ap (◌∷◌ a) (replicate-add m n a))

  pub append-replicate :
      (b : List A) (m n : ℕ) (a : A)
      → (b ++ replicate m a) ++ replicate n a ≡ b ++ replicate (m + n) a
  append-replicate b m n a =
      append_assoc b (replicate m a) (replicate n a) ∙ ap (λ l. b ++ l) (replicate-add m n a)

module _ {ℓ} {A : Type ℓ} where
  pub Memᴰ-cons : (a x : A) (xs : List A) → Memᴰ a (x ∷ xs) ↔ ((a ≡ x) ⊎ Memᴰ a xs)
  Memᴰ-cons a x xs = (Memᴰ.cases_cons, ⊎_elim Memᴰ.head Memᴰ.tail)

  pub Memᴰ-append : (a : A) (xs ys : List A) → Memᴰ a (xs ++ ys) ↔ (Memᴰ a xs ⊎ Memᴰ a ys)
  Memᴰ-append a xs ys = (Memᴰ.append_cases xs, ⊎_elim (Memᴰ.append_left ys) (Memᴰ.append_right xs))

  pub Memᴰ-replicate : (a x : A) (n : ℕ) → Memᴰ a (replicate n x) ↔ ((x ≡ a) × (0 < n))
  Memᴰ-replicate a x zero = (λ m. absurd (Memᴰ.not-nil m), λ p. absurd (omega arith))
  Memᴰ-replicate a x (suc n) = ground (arith, Memᴰ-cons a x (replicate n x), Memᴰ-replicate a x n)

module _ {ℓ} {A : Type ℓ} where
  pub get_elem?-append :
      (xs ys : List A) (i : ℕ) (x : A) → get_elem? xs i ≡ some x → get_elem? (xs ++ ys) i ≡ some x
  get_elem?-append [] ys i x e = cc
  get_elem?-append (y ∷ xs) ys zero x e = e
  get_elem?-append (y ∷ xs) ys (suc i) x e = get_elem?-append xs ys i x e

  pub get_elem?-concat :
      (xs : List A) (x y : A) (i : ℕ)
      → get_elem? (xs ++ x ∷ []) i ≡ some y
      → ((y ≡ x) × (i ≡ length xs)) ⊎ (get_elem? xs i ≡ some y)
  get_elem?-concat [] x y zero e = ground arith
  get_elem?-concat [] x y (suc i) e = cc
  get_elem?-concat (z ∷ xs) x y zero e = inr e
  get_elem?-concat (z ∷ xs) x y (suc i) e = ground (arith, get_elem?-concat xs x y i e)

  -- A write is read back at its index, if that is in range, and nowhere else.
  pub get_elem?-set :
      (xs : List A) (i j : ℕ) (v x : A)
      → get_elem? (set xs i v) j ≡ some x
      → ((i ≡ j) × (x ≡ v)) ⊎ (get_elem? xs j ≡ some x)
  get_elem?-set [] i j v x e = cc
  get_elem?-set (y ∷ xs) zero zero v x e = ground arith
  get_elem?-set (y ∷ xs) zero (suc j) v x e = inr e
  get_elem?-set (y ∷ xs) (suc i) zero v x e = inr e
  get_elem?-set (y ∷ xs) (suc i) (suc j) v x e = ground (arith, get_elem?-set xs i j v x e)

  pub get_elem?-set_self :
      (xs : List A) (i : ℕ) (v x : A) → get_elem? xs i ≡ some x → get_elem? (set xs i v) i ≡ some v
  get_elem?-set_self [] i v x e = cc
  get_elem?-set_self (y ∷ xs) zero v x e = refl
  get_elem?-set_self (y ∷ xs) (suc i) v x e = get_elem?-set_self xs i v x e

  pub get_elem?-set_ne :
      (xs : List A) (i j : ℕ) (v : A) → (i ≡ j → ⊥) → get_elem? (set xs i v) j ≡ get_elem? xs j
  get_elem?-set_ne [] i j v n = refl
  get_elem?-set_ne (y ∷ xs) zero zero v n = absurd (n refl)
  get_elem?-set_ne (y ∷ xs) zero (suc j) v n = refl
  get_elem?-set_ne (y ∷ xs) (suc i) zero v n = refl
  get_elem?-set_ne (y ∷ xs) (suc i) (suc j) v n = get_elem?-set_ne xs i j v (λ e. n (ap suc e))

-- A predicate of every item of a list.
abbrev pub All {ℓ κ} : {A : Type ℓ} → (A → Type κ) → List A → Type κ
All P [] = Unit
All P (x ∷ xs) = P x × All P xs

module _ {ℓ κ} {A : Type ℓ} where
  pub All-append : (P : A → Type κ) (xs ys : List A) → All P xs → All P ys → All P (xs ++ ys)
  All-append P [] ys p q = q
  All-append P (x ∷ xs) ys p q = (p.0, All-append P xs ys p.1 q)

  pub All-Memᴰ : (P : A → Type κ) {x : A} (xs : List A) → All P xs → Memᴰ x xs → P x
  All-Memᴰ P [] h m = absurd (Memᴰ.not-nil m)
  All-Memᴰ P (y ∷ xs) h m = elim (Memᴰ.cases_cons m) [
    | inl same ↦ subst P (sym same) h.0
    | inr later ↦ All-Memᴰ P xs h.1 later
  ]

  pub All-every : (P : A → Type κ) (xs : List A) → ((x : A) → P x) → All P xs
  All-every P [] h = tt
  All-every P (x ∷ xs) h = (h x, All-every P xs h)

  pub All-append_right : (P : A → Type κ) (xs ys : List A) → All P (xs ++ ys) → All P ys
  All-append_right P [] ys p = p
  All-append_right P (x ∷ xs) ys p = All-append_right P xs ys p.1

  pub All-map {η} :
      (P : A → Type κ) (Q : A → Type η) (xs : List A) → ((x : A) → P x → Q x) → All P xs → All Q xs
  All-map P Q [] f p = tt
  All-map P Q (x ∷ xs) f p = (f x p.0, All-map P Q xs f p.1)

  pub All-replicate : (P : A → Type κ) (n : ℕ) (x : A) → P x → All P (replicate n x)
  All-replicate P zero x p = tt
  All-replicate P (suc n) x p = (p, All-replicate P n x p)

pub length-map {ℓ κ} :
    {A : Type ℓ} {B : Type κ} (xs : List A) (f : A → B) → length (map f xs) ≡ length xs
length-map [] f = refl
length-map (x ∷ xs) f = ap suc (length-map xs f)

pub lt-length_of_get_elem? {ℓ} :
    {A : Type ℓ} (xs : List A) (i : ℕ) (x : A) → get_elem? xs i ≡ some x → i < length xs
lt-length_of_get_elem? [] i x e = cc
lt-length_of_get_elem? (y ∷ xs) zero x e = omega arith
lt-length_of_get_elem? (y ∷ xs) (suc i) x e = omega (arith, lt-length_of_get_elem? xs i x e)

pub nil_of_length {ℓ} : {A : Type ℓ} (xs : List A) → length xs ≡ 0 → xs ≡ []
nil_of_length [] e = refl
nil_of_length (x ∷ xs) e = absurd (omega arith)
