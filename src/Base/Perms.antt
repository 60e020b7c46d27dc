-- ===== src/Base/Perms.antt =====
-- Rearrangements of lists, untruncated.
use Prim.Native.Nat.{suc}
use mathlib.Core.Path.{◌≡◌, refl, ◌∙◌, ap, subst}
use mathlib.Core.List.{List, ◌++◌, map, append_assoc, Permᴰ}
use mathlib.Core.List.Permᴰ
use ompt_dependency_tracker.Base.Lists.{All, length}

pub Permᴰ-map {ℓ κ} :
    {A : Type ℓ} {B : Type κ} (f : A → B) {xs ys : List A}
    → Permᴰ xs ys
    → Permᴰ (map f xs) (map f ys)
Permᴰ-map f Permᴰ.nil = Permᴰ.nil
Permᴰ-map f (Permᴰ.cons e p) = Permᴰ.cons (ap f e) (Permᴰ-map f p)
Permᴰ-map f (Permᴰ.swap e e') = Permᴰ.swap (ap f e) (ap f e')
Permᴰ-map f (Permᴰ.trans p q) = Permᴰ.trans (Permᴰ-map f p) (Permᴰ-map f q)

-- What holds of every item holds of them in another order.
pub Permᴰ-All {ℓ κ} :
    {A : Type ℓ} (P : A → Type κ) {xs ys : List A} → Permᴰ xs ys → All P xs → All P ys
Permᴰ-All P Permᴰ.nil h = h
Permᴰ-All P (Permᴰ.cons e p) h = (subst P e h.0, Permᴰ-All P p h.1)
Permᴰ-All P (Permᴰ.swap e e') h = (subst P e' h.1.0, (subst P e h.0, h.1.1))
Permᴰ-All P (Permᴰ.trans p q) h = Permᴰ-All P q (Permᴰ-All P p h)

-- Two blocks in front change places.
pub Permᴰ-blocks {ℓ} :
    {A : Type ℓ} (xs ys zs : List A) → Permᴰ (ys ++ (xs ++ zs)) ((xs ++ ys) ++ zs)
Permᴰ-blocks xs ys zs =
    subst (λ l. Permᴰ l ((xs ++ ys) ++ zs)) (append_assoc ys xs zs)
      (Permᴰ.append_right zs (Permᴰ.append_comm ys xs))

pub Permᴰ-length {ℓ} : {A : Type ℓ} {xs ys : List A} → Permᴰ xs ys → length xs ≡ length ys
Permᴰ-length Permᴰ.nil = refl
Permᴰ-length (Permᴰ.cons e p) = ap suc (Permᴰ-length p)
Permᴰ-length (Permᴰ.swap e e') = refl
Permᴰ-length (Permᴰ.trans p q) = Permᴰ-length p ∙ Permᴰ-length q
