-- ===== src/Table/Laws.antt =====
-- Lookup laws of the tables.
use ompt_dependency_tracker.Base.{
  ℕ, ◌==◌, if◌then◌else◌, ◌≡◌, ◌≢◌, refl, List, [], ◌∷◌, ◌++◌, none, some, arith, inl, inr,
  Option-cases, Bool-cases, All, All-append, All-map, subst,
}
use ompt_dependency_tracker.Table.{find, update, insert, append_to, bucket}

module _ {ℓ} {V : Type ℓ} where
  pub find-append :
      (k j : ℕ) (v : V) (m : List (ℕ × V))
      → find j (m ++ (k, v) ∷ [])
        ≡ elim (find j m) [ some w ↦ some w | none ↦ if k == j then some v else none ]
  unfolding find
  find-append k j v [] = refl
  find-append k j v ((i, w) ∷ m) = ground (arith, find-append k j v m)

  pub find-update :
      (k j : ℕ) (f : V → V) (m : List (ℕ × V))
      → find j (update k f m)
        ≡ elim (find j m) [ some w ↦ some (if k == j then f w else w) | none ↦ none ]
  unfolding find update
  find-update k j f [] = refl
  find-update k j f ((i, w) ∷ m) = ground (arith, find-update k j f m)

  pub find-insert :
      (k j : ℕ) (v : V) (m : List (ℕ × V))
      → find j (insert k v m)
        ≡ elim (find j m) [ some w ↦ some w | none ↦ if k == j then some v else none ]
  unfolding insert
  find-insert k j v m = elim (Option-cases (find k m)) [
    | inl e ↦ rw (e, insert) (find-append k j v m)
    | inr (w, e) ↦ rw (e, insert) (ground arith)
  ]

pub bucket-append_to :
    (k x j : ℕ) (m : List (ℕ × List ℕ))
    → bucket j (append_to k x m) ≡ (if k == j then bucket j m ++ x ∷ [] else bucket j m)
unfolding append_to
bucket-append_to k x j m =
    ground (arith, find-update k j (λ (l : List ℕ). l ++ x ∷ []) m, find-insert k j (x ∷ []) m)

module _ {ℓ κ} {V : Type ℓ} (P : ℕ × V → Type κ) where
  pub All-find : (k : ℕ) (v : V) (m : List (ℕ × V)) → All P m → find k m ≡ some v → P (k, v)
  unfolding find
  All-find k v [] p e = cc
  All-find k v ((j, w) ∷ m) p e = elim (Bool-cases (j == k)) [
    | inl hit ↦
        let same_key : j ≡ k = ground arith in
        let same_value : w ≡ v = ground arith in
        subst (λ x. P (x, v)) same_key (subst (λ x. P (j, x)) same_value p.0)
    | inr miss ↦ All-find k v m p.1 (rw (miss, find) at e)
  ]

  pub All-insert : (k : ℕ) (v : V) (m : List (ℕ × V)) → All P m → P (k, v) → All P (insert k v m)
  unfolding insert
  All-insert k v m p q = elim (Option-cases (find k m)) [
    | inl e ↦ rw (e, insert) (All-append P m ((k, v) ∷ []) p (q, tt))
    | inr (w, e) ↦ rw (e, insert) p
  ]

-- Every key meets K, and every entry under it meets Q.
abbrev pub Entries : (ℕ → Type 0) → (ℕ → Type 0) → List (ℕ × List ℕ) → Type 0
Entries K Q m = All (λ e. K e.0 × All Q e.1) m

module _ (K Q : ℕ → Type 0) where
  Entries-update :
      (k x : ℕ) (m : List (ℕ × List ℕ))
      → Q x
      → Entries K Q m
      → Entries K Q (update k (λ l. l ++ x ∷ []) m)
  unfolding update
  Entries-update k x [] q es = tt
  Entries-update k x ((j, l) ∷ m) q es = elim (Bool-cases (j == k)) [
    | inl hit ↦ rw (hit, update) ((es.0.0, All-append Q l (x ∷ []) es.0.1 (q, tt)), es.1)
    | inr miss ↦ rw (miss, update) (es.0, Entries-update k x m q es.1)
  ]

  pub Entries-append_to :
      (k x : ℕ) (m : List (ℕ × List ℕ)) → K k → Q x → Entries K Q m → Entries K Q (append_to k x m)
  unfolding append_to
  Entries-append_to k x m kk q es = elim (Option-cases (find k m)) [
    | inl e ↦ rw (e, append_to) (All-insert (λ e. K e.0 × All Q e.1) k (x ∷ []) m es (kk, (q, tt)))
    | inr (l, e) ↦ rw (e, append_to) (Entries-update k x m q es)
  ]

  pub Entries-find :
      (k : ℕ) (l : List ℕ) (m : List (ℕ × List ℕ)) → Entries K Q m → find k m ≡ some l → All Q l
  Entries-find k l m es e = (All-find (λ e. K e.0 × All Q e.1) k l m es e).1

pub Entries-map :
    (K K' Q Q' : ℕ → Type 0) (m : List (ℕ × List ℕ))
    → ((k : ℕ) → K k → K' k)
    → ((x : ℕ) → Q x → Q' x)
    → Entries K Q m
    → Entries K' Q' m
Entries-map K K' Q Q' m f g = All-map _ _ m (λ e p. (f e.0 p.0, All-map Q Q' e.1 g p.1))

-- A key that leads to q, and not to r.
pub find-ne : (m : List (ℕ × ℕ)) (k q r : ℕ) → find k m ≡ some q → find k m ≢ some r → q ≢ r
find-ne m k q r e n = ground arith
