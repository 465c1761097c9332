-- ===== src/Phase/Renumber/Plan.antt =====
-- The list of renames: what the two sorts keep of it, and when each rename finds its new name free.
use Prim.Native.Nat.{Ordering, lt, eq, gt}
use aegis_workers.Base.{
  ◌≡◌, inl, inr, ◌⊎◌, ◌&&◌, ◌||◌, List, [], ◌∷◌, ◌==◌, ltb, leb, Text, Bool-cases, All,
}
use aegis_workers.Phase.Number.{compare_phase_num}
use aegis_workers.Phase.Directories.{insert_phase, sort_phases}
use aegis_workers.Phase.Renumber.{Item, insert_item, sort_items}
use aegis_workers.Phase.Renumber.Steps.{In}

abbrev pub Pairwise {ℓ κ} : {A : Type ℓ} → (A → A → Type κ) → List A → Type (ℓ ⊔ κ)
Pairwise R [] = Unit
Pairwise R (x ∷ xs) = All (R x) xs × Pairwise R xs

-- What a sort of names keeps
module _ (locale : Text → Text → Ordering) where
  pub All-insert_phase :
      (P : Text → Type 0) (x : Text) (xs : List Text)
      → P x
      → All P xs
      → All P (insert_phase locale x xs)
  unfolding insert_phase
  All-insert_phase P x [] p h = (p, tt)
  All-insert_phase P x (y ∷ ys) p (q, h) =
      go (compare_phase_num locale x y) (All-insert_phase P x ys p h)
    where
      go :
          (o : Ordering)
          → All P (insert_phase locale x ys)
          → All P (elim o [ gt ↦ y ∷ insert_phase locale x ys | eq ↦ x ∷ y ∷ ys | lt ↦ x ∷ y ∷ ys ])
      go gt k = (q, k)
      go eq k = (p, (q, h))
      go lt k = (p, (q, h))

  pub All-sort_phases :
      (P : Text → Type 0) (xs : List Text) → All P xs → All P (sort_phases locale xs)
  unfolding sort_phases
  All-sort_phases P [] h = tt
  All-sort_phases P (x ∷ xs) (p, h) =
      All-insert_phase P x (sort_phases locale xs) p (All-sort_phases P xs h)

  Pairwise-insert_phase :
      (R : Text → Text → Type 0)
      → ((a b : Text) → R a b → R b a)
      → (x : Text) (xs : List Text) → All (R x) xs
      → Pairwise R xs
      → Pairwise R (insert_phase locale x xs)
  unfolding insert_phase
  Pairwise-insert_phase R flip x [] h k = (tt, tt)
  Pairwise-insert_phase R flip x (y ∷ ys) (p, h) (q, k) =
      go (compare_phase_num locale x y) (Pairwise-insert_phase R flip x ys h k)
        (All-insert_phase (R y) x ys (flip x y p) q)
    where
      go :
          (o : Ordering)
          → Pairwise R (insert_phase locale x ys)
          → All (R y) (insert_phase locale x ys)
          → Pairwise R
              (elim o [ gt ↦ y ∷ insert_phase locale x ys | eq ↦ x ∷ y ∷ ys | lt ↦ x ∷ y ∷ ys ])
      go gt i j = (j, i)
      go eq i j = ((p, h), (q, k))
      go lt i j = ((p, h), (q, k))

  pub Pairwise-sort_phases :
      (R : Text → Text → Type 0)
      → ((a b : Text) → R a b → R b a)
      → (xs : List Text) → Pairwise R xs
      → Pairwise R (sort_phases locale xs)
  unfolding sort_phases
  Pairwise-sort_phases R flip [] h = tt
  Pairwise-sort_phases R flip (x ∷ xs) (p, h) =
      Pairwise-insert_phase R flip x (sort_phases locale xs) (All-sort_phases (R x) xs p)
        (Pairwise-sort_phases R flip xs h)

-- What the sort of items keeps
All-insert_item :
    (P : Item → Type 0) (x : Item) (xs : List Item) → P x → All P xs → All P (insert_item x xs)
All-insert_item P x [] p h = (p, tt)
All-insert_item P (n, m, r) ((k, l, q) ∷ xs) p (o, h) =
    elim (Bool-cases (ltb k n || (k == n && leb l m))) [
      | inl e ↦ rw e (p, (o, h))
      | inr e ↦ rw e (o, All-insert_item P (n, m, r) xs p h)
    ]

pub All-sort_items : (P : Item → Type 0) (xs : List Item) → All P xs → All P (sort_items xs)
All-sort_items P [] h = tt
All-sort_items P (x ∷ xs) (p, h) = All-insert_item P x (sort_items xs) p (All-sort_items P xs h)

Pairwise-insert_item :
    (R : Item → Item → Type 0)
    → ((a b : Item) → R a b → R b a)
    → (x : Item) (xs : List Item) → All (R x) xs
    → Pairwise R xs
    → Pairwise R (insert_item x xs)
Pairwise-insert_item R flip x [] h k = (tt, tt)
Pairwise-insert_item R flip (n, m, r) ((k, l, q) ∷ xs) (p, h) (o, i) =
    elim (Bool-cases (ltb k n || (k == n && leb l m))) [
      | inl e ↦ rw e ((p, h), (o, i))
      | inr e ↦ rw e (
        All-insert_item (R (k, l, q)) (n, m, r) xs (flip (n, m, r) (k, l, q) p) o,
        Pairwise-insert_item R flip (n, m, r) xs h i,
      )
    ]

pub Pairwise-sort_items :
    (R : Item → Item → Type 0)
    → ((a b : Item) → R a b → R b a)
    → (xs : List Item) → Pairwise R xs
    → Pairwise R (sort_items xs)
Pairwise-sort_items R flip [] h = tt
Pairwise-sort_items R flip (x ∷ xs) (p, h) =
    Pairwise-insert_item R flip x (sort_items xs) (All-sort_items (R x) xs p)
      (Pairwise-sort_items R flip xs h)

-- Both sorts keep every item.
module _ (locale : Text → Text → Ordering) where
  In-insert_phase : (n x : Text) (xs : List Text) → In n (x ∷ xs) → In n (insert_phase locale x xs)
  unfolding insert_phase
  In-insert_phase n x [] h = h
  In-insert_phase n x (y ∷ ys) h =
      go (compare_phase_num locale x y) h (λ i. In-insert_phase n x ys i)
    where
      go :
          (o : Ordering)
          → In n (x ∷ y ∷ ys)
          → (In n (x ∷ ys) → In n (insert_phase locale x ys))
          → In n (elim o [ gt ↦ y ∷ insert_phase locale x ys | eq ↦ x ∷ y ∷ ys | lt ↦ x ∷ y ∷ ys ])
      go gt (inl e) k = inr (k (inl e))
      go gt (inr (inl e)) k = inl e
      go gt (inr (inr i)) k = inr (k (inr i))
      go eq i k = i
      go lt i k = i

  pub In-sort_phases : (n : Text) (xs : List Text) → In n xs → In n (sort_phases locale xs)
  unfolding sort_phases
  In-sort_phases n [] h = h
  In-sort_phases n (x ∷ xs) (inl e) = In-insert_phase n x (sort_phases locale xs) (inl e)
  In-sort_phases n (x ∷ xs) (inr i) =
      In-insert_phase n x (sort_phases locale xs) (inr (In-sort_phases n xs i))

abbrev pub InItems : Item → List Item → Type 0
InItems x [] = ⊥
InItems x (y ∷ ys) = (x ≡ y) ⊎ InItems x ys

InItems-insert_item :
    (y x : Item) (xs : List Item) → InItems y (x ∷ xs) → InItems y (insert_item x xs)
InItems-insert_item y x [] h = h
InItems-insert_item y (n, m, r) ((k, l, q) ∷ xs) h =
    elim (Bool-cases (ltb k n || (k == n && leb l m))) [
      | inl e ↦ rw e h
      | inr e ↦ rw e (elim h [
        | inl p ↦ inr (InItems-insert_item y (n, m, r) xs (inl p))
        | inr (inl p) ↦ inl p
        | inr (inr i) ↦ inr (InItems-insert_item y (n, m, r) xs (inr i))
      ])
    ]

pub InItems-sort_items : (y : Item) (xs : List Item) → InItems y xs → InItems y (sort_items xs)
InItems-sort_items y [] h = h
InItems-sort_items y (x ∷ xs) (inl e) = InItems-insert_item y x (sort_items xs) (inl e)
InItems-sort_items y (x ∷ xs) (inr i) =
    InItems-insert_item y x (sort_items xs) (inr (InItems-sort_items y xs i))
