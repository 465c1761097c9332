-- ===== src/Phase/Renumber/Names.antt =====
-- The names that the two functions leave.
use mathlib.Core.Path.{subst}
use aegis_workers.Base.{
  ◌≡◌, ◌≢◌, refl, sym, ◌∙◌, inl, inr, Bool, true, false, ◌&&◌, ◌||◌, not, any, all, Option, none,
  some, List, [], ◌∷◌, Text, text_eq, text_eq_iff, Option-cases, All, and-eq-true, arith,
}
use aegis_workers.Phase.Renumber.{Item, items_of}
use aegis_workers.Phase.Renumber.Steps.{In, each}
use aegis_workers.Phase.Renumber.Plan.{Pairwise}
use aegis_workers.Phase.Renumber.Laws.{Differ}

abbrev pub includes : List Text → Text → Bool
includes ns x = any (text_eq x) ns

abbrev pub distinct : List Text → Bool
distinct [] = true
distinct (x ∷ xs) = not (includes xs x) && distinct xs

pub All-at : (P : Text → Type 0) (x : Text) (ns : List Text) → All P ns → In x ns → P x
All-at P x [] h i = absurd i
All-at P x (n ∷ ns) (p, h) (inl e) = subst P (sym e) p
All-at P x (n ∷ ns) (p, h) (inr i) = All-at P x ns h i

pub All-from : (P : Text → Type 0) (ns : List Text) → ((x : Text) → In x ns → P x) → All P ns
All-from P [] h = tt
All-from P (n ∷ ns) h = (h n (inl refl), All-from P ns (λ x i. h x (inr i)))

pub each-cong :
    (f g : Text → Text) (ns : List Text) → All (λ n. f n ≡ g n) ns → each f ns ≡ each g ns
each-cong f g [] h = refl
each-cong f g (n ∷ ns) (e, h) = rw (e, each-cong f g ns h) refl

pub absent : (x : Text) (ns : List Text) → includes ns x ≡ false → In x ns → ⊥
absent x [] h i = i
absent x (n ∷ ns) h (inl e) = ground (arith, (text_eq_iff x n).1 e)
absent x (n ∷ ns) h (inr i) = ground (arith, absent x ns)

or-false : (a b : Bool) → (a || b) ≡ false → b ≡ false
or-false a b h = ground arith

pub not-true : (a : Bool) → not a ≡ true → a ≡ false
not-true a h = ground arith

-- What the code changes a name to, and whether no directory has the new name
module _ (item : Text → Option Item) where
  abbrev pub renumber : Text → Text
  renumber n = elim (item n) [ none ↦ n | some (k, l, r) ↦ r.to ]

  abbrev pub is_free : List Text → Text → Bool
  is_free ns n = elim (item n) [ none ↦ true | some (k, l, r) ↦ not (includes ns r.to) ]

  -- The names differ, the new names too, and no new name is taken.
  abbrev pub IsClear : List Text → Type 0
  IsClear ns =
      (distinct ns ≡ true) × (distinct (each renumber ns) ≡ true) × (all (is_free ns) ns ≡ true)

-- The laws of a plan, for a function of the name that gives a rename of that name
module _ (item : Text → Option Item)
    (item_from : (n : Text) (x : Item) → item n ≡ some x → x.2.from ≡ n) where
  unfoldable pub Apart : Text → Text → Type 0
  Apart a b = (a ≢ b) × (renumber item a ≢ renumber item b)

  All-Apart :
      (x : Text) (ns : List Text)
      → includes ns x ≡ false
      → includes (each (renumber item) ns) (renumber item x) ≡ false
      → All (Apart x) ns
  unfolding Apart
  All-Apart x [] h k = tt
  All-Apart x (n ∷ ns) h k = (
    (
      λ e. absent x (n ∷ ns) h (inl e),
      λ e. absent (renumber item x) (each (renumber item) (n ∷ ns)) k (inl e),
    ),
    All-Apart x ns (or-false (text_eq x n) (includes ns x) h) (
        or-false (text_eq (renumber item x) (renumber item n))
          (includes (each (renumber item) ns) (renumber item x)) k),
  )

  pub distinct-Pairwise :
      (ns : List Text)
      → distinct ns ≡ true
      → distinct (each (renumber item) ns) ≡ true
      → Pairwise Apart ns
  distinct-Pairwise [] h k = tt
  distinct-Pairwise (n ∷ ns) h k =
      let left = and-eq-true (not (includes ns n)) (distinct ns) h in
      let right =
        and-eq-true (not (includes (each (renumber item) ns) (renumber item n)))
          (distinct (each (renumber item) ns)) k in
      (
        All-Apart n ns (not-true (includes ns n) left.0)
            (not-true (includes (each (renumber item) ns) (renumber item n)) right.0),
        distinct-Pairwise ns left.1 right.1,
      )

  unfoldable pub ItemOf : List Text → Item → Type 0
  ItemOf ns x = In x.2.from ns × (item x.2.from ≡ some x)

  pub items_of-ItemOf :
      (ns names : List Text) → All (λ n. In n ns) names → All (ItemOf ns) (items_of item names)
  unfolding ItemOf
  items_of-ItemOf ns [] h = tt
  items_of-ItemOf ns (n ∷ names) (i, h) = elim (Option-cases (item n)) [
    | inl e ↦ rw (e, items_of) (items_of-ItemOf ns names h)
    | inr (x, e) ↦
        let named = item_from n x e in
        rw (e, items_of)
          (
            (subst (λ m. In m ns) (sym named) i, subst (λ m. item m ≡ some x) (sym named) e),
            items_of-ItemOf ns names h,
          )
  ]

  unfoldable pub ItemsDiffer : Item → Item → Type 0
  ItemsDiffer x y = Differ x.2 y.2

  items_of-differ :
      (n : Text) (x : Item)
      → item n ≡ some x
      → (names : List Text) → All (Apart n) names
      → All (ItemsDiffer x) (items_of item names)
  unfolding Apart ItemsDiffer
  items_of-differ n x e [] h = tt
  items_of-differ n x e (m ∷ names) ((a, b), h) = elim (Option-cases (item m)) [
    | inl f ↦ rw (f, items_of) (items_of-differ n x e names h)
    | inr (y, f) ↦
        rw (f, items_of)
          (
            (
              λ p. a (sym (item_from n x e) ∙ p ∙ item_from m y f),
              λ p. b (renumber-item n x e ∙ p ∙ sym (renumber-item m y f)),
            ),
            items_of-differ n x e names h,
          )
  ]
    where
      renumber-item : (k : Text) (z : Item) → item k ≡ some z → renumber item k ≡ z.2.to
      renumber-item k z g = rw (g, renumber) refl

  pub items_of-Pairwise :
      (names : List Text) → Pairwise Apart names → Pairwise ItemsDiffer (items_of item names)
  items_of-Pairwise [] h = tt
  items_of-Pairwise (n ∷ names) (p, h) = elim (Option-cases (item n)) [
    | inl e ↦ rw (e, items_of) (items_of-Pairwise names h)
    | inr (x, e) ↦ rw (e, items_of) (items_of-differ n x e names p, items_of-Pairwise names h)
  ]
