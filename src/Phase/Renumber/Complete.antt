-- ===== src/Phase/Renumber/Complete.antt =====
-- The renumbering of the directories runs to its end.
use Prim.Native.Nat.{Ordering}
use mathlib.Core.Path.{subst}
use aegis_workers.Base.{
  ℕ, ◌≡◌, ◌≢◌, refl, sym, ap, ◌∙◌, inl, inr, true, Option, none, some, List, [], ◌∷◌, Text,
  Option-cases, All, All-of_all, arith,
}
use aegis_workers.Phase.Directories.{sort_phases}
use aegis_workers.Phase.Renumber.{
  DecimalPattern, Item, sort_items, renames_of, items_of, decimal_item, integer_item,
  rename_decimal_phases, rename_integer_phases, decimal_file, integer_file, decimal_renames,
  integer_renames,
}
use aegis_workers.Phase.Folders.{Dir, Rename, names_of, rename_all}
use aegis_workers.Phase.Renumber.Steps.{In, each, apply_all, rename_all-AreRenamed}
use aegis_workers.Phase.Renumber.Plan.{
  Pairwise, All-sort_phases, Pairwise-sort_phases, All-sort_items, Pairwise-sort_items,
  In-sort_phases, InItems, InItems-sort_items,
}
use aegis_workers.Phase.Renumber.Laws.{
  Differ, Moves, plan-AreFresh, apply_all-other, apply_all-In, InRenames,
}
use aegis_workers.Phase.Renumber.Names.{
  All-at, All-from, each-cong, absent, not-true, includes, renumber, is_free, IsClear, Apart,
  ItemOf, ItemsDiffer, distinct-Pairwise, items_of-ItemOf, items_of-Pairwise,
}

InRenames-renames_of : (x : Item) (xs : List Item) → InItems x xs → InRenames x.2 (renames_of xs)
InRenames-renames_of x [] h = h
InRenames-renames_of x ((k, l, q) ∷ xs) (inl e) = inl (ap (λ y. y.2) e)
InRenames-renames_of x ((k, l, q) ∷ xs) (inr i) = inr (InRenames-renames_of x xs i)

Pairwise-renames_of :
    (xs : List Item) → Pairwise (λ x y. Differ x.2 y.2) xs → Pairwise Differ (renames_of xs)
Pairwise-renames_of [] h = tt
Pairwise-renames_of ((k, l, q) ∷ xs) (p, h) = (go xs p, Pairwise-renames_of xs h)
  where
    go : (ys : List Item) → All (λ y. Differ q y.2) ys → All (Differ q) (renames_of ys)
    go [] i = tt
    go ((a, b, c) ∷ ys) (i, j) = (i, go ys j)

All-renames_of :
    (P : Rename → Type 0) (xs : List Item) → All (λ x. P x.2) xs → All P (renames_of xs)
All-renames_of P [] h = tt
All-renames_of P ((k, l, q) ∷ xs) (p, h) = (p, All-renames_of P xs h)

InItems-items_of :
    (item : Text → Option Item) (n : Text) (x : Item) (names : List Text)
    → item n ≡ some x
    → In n names
    → InItems x (items_of item names)
InItems-items_of item n x [] e i = i
InItems-items_of item n x (m ∷ names) e (inl p) =
    rw (subst (λ k. item k ≡ some x) p e, items_of) (inl refl)
InItems-items_of item n x (m ∷ names) e (inr i) = elim (Option-cases (item m)) [
  | inl f ↦ rw (f, items_of) (InItems-items_of item n x names e i)
  | inr (y, f) ↦ rw (f, items_of) (inr (InItems-items_of item n x names e i))
]

none-ne-some : {x : Item} → none ≡ some x → ⊥
none-ne-some e = cc

module _ (item : Text → Option Item)
    (item_from : (n : Text) (x : Item) → item n ≡ some x → x.2.from ≡ n) where
  -- The items of a list of names, in the order that the code takes them
  unfoldable items : (Text → Text → Ordering) → List Text → List Item
  items locale ns = sort_items (items_of item (sort_phases locale ns))

  items-ItemOf :
      (locale : Text → Text → Ordering) (ns : List Text)
      → All (ItemOf item item_from ns) (items locale ns)
  unfolding items
  items-ItemOf locale ns =
      All-sort_items (ItemOf item item_from ns) (items_of item (sort_phases locale ns)) (
        items_of-ItemOf item item_from ns (sort_phases locale ns)
          (All-sort_phases locale (λ n. In n ns) ns (All-from (λ n. In n ns) ns (λ x i. i))))

  items-Differ :
      (locale : Text → Text → Ordering) (ns : List Text)
      → IsClear item ns
      → Pairwise Differ (renames_of (items locale ns))
  unfolding items Apart ItemsDiffer
  items-Differ locale ns (h, k, l) = Pairwise-renames_of (items locale ns) (
      Pairwise-sort_items (ItemsDiffer item item_from)
        (λ a b (p, q). (λ e. p (sym e), λ e. q (sym e))) (items_of item (sort_phases locale ns))
        (items_of-Pairwise item item_from (sort_phases locale ns) (
          Pairwise-sort_phases locale (Apart item item_from)
            (λ a b (p, q). (λ e. p (sym e), λ e. q (sym e))) ns
            (distinct-Pairwise item item_from ns h k))))

  items-Moves :
      (locale : Text → Text → Ordering) (ns : List Text)
      → IsClear item ns
      → All (Moves ns) (renames_of (items locale ns))
  unfolding ItemOf
  items-Moves locale ns (h, k, l) =
      All-renames_of (Moves ns) (items locale ns) (go (items locale ns) (items-ItemOf locale ns))
    where
      free : (x : Item) → ItemOf item item_from ns x → In x.2.to ns → ⊥
      free x (i, e) = absent x.2.to ns (
          not-true (includes ns x.2.to) (
            rw (e, is_free) at
              (All-at (λ n. is_free item ns n ≡ true) x.2.from ns
                (All-of_all (is_free item ns) ns l) i)))

      go : (xs : List Item) → All (ItemOf item item_from ns) xs → All (λ x. Moves ns x.2) xs
      go [] j = tt
      go (x ∷ xs) (p, j) = ((p.0, free x p), go xs j)

  apply_all-renumber :
      (locale : Text → Text → Ordering) (ns : List Text)
      → IsClear item ns
      → (n : Text) → In n ns
      → apply_all (renames_of (items locale ns)) n ≡ renumber item n
  unfolding items ItemOf
  apply_all-renumber locale ns c n i = elim (Option-cases (item n)) [
    | inl e ↦
        apply_all-other (renames_of (items locale ns)) n (
          All-renames_of (λ r. n ≢ r.from) (items locale ns)
            (go e (items locale ns) (items-ItemOf locale ns)))
        ∙ rw (e, renumber) refl
    | inr (x, e) ↦
        let named = item_from n x e in
        subst (λ m. apply_all (renames_of (items locale ns)) m ≡ x.2.to) named
          (apply_all-In x.2 (renames_of (items locale ns)) ns
            (InRenames-renames_of x (items locale ns) (
              InItems-sort_items x (items_of item (sort_phases locale ns)) (
                InItems-items_of item n x (sort_phases locale ns) e
                  (In-sort_phases locale n ns i))))
            (items-Differ locale ns c) (items-Moves locale ns c))
        ∙ rw (e, renumber) refl
  ]
    where
      go :
          item n ≡ none
          → (xs : List Item) → All (ItemOf item item_from ns) xs
          → All (λ x. n ≢ x.2.from) xs
      go e [] j = tt
      go e (x ∷ xs) ((p, q), j) =
          ((λ same. none-ne-some (sym e ∙ subst (λ m. item m ≡ some x) (sym same) q)), go e xs j)

  rename_all-renumber :
      (locale : Text → Text → Ordering) (file_name : Rename → Text → Option Text) (dirs : List Dir)
      → IsClear item (names_of dirs)
      → let result = rename_all file_name (renames_of (items locale (names_of dirs))) dirs in
        (result.completed ≡ true) × (names_of result.dirs ≡ each (renumber item) (names_of dirs))
  rename_all-renumber locale file_name dirs c =
      let ns = names_of dirs in
      let rs = renames_of (items locale ns) in
      let run =
        rename_all-AreRenamed file_name rs dirs
          (plan-AreFresh rs ns (items-Differ locale ns c) (items-Moves locale ns c)) in
      (
        run.0,
        run.1
            ∙ each-cong (apply_all rs) (renumber item) ns (
                All-from (λ n. apply_all rs n ≡ renumber item n) ns
                  (apply_all-renumber locale ns c)),
      )

decimal_item-from :
    (special : DecimalPattern) (base : Text) (removed : Option ℕ) (n : Text) (x : Item)
    → decimal_item special base removed n ≡ some x
    → x.2.from ≡ n
unfolding decimal_item
decimal_item-from special base removed n x e = ground arith

integer_item-from :
    (removed : Option ℕ) (n : Text) (x : Item) → integer_item removed n ≡ some x → x.2.from ≡ n
unfolding integer_item
integer_item-from removed n x e = ground arith

module _ (locale : Text → Text → Ordering) where
  -- Where the directories' names differ, their new names too, and no new name is taken, the
  -- renumbering behind a removed decimal phase is not refused, and each directory has its new name:
  -- `decimal_item` gives the name with the decimal above the removed one less one.
  pub rename_decimal_phases-renumber :
      (special : DecimalPattern) (base : Text) (removed : Option ℕ) (dirs : List Dir)
      → IsClear (decimal_item special base removed) (names_of dirs)
      → ((rename_decimal_phases locale special base removed dirs).completed ≡ true)
        × (names_of (rename_decimal_phases locale special base removed dirs).dirs
            ≡ each (renumber (decimal_item special base removed)) (names_of dirs))
  unfolding rename_decimal_phases decimal_renames items
  rename_decimal_phases-renumber special base removed dirs c =
      rename_all-renumber (decimal_item special base removed)
        (decimal_item-from special base removed) locale decimal_file dirs c

  -- Where the directories' names differ, their new names too, and no new name is taken, the
  -- renumbering behind a removed integer phase is not refused, and each directory has its new name:
  -- `integer_item` gives the name with the integer above the removed one less one.
  pub rename_integer_phases-renumber :
      (removed : Option ℕ) (dirs : List Dir)
      → IsClear (integer_item removed) (names_of dirs)
      → ((rename_integer_phases locale removed dirs).completed ≡ true)
        × (names_of (rename_integer_phases locale removed dirs).dirs
            ≡ each (renumber (integer_item removed)) (names_of dirs))
  unfolding rename_integer_phases integer_renames items
  rename_integer_phases-renumber removed dirs c =
      rename_all-renumber (integer_item removed) (integer_item-from removed) locale integer_file
        dirs c
