-- ===== src/Phase/Remove/Clear.antt =====
-- The names of the directories of integer phases differ, and a renumbering takes none of them.
use mathlib.Core.Path.{subst}
use aegis_workers.Base.{
  ℕ, ◌-◌, ◌≡◌, ◌≢◌, refl, sym, inl, inr, true, false, all, some, List, [], ◌∷◌, append-nil, ◌==◌,
  ltb, Text, All, Bool-cases, arith,
}
use aegis_workers.Phase.Renumber.{integer_item}
use aegis_workers.Phase.Renumber.Steps.{text_eq_ne}
use aegis_workers.Phase.Renumber.Plan.{Pairwise}
use aegis_workers.Phase.Renumber.Names.{includes, distinct, is_free}
use aegis_workers.Phase.Renumber.Items.{IsSlug}
use aegis_workers.Phase.Remove.Folders.{
  Folder, padded, folder_name, folder_names, Unlike, match_integer-folder_name, folder_name-slug,
  is_dir_of, is_dir_of-number, is_dir_of_self,
}

includes-folder_names :
    (f : ℕ → ℕ) (n : ℕ) (s : Text) (es : List Folder)
    → All (λ e. folder_name n s ≢ folder_name (f e.number) e.slug) es
    → includes (folder_names f es) (folder_name n s) ≡ false
includes-folder_names f n s [] h = refl
includes-folder_names f n s (e ∷ es) (p, h) =
    rw (text_eq_ne (folder_name n s) (folder_name (f e.number) e.slug) p)
      (includes-folder_names f n s es h)

pub distinct-folder_names :
    (f : ℕ → ℕ) (es : List Folder) → Pairwise Unlike es → distinct (folder_names f es) ≡ true
distinct-folder_names f [] h = refl
distinct-folder_names f (e ∷ es) (p, h) =
    rw (includes-folder_names f (f e.number) e.slug es (apart es p)) (distinct-folder_names f es h)
  where
    apart :
        (xs : List Folder)
        → All (Unlike e) xs
        → All (λ x. folder_name (f e.number) e.slug ≢ folder_name (f x.number) x.slug) xs
    apart [] k = tt
    apart (x ∷ xs) ((a, b), k) =
        (λ g. b (folder_name-slug (f e.number) (f x.number) e.slug x.slug g), apart xs k)

-- A directory of `es` with the slug of `e` has its number.
abbrev SlugNumber : List Folder → Folder → Type 0
SlugNumber es e = All (λ f. f.slug ≡ e.slug → f.number ≡ e.number) es

All-SlugNumber : (es : List Folder) → Pairwise Unlike es → All (SlugNumber es) es
All-SlugNumber [] h = tt
All-SlugNumber (e ∷ es) (p, h) = ((λ g. refl, head es p), tail es p (All-SlugNumber es h))
  where
    head :
        (xs : List Folder) → All (Unlike e) xs → All (λ f. f.slug ≡ e.slug → f.number ≡ e.number) xs
    head [] k = tt
    head (x ∷ xs) ((a, b), k) = (λ g. absurd (b (sym g)), head xs k)

    tail :
        (xs : List Folder)
        → All (Unlike e) xs
        → All (SlugNumber es) xs
        → All (SlugNumber (e ∷ es)) xs
    tail [] k l = tt
    tail (x ∷ xs) ((a, b), k) (q, l) = ((λ g. absurd (b g), q), tail xs k l)

free_name :
    (ns : List Text) (r n : ℕ) (s : Text)
    → IsSlug s
    → (ltb r n ≡ true → includes ns (folder_name (n - 1) s) ≡ false)
    → is_free (integer_item (some r)) ns (folder_name n s) ≡ true
unfolding integer_item
free_name ns r n s h free = elim (Bool-cases (ltb r n)) [
  | inl e ↦
      let below : (n == 0) ≡ false = ground arith in
      rw (match_integer-folder_name n s h, integer_item, is_free)
        (rw (e, below, append-nil (padded (n - 1)), free e) refl)
  | inr e ↦ rw (match_integer-folder_name n s h, integer_item, is_free) (rw e refl)
]

pub all_free :
    (r : ℕ) (es : List Folder)
    → All (λ e. IsSlug e.slug) es
    → Pairwise Unlike es
    → all (is_free (integer_item (some r)) (folder_names (λ n. n) es)) (folder_names (λ n. n) es)
      ≡ true
all_free r es h k = go es h (All-SlugNumber es k)
  where
    differs :
        (e : Folder) (xs : List Folder)
        → ltb r e.number ≡ true
        → SlugNumber xs e
        → All (λ f. folder_name (e.number - 1) e.slug ≢ folder_name f.number f.slug) xs
    differs e [] l q = tt
    differs e (x ∷ xs) l (p, q) = (
      λ g.
          let slug = folder_name-slug (e.number - 1) x.number e.slug x.slug g in
          let same = p (sym slug) in
          let number = is_dir_of-number (e.number - 1) x.number x.slug (
            subst (λ d. is_dir_of (e.number - 1) d ≡ true) g
              (is_dir_of_self (e.number - 1) e.slug)) in
          absurd (ground arith),
      differs e xs l q,
    )

    go :
        (xs : List Folder)
        → All (λ e. IsSlug e.slug) xs
        → All (SlugNumber es) xs
        → all
            (is_free (integer_item (some r)) (folder_names (λ n. n) es))
            (folder_names (λ n. n) xs)
          ≡ true
    go [] i j = refl
    go (x ∷ xs) (p, i) (q, j) =
        rw
          (free_name (folder_names (λ n. n) es) r x.number x.slug p
            (λ l. includes-folder_names (λ n. n) (x.number - 1) x.slug es (differs x es l q)))
          (go xs i j)
