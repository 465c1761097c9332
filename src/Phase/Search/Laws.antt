-- ===== src/Phase/Search/Laws.antt =====
-- The directory that the search for a phase takes.
use Prim.Native.Nat.{Ordering, lt, eq, gt}
use mathlib.Core.Path.{subst}
use aegis_workers.Base.{
  ◌≡◌, ◌≢◌, refl, sym, ap, ◌∙◌, ◌⊎◌, inl, inr, Bool, true, false, Option, some, List, [], ◌∷◌, Text,
  All, find, Bool-cases, never, some-inj,
}
use aegis_workers.Phase.Number.{match_phase, compare_phase_num, then_by}
use aegis_workers.Phase.Number.Laws.{
  IsNumeric, flip, compare_phase_num-flip, compare_phase_num-chain,
}
use aegis_workers.Phase.Directories.{insert_phase, sort_phases}
use aegis_workers.Phase.Folders.{Dir, names_of}
use aegis_workers.Phase.Renumber.Steps.{In}
use aegis_workers.Phase.Renumber.Names.{All-at, All-from}
use aegis_workers.Phase.Renumber.Plan.{Pairwise, All-insert_phase, All-sort_phases, In-sort_phases}
use aegis_workers.Phase.Search.{
  Words, Found, starts_phase, matching_dir, report_dir, search_phase_in_dir,
}

module _ (locale : Text → Text → Ordering) where
  -- `a` does not sort behind `b`.
  abbrev pub IsUp : Text → Text → Type 0
  IsUp a b = compare_phase_num locale a b ≢ gt

  IsUp-chain :
      (a b c : Text) → IsNumeric a → IsNumeric b → IsNumeric c → IsUp a b → IsUp b c → IsUp a c
  IsUp-chain a b c h k l p q =
      subst (λ o. o ≢ gt) (sym (compare_phase_num-chain locale a b c h k l p q))
        (go (compare_phase_num locale a b) (compare_phase_num locale b c) p q)
    where
      go : (o u : Ordering) → o ≢ gt → u ≢ gt → then_by o u ≢ gt
      go lt u i j = i
      go eq u i j = j
      go gt u i j = i

  IsUp-flip :
      (a b : Text) → IsNumeric a → IsNumeric b → compare_phase_num locale a b ≡ gt → IsUp b a
  IsUp-flip a b h k e =
      subst (λ o. o ≢ gt) (sym (compare_phase_num-flip locale a b h k ∙ ap flip e)) (λ f. cc)

  IsUp-refl : (a : Text) → IsNumeric a → IsUp a a
  IsUp-refl a h e = IsUp-flip a a h h e e

  All-IsUp :
      (x y : Text) (ys : List Text)
      → IsNumeric x
      → IsNumeric y
      → All IsNumeric ys
      → IsUp x y
      → All (IsUp y) ys
      → All (IsUp x) ys
  All-IsUp x y [] h k l p q = tt
  All-IsUp x y (z ∷ zs) h k (i, l) p (q, r) =
      (IsUp-chain x y z h k i p q, All-IsUp x y zs h k l p r)

  insert_phase-Pairwise :
      (x : Text) (xs : List Text)
      → IsNumeric x
      → All IsNumeric xs
      → Pairwise IsUp xs
      → Pairwise IsUp (insert_phase locale x xs)
  unfolding insert_phase
  insert_phase-Pairwise x [] h k l = (tt, tt)
  insert_phase-Pairwise x (y ∷ ys) h (i, k) (p, l) =
      go (compare_phase_num locale x y) refl (insert_phase-Pairwise x ys h k l)
    where
      go :
          (o : Ordering)
          → compare_phase_num locale x y ≡ o
          → Pairwise IsUp (insert_phase locale x ys)
          → Pairwise IsUp
              (elim o [ gt ↦ y ∷ insert_phase locale x ys | eq ↦ x ∷ y ∷ ys | lt ↦ x ∷ y ∷ ys ])
      go gt e m = (All-insert_phase locale (IsUp y) x ys (IsUp-flip x y h i e) p, m)
      go eq e m =
          let up : IsUp x y = subst (λ o. o ≢ gt) (sym e) (λ f. cc) in
          ((up, All-IsUp x y ys h i k up p), (p, l))
      go lt e m =
          let up : IsUp x y = subst (λ o. o ≢ gt) (sym e) (λ f. cc) in
          ((up, All-IsUp x y ys h i k up p), (p, l))

  sort_phases-Pairwise : (xs : List Text) → All IsNumeric xs → Pairwise IsUp (sort_phases locale xs)
  unfolding sort_phases
  sort_phases-Pairwise [] h = tt
  sort_phases-Pairwise (x ∷ xs) (p, h) =
      insert_phase-Pairwise x (sort_phases locale xs) p (All-sort_phases locale IsNumeric xs h)
        (sort_phases-Pairwise xs h)

-- What `find` takes of a list: an item that passes, and before every other that passes
pub find-In :
    (p : Text → Bool) (xs : List Text) (m : Text) → find p xs ≡ some m → In m xs × (p m ≡ true)
find-In p [] m e = absurd (never e)
find-In p (x ∷ xs) m e = elim (Bool-cases (p x)) [
  | inl f ↦
      let same : x ≡ m = some-inj (rw (f, find) at e) in
      (inl (sym same), subst (λ y. p y ≡ true) same f)
  | inr f ↦ let rest = find-In p xs m (rw (f, find) at e) in (inr rest.0, rest.1)
]

find-first :
    (R : Text → Text → Type 0) (p : Text → Bool) (xs : List Text) (m d : Text)
    → Pairwise R xs
    → find p xs ≡ some m
    → In d xs
    → p d ≡ true
    → (m ≡ d) ⊎ R m d
find-first R p [] m d h e i q = absurd i
find-first R p (x ∷ xs) m d (k, h) e i q = elim (Bool-cases (p x)) [
  | inl f ↦
      let same : x ≡ m = some-inj (rw (f, find) at e) in
      elim i [
        | inl j ↦ inl (sym same ∙ sym j)
        | inr j ↦ inr (subst (λ y. R y d) same (at_item xs k j))
      ]
  | inr f ↦ elim i [
    | inl j ↦ absurd (differ (sym q ∙ ap p j ∙ f))
    | inr j ↦ find-first R p xs m d h (rw (f, find) at e) j q
  ]
]
  where
    differ : true ≡ false → ⊥
    differ g = cc

    at_item : (ys : List Text) → All (R x) ys → In d ys → R x d
    at_item [] l j = absurd j
    at_item (y ∷ ys) (l, r) (inl j) = subst (R x) (sym j) l
    at_item (y ∷ ys) (l, r) (inr j) = at_item ys r j

pub find-some :
    (p : Text → Bool) (xs : List Text) (d : Text)
    → In d xs
    → p d ≡ true
    → (m : Text) × (find p xs ≡ some m)
find-some p [] d i q = absurd i
find-some p (x ∷ xs) d i q = elim (Bool-cases (p x)) [
  | inl f ↦ (x, rw (f, find) refl)
  | inr f ↦ elim i [
    | inl j ↦ absurd (differ (sym q ∙ ap p j ∙ f))
    | inr j ↦ let (m, e) = find-some p xs d j q in (m, rw (f, find) e)
  ]
]
  where
    differ : true ≡ false → ⊥
    differ g = cc

-- A report on the directory `m` of `names`, which is found for the name of a phase, and which does
-- not sort behind `d`
abbrev pub IsFirst :
    (Text → Text → Ordering) → Words → Text → Text → List Text → Text → Option Found → Type 0
IsFirst locale w base normalized names d found =
    (f : Found) × ((m : Text) × ((found ≡ some f)
        × ((f.directory ≡ w.join base m)
            × (In m names × ((starts_phase w normalized m ≡ true) × IsUp locale m d)))))

-- Where a directory's name starts with the phase's, the search finds one: it is there, its name
-- starts with the phase's, and it does not sort behind that directory. The names begin with digits.
pub search_phase_in_dir-IsFirst :
    (locale : Text → Text → Ordering) (w : Words) (archived : Option Text)
    (base normalized d : Text) (dirs : List Dir)
    → All IsNumeric (names_of dirs)
    → In d (names_of dirs)
    → starts_phase w normalized d ≡ true
    → IsFirst locale w base normalized
        (names_of dirs)
        d
        (search_phase_in_dir locale w archived base dirs normalized)
unfolding search_phase_in_dir matching_dir match_phase
search_phase_in_dir-IsFirst locale w archived base normalized d dirs h i q =
    let ns = names_of dirs in
    let sorted = sort_phases locale ns in
    let p = starts_phase w normalized in
    let (m, e) = find-some p sorted d (In-sort_phases locale d ns i) q in
    let (there, starts) = find-In p sorted m e in
    let inside =
      All-at (λ n. In n ns) m sorted
        (All-sort_phases locale (λ n. In n ns) ns (All-from (λ n. In n ns) ns (λ x j. j))) there in
    let numeric = All-at IsNumeric m ns h inside in
    let up : IsUp locale m d =
      elim (find-first (IsUp locale) p sorted m d (sort_phases-Pairwise locale ns h) e
        (In-sort_phases locale d ns i) q) [
          | inl same ↦ subst (IsUp locale m) same (IsUp-refl locale m numeric)
          | inr u ↦ u
        ] in
    go m e numeric inside starts up
  where
    go :
        (m : Text)
        → find (starts_phase w normalized) (sort_phases locale (names_of dirs)) ≡ some m
        → IsNumeric m
        → In m (names_of dirs)
        → starts_phase w normalized m ≡ true
        → IsUp locale m d
        → IsFirst locale w base normalized
            (names_of dirs)
            d
            (search_phase_in_dir locale w archived base dirs normalized)
    go [] e n j s u = absurd (n refl)
    go (c ∷ name) e n j s u = (
      report_dir locale w archived base dirs (c ∷ name),
      (c ∷ name, (rw (e, search_phase_in_dir) refl, (refl, (j, (s, u))))),
    )
