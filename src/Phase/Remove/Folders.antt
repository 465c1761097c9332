-- ===== src/Phase/Remove/Folders.antt =====
-- The directories of integer phases: their names, the search for one of them by its number, and the
-- names that a renumbering gives them.
use mathlib.Core.Path.{subst}
use aegis_workers.Base.{
  ℕ, ◌-◌, ◌≡◌, ◌≢◌, refl, sym, ap, ◌∙◌, inl, inr, Bool, true, ◌||◌, none, some, List, [], ◌∷◌, ◌++◌,
  append_assoc, append-nil, if◌then◌else◌, ◌==◌, ltb, Text, text_eq, text_eq_iff, begins, All,
  Bool-cases, digits_value, number_text, number_text-All, number_text-ne-nil,
  digits_value-number_text, arith,
}
use aegis_workers.Phase.Number.{span_digits, pad_two}
use aegis_workers.Phase.Number.Normalize.{IsRun, span_digits-append, pad_two-IsRun}
use aegis_workers.Phase.Renumber.{match_integer, integer_prefix, integer_item}
use aegis_workers.Phase.Folders.{Dir, names_of}
use aegis_workers.Phase.Renumber.Steps.{each}
use aegis_workers.Phase.Renumber.Names.{renumber}
use aegis_workers.Phase.Renumber.Items.{
  IsSlug, match_integer_of, digits_value-pad_two, renumber_lem,
}

-- The directory of an integer phase
pub record Folder : Type 0 where
  pub number : ℕ
  pub slug : Text
  pub files : List Text

-- A number with at least two digits
abbrev pub padded : ℕ → Text
padded n = pad_two (number_text n)

abbrev pub folder_name : ℕ → Text → Text
folder_name n slug = padded n ++ (b'-' ∷ slug)

abbrev pub dirs_of : List Folder → List Dir
dirs_of [] = []
dirs_of (e ∷ es) = record { name = folder_name e.number e.slug; files = e.files } ∷ dirs_of es

-- The names of the directories, where `f` changes the number
abbrev pub folder_names : (ℕ → ℕ) → List Folder → List Text
folder_names f [] = []
folder_names f (e ∷ es) = folder_name (f e.number) e.slug ∷ folder_names f es

-- The directories of the other phases
abbrev pub others : ℕ → List Folder → List Folder
others r [] = []
others r (e ∷ es) = let rest = others r es in if e.number == r then rest else e ∷ rest

-- The number of a phase after the removal of the phase `r`
abbrev pub renumbered_from : ℕ → ℕ → ℕ
renumbered_from r n = if ltb r n then n - 1 else n

-- Two directories with different numbers and different slugs
abbrev pub Unlike : Folder → Folder → Type 0
Unlike e f = (e.number ≢ f.number) × (e.slug ≢ f.slug)

pub number_text-IsRun : (n : ℕ) → IsRun (number_text n)
number_text-IsRun n = (number_text-ne-nil n, number_text-All n)

pub padded-IsRun : (n : ℕ) → IsRun (padded n)
padded-IsRun n = pad_two-IsRun (number_text n) (number_text-IsRun n)

pub digits_value-padded : (n : ℕ) → digits_value 0 (padded n) ≡ n
digits_value-padded n = digits_value-pad_two (number_text n) ∙ digits_value-number_text n

padded-inj : (n m : ℕ) → padded n ≡ padded m → n ≡ m
padded-inj n m e = sym (digits_value-padded n) ∙ ap (digits_value 0) e ∙ digits_value-padded m

span_digits-padded :
    (n : ℕ) (s : Text) → span_digits (padded n ++ (b'-' ∷ s)) ≡ (padded n, b'-' ∷ s)
span_digits-padded n s = span_digits-append (padded n) (b'-' ∷ s) (padded-IsRun n).1 refl

pub match_integer-folder_name :
    (n : ℕ) (s : Text) → IsSlug s → match_integer (folder_name n s) ≡ some (n, [], none, s)
match_integer-folder_name n s h =
    match_integer_of (padded n) s (padded-IsRun n) h
    ∙ ap (λ m. some (m, [], none, s)) (digits_value-padded n)

pub folder_name-slug : (n m : ℕ) (s t : Text) → folder_name n s ≡ folder_name m t → s ≡ t
folder_name-slug n m s t e =
    let spans = sym (span_digits-padded n s) ∙ ap span_digits e ∙ span_digits-padded m t in
    tail_of (ap (λ p. p.1) spans)
  where
    tail_of : b'-' ∷ s ≡ b'-' ∷ t → s ≡ t
    tail_of h = cc

-- The test of the search for the directory of a phase
abbrev pub is_dir_of : ℕ → Text → Bool
is_dir_of r d = begins d (padded r ++ (b'-' ∷ [])) || text_eq d (padded r)

begins-append : (x y : Text) → begins x y ≡ true → (t : Text) × (x ≡ y ++ t)
begins-append x [] h = (x, refl)
begins-append [] (d ∷ y) h = absurd cc
begins-append (c ∷ x) (d ∷ y) h =
    let same : c ≡ d = ground arith in
    let (t, e) = begins-append x y (ground arith) in (t, rw (same, e) refl)

begins_self : (y t : Text) → begins (y ++ t) y ≡ true
begins_self [] t = refl
begins_self (d ∷ y) t = ground (arith, begins_self y t)

pub is_dir_of-number : (r n : ℕ) (s : Text) → is_dir_of r (folder_name n s) ≡ true → n ≡ r
is_dir_of-number r n s h = elim (Bool-cases (begins (folder_name n s) (padded r ++ (b'-' ∷ [])))) [
  | inl b ↦
      let (t, e) = begins-append (folder_name n s) (padded r ++ (b'-' ∷ [])) b in
      let split =
        sym (span_digits-padded n s)
        ∙ ap span_digits (e ∙ append_assoc (padded r) (b'-' ∷ []) t)
        ∙ span_digits-padded r t in
      padded-inj n r (ap (λ p. p.0) split)
  | inr b ↦
      let whole : folder_name n s ≡ padded r =
        (text_eq_iff (folder_name n s) (padded r)).0 (rw b at h) in
      let split =
        sym (span_digits-padded n s)
        ∙ ap span_digits (whole ∙ sym (append-nil (padded r)))
        ∙ span_digits-append (padded r) [] (padded-IsRun r).1 tt in
      absurd (no_dash (ap (λ p. p.1) split))
]
  where
    no_dash : b'-' ∷ s ≡ [] → ⊥
    no_dash g = cc

pub is_dir_of_self : (r : ℕ) (s : Text) → is_dir_of r (folder_name r s) ≡ true
is_dir_of_self r s =
    rw
      (subst (λ d. begins d (padded r ++ (b'-' ∷ [])) ≡ true)
        (append_assoc (padded r) (b'-' ∷ []) s) (begins_self (padded r ++ (b'-' ∷ [])) s))
      refl

pub renumber-folder_name :
    (r n : ℕ) (s : Text)
    → IsSlug s
    → renumber (integer_item (some r)) (folder_name n s) ≡ folder_name (renumbered_from r n) s
renumber-folder_name r n s h =
    let bare : (m : ℕ) → integer_prefix m [] none ≡ padded m = λ m. append-nil (padded m) in
    ap (λ p. renumber (integer_item (some r)) (p ++ (b'-' ∷ s))) (sym (bare n))
    ∙ (renumber_lem (λ base name. none) [] s r n refl h).1
    ∙ ap (λ p. p ++ (b'-' ∷ s)) (bare (renumbered_from r n))

pub names_of-dirs_of : (es : List Folder) → names_of (dirs_of es) ≡ folder_names (λ n. n) es
names_of-dirs_of [] = refl
names_of-dirs_of (e ∷ es) = rw (names_of-dirs_of es) refl

pub each-folder_names :
    (r : ℕ) (es : List Folder)
    → All (λ e. IsSlug e.slug) es
    → each (renumber (integer_item (some r))) (folder_names (λ n. n) es)
      ≡ folder_names (renumbered_from r) es
each-folder_names r [] h = refl
each-folder_names r (e ∷ es) (p, h) =
    rw (renumber-folder_name r e.number e.slug p, each-folder_names r es h) refl
