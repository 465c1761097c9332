-- ===== src/Phase/Renumber/Steps.antt =====
-- The loop of renames on the names of the directories.
use aegis_workers.Base.{
  ◌≡◌, ◌≢◌, refl, sym, ap, ◌∙◌, ◌⊎◌, inl, inr, true, false, Option, none, some, List, [], ◌∷◌,
  if◌then◌else◌, Text, text_eq, text_eq_iff, Bool-cases, find, arith,
}
use mathlib.Core.Path.{subst}
use aegis_workers.Phase.Folders.{
  Dir, Rename, Renamed, names_of, find_dir, rename_entry, rename_dir, rename_files, set_files,
  files_in, rename_all,
}

abbrev pub In : Text → List Text → Type 0
In x [] = ⊥
In x (y ∷ ys) = (x ≡ y) ⊎ In x ys

abbrev pub each : (Text → Text) → List Text → List Text
each f [] = []
each f (x ∷ xs) = f x ∷ each f xs

abbrev pub rename_name : Text → Text → Text → Text
rename_name old new n = if text_eq n old then new else n

pub text_eq_refl : (s : Text) → text_eq s s ≡ true
text_eq_refl s = (text_eq_iff s s).1 refl

pub text_eq_ne : (s t : Text) → s ≢ t → text_eq s t ≡ false
text_eq_ne s t h = elim (Bool-cases (text_eq s t)) [
  | inl e ↦ absurd (h ((text_eq_iff s t).0 e))
  | inr e ↦ e
]

names_of-rename_entry :
    (old new : Text) (ds : List Dir)
    → names_of (rename_entry old new ds) ≡ each (rename_name old new) (names_of ds)
names_of-rename_entry old new [] = refl
names_of-rename_entry old new (d ∷ ds) = elim (Bool-cases (text_eq d.name old)) [
  | inl e ↦ rw (e, names_of-rename_entry old new ds) refl
  | inr e ↦ rw (e, names_of-rename_entry old new ds) refl
]

names_of-set_files :
    (name : Text) (files : List Text) (ds : List Dir)
    → names_of (set_files name files ds) ≡ names_of ds
names_of-set_files name files [] = refl
names_of-set_files name files (d ∷ ds) = elim (Bool-cases (text_eq d.name name)) [
  | inl e ↦ rw e refl
  | inr e ↦ rw (e, names_of-set_files name files ds) refl
]

find_dir-In : (x : Text) (ds : List Dir) → In x (names_of ds) → (d : Dir) × (find_dir x ds ≡ some d)
find_dir-In x [] h = absurd h
find_dir-In x (d ∷ ds) h = elim (Bool-cases (text_eq d.name x)) [
  | inl e ↦ (d, rw (e, find_dir, find) refl)
  | inr e ↦
      rw (e, find_dir, find)
        (elim h [ inl p ↦ absurd (ground (arith, text_eq_refl x)) | inr k ↦ find_dir-In x ds k ])
]

find_dir-none : (x : Text) (ds : List Dir) → (In x (names_of ds) → ⊥) → find_dir x ds ≡ none
find_dir-none x [] h = refl
find_dir-none x (d ∷ ds) h =
    rw (text_eq_ne d.name x (λ e. h (inl (sym e))), find_dir, find)
      (find_dir-none x ds (λ k. h (inr k)))

rename_dir-fresh :
    (old new : Text) (ds : List Dir)
    → In old (names_of ds)
    → (In new (names_of ds) → ⊥)
    → rename_dir old new ds ≡ some (rename_entry old new ds)
unfolding rename_dir
rename_dir-fresh old new ds h k =
    let found = find_dir-In old ds h in
    let differ : text_eq old new ≡ false =
      text_eq_ne old new (λ e. k (subst (λ x. In x (names_of ds)) e h)) in
    rw (found.1, differ, find_dir-none new ds k, rename_dir) refl

-- The renames one after the other, on the names
abbrev pub apply_all : List Rename → Text → Text
apply_all [] n = n
apply_all (r ∷ rs) n = apply_all rs (rename_name r.from r.to n)

each-each : (f g : Text → Text) (xs : List Text) → each g (each f xs) ≡ each (λ x. g (f x)) xs
each-each f g [] = refl
each-each f g (x ∷ xs) = ap (λ ys. g (f x) ∷ ys) (each-each f g xs)

pub each-id : (xs : List Text) → each (λ x. x) xs ≡ xs
each-id [] = refl
each-id (x ∷ xs) = ap (λ ys. x ∷ ys) (each-id xs)

-- Each rename finds its directory, and no directory has the new name at that time.
abbrev pub AreFresh : List Rename → List Text → Type 0
AreFresh [] ns = Unit
AreFresh (r ∷ rs) ns =
    In r.from ns × (In r.to ns → ⊥) × AreFresh rs (each (rename_name r.from r.to) ns)

abbrev pub renames : List Rename → List (Text × Text)
renames [] = []
renames (r ∷ rs) = (r.from, r.to) ∷ renames rs

abbrev pub AreRenamed : List Rename → List Text → Renamed → Type 0
AreRenamed rs ns x =
    (x.completed ≡ true)
    × (names_of x.dirs ≡ each (apply_all rs) ns)
    × (x.renamed_dirs ≡ renames rs)

pub rename_all-AreRenamed :
    (f : Rename → Text → Option Text) (rs : List Rename) (ds : List Dir)
    → AreFresh rs (names_of ds)
    → AreRenamed rs (names_of ds) (rename_all f rs ds)
unfolding rename_all
rename_all-AreRenamed f [] ds h = (refl, sym (each-id (names_of ds)), refl)
rename_all-AreRenamed f (r ∷ rs) ds (h, k, more) =
    let moved = rename_entry r.from r.to ds in
    let files = files_in r.to moved in
    let left = (rename_files (f r) files files).0 in
    let names : names_of (set_files r.to left moved)
        ≡ each (rename_name r.from r.to) (names_of ds) =
      names_of-set_files r.to left moved ∙ names_of-rename_entry r.from r.to ds in
    let later =
      rename_all-AreRenamed f rs (set_files r.to left moved)
        (subst (AreFresh rs) (sym names) more) in
    rw (rename_dir-fresh r.from r.to ds h k, rename_all)
      (
        later.0,
        later.1
            ∙ ap (each (apply_all rs)) names
            ∙ each-each (rename_name r.from r.to) (apply_all rs) (names_of ds),
        ap (λ l. (r.from, r.to) ∷ l) later.2,
      )
