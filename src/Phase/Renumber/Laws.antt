-- ===== src/Phase/Renumber/Laws.antt =====
-- The renames that the functions plan, and the names that they leave.
use mathlib.Core.Path.{subst}
use aegis_workers.Base.{
  ◌≡◌, ◌≢◌, refl, sym, ◌⊎◌, inl, inr, List, [], ◌∷◌, Text, text_eq, Bool-cases, All,
}
use aegis_workers.Phase.Folders.{Rename}
use aegis_workers.Phase.Renumber.Steps.{
  In, each, rename_name, apply_all, AreFresh, text_eq_refl, text_eq_ne,
}
use aegis_workers.Phase.Renumber.Plan.{Pairwise}

-- The names that two renames take and give differ.
abbrev pub Differ : Rename → Rename → Type 0
Differ r q = (r.from ≢ q.from) × (r.to ≢ q.to)

-- Each rename takes a name of the list and gives one that is not in it.
abbrev pub Moves : List Text → Rename → Type 0
Moves ns r = In r.from ns × (In r.to ns → ⊥)

In-each :
    (old new x : Text) (ns : List Text) → In x ns → x ≢ old → In x (each (rename_name old new) ns)
In-each old new x [] h k = h
In-each old new x (n ∷ ns) (inl e) k =
    inl (sym (subst (λ m. rename_name old new m ≡ x) e (rw (text_eq_ne x old k) refl)))
In-each old new x (n ∷ ns) (inr h) k = inr (In-each old new x ns h k)

fresh-each :
    (old new x : Text) (ns : List Text)
    → (In x ns → ⊥)
    → x ≢ new
    → In x (each (rename_name old new) ns)
    → ⊥
fresh-each old new x [] h k i = i
fresh-each old new x (n ∷ ns) h k (inl e) = elim (Bool-cases (text_eq n old)) [
  | inl same ↦ k (rw same at e)
  | inr other ↦ h (inl (rw other at e))
]
fresh-each old new x (n ∷ ns) h k (inr i) = fresh-each old new x ns (λ j. h (inr j)) k i

Moves-each :
    (r : Rename) (rs : List Rename) (ns : List Text)
    → All (Differ r) rs
    → All (Moves ns) rs
    → All (Moves (each (rename_name r.from r.to) ns)) rs
Moves-each r [] ns h k = tt
Moves-each r (q ∷ rs) ns ((a, b), h) ((i, j), k) = (
  (
    In-each r.from r.to q.from ns i (λ e. a (sym e)),
    fresh-each r.from r.to q.to ns j (λ e. b (sym e)),
  ),
  Moves-each r rs ns h k,
)

pub plan-AreFresh :
    (rs : List Rename) (ns : List Text) → Pairwise Differ rs → All (Moves ns) rs → AreFresh rs ns
plan-AreFresh [] ns h k = tt
plan-AreFresh (r ∷ rs) ns (d, h) ((i, j), k) =
    (i, j, plan-AreFresh rs (each (rename_name r.from r.to) ns) h (Moves-each r rs ns d k))

pub apply_all-other : (rs : List Rename) (n : Text) → All (λ r. n ≢ r.from) rs → apply_all rs n ≡ n
apply_all-other [] n h = refl
apply_all-other (r ∷ rs) n (p, h) = rw (text_eq_ne n r.from p) (apply_all-other rs n h)

-- A new name that is not in the list is not the old name of a rename.
to-other :
    (n : Text) (ns : List Text) (rs : List Rename)
    → (In n ns → ⊥)
    → All (Moves ns) rs
    → All (λ r. n ≢ r.from) rs
to-other n ns [] h k = tt
to-other n ns (r ∷ rs) h ((i, j), k) =
    (λ e. h (subst (λ x. In x ns) (sym e) i), to-other n ns rs h k)

abbrev pub InRenames : Rename → List Rename → Type 0
InRenames r [] = ⊥
InRenames r (q ∷ rs) = (r ≡ q) ⊎ InRenames r rs

All-In : (P : Rename → Type 0) (r : Rename) (rs : List Rename) → InRenames r rs → All P rs → P r
All-In P r [] i h = absurd i
All-In P r (q ∷ rs) (inl e) (p, h) = subst P (sym e) p
All-In P r (q ∷ rs) (inr i) (p, h) = All-In P r rs i h

pub apply_all-In :
    (r : Rename) (rs : List Rename) (ns : List Text)
    → InRenames r rs
    → Pairwise Differ rs
    → All (Moves ns) rs
    → apply_all rs r.from ≡ r.to
apply_all-In r [] ns i h k = absurd i
apply_all-In r (q ∷ rs) ns (inl e) (d, h) ((i, j), k) =
    subst (λ x. apply_all (q ∷ rs) x.from ≡ x.to) (sym e)
      (rw (text_eq_refl q.from) (apply_all-other rs q.to (to-other q.to ns rs j k)))
apply_all-In r (q ∷ rs) ns (inr i) (d, h) (m, k) =
    let other = All-In (Differ q) r rs i d in
    rw (text_eq_ne r.from q.from (λ e. other.0 (sym e))) (apply_all-In r rs ns i h k)
