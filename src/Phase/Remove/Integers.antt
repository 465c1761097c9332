-- ===== src/Phase/Remove/Integers.antt =====
-- The parts of the removal of an integer phase: the normalized number, and the directories of the other
-- phases.
use mathlib.Core.Path.{subst}
use aegis_workers.Base.{
  ℕ, ◌≡◌, ◌≢◌, refl, sym, ap, ◌∙◌, inl, inr, true, false, any, some, List, [], ◌∷◌, append-nil,
  ◌==◌, Text, text_eq, All, Bool-cases, number_text, arith,
}
use aegis_workers.Phase.Number.{span_digits, match_phase, normalize_phase_name, pad_two}
use aegis_workers.Phase.Number.Normalize.{AreDigits, IsRun, span_digits-append}
use aegis_workers.Phase.Folders.{without_dir}
use aegis_workers.Phase.Insert.Agree.{number_at-run}
use aegis_workers.Phase.Renumber.Steps.{In, text_eq_refl, text_eq_ne}
use aegis_workers.Phase.Renumber.Plan.{Pairwise}
use aegis_workers.Phase.Remove.{integers, follow_of}
use aegis_workers.Phase.Remove.Folders.{
  Folder, padded, folder_name, dirs_of, folder_names, others, Unlike, number_text-IsRun,
  padded-IsRun, digits_value-padded, is_dir_of, is_dir_of-number, is_dir_of_self,
}

pub normalize-run : (run : Text) → IsRun run → normalize_phase_name run ≡ pad_two run
unfolding normalize_phase_name match_phase
normalize-run [] h = absurd (h.0 refl)
normalize-run (c ∷ run) (n, h) =
    rw
      (
        subst (λ t. span_digits t ≡ (c ∷ run, [])) (append-nil (c ∷ run))
            (span_digits-append (c ∷ run) [] h tt),
        match_phase,
        normalize_phase_name,
      )
      (append-nil (pad_two (c ∷ run)))

no_point : (run : Text) → AreDigits run → any (λ c. c == b'.') run ≡ false
no_point [] h = refl
no_point (c ∷ run) (p, h) = ground (arith, no_point run h)

pub follow_of-number : (r : ℕ) → follow_of (number_text r) (padded r) ≡ integers (some r)
unfolding follow_of
follow_of-number r =
    rw
      (
        no_point (number_text r) (number_text-IsRun r).1,
        number_at-run (padded r) (padded-IsRun r),
        digits_value-padded r,
      )
      refl

pub All-others : (P : Folder → Type 0) (r : ℕ) (es : List Folder) → All P es → All P (others r es)
All-others P r [] h = tt
All-others P r (e ∷ es) (p, h) = elim (Bool-cases (e.number == r)) [
  | inl g ↦ rw g (All-others P r es h)
  | inr g ↦ rw g (p, All-others P r es h)
]

pub Pairwise-others :
    (r : ℕ) (es : List Folder) → Pairwise Unlike es → Pairwise Unlike (others r es)
Pairwise-others r [] h = tt
Pairwise-others r (e ∷ es) (p, h) = elim (Bool-cases (e.number == r)) [
  | inl g ↦ rw g (Pairwise-others r es h)
  | inr g ↦ rw g (All-others (Unlike e) r es p, Pairwise-others r es h)
]

-- `m` is the name of each directory of the phase.
abbrev IsName : ℕ → Text → Folder → Type 0
IsName r m e = e.number ≡ r → folder_name e.number e.slug ≡ m

not_elsewhere :
    (r : ℕ) (m : Text) (e : Folder) (es : List Folder)
    → All (Unlike e) es
    → In m (folder_names (λ n. n) es)
    → is_dir_of r m ≡ true
    → e.number ≢ r
not_elsewhere r m e [] h i q = absurd i
not_elsewhere r m e (x ∷ es) ((a, b), h) (inl i) q =
    λ g. a (g ∙ sym (is_dir_of-number r x.number x.slug (subst (λ d. is_dir_of r d ≡ true) i q)))
not_elsewhere r m e (x ∷ es) (p, h) (inr i) q = not_elsewhere r m e es h i q

pub All-IsName :
    (r : ℕ) (m : Text) (es : List Folder)
    → Pairwise Unlike es
    → In m (folder_names (λ n. n) es)
    → is_dir_of r m ≡ true
    → All (IsName r m) es
All-IsName r m [] h i q = absurd i
All-IsName r m (e ∷ es) (p, h) (inl i) q = (λ g. sym i, rest es p)
  where
    number : e.number ≡ r
    number = is_dir_of-number r e.number e.slug (subst (λ d. is_dir_of r d ≡ true) i q)

    rest : (xs : List Folder) → All (Unlike e) xs → All (IsName r m) xs
    rest [] k = tt
    rest (x ∷ xs) ((a, b), k) = (λ g. absurd (a (number ∙ sym g)), rest xs k)
All-IsName r m (e ∷ es) (p, h) (inr i) q =
    (λ g. absurd (not_elsewhere r m e es p i q g), All-IsName r m es h i q)

pub without_dir-others :
    (r : ℕ) (m : Text) (es : List Folder)
    → is_dir_of r m ≡ true
    → All (IsName r m) es
    → without_dir m (dirs_of es) ≡ dirs_of (others r es)
without_dir-others r m [] q h = refl
without_dir-others r m (e ∷ es) q (p, h) = elim (Bool-cases (e.number == r)) [
  | inl g ↦
      let same : folder_name e.number e.slug ≡ m = p (ground arith) in
      rw (g, same, text_eq_refl m) (without_dir-others r m es q h)
  | inr g ↦
      let differ : text_eq (folder_name e.number e.slug) m ≡ false =
        text_eq_ne (folder_name e.number e.slug) m (λ same. other same g) in
      rw (g, differ)
        (ap (λ ds. record { name = folder_name e.number e.slug; files = e.files } ∷ ds)
          (without_dir-others r m es q h))
]
  where
    other : folder_name e.number e.slug ≡ m → (e.number == r) ≡ false → ⊥
    other same g =
        let number =
          is_dir_of-number r e.number e.slug (subst (λ d. is_dir_of r d ≡ true) (sym same) q) in
        ground arith

pub others-all :
    (r : ℕ) (es : List Folder)
    → ((d : Text) → In d (folder_names (λ n. n) es) → is_dir_of r d ≡ true → ⊥)
    → others r es ≡ es
others-all r [] h = refl
others-all r (e ∷ es) h = elim (Bool-cases (e.number == r)) [
  | inl g ↦
      let number : r ≡ e.number = ground arith in
      absurd (
        h (folder_name e.number e.slug) (inl refl) (
          subst (λ n. is_dir_of n (folder_name e.number e.slug) ≡ true) (sym number)
            (is_dir_of_self e.number e.slug)))
  | inr g ↦ rw g (ap (λ l. e ∷ l) (others-all r es (λ d i. h d (inr i))))
]
