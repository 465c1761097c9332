-- ===== src/Phase/Remove/Named.antt =====
-- What the removal of an integer phase leaves, where every directory is that of an integer phase.
use mathlib.Core.Path.{subst}
use Prim.Native.Nat.{Ordering}
use aegis_workers.Base.{
  ℕ, ◌≡◌, refl, sym, ap, ◌∙◌, ◌⊎◌, inl, inr, Bool, true, false, Option, none, some, List, [], ◌∷◌,
  Text, text_eq, text_eq_iff, never, All, Bool-cases, Option-cases, find, number_text,
}
use aegis_workers.Phase.Number.Normalize.{IsRun}
use aegis_workers.Phase.Files.{filter_summary_files}
use aegis_workers.Phase.Directories.{sort_phases}
use aegis_workers.Phase.Folders.{names_of, files_in, find_dir}
use aegis_workers.Phase.Renumber.{DecimalPattern, integer_item}
use aegis_workers.Phase.Renumber.Steps.{In}
use aegis_workers.Phase.Renumber.Plan.{Pairwise, All-sort_phases, In-sort_phases}
use aegis_workers.Phase.Renumber.Names.{IsClear, All-at, All-from, distinct}
use aegis_workers.Phase.Renumber.Items.{IsSlug}
use aegis_workers.Phase.Search.Laws.{find-In, find-some}
use aegis_workers.Phase.Remove.{is_missing, target_dir, executed, remaining, phase_remove}
use aegis_workers.Phase.Remove.Laws.{
  names_left, phase_rule, phase_dir, other_names, phase_remove-renumber,
}
use aegis_workers.Phase.Remove.Folders.{
  Folder, folder_name, dirs_of, folder_names, others, renumbered_from, Unlike, number_text-IsRun,
  is_dir_of, is_dir_of-number, names_of-dirs_of, each-folder_names,
}
use aegis_workers.Phase.Remove.Clear.{distinct-folder_names, all_free}
use aegis_workers.Phase.Remove.Integers.{
  normalize-run, follow_of-number, All-others, Pairwise-others, All-IsName, without_dir-others,
  others-all,
}

-- No directory of the phase has a summary.
abbrev pub IsUnexecuted : ℕ → List Folder → Type 0
IsUnexecuted r es = All (λ e. e.number ≡ r → filter_summary_files e.files ≡ []) es

files_in-unexecuted :
    (r : ℕ) (m : Text) (es : List Folder)
    → is_dir_of r m ≡ true
    → IsUnexecuted r es
    → filter_summary_files (files_in m (dirs_of es)) ≡ []
unfolding filter_summary_files
files_in-unexecuted r m [] q h = refl
files_in-unexecuted r m (e ∷ es) q (p, h) =
    elim (Bool-cases (text_eq (folder_name e.number e.slug) m)) [
      | inl g ↦
          let same = (text_eq_iff (folder_name e.number e.slug) m).0 g in
          let number =
            is_dir_of-number r e.number e.slug (subst (λ d. is_dir_of r d ≡ true) (sym same) q) in
          rw (g, files_in, find_dir, find) (p number)
      | inr g ↦ rw (g, files_in, find_dir, find) (files_in-unexecuted r m es q h)
    ]

unpadded-IsUnmissing : (r : ℕ) → is_missing (number_text r) ≡ false
unpadded-IsUnmissing r = go (number_text r) (number_text-IsRun r)
  where
    go : (run : Text) → IsRun run → is_missing run ≡ false
    go [] h = absurd (h.0 refl)
    go (c ∷ run) h = refl

module _ (locale : Text → Text → Ordering) where
  abbrev found : ℕ → List Folder → Option Text
  found r es = find (is_dir_of r) (sort_phases locale (names_of (dirs_of es)))

  found-In :
      (r : ℕ) (es : List Folder) (m : Text)
      → found r es ≡ some m
      → In m (folder_names (λ n. n) es) × (is_dir_of r m ≡ true)
  found-In r es m e =
      let ns = names_of (dirs_of es) in
      let (there, passes) = find-In (is_dir_of r) (sort_phases locale ns) m e in
      let sorted =
        All-sort_phases locale (λ x. In x ns) ns (All-from (λ x. In x ns) ns (λ x i. i)) in
      (
        subst (In m) (names_of-dirs_of es)
            (All-at (λ x. In x ns) m (sort_phases locale ns) sorted there),
        passes,
      )

  not_found :
      (r : ℕ) (es : List Folder)
      → found r es ≡ none
      → (d : Text) → In d (folder_names (λ n. n) es)
      → is_dir_of r d ≡ true
      → ⊥
  not_found r es e d i q =
      let ns = names_of (dirs_of es) in
      let (m, g) =
        find-some (is_dir_of r) (sort_phases locale ns) d
          (In-sort_phases locale d ns (subst (In d) (sym (names_of-dirs_of es)) i)) q in
      never (sym e ∙ g)

  remaining-others :
      (r : ℕ) (es : List Folder)
      → Pairwise Unlike es
      → remaining locale (found r es) (dirs_of es) ≡ dirs_of (others r es)
  remaining-others r es h = elim (Option-cases (found r es)) [
    | inl e ↦ rw (e, remaining) (ap dirs_of (sym (others-all r es (not_found r es e))))
    | inr (m, e) ↦
        let (there, passes) = found-In r es m e in
        rw (e, remaining) (without_dir-others r m es passes (All-IsName r m es h there passes))
  ]

  executed-none :
      (r : ℕ) (es : List Folder) → IsUnexecuted r es → executed locale (found r es) (dirs_of es) ≡ 0
  executed-none r es h = elim (Option-cases (found r es)) [
    | inl e ↦ rw (e, executed) refl
    | inr (m, e) ↦ rw (e, executed, files_in-unexecuted r m es (found-In r es m e).1 h) refl
  ]

  phase_dir-found :
      (r : ℕ) (es : List Folder) → phase_dir locale (number_text r) (dirs_of es) ≡ found r es
  unfolding target_dir
  phase_dir-found r es = rw (normalize-run (number_text r) (number_text-IsRun r)) refl

  phase_rule-number :
      (special : DecimalPattern) (r : ℕ)
      → phase_rule special (number_text r) ≡ integer_item (some r)
  phase_rule-number special r =
      rw (normalize-run (number_text r) (number_text-IsRun r), follow_of-number r) refl

  other_names-others :
      (r : ℕ) (es : List Folder)
      → Pairwise Unlike es
      → other_names locale (number_text r) (dirs_of es) ≡ folder_names (λ n. n) (others r es)
  other_names-others r es h =
      ap (λ t. names_of (remaining locale t (dirs_of es))) (phase_dir-found r es)
      ∙ ap names_of (remaining-others r es h)
      ∙ names_of-dirs_of (others r es)

  folder_names-IsClear :
      (r : ℕ) (es : List Folder)
      → All (λ e. IsSlug e.slug) es
      → Pairwise Unlike es
      → IsClear (integer_item (some r)) (folder_names (λ n. n) es)
  folder_names-IsClear r es h k = (
    distinct-folder_names (λ n. n) es k,
    subst (λ l. distinct l ≡ true) (sym (each-folder_names r es h))
        (distinct-folder_names (renumbered_from r) es k),
    all_free r es h k,
  )

  -- Let every directory be that of an integer phase, its name the number with at least two digits, a
  -- dash and a slug, and let the numbers differ and the slugs differ. The removal of the phase `r`,
  -- with force or if the phase has no summary, deletes the directory of that phase, if there is one;
  -- each directory with a larger number has the number less one then, each with a smaller one keeps
  -- its number, and all keep their slugs and their order.
  pub phase_remove-folder_names :
      (special : DecimalPattern) (r : ℕ) (force : Bool) (es : List Folder)
      → All (λ e. IsSlug e.slug) es
      → Pairwise Unlike es
      → (force ≡ true) ⊎ IsUnexecuted r es
      → names_left (phase_remove locale special true (number_text r) force (dirs_of es))
        ≡ some (folder_names (renumbered_from r) (others r es))
  phase_remove-folder_names special r force es h k g =
      let slugs = All-others (λ e. IsSlug e.slug) r es h in
      let pairs = Pairwise-others r es k in
      let rule = phase_rule-number special r in
      let names = other_names-others r es k in
      let guard : (force ≡ true)
          ⊎ (executed locale (phase_dir locale (number_text r) (dirs_of es)) (dirs_of es) ≡ 0) =
        elim g [ inl e ↦ inl e | inr u ↦ inr (rw (phase_dir-found r es) (executed-none r es u)) ] in
      let clear : IsClear (phase_rule special (number_text r))
          (other_names locale (number_text r) (dirs_of es)) =
        rw (rule, names) (folder_names-IsClear r (others r es) slugs pairs) in
      phase_remove-renumber locale special (number_text r) force (dirs_of es)
        (unpadded-IsUnmissing r) guard clear
      ∙ rw (rule, names) (ap (λ l. some l) (each-folder_names r (others r es) slugs))
