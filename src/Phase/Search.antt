-- ===== src/Phase/Search.antt =====
-- `searchPhaseInDir` and `findPhaseInternal` of core.cjs: the directory of a phase, in the current
-- phases and else in those of the archived milestones, and what is reported of it. A directory is its
-- name and its files' names; `toUpperCase`, `toLowerCase` and `path.join` are parameters.
pub mod Laws
use aegis_workers.Base.{
  ℕ, Bool, true, false, ◌||◌, ◌&&◌, not, any, all, Option, none, some, List, [], ◌∷◌, ◌++◌, ◌==◌,
  if◌then◌else◌, Text, text_eq, codes, begins, find, keep, is_digit, is_letter, is_alnum,
}
use Prim.Native.Nat.{Ordering}
use aegis_workers.Config.Load.{text_le}
use aegis_workers.Phase.Number.{span_digits, normalize_phase_name}
use aegis_workers.Phase.Files.{get_phase_file_stats}
use aegis_workers.Phase.Renumber.{sorted_names, replace_first}
use aegis_workers.Phase.Folders.{Dir, files_in}
use aegis_workers.Phase.Insert.{dashes, without_first, without_last}
use aegis_workers.Phase.Groups.{number_and_name}
use aegis_workers.State.{line_of}

pub record Found : Type 0 where
  pub directory : Text
  pub phase_number : Text
  pub phase_name : Option Text
  pub phase_slug : Option Text
  pub plans : List Text
  pub summaries : List Text
  pub incomplete_plans : List Text
  pub has_research : Bool
  pub has_context : Bool
  pub has_verification : Bool
  pub has_reviews : Bool
  pub archived : Option Text

-- `xs.sort()`
abbrev insert_text : Text → List Text → List Text
insert_text x [] = x ∷ []
insert_text x (y ∷ ys) = let rest = insert_text x ys in if text_le x y then x ∷ y ∷ ys else y ∷ rest

abbrev pub sort_texts : List Text → List Text
sort_texts [] = []
sort_texts (x ∷ xs) = insert_text x (sort_texts xs)

-- `s.replace(text, '')`
abbrev without_text : Text → Text → Text
without_text text s = elim (replace_first text [] s) [ none ↦ s | some t ↦ t ]

abbrev pub plan_id : Text → Text → Text
plan_id kind file = without_text kind (without_text (b'-' ∷ kind) file)

-- The plans whose identifier is that of no summary
unfoldable pub incomplete : List Text → List Text → List Text
unfolding replace_first
incomplete plans summaries =
    keep
      (λ p. not (
        any (λ s. text_eq (plan_id (codes "PLAN.md") p) (plan_id (codes "SUMMARY.md") s))
          summaries))
      plans

-- What the system gives: the case of texts, and `toPosixPath(path.join(base, name))`
pub record Words : Type 0 where
  pub upper : Text → Text
  pub lower : Text → Text
  pub join : Text → Text → Text

abbrev pub starts_phase : Words → Text → Text → Bool
starts_phase w normalized d = begins d normalized || begins (w.upper d) (w.upper normalized)

abbrev slug_of : Words → Option Text → Option Text
slug_of w none = none
slug_of w (some name) = some (without_last (without_first (dashes false (w.lower name))))

-- An archive of a milestone: its directory's name and its phases
pub record Archive : Type 0 where
  pub name : Text
  pub dirs : List Dir

-- `/^v[\d.]+-phases$/`, and the version in front of the suffix
abbrev version_of : Text → Option Text
version_of [] = none
version_of (v ∷ s) =
    let version = without_text (codes "-phases") s in
    if (v == b'v' && not (text_eq version []))
      && (all (λ c. is_digit c || c == b'.') version && text_eq s (version ++ codes "-phases"))
    then some (v ∷ version)
    else none

-- `.sort().reverse()` by the archives' names
abbrev insert_archive : Archive → List Archive → List Archive
insert_archive x [] = x ∷ []
insert_archive x (y ∷ ys) =
    let rest = insert_archive x ys in if text_le y.name x.name then x ∷ y ∷ ys else y ∷ rest

abbrev sort_archives : List Archive → List Archive
sort_archives [] = []
sort_archives (x ∷ xs) = insert_archive x (sort_archives xs)

module _ (locale : Text → Text → Ordering) (w : Words) where
  -- The first directory in the order of phases that the phase's name starts
  unfoldable pub matching_dir : Text → List Dir → Option Text
  matching_dir normalized dirs = find (starts_phase w normalized) (sorted_names locale dirs)

  abbrev report_dir : Option Text → Text → List Dir → Text → Found
  report_dir archived base dirs match =
      let (number, name) = number_and_name match in
      let stats = get_phase_file_stats (files_in match dirs) in
      let plans = sort_texts stats.plans in
      let summaries = sort_texts stats.summaries in
      record {
        directory = w.join base match;
        phase_number = number;
        phase_name = name;
        phase_slug = slug_of w name;
        plans = plans;
        summaries = summaries;
        incomplete_plans = incomplete plans summaries;
        has_research = stats.has_research;
        has_context = stats.has_context;
        has_verification = stats.has_verification;
        has_reviews = stats.has_reviews;
        archived = archived;
      }

  unfoldable pub search_phase_in_dir : Option Text → Text → List Dir → Text → Option Found
  unfolding matching_dir number_and_name incomplete dashes without_first without_last
      get_phase_file_stats
  search_phase_in_dir archived base dirs normalized = elim (matching_dir normalized dirs) [
    | none ↦ none
    | some [] ↦ none
    | some (c ∷ name) ↦ some (report_dir archived base dirs (c ∷ name))
  ]

  abbrev found_or : Option Found → Option Found → Option Found
  found_or none later = later
  found_or (some f) later = some f

  -- The loop over the archives; a directory whose name is no archive's is passed over.
  unfoldable pub search_archives : List Archive → Text → Option Found
  unfolding search_phase_in_dir replace_first
  search_archives [] normalized = none
  search_archives (a ∷ archives) normalized =
      let later = search_archives archives normalized in
      elim (version_of a.name) [
        | none ↦ later
        | some version ↦
            found_or
              (search_phase_in_dir (some version) (codes ".planning/milestones/" ++ a.name) a.dirs
                normalized)
              later
      ]

  -- The directories of an unreadable or missing folder are none.
  unfoldable pub find_phase_internal : Text → List Dir → List Archive → Text → Option Found
  unfolding search_archives normalize_phase_name
  find_phase_internal base dirs archives [] = none
  find_phase_internal base dirs archives (c ∷ phase) =
      let normalized = normalize_phase_name (c ∷ phase) in
      found_or (search_phase_in_dir none base dirs normalized)
        (search_archives (sort_archives archives) normalized)
