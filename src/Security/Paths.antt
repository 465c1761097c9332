-- ===== src/Security/Paths.antt =====
-- `validatePath` and `requireSafePath` of security.cjs.
pub mod Laws
use aegis_workers.Base.{
  String, ◌<>◌, Bool, true, false, not, ◌&&◌, ◌||◌, ◌===◌, ◌==◌, if◌then◌else◌, Option, none, some,
  truthy, codes, any, starts_with, ◌≡◌, refl, inl, inr, Bool-cases, and-eq-true, eq_iff, arith, ap,
  sym, ◌∙◌, or_default,
}

-- Node's path functions and `realpathSync`, which throws where it gives nothing.
pub record PathSystem : Type 0 where
  pub resolve : String → String
  pub resolve_in : (base path : String) → String
  pub is_absolute : String → Bool
  pub real_path : String → Option String
  pub dirname : String → String
  pub basename : String → String
  pub join : (directory name : String) → String
  pub separator : String

pub record PathVerdict : Type 0 where
  pub safe : Bool
  pub resolved : String
  pub error : String

-- The path, or the message of the error that is thrown.
pub data Required : Type 0 where
  safe_path unsafe_path : String → Required

abbrev pub reject : String → String → PathVerdict
reject resolved message = record { safe = false; resolved = resolved; error = message }

module _ (y : PathSystem) where
  unfoldable pub resolve_base : String → String
  resolve_base base = elim (y.real_path (y.resolve base)) [ some p ↦ p | none ↦ y.resolve base ]

  -- The links of a path, or of its directory where the path does not exist, are followed.
  unfoldable pub follow_links : String → String
  follow_links path = elim (y.real_path path) [
    | some p ↦ p
    | none ↦ elim (y.real_path (y.dirname path)) [
      | some parent ↦ y.join parent (y.basename path)
      | none ↦ path
    ]
  ]

  -- The test that the path is the base or lies below it.
  unfoldable pub contain : (base path : String) → PathVerdict
  contain base path =
      if not (path === base) && not (starts_with (path <> y.separator) (base <> y.separator))
      then reject path ("Path escapes allowed directory: " <> path <> " is outside " <> base)
      else record { safe = true; resolved = path; error = "" }

  -- Arguments that are no strings are given as missing.
  unfoldable pub validate_path : (file base : Option String) → (allow_absolute : Bool) → PathVerdict
  unfolding resolve_base follow_links contain
  validate_path none base allow = reject "" "Empty or invalid file path"
  validate_path (some file) none allow =
      if not (truthy file)
      then reject "" "Empty or invalid file path"
      else reject "" "Empty or invalid base directory"
  validate_path (some file) (some base) allow =
      if not (truthy file)
      then reject "" "Empty or invalid file path"
      else if not (truthy base)
      then reject "" "Empty or invalid base directory"
      else if any (λ c. c == 0) (codes file)
      then reject "" "Path contains null bytes"
      else if y.is_absolute file
      then (if allow
          then contain (resolve_base base) (follow_links (y.resolve file))
          else reject "" "Absolute paths not allowed")
      else contain (resolve_base base) (follow_links (y.resolve_in base file))

  unfoldable pub require_safe_path :
      (label file base : Option String) → (allow_absolute : Bool) → Required
  unfolding validate_path
  require_safe_path label file base allow =
      let verdict = validate_path file base allow in
      if verdict.safe
      then safe_path verdict.resolved
      else unsafe_path (or_default label "Path" <> " validation failed: " <> verdict.error)
