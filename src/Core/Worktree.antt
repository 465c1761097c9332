-- ===== src/Core/Worktree.antt =====
-- `execGit`, `resolveWorktreeRoot` and `isGitIgnored` of core.cjs: what the code asks git for.
use Prim.Native.String.{String}
use aegis_workers.Base.{
  ℕ, Bool, false, Option, none, some, List, [], ◌∷◌, ◌||◌, not, ◌===◌, ◌==◌, if◌then◌else◌, trim,
}

-- What `spawnSync('git', …)` returns; the status is null when git was stopped by a signal.
pub record Spawned : Type 0 where
  pub status : Option ℕ
  pub stdout : Option String
  pub stderr : Option String

pub record GitResult : Type 0 where
  pub exit_code : ℕ
  pub stdout : String
  pub stderr : String

-- `x ?? d`
abbrev pub or_else {ℓ} : {A : Type ℓ} → Option A → A → A
or_else none d = d
or_else (some a) d = a

-- The directory's git, the file system and Node's path functions, which the code calls.
pub record System : Type 0 where
  pub spawn_git : String → List String → Spawned
  pub exists : String → Bool
  pub path_join : String → String → String
  pub path_resolve : String → String → String
  pub dirname : String → String

module _ (y : System) where
  unfoldable pub exec_git : String → List String → GitResult
  exec_git cwd args =
      let r = y.spawn_git cwd args in
      record {
        exit_code = or_else r.status 1;
        stdout = trim (or_else r.stdout "");
        stderr = trim (or_else r.stderr "");
      }

  unfoldable pub resolve_worktree_root : String → String
  unfolding exec_git
  resolve_worktree_root cwd =
      if y.exists (y.path_join cwd ".planning")
      then cwd
      else let git_dir = exec_git cwd ("rev-parse" ∷ "--git-dir" ∷ []) in
        let common_dir = exec_git cwd ("rev-parse" ∷ "--git-common-dir" ∷ []) in
        if not (git_dir.exit_code == 0) || not (common_dir.exit_code == 0)
        then cwd
        else let git_dir_resolved = y.path_resolve cwd git_dir.stdout in
          let common_dir_resolved = y.path_resolve cwd common_dir.stdout in
          if git_dir_resolved === common_dir_resolved then cwd else y.dirname common_dir_resolved

-- `isGitIgnored`: the call throws for every status of git but 0, and where git was stopped.
unfoldable pub is_git_ignored : (run : String → List String → Spawned) → String → String → Bool
is_git_ignored run cwd target =
    elim (run cwd ("check-ignore" ∷ "-q" ∷ "--no-index" ∷ "--" ∷ target ∷ [])).status [
      | none ↦ false
      | some code ↦ code == 0
    ]
