-- ===== src/Tests/Root.antt =====
-- The search for the project's root at concrete directories.
use Prim.Native.String.{String}
use aegis_workers.Base.{
  ℕ, ◌≡◌, refl, ◌⊎◌, inl, inr, none, some, ◌===◌, if◌then◌else◌, Bool-cases, arith,
}
use aegis_workers.Core.Root.{Tree, find_project_root}
use aegis_workers.Core.Root.Laws.{
  IsDescent, IsProject, find_project_root-ends, find_project_root-IsProject,
}

-- The directories /w/back/src, /w/back with a git repository, and /w with a planning directory
up : String → String
up d = if d === "/w/back/src" then "/w/back" else if d === "/w/back" then "/w" else "/"

tree : Tree
tree = record {
  dirname = up;
  has_planning = λ d. d === "/w";
  has_git = λ d. d === "/w/back";
  config = λ d. none;
  top_segment = λ d. "back";
  root = "/";
  home = "/home/u";
}

depth : String → ℕ
depth d =
    if d === "/w/back/src" then 3 else if d === "/w/back" then 2 else if d === "/" then 0 else 1

tree-IsDescent : IsDescent tree depth (λ d. Unit)
unfolding tree up depth
tree-IsDescent = record {
  above = λ d h e. tt;
  shorter = λ d h e. elim (Bool-cases (d === "/w/back/src")) [
    | inl a ↦ rw a (ground arith)
    | inr a ↦ elim (Bool-cases (d === "/w/back")) [
      | inl b ↦ rw a (rw b (ground arith))
      | inr b ↦ rw a (rw b (rw e (ground arith)))
    ]
  ];
}

find_project_root-ends_example :
    (r : String) × (find_project_root tree 4 "." "/w/back/src" ≡ some r)
unfolding depth
find_project_root-ends_example =
    find_project_root-ends tree depth (λ d. Unit) tree-IsDescent 4 "." "/w/back/src" tt
      (omega arith)

abbrev start_dir : String
start_dir = "."

found_root : find_project_root tree 4 start_dir "/w/back/src" ≡ some "/w"
unfolding find_project_root tree up
found_root = refl

find_project_root-IsProject_example : (start_dir ≡ "/w") ⊎ IsProject tree "/w/back/src" "/w"
find_project_root-IsProject_example =
    find_project_root-IsProject tree 4 start_dir "/w/back/src" "/w" found_root
