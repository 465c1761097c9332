-- ===== src/Core/Root/Laws.antt =====
-- The walk to the project's root ends, and what it returns.
use aegis_workers.Base.{
  ℕ, zero, suc, ◌<◌, ◌≡◌, refl, inl, inr, ◌⊎◌, String, Bool, true, false, ◌||◌, some, ◌===◌,
  Bool-cases, Option-cases, never, some-inj, arith,
}
use mathlib.Core.Path.{subst}
use aegis_workers.Core.Root.{Tree, inside_git, is_taken, walk_up, find_project_root}

-- `dirname` on the paths that the walk meets: each but the root has a shorter one above it.
pub record IsDescent (y : Tree) (size : String → ℕ) (Below : String → Type 0) : Type 0 where
  pub above : (d : String) → Below d → (d === y.root) ≡ false → Below (y.dirname d)
  pub shorter : (d : String) → Below d → (d === y.root) ≡ false → size (y.dirname d) < size d

module _ (y : Tree) (size : String → ℕ) (Below : String → Type 0)
    (descent : IsDescent y size Below) where
  inside_git-ends :
      (fuel : ℕ) (candidate d : String)
      → Below d
      → size d < fuel
      → (b : Bool) × (inside_git y fuel candidate d ≡ some b)
  unfolding inside_git
  inside_git-ends zero candidate d h k = absurd (omega arith)
  inside_git-ends (suc fuel) candidate d h k = elim (Bool-cases (d === y.root)) [
    | inl e ↦ (false, rw e refl)
    | inr e ↦
        let s = descent.shorter d h e in
        let (b, rest) =
          inside_git-ends fuel candidate (y.dirname d) (descent.above d h e) (omega arith) in
        elim (Bool-cases (y.has_git d)) [
          | inl g ↦ (true, rw e (rw g refl))
          | inr g ↦ elim (Bool-cases (d === candidate)) [
            | inl c ↦ (false, rw e (rw g (rw c refl)))
            | inr c ↦ (b, rw e (rw g (rw c rest)))
          ]
        ]
  ]

  walk_up-ends :
      (limit fuel : ℕ) (start resolved dir : String)
      → Below resolved
      → size resolved < limit
      → Below dir
      → size dir < fuel
      → (r : String) × (walk_up y limit fuel start resolved dir ≡ some r)
  unfolding walk_up
  walk_up-ends limit zero start resolved dir m n h k = absurd (omega arith)
  walk_up-ends limit (suc fuel) start resolved dir m n h k =
      elim (Bool-cases (dir === y.root || (y.dirname dir === dir || y.dirname dir === y.home))) [
        | inl e ↦ (start, rw e refl)
        | inr e ↦
            let low : (dir === y.root) ≡ false = ground arith in
            let s = descent.shorter dir h low in
            let (r, rest) =
              walk_up-ends limit fuel start resolved (y.dirname dir) m n (descent.above dir h low)
                (omega arith) in
            let (b, git) = inside_git-ends limit (y.dirname dir) resolved m n in
            elim (Bool-cases (y.has_planning (y.dirname dir))) [
              | inr p ↦ (r, rw e (rw p rest))
              | inl p ↦ elim (Bool-cases (is_taken y (y.dirname dir) b)) [
                | inl t ↦ (y.dirname dir, rw e (rw p (rw git (rw t refl))))
                | inr t ↦ (r, rw e (rw p (rw git (rw t rest))))
              ]
            ]
      ]

  -- The search ends with a directory, on fuel above the size of the resolved path, where each path
  -- but the root has a shorter one above it.
  pub find_project_root-ends :
      (fuel : ℕ) (start resolved : String)
      → Below resolved
      → size resolved < fuel
      → (r : String) × (find_project_root y fuel start resolved ≡ some r)
  unfolding find_project_root
  find_project_root-ends fuel start resolved h k = elim (Bool-cases (y.has_planning resolved)) [
    | inl e ↦ (start, rw e refl)
    | inr e ↦
        let (r, rest) = walk_up-ends fuel fuel start resolved resolved h k h k in (r, rw e rest)
  ]

-- `e` is above `d`; the way up begins below the root at each step and meets no home directory.
pub data Climbs (y : Tree) : String → String → Type 0 where
  parent :
      {d : String}
      → (d === y.root) ≡ false
      → (y.dirname d === y.home) ≡ false
      → Climbs y d (y.dirname d)
  further :
      {d e : String}
      → (d === y.root) ≡ false
      → (y.dirname d === y.home) ≡ false
      → Climbs y (y.dirname d) e
      → Climbs y d e

-- A directory that was chosen above another one, which keeps the project's planning directory
abbrev pub IsProject : Tree → String → String → Type 0
IsProject y d r = Climbs y d r × (y.has_planning r ≡ true)

further-IsProject :
    (y : Tree) (start d r : String)
    → (d === y.root) ≡ false
    → (y.dirname d === y.home) ≡ false
    → (start ≡ r) ⊎ IsProject y (y.dirname d) r
    → (start ≡ r) ⊎ IsProject y d r
further-IsProject y start d r low home (inl e) = inl e
further-IsProject y start d r low home (inr (c, p)) = inr (further low home c, p)

walk_up-IsProject :
    (y : Tree) (limit fuel : ℕ) (start resolved dir r : String)
    → walk_up y limit fuel start resolved dir ≡ some r
    → (start ≡ r) ⊎ IsProject y dir r
unfolding walk_up
walk_up-IsProject y limit zero start resolved dir r e = absurd (never e)
walk_up-IsProject y limit (suc fuel) start resolved dir r e =
    elim (Bool-cases (dir === y.root || (y.dirname dir === dir || y.dirname dir === y.home))) [
      | inl f ↦ inl (some-inj (rw f at e))
      | inr f ↦
          let low : (dir === y.root) ≡ false = ground arith in
          let home : (y.dirname dir === y.home) ≡ false = ground arith in
          elim (Bool-cases (y.has_planning (y.dirname dir))) [
            | inr p ↦ further-IsProject y start dir r low home (
                walk_up-IsProject y limit fuel start resolved (y.dirname dir) r
                  (rw p at (rw f at e)))
            | inl p ↦ elim (Option-cases (inside_git y limit (y.dirname dir) resolved)) [
              | inl g ↦ absurd (never (rw g at (rw p at (rw f at e))))
              | inr (b, g) ↦ elim (Bool-cases (is_taken y (y.dirname dir) b)) [
                | inl t ↦ inr (
                    subst (IsProject y dir) (some-inj (rw t at (rw g at (rw p at (rw f at e)))))
                      (parent low home, p))
                | inr t ↦ further-IsProject y start dir r low home (
                    walk_up-IsProject y limit fuel start resolved (y.dirname dir) r
                      (rw t at (rw g at (rw p at (rw f at e)))))
              ]
            ]
          ]
    ]

-- What the search returns is the given directory, or one above the resolved directory with a
-- planning directory, where neither it nor a directory on the way is the home directory.
pub find_project_root-IsProject :
    (y : Tree) (fuel : ℕ) (start resolved r : String)
    → find_project_root y fuel start resolved ≡ some r
    → (start ≡ r) ⊎ IsProject y resolved r
unfolding find_project_root
find_project_root-IsProject y fuel start resolved r e =
    elim (Bool-cases (y.has_planning resolved)) [
      | inl f ↦ inl (some-inj (rw f at e))
      | inr f ↦ walk_up-IsProject y fuel fuel start resolved resolved r (rw f at e)
    ]
