-- ===== src/Security/Paths/Laws.antt =====
-- What a path that is accepted satisfies.
use mathlib.Core.Path.{subst}
use aegis_workers.Base.{
  String, ◌<>◌, Bool, true, false, not, ◌&&◌, ◌===◌, ◌==◌, Option, none, some, truthy, codes, any,
  starts_with, ◌≡◌, refl, ◌⊎◌, inl, inr, if◌then◌else◌, Option-cases, Bool-cases, eq_iff, arith,
}
use text.Mathlib.TextPositions.{starts_with_of_prefix}
use text.Mathlib.TextLemmas.{append-nil}
use aegis_workers.Security.Paths.{
  PathSystem, safe_path, unsafe_path, resolve_base, contain, validate_path, follow_links,
  require_safe_path,
}

never {ℓ} : {A : Type ℓ} → false ≡ true → A
never h = cc

never_safe {ℓ} : {A : Type ℓ} {p q : String} → unsafe_path p ≡ safe_path q → A
never_safe h = cc

path_of : {p q : String} → safe_path p ≡ safe_path q → p ≡ q
path_of h = cc

starts_with_refl : (s : String) → starts_with s s ≡ true
starts_with_refl s = starts_with_of_prefix s s ("", append-nil s)

module _ (y : PathSystem) where
  -- The path is the base or lies below it: it begins with the base and a separator, where a
  -- separator behind the path is added.
  abbrev pub IsInside : (base path : String) → Type 0
  IsInside base path = starts_with (path <> y.separator) (base <> y.separator) ≡ true

  -- How the path comes from a path that may have links: what `realpathSync` gives for it; where it
  -- does not exist, its name in what `realpathSync` gives for its directory; where neither exists,
  -- the path as it is.
  abbrev pub IsFollowed : (plain path : String) → Type 0
  IsFollowed plain path =
      (y.real_path plain ≡ some path)
      ⊎ ((y.real_path plain ≡ none)
          × (parent : String) × (y.real_path (y.dirname plain) ≡ some parent)
          × (path ≡ y.join parent (y.basename plain)))
      ⊎ ((y.real_path plain ≡ none) × (y.real_path (y.dirname plain) ≡ none) × (path ≡ plain))

  -- The base comes from the directory that is given: its links are followed if it exists.
  abbrev pub IsBase : (directory base : String) → Type 0
  IsBase directory base =
      (y.real_path (y.resolve directory) ≡ some base)
      ⊎ ((y.real_path (y.resolve directory) ≡ none) × (base ≡ y.resolve directory))

  -- The file as an absolute path, before links are followed.
  abbrev pub absolute : (file directory : String) → String
  absolute file directory =
      if y.is_absolute file then y.resolve file else y.resolve_in directory file

  follow_links-IsFollowed : (plain : String) → IsFollowed plain (follow_links y plain)
  unfolding follow_links
  follow_links-IsFollowed plain = elim (Option-cases (y.real_path plain)) [
    | inr (p, e) ↦ inl (rw (follow_links, e) refl)
    | inl e ↦ elim (Option-cases (y.real_path (y.dirname plain))) [
      | inr (parent, f) ↦ inr (inl (e, parent, f, rw (follow_links, e, f) refl))
      | inl f ↦ inr (inr (e, f, rw (follow_links, e, f) refl))
    ]
  ]

  resolve_base-IsBase : (directory : String) → IsBase directory (resolve_base y directory)
  unfolding resolve_base
  resolve_base-IsBase directory = elim (Option-cases (y.real_path (y.resolve directory))) [
    | inr (p, e) ↦ inl (rw (resolve_base, e) refl)
    | inl e ↦ inr (e, rw (resolve_base, e) refl)
  ]

  contain-safe :
      (base path : String)
      → (contain y base path).safe ≡ true
      → IsInside base path × ((contain y base path).resolved ≡ path)
  unfolding contain
  contain-safe base path h = elim (Bool-cases (path === base)) [
    | inl e ↦ (rw ((eq_iff path base).0 e) (starts_with_refl (base <> y.separator)), rw e refl)
    | inr n ↦ elim (Bool-cases (starts_with (path <> y.separator) (base <> y.separator))) [
      | inl inside ↦ (inside, rw (n, inside) refl)
      | inr outside ↦ never (rw (n, outside) at h)
    ]
  ]

  -- A verdict is safe only for a file and a base that are given and not empty, where the file holds no null
  -- character and is absolute only if that is allowed, and where the path comes from the file and
  -- is the base, with its links followed, or lies below it.
  pub record IsSafe (file base : Option String) (allow : Bool) (path : String) : Type 0 where
    pub f : String
    pub b : String
    pub file_given : file ≡ some f
    pub base_given : base ≡ some b
    pub filled : truthy f ≡ true
    pub base_filled : truthy b ≡ true
    pub clean : any (λ c. c == 0) (codes f) ≡ false
    pub kind : (y.is_absolute f && not allow) ≡ false
    pub followed : IsFollowed (absolute f b) path
    pub inside : (directory : String) × IsBase b directory × IsInside directory path

  contained :
      (file base : String) (allow : Bool)
      → truthy file ≡ true
      → truthy base ≡ true
      → any (λ c. c == 0) (codes file) ≡ false
      → (y.is_absolute file && not allow) ≡ false
      → (contain y (resolve_base y base) (follow_links y (absolute file base))).safe ≡ true
      → IsSafe
          (some file)
          (some base)
          allow
          (contain y (resolve_base y base) (follow_links y (absolute file base))).resolved
  contained file base allow t u clean kind h =
      let (inside, same) =
        contain-safe (resolve_base y base) (follow_links y (absolute file base)) h in
      record {
        f = file;
        b = base;
        file_given = refl;
        base_given = refl;
        filled = t;
        base_filled = u;
        clean = clean;
        kind = kind;
        followed = rw same (follow_links-IsFollowed (absolute file base));
        inside = (resolve_base y base, resolve_base-IsBase base, rw same inside);
      }

  validate_path-placed :
      (file base : String) (allow : Bool)
      → truthy file ≡ true
      → truthy base ≡ true
      → any (λ c. c == 0) (codes file) ≡ false
      → (validate_path y (some file) (some base) allow).safe ≡ true
      → IsSafe
          (some file)
          (some base)
          allow
          (validate_path y (some file) (some base) allow).resolved
  unfolding validate_path
  validate_path-placed file base allow t u clean h = elim (Bool-cases (y.is_absolute file)) [
    | inl a ↦ elim (Bool-cases allow) [
      | inl allowed ↦
          let placed = contained file base true t u clean (ground arith) in
          rw (t, u, clean, a, allowed) ((rw a at placed) (rw (t, u, clean, a, allowed) at h))
      | inr shut ↦ never (rw (t, u, clean, a, shut) at h)
    ]
    | inr r ↦
        let placed = contained file base allow t u clean (rw r refl) in
        rw (t, u, clean, r) ((rw r at placed) (rw (t, u, clean, r) at h))
  ]

  validate_path-safe :
      (file base : Option String) (allow : Bool)
      → (validate_path y file base allow).safe ≡ true
      → IsSafe file base allow (validate_path y file base allow).resolved
  unfolding validate_path
  validate_path-safe none base allow h = never h
  validate_path-safe (some file) none allow h = elim (Bool-cases (truthy file)) [
    | inl t ↦ never (rw t at h)
    | inr blank ↦ never (rw blank at h)
  ]
  validate_path-safe (some file) (some base) allow h = elim (Bool-cases (truthy file)) [
    | inl t ↦ elim (Bool-cases (truthy base)) [
      | inl u ↦ elim (Bool-cases (any (λ c. c == 0) (codes file))) [
        | inl hit ↦ never (rw (t, u, hit) at h)
        | inr clean ↦ validate_path-placed file base allow t u clean h
      ]
      | inr blank ↦ never (rw (t, blank) at h)
    ]
    | inr blank ↦ never (rw blank at h)
  ]

  -- A path that `requireSafePath` returns was checked: file and base are given and not empty, the
  -- file holds no null character and is absolute only if that is allowed; the path is what
  -- `realpathSync` gives for the file in the base, or, where the file does not exist, its name in
  -- what `realpathSync` gives for its directory, or, where the directory does not exist either, the
  -- file's absolute path with its links; and that path is the base, with the links of an existing
  -- base followed, or lies below it.
  pub require_safe_path-IsSafe :
      (label file base : Option String) (allow : Bool) (path : String)
      → require_safe_path y label file base allow ≡ safe_path path
      → IsSafe file base allow path
  unfolding require_safe_path
  require_safe_path-IsSafe label file base allow path h =
      elim (Bool-cases (validate_path y file base allow).safe) [
        | inl s ↦
            subst (IsSafe file base allow) (path_of (rw s at h))
              (validate_path-safe file base allow s)
        | inr n ↦ never_safe (rw n at h)
      ]
