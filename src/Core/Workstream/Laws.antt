-- ===== src/Core/Workstream/Laws.antt =====
-- The active workstream that was set is the one that is read.
use aegis_workers.Base.{
  ℕ, String, ◌<>◌, ◌≡◌, refl, true, false, ◌&&◌, if◌then◌else◌, none, some, truthy, trim, codes,
  arith, Bool-cases, inl, inr, is_space, trim_start, trim_end, all, and-eq-true,
}
use mathlib.Core.Option.{some-injective}
use Prim.Native.Char.{code}
use aegis_workers.Cli.Options.{is_name, is_name_char}
use aegis_workers.Core.Workstream.{Marker, get_active_workstream, set_active_workstream}
use text.Mathlib.TextLemmas.{cons-append}

-- A character of a workstream's name is no space.
is_space-is_name_char : (c : ℕ) → is_name_char c ≡ true → is_space c ≡ false
is_space-is_name_char c h = ground arith

trim_end-line : (s : String) → all is_name_char (codes s) ≡ true → trim_end (s <> "\n") ≡ s
trim_end-line String.[] h = ground arith
trim_end-line (String.◌∷◌ c String.[]) h =
    let (first, _) = and-eq-true (is_name_char (code c)) true h in
    rw (cons-append, trim_end, is_space-is_name_char (code c) first) refl
trim_end-line (String.◌∷◌ c (String.◌∷◌ d s)) h =
    let (first, rest) =
      and-eq-true (is_name_char (code c)) (all is_name_char (codes (String.◌∷◌ d s))) h in
    rw (cons-append, trim_end-line (String.◌∷◌ d s) rest) refl

trim-line : (s : String) → is_name (codes s) ≡ true → trim (s <> "\n") ≡ s
unfolding is_name
trim-line String.[] h = cc
trim-line (String.◌∷◌ c s) h =
    let (first, _) = and-eq-true (is_name_char (code c)) (all is_name_char (codes s)) h in
    let line = trim_end-line (String.◌∷◌ c s) h in
    rw (cons-append, trim_start, is_space-is_name_char (code c) first) (rw cons-append at line)

read-written :
    (name : String) (m : Marker)
    → is_name (codes name) ≡ true
    → get_active_workstream (record { content = some (name <> "\n"); exists = m.exists })
      ≡ (if truthy name && m.exists name then some name else none)
unfolding get_active_workstream
read-written name m h = rw (trim-line name h, h) (ground arith)

never {ℓ κ} : {A : Type ℓ} {B : Type κ} {a : A} → none ≡ some a → B
never h = cc

-- After a name was set without a failure, it is the name that is read back, if it is not empty and
-- its directory is there; otherwise nothing is read.
pub get_active_workstream-set_active_workstream :
    (name : String) (m m' : Marker)
    → set_active_workstream (some name) m ≡ some m'
    → get_active_workstream m' ≡ (if truthy name && m.exists name then some name else none)
unfolding get_active_workstream set_active_workstream
get_active_workstream-set_active_workstream name m m' h = elim (Bool-cases (truthy name)) [
  | inl given ↦ elim (Bool-cases (is_name (codes name))) [
    | inl good ↦ rw (← some-injective _ _ (rw (given, good) at h)) (read-written name m good)
    | inr bad ↦ never (rw (given, bad) at h)
  ]
  | inr blank ↦ rw (← some-injective _ _ (rw blank at h), blank) refl
]
