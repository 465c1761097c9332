-- ===== src/Base/Js.antt =====
-- String helpers of the JavaScript library that the sources use on whole strings.
use Prim.Native.Nat.{ℕ, zero, suc}
use Prim.Native.Char.{Char, code}
use Prim.Native.String
use Prim.Native.String.{String, count}
use mathlib.Core.Path.{◌≡◌, refl}
use mathlib.Core.Logic.{inl, inr}
use text.Mathlib.TextLemmas.{nil-append, cons-append, length-cons}
use mathlib.Core.Bool.{Bool, true, false, ◌||◌}
use mathlib.Core.Option.{Option, none, some}
use mathlib.Core.List.{List, [], ◌∷◌}
use aegis_workers.Base.Tests.{Bool-cases, ◌==◌, ◌===◌, if◌then◌else◌}
use aegis_workers.Base.Chars.{is_space}

-- Truthiness of a string: only the empty one is false.
abbrev pub truthy : String → Bool
truthy String.[] = false
truthy (String.◌∷◌ c s) = true

-- Truthiness of a string that may be undefined or null.
abbrev pub given : Option String → Bool
given none = false
given (some s) = truthy s

-- `s.slice(n)`, by characters
abbrev pub slice_from : ℕ → String → String
slice_from zero s = s
slice_from (suc n) String.[] = String.[]
slice_from (suc n) (String.◌∷◌ c s) = slice_from n s

abbrev pub trim_start : String → String
trim_start String.[] = String.[]
trim_start (String.◌∷◌ c s) =
    let rest = trim_start s in if is_space (code c) then rest else String.◌∷◌ c s

-- A character in front of a text whose end is already trimmed.
abbrev onto_trimmed : Char → String → String
onto_trimmed c String.[] = if is_space (code c) then String.[] else String.◌∷◌ c String.[]
onto_trimmed c (String.◌∷◌ d s) = String.◌∷◌ c (String.◌∷◌ d s)

abbrev pub trim_end : String → String
trim_end String.[] = String.[]
trim_end (String.◌∷◌ c s) = onto_trimmed c (trim_end s)

abbrev pub trim : String → String
trim s = trim_end (trim_start s)

-- `xs.join(sep)`
abbrev pub join : String → List String → String
join sep [] = ""
join sep (x ∷ []) = x
join sep (x ∷ y ∷ ys) = String.◌++◌ x (String.◌++◌ sep (join sep (y ∷ ys)))

-- The parts of a text so far cut: a character goes in front of the first.
abbrev onto_first : Char → List String → List String
onto_first c [] = String.◌∷◌ c String.[] ∷ []
onto_first c (p ∷ ps) = String.◌∷◌ c p ∷ ps

-- `s.split(sep)` at a single character
abbrev pub split : ℕ → String → List String
split sep String.[] = String.[] ∷ []
split sep (String.◌∷◌ c s) =
    if code c == sep then String.[] ∷ split sep s else onto_first c (split sep s)

-- `xs.includes(s)`
abbrev pub includes : List String → String → Bool
includes [] s = false
includes (x ∷ xs) s = x === s || includes xs s

-- `x || y` on strings that may be missing
abbrev pub or_default : Option String → String → String
or_default o d = elim o [ none ↦ d | some s ↦ if truthy s then s else d ]

pub slice_from-append : (s t : String) → slice_from (count s) (String.◌++◌ s t) ≡ t
slice_from-append String.[] t = nil-append t
slice_from-append (String.◌∷◌ c s) t = rw (length-cons, cons-append) (slice_from-append s t)

-- A split has a first part.
pub split-cons : (sep : ℕ) (s : String) → (p : String) × (ps : List String) × (split sep s ≡ p ∷ ps)
split-cons sep String.[] = (String.[], [], refl)
split-cons sep (String.◌∷◌ c s) =
    let (p, ps, e) = split-cons sep s in
    elim (Bool-cases (code c == sep)) [
      | inl cut ↦ (String.[], split sep s, rw cut)
      | inr kept ↦ (String.◌∷◌ c p, ps, rw (kept, e))
    ]
