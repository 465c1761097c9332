-- ===== src/Phase/Number/Laws.antt =====
-- Phase identifiers are ordered, and normalising keeps their order.
use Prim.Native.Nat.{Ordering, lt, eq, gt}
use aegis_workers.Base.{ℕ, ◌≡◌, ◌≢◌, refl, Option, none, some, List, [], ◌∷◌, arith, Text}
use aegis_workers.Phase.Number.{
  Parts, then_by, compare_letter, compare_padded, compare_segments, compare_parts,
  compare_phase_num, compare_matched, match_phase, values,
}

abbrev pub flip : Ordering → Ordering
flip lt = gt
flip eq = eq
flip gt = lt

compare_padded-flip : (xs ys : List ℕ) → compare_padded ys xs ≡ flip (compare_padded xs ys)
unfolding compare_padded
compare_padded-flip [] [] = refl
compare_padded-flip [] (y ∷ ys) = ground (arith, compare_padded-flip [] ys)
compare_padded-flip (x ∷ xs) [] = ground (arith, compare_padded-flip xs [])
compare_padded-flip (x ∷ xs) (y ∷ ys) = ground (arith, compare_padded-flip xs ys)

-- From `a` up to `b` and from `b` up to `c` it goes up from `a` to `c`, strictly if one step is.
abbrev Chains : Ordering → Ordering → Ordering → Type 0
Chains o p q = o ≢ gt → p ≢ gt → q ≡ then_by o p

compare_padded-Chains :
    (xs ys zs : List ℕ)
    → Chains (compare_padded xs ys) (compare_padded ys zs) (compare_padded xs zs)
unfolding compare_padded
compare_padded-Chains [] [] [] h k = refl
compare_padded-Chains [] [] (z ∷ zs) h k = ground (arith, compare_padded-Chains [] [] zs)
compare_padded-Chains [] (y ∷ ys) [] h k = ground (arith, compare_padded-Chains [] ys [])
compare_padded-Chains [] (y ∷ ys) (z ∷ zs) h k = ground (arith, compare_padded-Chains [] ys zs)
compare_padded-Chains (x ∷ xs) [] [] h k = ground (arith, compare_padded-Chains xs [] [])
compare_padded-Chains (x ∷ xs) [] (z ∷ zs) h k = ground (arith, compare_padded-Chains xs [] zs)
compare_padded-Chains (x ∷ xs) (y ∷ ys) [] h k = ground (arith, compare_padded-Chains xs ys [])
compare_padded-Chains (x ∷ xs) (y ∷ ys) (z ∷ zs) h k =
    ground (arith, compare_padded-Chains xs ys zs)

module _ (x y z : Option ℕ) where
  compare_letter-flip : compare_letter y x ≡ flip (compare_letter x y)
  unfolding compare_letter
  compare_letter-flip = ground arith

  compare_letter-Chains : Chains (compare_letter x y) (compare_letter y z) (compare_letter x z)
  unfolding compare_letter
  compare_letter-Chains h k = ground arith

compare_segments-flip : (xs ys : List ℕ) → compare_segments ys xs ≡ flip (compare_segments xs ys)
unfolding compare_segments
compare_segments-flip [] [] = refl
compare_segments-flip [] (y ∷ ys) = refl
compare_segments-flip (x ∷ xs) [] = refl
compare_segments-flip (x ∷ xs) (y ∷ ys) = compare_padded-flip (x ∷ xs) (y ∷ ys)

compare_segments-Chains :
    (xs ys zs : List ℕ)
    → Chains (compare_segments xs ys) (compare_segments ys zs) (compare_segments xs zs)
unfolding compare_segments
compare_segments-Chains [] [] zs h k = refl
compare_segments-Chains [] (y ∷ ys) [] h k = absurd (k refl)
compare_segments-Chains [] (y ∷ ys) (z ∷ zs) h k = refl
compare_segments-Chains (x ∷ xs) [] zs h k = absurd (h refl)
compare_segments-Chains (x ∷ xs) (y ∷ ys) [] h k = absurd (k refl)
compare_segments-Chains (x ∷ xs) (y ∷ ys) (z ∷ zs) h k =
    compare_padded-Chains (x ∷ xs) (y ∷ ys) (z ∷ zs) h k

compare_parts-flip : (p q : Parts) → compare_parts q p ≡ flip (compare_parts p q)
compare_parts-flip p q = ground (
  arith,
  compare_letter-flip p.letter q.letter,
  compare_segments-flip (values p.segments) (values q.segments),
)

compare_parts-Chains :
    (p q r : Parts) → Chains (compare_parts p q) (compare_parts q r) (compare_parts p r)
compare_parts-Chains p q r h k = ground (
  arith,
  compare_letter-Chains p.letter q.letter r.letter,
  compare_segments-Chains (values p.segments) (values q.segments) (values r.segments),
)

compare_matched-Order :
    (o o' p q : Ordering) (x y z : Option Parts)
    → x ≢ none
    → y ≢ none
    → z ≢ none
    → (compare_matched o' y x ≡ flip (compare_matched o x y))
      × (compare_matched o x y ≢ gt
          → compare_matched p y z ≢ gt
          → compare_matched q x z ≡ then_by (compare_matched o x y) (compare_matched p y z))
compare_matched-Order o o' p q none y z h k l = absurd (h refl)
compare_matched-Order o o' p q (some x) none z h k l = absurd (k refl)
compare_matched-Order o o' p q (some x) (some y) none h k l = absurd (l refl)
compare_matched-Order o o' p q (some x) (some y) (some z) h k l =
    (compare_parts-flip x y, compare_parts-Chains x y z)

-- An identifier that begins with a digit.
abbrev pub IsNumeric : Text → Type 0
IsNumeric s = match_phase s ≢ none

-- On identifiers that begin with a digit the reverse comparison has the opposite sign, whatever the
-- language of the system.
pub compare_phase_num-flip :
    (locale : Text → Text → Ordering) (a b : Text)
    → IsNumeric a
    → IsNumeric b
    → compare_phase_num locale b a ≡ flip (compare_phase_num locale a b)
unfolding compare_phase_num
compare_phase_num-flip locale a b h k =
    (compare_matched-Order (locale a b) (locale b a) (locale b a) (locale a a) (match_phase a)
      (match_phase b) (match_phase a) h k h).0

-- On identifiers that begin with a digit, where neither step from `a` to `b` to `c` goes down, the
-- comparison of `a` with `c` is that of the first step that goes up, or a tie if none does.
pub compare_phase_num-chain :
    (locale : Text → Text → Ordering) (a b c : Text)
    → IsNumeric a
    → IsNumeric b
    → IsNumeric c
    → compare_phase_num locale a b ≢ gt
    → compare_phase_num locale b c ≢ gt
    → compare_phase_num locale a c
      ≡ then_by (compare_phase_num locale a b) (compare_phase_num locale b c)
unfolding compare_phase_num
compare_phase_num-chain locale a b c h k l =
    (compare_matched-Order (locale a b) (locale b a) (locale b c) (locale a c) (match_phase a)
      (match_phase b) (match_phase c) h k l).1
