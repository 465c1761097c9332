-- ===== src/State/Laws.antt =====
-- A value that replaces a field's is read back.
use aegis_workers.Base.{
  ℕ, suc, ◌≤◌, ◌≡◌, refl, sym, ap, ◌∙◌, inl, inr, true, false, Option, none, some, [], ◌∷◌, ◌++◌,
  ◌==◌, Text, is_space, to_upper, All, Bool-cases, Option-cases, never, length, arith,
}
use mathlib.Core.Path.{subst}
use aegis_workers.Phase.Renumber.{is_plain_char}
use aegis_workers.State.{
  match_name, spaces, behind_spaces, line_of, behind_line, trim_last, value_of,
}

-- One line, with no white space around it, that is not empty
pub record IsValue (value : Text) : Type 0 where
  pub head : ℕ
  pub tail : Text
  pub filled : value ≡ head ∷ tail
  pub begins : is_space head ≡ false
  pub one_line : All (λ c. is_plain_char c ≡ true) value
  pub trimmed : trim_last value ≡ value

behind_spaces-append : (rest s : Text) → behind_spaces (spaces rest ++ s) ≡ behind_spaces s
unfolding behind_spaces spaces
behind_spaces-append [] s = refl
behind_spaces-append (c ∷ rest) s = elim (Bool-cases (is_space c)) [
  | inl e ↦ rw (e, spaces, behind_spaces) (rw e (behind_spaces-append rest s))
  | inr e ↦ rw e refl
]

line_of-append :
    (v r : Text) → All (λ c. is_plain_char c ≡ true) v → line_of (v ++ behind_line r) ≡ v
unfolding line_of behind_line
line_of-append [] [] h = refl
line_of-append [] (c ∷ r) h = elim (Bool-cases (is_plain_char c)) [
  | inl e ↦ rw e (line_of-append [] r h)
  | inr e ↦ rw e (rw e refl)
]
line_of-append (c ∷ v) r (p, h) = rw p (ap (λ t. c ∷ t) (line_of-append v r h))

-- Behind the white space the new value begins.
behind_spaces-with_value :
    (rest v : Text)
    → (h : IsValue v)
    → behind_spaces (spaces rest ++ (v ++ behind_line (behind_spaces rest)))
      ≡ h.head ∷ (h.tail ++ behind_line (behind_spaces rest))
unfolding behind_spaces
behind_spaces-with_value rest v h =
    let more = behind_line (behind_spaces rest) in
    behind_spaces-append rest (v ++ more)
    ∙ subst (λ x. behind_spaces (x ++ more) ≡ h.head ∷ (h.tail ++ more)) (sym h.filled)
        (rw h.begins refl)

-- The new value is the rest of its line.
line_of-with_value :
    (rest v : Text)
    → (h : IsValue v)
    → trim_last (line_of (h.head ∷ (h.tail ++ behind_line (behind_spaces rest)))) ≡ v
line_of-with_value rest v h =
    let more = behind_line (behind_spaces rest) in
    let line : line_of (h.head ∷ (h.tail ++ more)) ≡ v =
      subst (λ x. line_of (x ++ more) ≡ v) h.filled
        (line_of-append v (behind_spaces rest) h.one_line) in
    ap trim_last line ∙ h.trimmed

pub line-with_value :
    (rest v : Text)
    → IsValue v
    → trim_last (line_of (behind_spaces (spaces rest ++ (v ++ behind_line (behind_spaces rest)))))
      ≡ v
line-with_value rest v h =
    ap (λ x. trim_last (line_of x)) (behind_spaces-with_value rest v h)
    ∙ line_of-with_value rest v h

pub value_of-with_value :
    (rest v : Text)
    → IsValue v
    → value_of (spaces rest ++ (v ++ behind_line (behind_spaces rest))) ≡ some v
unfolding value_of
value_of-with_value rest v h =
    rw (behind_spaces-with_value rest v h, value_of)
      (ap (λ x. some x) (line_of-with_value rest v h))

matched : Option (Text × Text) → Text
matched none = []
matched (some (m, rest)) = m

remainder : Option (Text × Text) → Text
remainder none = []
remainder (some (m, rest)) = rest

-- A name that matches a text matches what the match took, whatever follows.
pub match_name-again :
    (p s m rest t : Text) → match_name p s ≡ some (m, rest) → match_name p (m ++ t) ≡ some (m, t)
unfolding match_name matched
match_name-again [] s m rest t e = ground arith
match_name-again (q ∷ p) [] m rest t e = absurd (never e)
match_name-again (q ∷ p) (c ∷ s) m rest t e = elim (Bool-cases (to_upper q == to_upper c)) [
  | inr f ↦ absurd (never (rw f at e))
  | inl f ↦ elim (Option-cases (match_name p s)) [
    | inl g ↦ absurd (never (rw g at (rw f at e)))
    | inr ((n, u), g) ↦
        let taken : c ∷ n ≡ m = ap matched (rw g at (rw f at e)) in
        subst (λ x. match_name (q ∷ p) (x ++ t) ≡ some (x, t)) taken
          (rw f (rw (match_name-again p s n u t g) refl))
  ]
]

-- What a match takes is as long as the name, and stands at the front of the text.
pub match_name-front :
    (p s m rest : Text) → match_name p s ≡ some (m, rest) → (s ≡ m ++ rest) × (length m ≡ length p)
unfolding match_name matched remainder
match_name-front [] s m rest e = ground arith
match_name-front (q ∷ p) [] m rest e = absurd (never e)
match_name-front (q ∷ p) (c ∷ s) m rest e = elim (Bool-cases (to_upper q == to_upper c)) [
  | inr f ↦ absurd (never (rw f at e))
  | inl f ↦ elim (Option-cases (match_name p s)) [
    | inl g ↦ absurd (never (rw g at (rw f at e)))
    | inr ((n, u), g) ↦
        let both : some (c ∷ n, u) ≡ some (m, rest) = rw g at (rw f at e) in
        let (front, size) = match_name-front p s n u g in
        subst (λ x. (c ∷ s ≡ matched x ++ remainder x) × (length (matched x) ≡ suc (length p))) both
          (ap (λ t. c ∷ t) front, ap suc size)
  ]
]

-- Whether a name matches depends on as many characters as the name has.
pub match_name-short :
    (p u a b : Text)
    → length p ≤ length u
    → match_name p (u ++ a) ≡ none
    → match_name p (u ++ b) ≡ none
unfolding match_name
match_name-short [] u a b h e = absurd (never (sym e))
match_name-short (q ∷ p) [] a b h e = absurd (omega arith)
match_name-short (q ∷ p) (c ∷ u) a b h e = elim (Bool-cases (to_upper q == to_upper c)) [
  | inr f ↦ rw f refl
  | inl f ↦ elim (Option-cases (match_name p (u ++ a))) [
    | inl g ↦ rw f (rw (match_name-short p u a b (omega arith) g) refl)
    | inr ((n, t), g) ↦ absurd (never (sym (rw g at (rw f at e))))
  ]
]
