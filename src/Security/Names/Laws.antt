-- ===== src/Security/Names/Laws.antt =====
-- What an accepted argument can hold.
use aegis_workers.Base.{
  ℕ, ◌≡◌, ◌≢◌, ◌↔◌, inl, inr, refl, sym, ap, ◌∙◌, true, false, ◌||◌, ◌&&◌, some, [], ◌∷◌, ◌++◌,
  ◌==◌, arith, Text, any, All, Bool-cases,
}
use aegis_workers.Security.Names.{has_dollar_paren, accepted, judge_arg, validate_shell_arg}

-- `$(` stands nowhere in the text.
abbrev pub LacksSubstitution : Text → Type 0
LacksSubstitution v = (before behind : Text) → v ≢ before ++ (b'$' ∷ b'(' ∷ behind)

has_dollar_paren-append :
    (before behind : Text) → has_dollar_paren (before ++ (b'$' ∷ b'(' ∷ behind)) ≡ true
unfolding has_dollar_paren
has_dollar_paren-append [] behind = refl
has_dollar_paren-append (c ∷ []) behind = ground arith
has_dollar_paren-append (c ∷ d ∷ before) behind =
    ground (arith, has_dollar_paren-append (d ∷ before) behind)

split_of_has_dollar_paren :
    (v : Text)
    → has_dollar_paren v ≡ true
    → (before : Text) × (behind : Text) × (v ≡ before ++ (b'$' ∷ b'(' ∷ behind))
unfolding has_dollar_paren
split_of_has_dollar_paren [] h = cc
split_of_has_dollar_paren (c ∷ []) h = cc
split_of_has_dollar_paren (c ∷ d ∷ s) h = elim (Bool-cases (c == b'$' && d == b'(')) [
  | inl hit ↦ ([], s, ground arith)
  | inr miss ↦
      let (before, behind, e) = split_of_has_dollar_paren (d ∷ s) (rw miss at h) in
      (c ∷ before, behind, ap (λ l. c ∷ l) e)
]

has_dollar_paren-any :
    (v : Text) → has_dollar_paren v ≡ true → any (λ x. x == b'$' || x == b'`') v ≡ true
unfolding has_dollar_paren
has_dollar_paren-any [] h = cc
has_dollar_paren-any (c ∷ []) h = cc
has_dollar_paren-any (c ∷ d ∷ s) h = ground (arith, has_dollar_paren-any (d ∷ s))

any-tick : (v : Text) → any (λ x. x == b'`') v ≡ true → any (λ x. x == b'$' || x == b'`') v ≡ true
any-tick [] h = cc
any-tick (c ∷ v) h = ground (arith, any-tick v)

Lacks_of_any : (b : ℕ) (v : Text) → any (λ x. x == b) v ≡ false → All (λ x. x ≢ b) v
Lacks_of_any b [] h = tt
Lacks_of_any b (c ∷ v) h = ground (arith, Lacks_of_any b v)

any_of_Lacks : (b : ℕ) (v : Text) → All (λ x. x ≢ b) v → any (λ x. x == b) v ≡ false
any_of_Lacks b [] h = refl
any_of_Lacks b (c ∷ v) h = ground (arith, any_of_Lacks b v)

-- Nothing that the shell would substitute, and no null character
abbrev pub IsInert : Text → Type 0
IsInert v = All (λ x. x ≢ 0) v × All (λ x. x ≢ b'`') v × LacksSubstitution v

judge_arg_sound : (t v : Text) → judge_arg t ≡ accepted v → (t ≡ v) × IsInert v
unfolding judge_arg
judge_arg_sound t v e =
    let same : t ≡ v = ground arith in
    let plain : has_dollar_paren t ≡ false = ground (arith, has_dollar_paren-any t) in
    let quiet : any (λ x. x == b'`') t ≡ false = ground (arith, any-tick t) in
    (
      same,
      (
        rw (← same) (Lacks_of_any 0 t (ground arith)),
        rw (← same) (Lacks_of_any b'`' t quiet),
        λ before behind f.
            cc (ap has_dollar_paren (same ∙ f), has_dollar_paren-append before behind, plain),
      ),
    )

judge_arg_complete : (v : Text) → IsInert v → judge_arg v ≡ accepted v
unfolding judge_arg
judge_arg_complete v (nulls, ticks, plain) = elim (Bool-cases (has_dollar_paren v)) [
  | inl hit ↦
      let (before, behind, e) = split_of_has_dollar_paren v hit in absurd (plain before behind e)
  | inr miss ↦ ground (arith, any_of_Lacks 0 v nulls, any_of_Lacks b'`' v ticks)
]

validate_shell_arg-written :
    (c : ℕ) (s : Text) → validate_shell_arg (some (c ∷ s)) ≡ judge_arg (c ∷ s)
unfolding validate_shell_arg
validate_shell_arg-written c s = refl

-- An argument is accepted, and handed back as it is, exactly if it is not empty and holds no null
-- character, no backtick and no `$(`.
pub validate_shell_arg-accepted_iff :
    (s v : Text) → (validate_shell_arg (some s) ≡ accepted v) ↔ ((s ≡ v) × (v ≢ []) × IsInert v)
validate_shell_arg-accepted_iff [] v =
    (unfold validate_shell_arg in λ e. cc, λ (e, n, _). absurd (n (sym e)))
validate_shell_arg-accepted_iff (c ∷ s) v = (
  λ e.
      let (same, inert) = judge_arg_sound (c ∷ s) v (unfold validate_shell_arg in e) in
      (same, rw (← same) (cc), inert),
  λ (same, n, inert).
      validate_shell_arg-written c s ∙ ap judge_arg same ∙ judge_arg_complete v inert,
)
