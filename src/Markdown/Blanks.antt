-- ===== src/Markdown/Blanks.antt =====
-- Where `normalizeMd` has nothing to add or to take away on the list of lines.
use aegis_workers.Base.{
  ◌≡◌, refl, ap, Bool, true, false, ◌&&◌, not, List, [], ◌∷◌, ◌++◌, Text, arith, All, All-append,
  append_assoc,
}
use aegis_workers.Markdown.{
  blank_if, is_heading, is_fence, is_bare_fence, is_item, is_filled, is_rule, before_line,
  after_line, after_last, starts_with_space, passed, normalize_lines,
}

abbrev pub AreBlank : List Text → Type 0
AreBlank = All (λ l. l ≡ [])

three-AreBlank : (a b c : Bool) → AreBlank (blank_if a ++ (blank_if b ++ blank_if c))
three-AreBlank true true true = (refl, (refl, (refl, tt)))
three-AreBlank true true false = (refl, (refl, tt))
three-AreBlank true false true = (refl, (refl, tt))
three-AreBlank true false false = (refl, tt)
three-AreBlank false true true = (refl, (refl, tt))
three-AreBlank false true false = (refl, tt)
three-AreBlank false false true = (refl, tt)
three-AreBlank false false false = tt

pub before_line-AreBlank : (i : Bool) (p l : Text) → AreBlank (before_line i p l)
unfolding before_line
before_line-AreBlank i p l =
    three-AreBlank (is_heading l && (is_filled p && not (is_rule p)))
      (is_fence l && (is_filled p && not i))
      (is_item l && (is_filled p && (not (is_item p) && not (is_rule p))))

pub after_line-AreBlank : (i : Bool) (l n : Text) → AreBlank (after_line i l n)
unfolding after_line
after_line-AreBlank i l n =
    three-AreBlank (is_heading l && is_filled n) (is_bare_fence l && (not i && is_filled n))
      (is_item l && (is_filled n && (not (is_item n) && not (starts_with_space n))))

three-none :
    (a b c : Bool)
    → a ≡ false
    → b ≡ false
    → c ≡ false
    → blank_if a ++ (blank_if b ++ blank_if c) ≡ []
three-none a b c e f g = rw (e, f, g) refl

and-false : (b c : Bool) → c ≡ false → (b && c) ≡ false
and-false b c h = ground arith

-- No empty line asks for another, and none is asked for beside one.
pub before_line-blank : (i : Bool) (p : Text) → before_line i p [] ≡ []
unfolding before_line
before_line-blank i p = refl

before_line-behind_blank : (i : Bool) (l : Text) → before_line i [] l ≡ []
unfolding before_line
before_line-behind_blank i l =
    three-none _ _ _ (and-false (is_heading l) _ refl) (and-false (is_fence l) _ refl)
      (and-false (is_item l) _ refl)

after_line-blank : (i : Bool) (n : Text) → after_line i [] n ≡ []
unfolding after_line
after_line-blank i n = refl

pub after_line-before_blank : (i : Bool) (l : Text) → after_line i l [] ≡ []
unfolding after_line
after_line-before_blank i l =
    three-none _ _ _ (and-false (is_heading l) _ refl)
      (and-false (is_bare_fence l) _ (and-false (not i) _ refl)) (and-false (is_item l) _ refl)

pub passed-blank : (i : Bool) → passed i [] ≡ i
unfolding passed
passed-blank i = refl

-- The loop adds no line to these lines.
unfoldable pub Settled : Bool → Text → List Text → Type 0
Settled i p [] = Unit
Settled i p (l ∷ ls) =
    (before_line i p l ≡ []) × (after_last (passed i l) l ls ≡ []) × Settled (passed i l) l ls

pub Settled-normalize_lines :
    (i : Bool) (p : Text) (ls : List Text) → Settled i p ls → normalize_lines i p ls ≡ ls
unfolding Settled normalize_lines
Settled-normalize_lines i p [] s = refl
Settled-normalize_lines i p (l ∷ ls) (b, a, s) =
    rw (b, a) (ap (λ t. l ∷ t) (Settled-normalize_lines (passed i l) l ls s))

pub after_last-blank : (i : Bool) (ls : List Text) → after_last i [] ls ≡ []
after_last-blank i [] = refl
after_last-blank i (n ∷ ls) = after_line-blank i n

-- What the loop leaves to say of the lines `l ∷ ls` once `l` has been pushed
abbrev SettledBehind : Bool → Text → List Text → Type 0
SettledBehind i l ls = (after_last (passed i l) l ls ≡ []) × Settled (passed i l) l ls

pub blank-Settled : (i : Bool) (p : Text) (ls : List Text) → Settled i [] ls → Settled i p ([] ∷ ls)
unfolding Settled
blank-Settled i p ls s =
    (before_line-blank i p, rw (passed-blank i) (after_last-blank i ls), rw (passed-blank i) s)

padded-Settled :
    (i : Bool) (p : Text) (bs : List Text)
    → AreBlank bs
    → (l : Text) (ls : List Text) → (bs ≡ [] → before_line i p l ≡ [])
    → SettledBehind i l ls
    → Settled i p (bs ++ (l ∷ ls))
unfolding Settled
padded-Settled i p [] h l ls none (a, s) = (none refl, a, s)
padded-Settled i p (b ∷ bs) (e, h) l ls none s = rw e (
    blank-Settled i p (bs ++ (l ∷ ls))
      (padded-Settled i [] bs h l ls (λ _. before_line-behind_blank i l) s))

after_last-padded :
    (i : Bool) (l : Text) (bs : List Text)
    → AreBlank bs
    → (n : Text) (ls : List Text) → (bs ≡ [] → after_line i l n ≡ [])
    → after_last i l (bs ++ (n ∷ ls)) ≡ []
after_last-padded i l [] h n ls none = none refl
after_last-padded i l (b ∷ bs) (e, h) n ls none = rw e (after_line-before_blank i l)

left-nil {ℓ} : {A : Type ℓ} (xs ys : List A) → xs ++ ys ≡ [] → xs ≡ []
left-nil [] ys e = refl
left-nil (x ∷ xs) ys e = cc

right-nil {ℓ} : {A : Type ℓ} (xs ys : List A) → xs ++ ys ≡ [] → ys ≡ []
right-nil [] ys e = e
right-nil (x ∷ xs) ys e = cc

normalize_lines-SettledBehind :
    (i : Bool) (l : Text) (ls : List Text)
    → SettledBehind i l (after_last (passed i l) l ls ++ normalize_lines (passed i l) l ls)
unfolding Settled normalize_lines
normalize_lines-SettledBehind i l [] = (refl, tt)
normalize_lines-SettledBehind i l (n ∷ ls) =
    let j = passed i l in
    let behind = after_line j l n in
    let before = before_line j l n in
    let rest = after_last (passed j n) n ls ++ normalize_lines (passed j n) n ls in
    let blank =
      All-append (λ l. l ≡ []) behind before (after_line-AreBlank j l n)
        (before_line-AreBlank j l n) in
    rw (← append_assoc behind before (n ∷ rest)) (
      after_last-padded j l (behind ++ before) blank n rest (left-nil behind before),
      padded-Settled j l (behind ++ before) blank n rest (right-nil behind before)
          (normalize_lines-SettledBehind j n ls),
    )

-- One pass of the loop leaves nothing to add.
pub normalize_lines-Settled :
    (i : Bool) (p : Text) (ls : List Text) → Settled i p (normalize_lines i p ls)
unfolding Settled normalize_lines
normalize_lines-Settled i p [] = tt
normalize_lines-Settled i p (l ∷ ls) =
    padded-Settled i p (before_line i p l) (before_line-AreBlank i p l) l _ (λ e. e)
      (normalize_lines-SettledBehind i l ls)
