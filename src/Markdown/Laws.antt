-- ===== src/Markdown/Laws.antt =====
-- What `normalizeMd` keeps, and that it is done after one run.
use aegis_workers.Base.{
  ℕ, suc, ◌≡◌, ◌≢◌, refl, sym, ap, ◌∙◌, Bool, false, List, [], ◌∷◌, ◌++◌, ◌==◌, ltb, Text, All,
  All-append, keep, Bool-cases, inl, inr,
}
use aegis_workers.Security.Names.{parts, onto_head}
use aegis_workers.Markdown.{
  before_line, after_last, passed, normalize_lines, to_lf, join_lines, collapse, end_line,
  normalize_md,
}
use aegis_workers.Markdown.Lines.{
  IsLine, cons-ne-nil, join_lines-close, squeeze-ne-nil, squeeze, drop_blanks, onto_kept, close,
  finish, collapse-join_lines, end_line-join_lines, parts-join_lines, parts-IsLine,
}
use aegis_workers.Markdown.Blanks.{
  AreBlank, before_line-AreBlank, after_line-AreBlank, normalize_lines-Settled,
  Settled-normalize_lines,
}
use aegis_workers.Markdown.Passes.{
  squeeze-Settled, finish-Settled, Tight-squeeze, squeeze-Tight, finish-Tight, finish_twice,
}

pub after_last-AreBlank : (i : Bool) (l : Text) (ls : List Text) → AreBlank (after_last i l ls)
after_last-AreBlank i l [] = tt
after_last-AreBlank i l (n ∷ ls) = after_line-AreBlank i l n

-- Predicates on lines that an empty line satisfies
module _ (R : Text → Type 0) (empty : R []) where
  blank-All : (bs : List Text) → AreBlank bs → All R bs
  blank-All [] h = tt
  blank-All (b ∷ bs) (e, h) = (rw e empty, blank-All bs h)

  normalize_lines-All :
      (i : Bool) (p : Text) (ls : List Text) → All R ls → All R (normalize_lines i p ls)
  unfolding normalize_lines
  normalize_lines-All i p [] h = tt
  normalize_lines-All i p (l ∷ ls) (h, k) =
      All-append R (before_line i p l) _ (blank-All _ (before_line-AreBlank i p l)) (
        h,
        All-append R (after_last (passed i l) l ls) _
            (blank-All _ (after_last-AreBlank (passed i l) l ls))
            (normalize_lines-All (passed i l) l ls k),
      )

  squeeze-All : (n : ℕ) (ls : List Text) → All R ls → All R (squeeze n ls)
  unfolding squeeze
  squeeze-All n [] h = tt
  squeeze-All n (l ∷ []) h = h
  squeeze-All n ([] ∷ m ∷ ls) (h, k) = elim (Bool-cases (ltb n 2)) [
    | inl keep ↦ rw keep (h, squeeze-All (suc n) (m ∷ ls) k)
    | inr drop ↦ rw drop (squeeze-All (suc n) (m ∷ ls) k)
  ]
  squeeze-All n ((c ∷ l) ∷ m ∷ ls) (h, k) = (h, squeeze-All 1 (m ∷ ls) k)

  onto_kept-All : (l : Text) (ls : List Text) → R l → All R ls → All R (onto_kept l ls)
  onto_kept-All l (m ∷ ls) h k = (h, k)
  onto_kept-All [] [] h k = tt
  onto_kept-All (c ∷ l) [] h k = (h, tt)

  drop_blanks-All : (ls : List Text) → All R ls → All R (drop_blanks ls)
  unfolding drop_blanks
  drop_blanks-All [] h = tt
  drop_blanks-All (l ∷ ls) (h, k) = onto_kept-All l (drop_blanks ls) h (drop_blanks-All ls k)

  close-All : (ls : List Text) → All R ls → All R (close ls)
  close-All [] h = (empty, (empty, tt))
  close-All (l ∷ ls) h = All-append R (l ∷ ls) ([] ∷ []) h (empty, tt)

  finish-All : (ls : List Text) → All R ls → All R (finish ls)
  unfolding finish
  finish-All ls h = close-All (drop_blanks ls) (drop_blanks-All ls h)

-- The lines of the result, from those of the document
abbrev pub result_lines : List Text → List Text
result_lines ls = finish (squeeze 0 (normalize_lines false [] ls))

result_lines-All :
    (R : Text → Type 0) → R [] → (ls : List Text) → All R ls → All R (result_lines ls)
result_lines-All R e ls h =
    finish-All R e _ (squeeze-All R e 0 _ (normalize_lines-All R e false [] ls h))

onto_head-ne-nil : (c : ℕ) (ls : List Text) → onto_head c ls ≢ []
onto_head-ne-nil c [] e = cons-ne-nil e
onto_head-ne-nil c (l ∷ ls) e = cons-ne-nil e

onto_head-HasNoReturn :
    (c : ℕ) (ls : List Text)
    → (c == 13) ≡ false
    → All (All (λ d. (d == 13) ≡ false)) ls
    → All (All (λ d. (d == 13) ≡ false)) (onto_head c ls)
onto_head-HasNoReturn c [] h k = ((h, tt), tt)
onto_head-HasNoReturn c (l ∷ ls) h (k, r) = ((h, k), r)

end_line-lines :
    (ls : List Text) → ls ≢ [] → All IsLine ls → end_line (join_lines ls) ≡ join_lines (finish ls)
end_line-lines [] h k = absurd (h refl)
end_line-lines (l ∷ ls) h k = end_line-join_lines l ls k

append-ne-nil {ℓ} : {A : Type ℓ} (xs : List A) (y : A) (ys : List A) → xs ++ (y ∷ ys) ≢ []
append-ne-nil [] y ys e = cons-ne-nil e
append-ne-nil (x ∷ xs) y ys e = cons-ne-nil e

normalize_lines-ne-nil :
    (i : Bool) (p l : Text) (ls : List Text) → normalize_lines i p (l ∷ ls) ≢ []
unfolding normalize_lines
normalize_lines-ne-nil i p l ls = append-ne-nil (before_line i p l) l _

lines-ne-nil : (ls : List Text) → ls ≢ [] → normalize_lines false [] ls ≢ []
lines-ne-nil [] h = absurd (h refl)
lines-ne-nil (l ∷ ls) h = normalize_lines-ne-nil false [] l ls

close-ne-nil : (ls : List Text) → close ls ≢ []
close-ne-nil [] e = cons-ne-nil e
close-ne-nil (l ∷ ls) e = cons-ne-nil e

parts-ne-nil : (s : Text) → parts 10 s ≢ []
unfolding parts
parts-ne-nil [] = λ e. cons-ne-nil e
parts-ne-nil (c ∷ s) = elim (Bool-cases (c == 10)) [
  | inl cut ↦ rw cut (λ e. cons-ne-nil e)
  | inr kept ↦ rw kept (onto_head-ne-nil c (parts 10 s))
]

passes-join_lines :
    (ls : List Text)
    → ls ≢ []
    → All IsLine ls
    → end_line (collapse 0 (join_lines ls)) ≡ join_lines (finish (squeeze 0 ls))
passes-join_lines [] h k = absurd (h refl)
passes-join_lines (l ∷ ls) h k =
    ap end_line (collapse-join_lines 0 l ls k)
    ∙ end_line-lines (squeeze 0 (l ∷ ls)) (squeeze-ne-nil 0 l ls)
        (squeeze-All IsLine tt 0 (l ∷ ls) k)

normalize_md-lines :
    (t : Text) → t ≢ [] → normalize_md t ≡ join_lines (result_lines (parts 10 (to_lf t)))
unfolding normalize_md
normalize_md-lines [] h = absurd (h refl)
normalize_md-lines (c ∷ s) h =
    passes-join_lines (normalize_lines false [] (parts 10 (to_lf (c ∷ s))))
      (lines-ne-nil (parts 10 (to_lf (c ∷ s))) (parts-ne-nil (to_lf (c ∷ s))))
      (normalize_lines-All IsLine tt false [] (parts 10 (to_lf (c ∷ s)))
        (parts-IsLine (to_lf (c ∷ s))))

result_lines_twice : (ls : List Text) → result_lines (result_lines ls) ≡ result_lines ls
result_lines_twice ls =
    let once = normalize_lines false [] ls in
    let settled =
      finish-Settled false [] (squeeze 0 once)
        (squeeze-Settled false [] 0 once (normalize_lines-Settled false [] ls) (λ two. refl)) in
    ap (λ k. finish (squeeze 0 k)) (Settled-normalize_lines false [] (result_lines ls) settled)
    ∙ ap finish
        (Tight-squeeze 0 (result_lines ls) (finish-Tight (squeeze 0 once) (squeeze-Tight 0 once)))
    ∙ finish_twice (squeeze 0 once)

result_lines-ne-nil : (ls : List Text) → result_lines ls ≢ []
unfolding finish
result_lines-ne-nil ls = close-ne-nil (drop_blanks (squeeze 0 (normalize_lines false [] ls)))

parts-lines : (ls : List Text) → ls ≢ [] → All IsLine ls → parts 10 (join_lines ls) ≡ ls
parts-lines [] h k = absurd (h refl)
parts-lines (l ∷ ls) h k = parts-join_lines l ls k

-- The lines of a normalised document
pub parts-normalize_md :
    (t : Text) → t ≢ [] → parts 10 (normalize_md t) ≡ result_lines (parts 10 (to_lf t))
parts-normalize_md t h =
    let ls = parts 10 (to_lf t) in
    ap (parts 10) (normalize_md-lines t h)
    ∙ parts-lines (result_lines ls) (result_lines-ne-nil ls)
        (result_lines-All IsLine tt ls (parts-IsLine (to_lf t)))

-- No carriage return
abbrev pub HasNoReturn : Text → Type 0
HasNoReturn = All (λ c. (c == 13) ≡ false)

to_lf-HasNoReturn : (s : Text) → HasNoReturn s → to_lf s ≡ s
unfolding to_lf
to_lf-HasNoReturn [] h = refl
to_lf-HasNoReturn (c ∷ []) h = refl
to_lf-HasNoReturn (c ∷ d ∷ s) (h, k) = rw h (ap (λ t. c ∷ t) (to_lf-HasNoReturn (d ∷ s) k))

parts-HasNoReturn : (s : Text) → HasNoReturn s → All HasNoReturn (parts 10 s)
unfolding parts
parts-HasNoReturn [] h = (tt, tt)
parts-HasNoReturn (c ∷ s) (h, k) = elim (Bool-cases (c == 10)) [
  | inl cut ↦ rw cut (tt, parts-HasNoReturn s k)
  | inr kept ↦ rw kept (onto_head-HasNoReturn c (parts 10 s) h (parts-HasNoReturn s k))
]

join_lines-HasNoReturn : (ls : List Text) → All HasNoReturn ls → HasNoReturn (join_lines ls)
join_lines-HasNoReturn [] h = tt
join_lines-HasNoReturn (l ∷ []) (h, k) = h
join_lines-HasNoReturn (l ∷ m ∷ ls) (h, k) =
    All-append _ l (10 ∷ join_lines (m ∷ ls)) h (refl, join_lines-HasNoReturn (m ∷ ls) k)

result-HasNoReturn : (t : Text) → t ≢ [] → HasNoReturn (to_lf t) → HasNoReturn (normalize_md t)
result-HasNoReturn t h k = rw (normalize_md-lines t h) (
    join_lines-HasNoReturn _
      (result_lines-All HasNoReturn tt (parts 10 (to_lf t)) (parts-HasNoReturn (to_lf t) k)))

join_lines-close-ne-nil : (ls : List Text) → join_lines (close ls) ≢ []
join_lines-close-ne-nil ls e = append-ne-nil (join_lines ls) 10 [] (join_lines-close ls ∙ e)

normalize_md-ne-nil : (t : Text) → t ≢ [] → normalize_md t ≢ []
unfolding finish
normalize_md-ne-nil t h = rw (normalize_md-lines t h) (join_lines-close-ne-nil _)

normalize_md_twice :
    (t : Text) → t ≢ [] → HasNoReturn (to_lf t) → normalize_md (normalize_md t) ≡ normalize_md t
normalize_md_twice t h k =
    normalize_md-lines (normalize_md t) (normalize_md-ne-nil t h)
    ∙ ap (λ s. join_lines (result_lines (parts 10 s)))
        (to_lf-HasNoReturn (normalize_md t) (result-HasNoReturn t h k))
    ∙ ap (λ ls. join_lines (result_lines ls)) (parts-normalize_md t h)
    ∙ ap join_lines (result_lines_twice (parts 10 (to_lf t)))
    ∙ sym (normalize_md-lines t h)

-- A document in which every carriage return stands before a line feed is normalised by one run: a
-- second run changes nothing.
pub normalize_md_idempotent :
    (t : Text) → HasNoReturn (to_lf t) → normalize_md (normalize_md t) ≡ normalize_md t
unfolding normalize_md
normalize_md_idempotent [] h = refl
normalize_md_idempotent (c ∷ s) h = normalize_md_twice (c ∷ s) (λ e. cons-ne-nil e) h
