-- ===== src/Markdown/Passes.antt =====
-- The passes behind the loop of `normalizeMd` take nothing away from what they have left, and no
-- pass makes the loop add a line.
use aegis_workers.Base.{
  ℕ, suc, ◌≤◌, ◌≡◌, refl, ap, ◌∙◌, Bool, true, List, [], ◌∷◌, ◌++◌, ltb, Text, arith, Bool-cases,
  inl, inr,
}
use aegis_workers.Markdown.{before_line, after_line, after_last, passed}
use aegis_workers.Markdown.Lines.{squeeze, drop_blanks, onto_kept, close, finish}
use aegis_workers.Markdown.Blanks.{Settled, after_line-before_blank, blank-Settled, passed-blank}

after_last-squeeze :
    (i : Bool) (l m : Text) (ls : List Text)
    → after_last i l (squeeze 1 (m ∷ ls)) ≡ after_last i l (m ∷ ls)
unfolding squeeze
after_last-squeeze i l m [] = refl
after_last-squeeze i l [] (k ∷ ls) = refl
after_last-squeeze i l (c ∷ m) (k ∷ ls) = refl

pub squeeze-Settled :
    (i : Bool) (p : Text) (n : ℕ) (ls : List Text)
    → Settled i p ls
    → (2 ≤ n → p ≡ [])
    → Settled i p (squeeze n ls)
unfolding Settled squeeze
squeeze-Settled i p n [] s h = tt
squeeze-Settled i p n (l ∷ []) s h = s
squeeze-Settled i p n ([] ∷ m ∷ ls) (b, a, s) h =
    let later = rw (passed-blank i) at s in
    elim (Bool-cases (ltb n 2)) [
      | inl keep ↦ rw keep (
          blank-Settled i p (squeeze (suc n) (m ∷ ls))
            (squeeze-Settled i [] (suc n) (m ∷ ls) later (λ _. refl)))
      | inr drop ↦
          let empty = h (ground arith) in
          rw (drop, empty) (squeeze-Settled i [] (suc n) (m ∷ ls) later (λ _. refl))
    ]
squeeze-Settled i p n ((c ∷ l) ∷ m ∷ ls) (b, a, s) h = (
  b,
  after_last-squeeze (passed i (c ∷ l)) (c ∷ l) m ls ∙ a,
  squeeze-Settled (passed i (c ∷ l)) (c ∷ l) 1 (m ∷ ls) s (λ two. absurd (omega arith)),
)

-- No run has more than two line feeds, where `n` were just passed.
unfoldable pub Tight : ℕ → List Text → Type 0
Tight n [] = Unit
Tight n (l ∷ []) = Unit
Tight n ([] ∷ m ∷ ls) = (ltb n 2 ≡ true) × Tight (suc n) (m ∷ ls)
Tight n ((c ∷ l) ∷ m ∷ ls) = Tight 1 (m ∷ ls)

pub Tight-squeeze : (n : ℕ) (ls : List Text) → Tight n ls → squeeze n ls ≡ ls
unfolding Tight squeeze
Tight-squeeze n [] h = refl
Tight-squeeze n (l ∷ []) h = refl
Tight-squeeze n ([] ∷ m ∷ ls) (k, h) = rw k (ap (λ t. [] ∷ t) (Tight-squeeze (suc n) (m ∷ ls) h))
Tight-squeeze n ((c ∷ l) ∷ m ∷ ls) h = ap (λ t. (c ∷ l) ∷ t) (Tight-squeeze 1 (m ∷ ls) h)

Tight-blank : (n : ℕ) (ls : List Text) → ltb n 2 ≡ true → Tight (suc n) ls → Tight n ([] ∷ ls)
unfolding Tight
Tight-blank n [] h t = tt
Tight-blank n (m ∷ ls) h t = (h, t)

Tight-line : (n c : ℕ) (l : Text) (ls : List Text) → Tight 1 ls → Tight n ((c ∷ l) ∷ ls)
unfolding Tight
Tight-line n c l [] t = tt
Tight-line n c l (m ∷ ls) t = t

Tight-fewer : (n : ℕ) (ls : List Text) → Tight (suc n) ls → Tight n ls
unfolding Tight
Tight-fewer n [] t = tt
Tight-fewer n (l ∷ []) t = tt
Tight-fewer n ([] ∷ m ∷ ls) (h, t) = (ground arith, Tight-fewer (suc n) (m ∷ ls) t)
Tight-fewer n ((c ∷ l) ∷ m ∷ ls) t = t

pub squeeze-Tight : (n : ℕ) (ls : List Text) → Tight n (squeeze n ls)
unfolding Tight squeeze
squeeze-Tight n [] = tt
squeeze-Tight n (l ∷ []) = tt
squeeze-Tight n ([] ∷ m ∷ ls) = elim (Bool-cases (ltb n 2)) [
  | inl keep ↦
      rw keep (Tight-blank n (squeeze (suc n) (m ∷ ls)) keep (squeeze-Tight (suc n) (m ∷ ls)))
  | inr drop ↦ rw drop (Tight-fewer n (squeeze (suc n) (m ∷ ls)) (squeeze-Tight (suc n) (m ∷ ls)))
]
squeeze-Tight n ((c ∷ l) ∷ m ∷ ls) =
    Tight-line n c l (squeeze 1 (m ∷ ls)) (squeeze-Tight 1 (m ∷ ls))

after_last-onto_kept :
    (i : Bool) (l k : Text) (ls : List Text)
    → after_line i l k ≡ []
    → after_last i l (onto_kept k ls ++ ([] ∷ [])) ≡ []
after_last-onto_kept i l k (m ∷ ls) h = h
after_last-onto_kept i l [] [] h = h
after_last-onto_kept i l (c ∷ k) [] h = h

after_last-drop_blanks :
    (i : Bool) (l : Text) (ls : List Text)
    → after_last i l ls ≡ []
    → after_last i l (drop_blanks ls ++ ([] ∷ [])) ≡ []
unfolding drop_blanks
after_last-drop_blanks i l [] h = after_line-before_blank i l
after_last-drop_blanks i l (k ∷ ls) h = after_last-onto_kept i l k (drop_blanks ls) h

one_blank-Settled : (i : Bool) (p : Text) → Settled i p ([] ∷ [])
unfolding Settled
one_blank-Settled i p = blank-Settled i p [] tt

onto_kept-Settled :
    (i : Bool) (p l : Text) (ls : List Text)
    → before_line i p l ≡ []
    → after_last (passed i l) l (ls ++ ([] ∷ [])) ≡ []
    → Settled (passed i l) l (ls ++ ([] ∷ []))
    → Settled i p (onto_kept l ls ++ ([] ∷ []))
unfolding Settled
onto_kept-Settled i p l (m ∷ ls) b a s = (b, a, s)
onto_kept-Settled i p [] [] b a s = one_blank-Settled i p
onto_kept-Settled i p (c ∷ l) [] b a s = (b, a, s)

drop_blanks-Settled :
    (i : Bool) (p : Text) (ls : List Text)
    → Settled i p ls
    → Settled i p (drop_blanks ls ++ ([] ∷ []))
unfolding Settled drop_blanks
drop_blanks-Settled i p [] s = one_blank-Settled i p
drop_blanks-Settled i p (l ∷ ls) (b, a, s) =
    onto_kept-Settled i p l (drop_blanks ls) b (after_last-drop_blanks (passed i l) l ls a)
      (drop_blanks-Settled (passed i l) l ls s)

close-Settled :
    (i : Bool) (p : Text) (ls : List Text) → Settled i p (ls ++ ([] ∷ [])) → Settled i p (close ls)
close-Settled i p [] s = blank-Settled i p ([] ∷ []) (one_blank-Settled i [])
close-Settled i p (l ∷ ls) s = s

pub finish-Settled :
    (i : Bool) (p : Text) (ls : List Text) → Settled i p ls → Settled i p (finish ls)
unfolding finish
finish-Settled i p ls s = close-Settled i p (drop_blanks ls) (drop_blanks-Settled i p ls s)

onto_kept-Tight :
    (n : ℕ) (l k : Text) (ls ks : List Text)
    → Tight n (l ∷ k ∷ ks)
    → ((m : ℕ) → Tight m (k ∷ ks) → Tight m (ls ++ ([] ∷ [])))
    → Tight n (onto_kept l ls ++ ([] ∷ []))
unfolding Tight
onto_kept-Tight n [] k [] ks t later = tt
onto_kept-Tight n (c ∷ l) k [] ks t later = tt
onto_kept-Tight n [] k (m ∷ ls) ks (h, t) later = (h, later (suc n) t)
onto_kept-Tight n (c ∷ l) k (m ∷ ls) ks t later = later 1 t

drop_blanks-Tight : (n : ℕ) (ls : List Text) → Tight n ls → Tight n (drop_blanks ls ++ ([] ∷ []))
unfolding Tight drop_blanks
drop_blanks-Tight n [] t = tt
drop_blanks-Tight n ([] ∷ []) t = tt
drop_blanks-Tight n ((c ∷ l) ∷ []) t = tt
drop_blanks-Tight n (l ∷ k ∷ ks) t =
    onto_kept-Tight n l k (drop_blanks (k ∷ ks)) ks t (λ m u. drop_blanks-Tight m (k ∷ ks) u)

close-Tight : (ls : List Text) → Tight 0 (ls ++ ([] ∷ [])) → Tight 0 (close ls)
unfolding Tight
close-Tight [] t = (refl, tt)
close-Tight (l ∷ ls) t = t

pub finish-Tight : (ls : List Text) → Tight 0 ls → Tight 0 (finish ls)
unfolding finish
finish-Tight ls t = close-Tight (drop_blanks ls) (drop_blanks-Tight 0 ls t)

drop_blanks-append_blank : (ls : List Text) → drop_blanks (ls ++ ([] ∷ [])) ≡ drop_blanks ls
unfolding drop_blanks
drop_blanks-append_blank [] = refl
drop_blanks-append_blank (l ∷ ls) = ap (onto_kept l) (drop_blanks-append_blank ls)

drop_blanks-onto_kept :
    (l : Text) (ls : List Text)
    → drop_blanks ls ≡ ls
    → drop_blanks (onto_kept l ls) ≡ onto_kept l ls
unfolding drop_blanks
drop_blanks-onto_kept l (m ∷ ls) e = ap (onto_kept l) e
drop_blanks-onto_kept [] [] e = refl
drop_blanks-onto_kept (c ∷ l) [] e = refl

drop_blanks_twice : (ls : List Text) → drop_blanks (drop_blanks ls) ≡ drop_blanks ls
unfolding drop_blanks
drop_blanks_twice [] = refl
drop_blanks_twice (l ∷ ls) = drop_blanks-onto_kept l (drop_blanks ls) (drop_blanks_twice ls)

drop_blanks-close : (ls : List Text) → drop_blanks (close ls) ≡ drop_blanks ls
unfolding drop_blanks
drop_blanks-close [] = refl
drop_blanks-close (l ∷ ls) = drop_blanks-append_blank (l ∷ ls)

pub finish_twice : (ls : List Text) → finish (finish ls) ≡ finish ls
unfolding finish
finish_twice ls = ap close (drop_blanks-close (drop_blanks ls) ∙ drop_blanks_twice ls)
