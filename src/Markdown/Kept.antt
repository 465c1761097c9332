-- ===== src/Markdown/Kept.antt =====
-- The text that `normalizeMd` keeps.
use aegis_workers.Base.{
  ℕ, suc, ◌≡◌, refl, ap, ◌∙◌, Bool, true, false, List, [], ◌∷◌, ◌++◌, ltb, Text, keep, Bool-cases,
  inl, inr,
}
use aegis_workers.Security.Names.{parts}
use aegis_workers.Markdown.{before_line, after_last, passed, normalize_lines, to_lf, normalize_md}
use aegis_workers.Markdown.Lines.{cons-ne-nil, squeeze, drop_blanks, onto_kept, close, finish}
use aegis_workers.Markdown.Blanks.{AreBlank, before_line-AreBlank}
use aegis_workers.Markdown.Laws.{result_lines, after_last-AreBlank, parts-normalize_md}

abbrev pub is_written : Text → Bool
is_written [] = false
is_written (c ∷ l) = true

abbrev pub written : List Text → List Text
written ls = keep is_written ls

written-padded : (bs ls : List Text) → AreBlank bs → written (bs ++ ls) ≡ written ls
written-padded [] ls h = refl
written-padded (b ∷ bs) ls (e, h) = rw e (written-padded bs ls h)

written-cons :
    (l : Text) (ks ls : List Text) → written ks ≡ written ls → written (l ∷ ks) ≡ written (l ∷ ls)
written-cons [] ks ls e = e
written-cons (c ∷ l) ks ls e = ap (λ t. (c ∷ l) ∷ t) e

written-normalize_lines :
    (i : Bool) (p : Text) (ls : List Text) → written (normalize_lines i p ls) ≡ written ls
unfolding normalize_lines
written-normalize_lines i p [] = refl
written-normalize_lines i p (l ∷ ls) =
    let rest = normalize_lines (passed i l) l ls in
    let behind = after_last (passed i l) l ls in
    written-padded (before_line i p l) (l ∷ (behind ++ rest)) (before_line-AreBlank i p l)
    ∙ written-cons l (behind ++ rest) ls (
        written-padded behind rest (after_last-AreBlank (passed i l) l ls)
        ∙ written-normalize_lines (passed i l) l ls)

written-squeeze : (n : ℕ) (ls : List Text) → written (squeeze n ls) ≡ written ls
unfolding squeeze
written-squeeze n [] = refl
written-squeeze n (l ∷ []) = refl
written-squeeze n ([] ∷ m ∷ ls) = elim (Bool-cases (ltb n 2)) [
  | inl keep ↦ rw keep (written-squeeze (suc n) (m ∷ ls))
  | inr drop ↦ rw drop (written-squeeze (suc n) (m ∷ ls))
]
written-squeeze n ((c ∷ l) ∷ m ∷ ls) =
    written-cons (c ∷ l) (squeeze 1 (m ∷ ls)) (m ∷ ls) (written-squeeze 1 (m ∷ ls))

written-onto_kept : (l : Text) (ls : List Text) → written (onto_kept l ls) ≡ written (l ∷ ls)
written-onto_kept l (m ∷ ls) = refl
written-onto_kept [] [] = refl
written-onto_kept (c ∷ l) [] = refl

written-drop_blanks : (ls : List Text) → written (drop_blanks ls) ≡ written ls
unfolding drop_blanks
written-drop_blanks [] = refl
written-drop_blanks (l ∷ ls) =
    written-onto_kept l (drop_blanks ls)
    ∙ written-cons l (drop_blanks ls) ls (written-drop_blanks ls)

written-append_blank : (ls : List Text) → written (ls ++ ([] ∷ [])) ≡ written ls
written-append_blank [] = refl
written-append_blank (l ∷ ls) = written-cons l (ls ++ ([] ∷ [])) ls (written-append_blank ls)

written-close : (ls : List Text) → written (close ls) ≡ written ls
written-close [] = refl
written-close (l ∷ ls) = written-append_blank (l ∷ ls)

written-result_lines : (ls : List Text) → written (result_lines ls) ≡ written ls
unfolding finish
written-result_lines ls =
    written-close (drop_blanks (squeeze 0 (normalize_lines false [] ls)))
    ∙ written-drop_blanks (squeeze 0 (normalize_lines false [] ls))
    ∙ written-squeeze 0 (normalize_lines false [] ls)
    ∙ written-normalize_lines false [] ls

-- Normalising a document adds and removes empty lines only: the lines that are not empty are, in
-- their order, those of the document, where CRLF counts as a line end.
pub normalize_md-written :
    (t : Text) → written (parts 10 (normalize_md t)) ≡ written (parts 10 (to_lf t))
unfolding normalize_md
normalize_md-written [] = refl
normalize_md-written (c ∷ s) =
    ap written (parts-normalize_md (c ∷ s) (λ e. cons-ne-nil e))
    ∙ written-result_lines (parts 10 (to_lf (c ∷ s)))
