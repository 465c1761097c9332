-- ===== src/Markdown/Lines.antt =====
-- The passes of `normalizeMd` on the list of lines: `squeeze` is `collapse` and `finish` is `end_line`.
use aegis_workers.Base.{
  ℕ, suc, ◌≡◌, ◌≢◌, refl, sym, ap, ◌∙◌, false, List, [], ◌∷◌, ◌++◌, ◌==◌, if◌then◌else◌, ltb, Text,
  All, Bool-cases, inl, inr, append_assoc, append-nil,
}
use aegis_workers.Security.Names.{parts, onto_head}
use aegis_workers.Markdown.{join_lines, collapse, strip_end, onto_stripped, end_line}

-- No line feed stands in the text.
abbrev pub IsLine : Text → Type 0
IsLine = All (λ c. (c == 10) ≡ false)

-- Of the empty lines behind `n` line feeds those are kept that leave two line feeds in a row.
unfoldable pub squeeze : ℕ → List Text → List Text
squeeze n [] = []
squeeze n (l ∷ []) = l ∷ []
squeeze n ([] ∷ m ∷ ls) = let rest = squeeze (suc n) (m ∷ ls) in if ltb n 2 then [] ∷ rest else rest
squeeze n ((c ∷ l) ∷ m ∷ ls) = (c ∷ l) ∷ squeeze 1 (m ∷ ls)

collapse-line :
    (n c : ℕ) (l s : Text) → IsLine (c ∷ l) → collapse n (c ∷ (l ++ s)) ≡ c ∷ (l ++ collapse 0 s)
unfolding collapse
collapse-line n c [] s (h, k) = rw h refl
collapse-line n c (d ∷ l) s (h, k) = rw h (ap (λ t. c ∷ t) (collapse-line 0 d l s k))

-- A list of lines that is not empty, in front of a line
join_lines-cons :
    (l : Text) (ls : List Text) → ls ≢ [] → join_lines (l ∷ ls) ≡ l ++ (10 ∷ join_lines ls)
join_lines-cons l [] h = absurd (h refl)
join_lines-cons l (m ∷ ls) h = refl

pub cons-ne-nil {ℓ} : {A : Type ℓ} {x : A} {xs : List A} → (x ∷ xs) ≢ []
cons-ne-nil e = cc

pub squeeze-ne-nil : (n : ℕ) (l : Text) (ls : List Text) → squeeze n (l ∷ ls) ≢ []
unfolding squeeze
squeeze-ne-nil n l [] e = cc
squeeze-ne-nil n [] (m ∷ ls) e = elim (Bool-cases (ltb n 2)) [
  | inl keep ↦ cons-ne-nil (rw keep at e)
  | inr drop ↦ squeeze-ne-nil (suc n) m ls (rw drop at e)
]
squeeze-ne-nil n (c ∷ l) (m ∷ ls) e = cc

collapse-last : (n : ℕ) (l : Text) → IsLine l → collapse n l ≡ l
unfolding collapse
collapse-last n [] h = refl
collapse-last n (c ∷ l) (h, k) = rw h (ap (λ t. c ∷ t) (collapse-last 0 l k))

pub collapse-join_lines :
    (n : ℕ) (l : Text) (ls : List Text)
    → All IsLine (l ∷ ls)
    → collapse n (join_lines (l ∷ ls)) ≡ join_lines (squeeze n (l ∷ ls))
unfolding squeeze collapse
collapse-join_lines n l [] (h, k) = collapse-last n l h
collapse-join_lines n [] (m ∷ ls) (h, k) = elim (Bool-cases (ltb n 2)) [
  | inl keep ↦ rw keep (
      ap (λ t. 10 ∷ t) (collapse-join_lines (suc n) m ls k)
      ∙ sym (join_lines-cons [] (squeeze (suc n) (m ∷ ls)) (squeeze-ne-nil (suc n) m ls)))
  | inr drop ↦ rw drop (collapse-join_lines (suc n) m ls k)
]
collapse-join_lines n (c ∷ l) (m ∷ ls) (h, k) =
    collapse-line n c l (10 ∷ join_lines (m ∷ ls)) h
    ∙ ap (λ t. c ∷ (l ++ (10 ∷ t))) (collapse-join_lines 1 m ls k)
    ∙ sym (join_lines-cons (c ∷ l) (squeeze 1 (m ∷ ls)) (squeeze-ne-nil 1 m ls))

abbrev pub onto_kept : Text → List Text → List Text
onto_kept l (m ∷ ls) = l ∷ m ∷ ls
onto_kept [] [] = []
onto_kept (c ∷ l) [] = (c ∷ l) ∷ []

-- The lines without the empty ones at the end
unfoldable pub drop_blanks : List Text → List Text
drop_blanks [] = []
drop_blanks (l ∷ ls) = onto_kept l (drop_blanks ls)

-- One empty line behind the lines that are left
abbrev pub close : List Text → List Text
close [] = [] ∷ [] ∷ []
close (l ∷ ls) = (l ∷ ls) ++ ([] ∷ [])

unfoldable pub finish : List Text → List Text
unfolding drop_blanks
finish ls = close (drop_blanks ls)

onto_stripped-kept : (c : ℕ) (t : Text) → (c == 10) ≡ false → onto_stripped c t ≡ c ∷ t
onto_stripped-kept c [] h = rw h refl
onto_stripped-kept c (d ∷ t) h = refl

strip_end-line :
    (c : ℕ) (l s : Text) → IsLine (c ∷ l) → strip_end (c ∷ (l ++ s)) ≡ c ∷ (l ++ strip_end s)
unfolding strip_end
strip_end-line c [] s (h, k) = onto_stripped-kept c (strip_end s) h
strip_end-line c (d ∷ l) s (h, k) = rw (strip_end-line d l s k) refl

strip_end-last : (l : Text) → IsLine l → strip_end l ≡ l
unfolding strip_end
strip_end-last [] h = refl
strip_end-last (c ∷ l) (h, k) = ap (onto_stripped c) (strip_end-last l k) ∙ onto_stripped-kept c l h

join_lines-onto_kept :
    (l : Text) (ls : List Text) → join_lines (onto_kept l ls) ≡ [] → onto_kept l ls ≡ []
join_lines-onto_kept [] [] e = refl
join_lines-onto_kept (c ∷ l) [] e = absurd (cons-ne-nil e)
join_lines-onto_kept [] (m ∷ ls) e = absurd (cons-ne-nil e)
join_lines-onto_kept (c ∷ l) (m ∷ ls) e = absurd (cons-ne-nil e)

onto_stripped-filled : (t : Text) → t ≢ [] → onto_stripped 10 t ≡ 10 ∷ t
onto_stripped-filled [] h = absurd (h refl)
onto_stripped-filled (c ∷ t) h = refl

-- What is stripped of a line feed and the stripped rest
onto_stripped-lines :
    (ls : List Text)
    → (join_lines ls ≡ [] → ls ≡ [])
    → (l : Text) → l ++ onto_stripped 10 (join_lines ls) ≡ join_lines (onto_kept l ls)
onto_stripped-lines [] h [] = refl
onto_stripped-lines [] h (c ∷ l) = append-nil (c ∷ l)
onto_stripped-lines (m ∷ ls) h l =
    ap (λ t. l ++ t) (onto_stripped-filled (join_lines (m ∷ ls)) (λ e. cons-ne-nil (h e)))

join_lines-drop_blanks :
    (l : Text) (ls : List Text)
    → All IsLine (l ∷ ls)
    → strip_end (join_lines (l ∷ ls)) ≡ join_lines (drop_blanks (l ∷ ls))
unfolding strip_end drop_blanks
join_lines-drop_blanks [] [] h = refl
join_lines-drop_blanks (c ∷ l) [] (h, k) = strip_end-last (c ∷ l) h
join_lines-drop_blanks [] (m ∷ ls) (h, k) =
    ap (onto_stripped 10) (join_lines-drop_blanks m ls k)
    ∙ onto_stripped-lines (drop_blanks (m ∷ ls)) (join_lines-onto_kept m (drop_blanks ls)) []
join_lines-drop_blanks (c ∷ l) (m ∷ ls) (h, k) =
    strip_end-line c l (10 ∷ join_lines (m ∷ ls)) h
    ∙ ap (λ t. c ∷ (l ++ onto_stripped 10 t)) (join_lines-drop_blanks m ls k)
    ∙ onto_stripped-lines (drop_blanks (m ∷ ls)) (join_lines-onto_kept m (drop_blanks ls)) (c ∷ l)

join_lines-append-blank :
    (l : Text) (ls : List Text)
    → join_lines (l ∷ ls) ++ (10 ∷ []) ≡ join_lines ((l ∷ ls) ++ ([] ∷ []))
join_lines-append-blank l [] = refl
join_lines-append-blank l (m ∷ ls) = rw (append_assoc l, ← join_lines-append-blank m ls) refl

pub join_lines-close : (ls : List Text) → join_lines ls ++ (10 ∷ []) ≡ join_lines (close ls)
join_lines-close [] = refl
join_lines-close (l ∷ ls) = join_lines-append-blank l ls

pub end_line-join_lines :
    (l : Text) (ls : List Text)
    → All IsLine (l ∷ ls)
    → end_line (join_lines (l ∷ ls)) ≡ join_lines (finish (l ∷ ls))
unfolding end_line finish
end_line-join_lines l ls h =
    ap (λ t. t ++ (10 ∷ [])) (join_lines-drop_blanks l ls h)
    ∙ join_lines-close (drop_blanks (l ∷ ls))

parts-last : (l : Text) → IsLine l → parts 10 l ≡ l ∷ []
unfolding parts
parts-last [] h = refl
parts-last (c ∷ l) (h, k) = rw (h, parts-last l k) refl

parts-line : (l s : Text) → IsLine l → parts 10 (l ++ (10 ∷ s)) ≡ l ∷ parts 10 s
unfolding parts
parts-line [] s h = refl
parts-line (c ∷ l) s (h, k) = rw (h, parts-line l s k) refl

pub parts-join_lines :
    (l : Text) (ls : List Text) → All IsLine (l ∷ ls) → parts 10 (join_lines (l ∷ ls)) ≡ l ∷ ls
parts-join_lines l [] (h, k) = parts-last l h
parts-join_lines l (m ∷ ls) (h, k) =
    parts-line l (join_lines (m ∷ ls)) h ∙ ap (λ t. l ∷ t) (parts-join_lines m ls k)

onto_head-IsLine :
    (c : ℕ) (ls : List Text) → (c == 10) ≡ false → All IsLine ls → All IsLine (onto_head c ls)
onto_head-IsLine c [] h k = ((h, tt), tt)
onto_head-IsLine c (l ∷ ls) h (k, r) = ((h, k), r)

pub parts-IsLine : (s : Text) → All IsLine (parts 10 s)
unfolding parts
parts-IsLine [] = (tt, tt)
parts-IsLine (c ∷ s) = elim (Bool-cases (c == 10)) [
  | inl cut ↦ rw cut (tt, parts-IsLine s)
  | inr kept ↦ rw kept (onto_head-IsLine c (parts 10 s) kept (parts-IsLine s))
]
