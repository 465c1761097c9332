-- ===== src/Markdown.antt =====
-- `normalizeMd` of core.cjs, with `isInsideFencedBlock` and `isClosingFence`: a document is the list
-- of its character codes, and a line is what stands between two line feeds.
pub mod Lines
pub mod Blanks
pub mod Passes
pub mod Laws
pub mod Kept
use aegis_workers.Base.{
  ℕ, zero, suc, ◌+◌, Bool, true, false, ◌||◌, ◌&&◌, not, List, [], ◌∷◌, ◌++◌, ◌==◌, if◌then◌else◌,
  leb, ltb, Text, is_digit, is_space, text_eq,
}
use aegis_workers.Security.Names.{trim_right, parts}

-- `content.replace(/\r\n/g, '\n')`
unfoldable pub to_lf : Text → Text
to_lf [] = []
to_lf (c ∷ []) = c ∷ []
to_lf (c ∷ d ∷ s) = let rest = to_lf (d ∷ s) in if c == 13 && d == 10 then rest else c ∷ rest

-- Behind `n` signs `#`: at most six in all, then white space
abbrev pub hashes : ℕ → Text → Bool
hashes n [] = false
hashes n (c ∷ s) =
    let more = hashes (suc n) s in if c == b'#' then ltb n 6 && more else leb 1 n && is_space c

-- `/^#{1,6}\s/.test(line.trimEnd())`
unfoldable pub is_heading : Text → Bool
unfolding trim_right
is_heading line = hashes 0 (trim_right line)

abbrev pub ticks : Text → Bool
ticks (a ∷ b ∷ c ∷ s) = a == b'`' && (b == b'`' && c == b'`')
ticks _ = false

-- `/^```/.test(line.trimEnd())`
unfoldable pub is_fence : Text → Bool
unfolding trim_right
is_fence line = ticks (trim_right line)

-- `/^```\s*$/.test(line.trimEnd())`; a trimmed text does not end in white space.
unfoldable pub is_bare_fence : Text → Bool
unfolding trim_right
is_bare_fence line = text_eq (trim_right line) (b'`' ∷ b'`' ∷ b'`' ∷ [])

abbrev pub starts_with_space : Text → Bool
starts_with_space [] = false
starts_with_space (c ∷ s) = is_space c

-- `\d*\.\s`
abbrev pub digits_then_dot : Text → Bool
digits_then_dot [] = false
digits_then_dot (c ∷ s) =
    let more = digits_then_dot s in if is_digit c then more else c == b'.' && starts_with_space s

-- `/^(\s*[-*+]\s|\s*\d+\.\s)/.test(line)`
unfoldable pub is_item : Text → Bool
is_item [] = false
is_item (c ∷ s) =
    let more = is_item s in
    if is_space c
    then more
    else if c == b'-' || (c == b'*' || c == b'+')
    then starts_with_space s
    else is_digit c && digits_then_dot s

-- `line.trimEnd() !== ''`
abbrev filled_trimmed : Text → Bool
filled_trimmed [] = false
filled_trimmed (c ∷ s) = true

unfoldable pub is_filled : Text → Bool
unfolding trim_right
is_filled line = filled_trimmed (trim_right line)

-- `line.trimEnd() === '---'`
unfoldable pub is_rule : Text → Bool
unfolding trim_right
is_rule line = text_eq (trim_right line) (b'-' ∷ b'-' ∷ b'-' ∷ [])

-- `if (b) result.push('')`
abbrev pub blank_if : Bool → List Text
blank_if b = if b then [] ∷ [] else []

-- The blank lines that are pushed before a line. `inside` says whether an odd number of fences
-- stands before it. The line before the first one counts as empty, which makes each test fail.
unfoldable pub before_line : (inside : Bool) (prev line : Text) → List Text
unfolding is_heading is_fence is_item is_filled is_rule
before_line inside prev line =
    blank_if (is_heading line && (is_filled prev && not (is_rule prev)))
    ++ (blank_if (is_fence line && (is_filled prev && not inside))
        ++ blank_if
            (is_item line && (is_filled prev && (not (is_item prev) && not (is_rule prev)))))

-- The blank lines that are pushed behind a line, before `next`. `inside` counts the line itself.
unfoldable pub after_line : (inside : Bool) (line next : Text) → List Text
unfolding is_heading is_bare_fence is_item is_filled
after_line inside line next =
    blank_if (is_heading line && is_filled next)
    ++ (blank_if (is_bare_fence line && (not inside && is_filled next))
        ++ blank_if (
            is_item line
            && (is_filled next && (not (is_item next) && not (starts_with_space next)))))

abbrev pub after_last : Bool → Text → List Text → List Text
after_last inside line [] = []
after_last inside line (next ∷ rest) = after_line inside line next

-- Whether an odd number of fences stands up to and including the line
unfoldable pub passed : Bool → Text → Bool
unfolding is_fence
passed inside line = if is_fence line then not inside else inside

-- The loop over the lines
unfoldable pub normalize_lines : (inside : Bool) (prev : Text) → List Text → List Text
unfolding before_line after_line passed
normalize_lines inside prev [] = []
normalize_lines inside prev (line ∷ rest) =
    before_line inside prev line
    ++ (line
        ∷ (after_last (passed inside line) line rest
            ++ normalize_lines (passed inside line) line rest))

-- `lines.join('\n')`
abbrev pub join_lines : List Text → Text
join_lines [] = []
join_lines (l ∷ []) = l
join_lines (l ∷ m ∷ ls) = l ++ (10 ∷ join_lines (m ∷ ls))

-- `text.replace(/\n{3,}/g, '\n\n')`, where `n` line feeds were just passed: of a run two are kept.
unfoldable pub collapse : ℕ → Text → Text
collapse n [] = []
collapse n (c ∷ s) =
    let run = collapse (suc n) s in
    let other = collapse 0 s in if c == 10 then (if ltb n 2 then 10 ∷ run else run) else c ∷ other

abbrev pub onto_stripped : ℕ → Text → Text
onto_stripped c [] = if c == 10 then [] else c ∷ []
onto_stripped c (d ∷ s) = c ∷ d ∷ s

-- The text without the line feeds at its end
unfoldable pub strip_end : Text → Text
strip_end [] = []
strip_end (c ∷ s) = onto_stripped c (strip_end s)

-- `text.replace(/\n*$/, '\n')`
unfoldable pub end_line : Text → Text
unfolding strip_end
end_line s = strip_end s ++ (10 ∷ [])

unfoldable pub normalize_md : Text → Text
unfolding to_lf normalize_lines collapse end_line parts
normalize_md [] = []
normalize_md (c ∷ s) =
    end_line (collapse 0 (join_lines (normalize_lines false [] (parts 10 (to_lf (c ∷ s))))))
