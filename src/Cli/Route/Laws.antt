-- ===== src/Cli/Route/Laws.antt =====
-- What `runCommand` of gsd-tools.cjs passes on for `phase add` and `commit`.
use aegis_workers.Base.{
  suc, ◌≡◌, refl, ◌∙◌, ap, inl, inr, String, Bool, true, false, Option, none, some, List, [], ◌∷◌,
  ◌++◌, append_assoc, append-nil, arith, ◌===◌, eq_iff, take, length, All, includes, join,
  Bool-cases,
}
use aegis_workers.Json.{Parsed}
use aegis_workers.Cli.Args.{index_of, is_flag, positional, files_after}
use aegis_workers.Cli.Args.Laws.{index_of-append, drop-append}
use aegis_workers.Cli.Call.{call, CommandsCall, PhaseCall, commands, phase}
use aegis_workers.Cli.Route.Commit.{message_words, or_undefined, run_commit}
use aegis_workers.Cli.Route.Planning.{split_id, run_phase}
use aegis_workers.Cli.Route.{run_middle, run_command}

split_id-word :
    (words : List String) (id : Option String) (a : String) (rest : List String)
    → (a === "--id") ≡ false
    → split_id words id (a ∷ rest) ≡ split_id (words ++ a ∷ []) id rest
unfolding split_id
split_id-word words id a [] h = refl
split_id-word words id a (b ∷ rest) h = ground arith

split_id-plain :
    (words : List String) (id : Option String) (rest : List String)
    → includes rest "--id" ≡ false
    → split_id words id rest ≡ (words ++ rest, id)
split_id-plain words id [] h = unfold split_id in rw append-nil
split_id-plain words id (a ∷ rest) h =
    split_id-word words id a rest (ground arith)
    ∙ split_id-plain (words ++ a ∷ []) id rest (ground arith)
    ∙ rw (append_assoc words (a ∷ []) rest)

split_id-pair :
    (words : List String) (id : Option String) (before : List String) (x : String)
    (behind : List String)
    → includes before "--id" ≡ false
    → includes behind "--id" ≡ false
    → split_id words id (before ++ ("--id" ∷ x ∷ behind)) ≡ (words ++ before ++ behind, some x)
split_id-pair words id [] x behind h k =
    unfold split_id in split_id-plain words (some x) behind k ∙ rw append-nil
split_id-pair words id (a ∷ before) x behind h k =
    split_id-word words id a (before ++ ("--id" ∷ x ∷ behind)) (ground arith)
    ∙ split_id-pair (words ++ a ∷ []) id before x behind (ground arith) k
    ∙ rw (append_assoc words (a ∷ []) before)

-- `phase add` with one `--id x` anywhere among the words of the description adds the words, in
-- their order and without the pair, under the identifier `x`.
pub run_command-phase_add :
    (parse : String → Parsed) (before behind : List String) (x : String) (raw : Bool)
    → includes before "--id" ≡ false
    → includes behind "--id" ≡ false
    → run_command parse "phase" ("phase" ∷ "add" ∷ (before ++ ("--id" ∷ x ∷ behind))) raw
      ≡ call (phase (PhaseCall.add (join " " (before ++ behind)) raw (some x)))
unfolding run_command run_middle run_phase
run_command-phase_add parse before behind x raw h k = rw (split_id-pair [] none before x behind h k)

includes_of_plain :
    (s : String) (args : List String)
    → is_flag s ≡ true
    → All (λ a. is_flag a ≡ false) args
    → includes args s ≡ false
includes_of_plain s [] f h = refl
includes_of_plain s (a ∷ args) f (p, h) = elim (Bool-cases (a === s)) [
  | inl same ↦ absurd (let e : is_flag a ≡ true = rw ((eq_iff a s).0 same) f in ground arith)
  | inr other ↦ rw other (includes_of_plain s args f h)
]

positional_of_plain :
    (args : List String) → All (λ a. is_flag a ≡ false) args → positional args ≡ args
positional_of_plain [] h = refl
positional_of_plain (a ∷ args) (p, h) = ground (arith, positional_of_plain args h)

includes-append :
    (xs ys : List String) (s : String)
    → includes xs s ≡ false
    → includes (xs ++ ys) s ≡ includes ys s
includes-append [] ys s h = refl
includes-append (x ∷ xs) ys s h = ground (arith, includes-append xs ys s)

take-append : (xs ys : List String) → take (length xs) (xs ++ ys) ≡ xs
take-append [] ys = refl
take-append (x ∷ xs) ys = ap (λ l. x ∷ l) (take-append xs ys)

no_option :
    (words files : List String) (s : String)
    → is_flag s ≡ true
    → All (λ a. is_flag a ≡ false) words
    → All (λ a. is_flag a ≡ false) files
    → ("commit" === s) ≡ false
    → ("--files" === s) ≡ false
    → includes ("commit" ∷ (words ++ ("--files" ∷ files))) s ≡ false
no_option words files s f h k p q =
    rw (p, includes-append words ("--files" ∷ files) s (includes_of_plain s words f h), q)
      (includes_of_plain s files f k)

files_found :
    (words files : List String)
    → All (λ a. is_flag a ≡ false) words
    → index_of "--files" ("commit" ∷ (words ++ ("--files" ∷ files))) ≡ some (suc (length words))
unfolding is_flag
files_found words files h =
    index_of-append "--files" ("commit" ∷ words) files (includes_of_plain "--files" words refl h)

message_words-commit :
    (words files : List String)
    → All (λ a. is_flag a ≡ false) words
    → message_words ("commit" ∷ (words ++ ("--files" ∷ files))) ≡ words
unfolding message_words
message_words-commit words files h =
    rw (files_found words files h, message_words)
      (rw (take-append words ("--files" ∷ files)) (positional_of_plain words h))

files_after-commit :
    (words files : List String)
    → All (λ a. is_flag a ≡ false) words
    → All (λ a. is_flag a ≡ false) files
    → files_after ("commit" ∷ (words ++ ("--files" ∷ files))) ≡ files
unfolding files_after
files_after-commit words files h k =
    rw (files_found words files h, files_after)
      (rw (drop-append ("commit" ∷ words) "--files" files) (positional_of_plain files k))

-- `commit` with the words of a message, then `--files` and the names of files, where neither the
-- words nor the names begin with `--`: the words joined by spaces and exactly those files.
pub run_command-commit :
    (parse : String → Parsed) (words files : List String) (raw : Bool)
    → All (λ a. is_flag a ≡ false) words
    → All (λ a. is_flag a ≡ false) files
    → run_command parse "commit" ("commit" ∷ (words ++ ("--files" ∷ files))) raw
      ≡ call (commands (CommandsCall.commit (or_undefined (join " " words)) files raw false false))
unfolding run_command run_commit is_flag
run_command-commit parse words files raw h k = rw (
  no_option words files "--amend" refl h k refl refl,
  no_option words files "--no-verify" refl h k refl refl,
  message_words-commit words files h,
  files_after-commit words files h k,
)
