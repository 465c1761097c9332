-- ===== src/Cli/Route/Patches.antt =====
-- `state patch`: the pairs of the command line become the fields of the patch.
use text.Mathlib.TextPositions.{starts_with-append}
use aegis_workers.Base.{
  ◌≡◌, refl, ◌∙◌, ap, String, ◌<>◌, Bool, true, false, List, [], ◌∷◌, ◌++◌, append_assoc,
  append-nil, arith, ◌===◌, truthy, includes, slice_from, slice_from-append,
}
use aegis_workers.Json.{Parsed}
use aegis_workers.Cli.Args.{is_flag}
use aegis_workers.Cli.Call.{call, StateCall, state}
use aegis_workers.Cli.Route.{run_command}
use aegis_workers.Cli.Route.State.{strip_dashes, insert_field, assign, collect_patches, run_state}

-- `--k1 v1 --k2 v2 …`
abbrev pub patch_words : List (String × String) → List String
patch_words [] = []
patch_words ((k, v) ∷ r) = ("--" <> k) ∷ v ∷ patch_words r

abbrev pub keys : List (String × String) → List String
keys [] = []
keys ((k, v) ∷ r) = k ∷ keys r

-- The keys are not empty and not `__proto__`, differ from one another and are not among `seen`.
abbrev pub AreFresh : List String → List (String × String) → Type 0
AreFresh seen [] = Unit
AreFresh seen ((k, v) ∷ r) =
    (truthy k ≡ true)
    × ((k === "__proto__") ≡ false)
    × (includes seen k ≡ false)
    × AreFresh (seen ++ k ∷ []) r

slice_from-dashes : (k : String) → slice_from 2 ("--" <> k) ≡ k
slice_from-dashes k = slice_from-append "--" k

strip_dashes_lem : (k : String) → strip_dashes ("--" <> k) ≡ k
unfolding is_flag
strip_dashes_lem k = rw (starts_with-append "--" k) (slice_from-dashes k)

insert_field-fresh :
    (k v : String) (acc : List (String × String))
    → includes (keys acc) k ≡ false
    → insert_field k v acc ≡ acc ++ (k, v) ∷ []
insert_field-fresh k v [] h = refl
insert_field-fresh k v ((j, w) ∷ acc) h = ground (arith, insert_field-fresh k v acc)

assign_fresh :
    (k v : String) (acc : List (String × String))
    → (k === "__proto__") ≡ false
    → includes (keys acc) k ≡ false
    → assign k v acc ≡ acc ++ (k, v) ∷ []
unfolding assign
assign_fresh k v acc own h = rw own (insert_field-fresh k v acc h)

keys-append :
    (acc : List (String × String)) (k v : String) → keys (acc ++ (k, v) ∷ []) ≡ keys acc ++ k ∷ []
keys-append [] k v = refl
keys-append ((j, w) ∷ acc) k v = ap (λ l. j ∷ l) (keys-append acc k v)

collect_patches-words :
    (acc ps : List (String × String))
    → AreFresh (keys acc) ps
    → collect_patches acc (patch_words ps) ≡ acc ++ ps
unfolding collect_patches
collect_patches-words acc [] h = rw append-nil
collect_patches-words acc ((k, v) ∷ ps) (filled, own, fresh, later) =
    rw (strip_dashes_lem k, filled, assign_fresh k v acc own fresh)
      (collect_patches-words (acc ++ (k, v) ∷ []) ps (rw (keys-append acc k v) later)
        ∙ rw (append_assoc acc ((k, v) ∷ []) ps))

-- `state patch --k1 v1 --k2 v2 …` with keys that are not empty, are not `__proto__` and differ from
-- one another calls the patch with exactly these fields, inserted in this order, also where a value
-- begins with `--`.
pub run_command-state_patch :
    (parse : String → Parsed) (ps : List (String × String)) (raw : Bool)
    → AreFresh [] ps
    → run_command parse "state" ("state" ∷ "patch" ∷ patch_words ps) raw
      ≡ call (state (StateCall.patch ps raw))
unfolding run_command run_state
run_command-state_patch parse ps raw h = rw (collect_patches-words [] ps h)
