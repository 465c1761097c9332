-- ===== src/Config/Commands/Laws.antt =====
-- What the configuration commands leave in the file.
use aegis_workers.Base.{
  split-cons, ◌≡◌, ◌≢◌, String, true, Option, none, some, List, ◌∷◌, arith, truthy, split,
}
use aegis_workers.Json.{Json, Parsed}
use aegis_workers.Config.Keys.{is_valid_config_key, suggestion}
use aegis_workers.Config.Paths.{get_path}
use aegis_workers.Config.Paths.Laws.{ObjectsOnly, set_path-Wrote}
use aegis_workers.Config.Values.{parse_value}
use aegis_workers.Config.NewProject.{Home}
use aegis_workers.Config.Commands.{
  holds, Planning, present, created, already_exists, updated, value, cmd_config_new_project,
  set_config_value, cmd_config_set, cmd_config_get,
}

-- A `config-set` changes the planning directory only for a key that is not empty, that is valid and
-- that is no misspelling for which the code suggests another key.
pub cmd_config_set-guard :
    (float : String → Option String) (parse : String → Parsed) (key : String) (v : Option String)
    (p : Planning)
    → (cmd_config_set float parse (some key) v p).1 ≢ p
    → (is_valid_config_key key ≡ true) × (suggestion key ≡ none) × (truthy key ≡ true)
unfolding cmd_config_set
cmd_config_set-guard float parse key v p h = ground arith

set_then_get :
    (key : String) (k : String) (ks : List String) (w : Json) (c : Json)
    → truthy key ≡ true
    → split b'.' key ≡ k ∷ ks
    → ObjectsOnly (k ∷ ks) c
    → (p : Planning) × (set_config_value key (some w) (present (holds c))
        ≡ (updated key (some w) (get_path (k ∷ ks) c), p))
      × (cmd_config_get (some key) p ≡ value w)
unfolding set_config_value cmd_config_get
set_then_get key k ks w c filled e only =
    let r = set_path-Wrote k ks (some w) c only in
    (present (holds r.after), rw (e, r.written), rw (filled, e, r.found))

-- A `config-set` of a valid key to a value, as JSON writes it (so that an infinite number is null),
-- where the key's path meets objects only in the file, reports the value that was at the path
-- before, and a `config-get` of the key then prints the value.
pub cmd_config_get-cmd_config_set :
    (float : String → Option String) (parse : String → Parsed) (key : String) (v : Option String)
    (w : Json) (c : Json)
    → truthy key ≡ true
    → suggestion key ≡ none
    → is_valid_config_key key ≡ true
    → parse_value float parse v ≡ some w
    → ObjectsOnly (split b'.' key) c
    → (p : Planning) × (cmd_config_set float parse (some key) v (present (holds c))
        ≡ (updated key (some w) (get_path (split b'.' key) c), p))
      × (cmd_config_get (some key) p ≡ value w)
unfolding cmd_config_set
cmd_config_get-cmd_config_set float parse key v w c filled plain valid read only =
    let (k, ks, e) = split-cons b'.' key in
    let (p, wrote, got) = set_then_get key k ks w c filled e (rw e at only) in
    (p, rw (filled, plain, valid, read, e) wrote, got)

-- Once a run of `config-new-project` has created the file, every later run, with any choices and in
-- any home directory, answers `already_exists` and changes nothing.
pub cmd_config_new_project_twice :
    (parse : String → Parsed) (h h' : Home) (choices others : Option String) (p : Planning)
    → (cmd_config_new_project parse h choices p).0 ≡ created
    → (let q = (cmd_config_new_project parse h choices p).1 in
        cmd_config_new_project parse h' others q ≡ (already_exists, q))
unfolding cmd_config_new_project
cmd_config_new_project_twice parse h h' choices others p made = ground arith
