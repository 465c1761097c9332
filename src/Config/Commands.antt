-- ===== src/Config/Commands.antt =====
-- The commands of config.cjs over the planning directory: a config file is missing, malformed or
-- holds a value. A write to the file gives what `JSON.parse` reads back from it. That the operating
-- system refuses to make the directory or to write the file is left out, but for a missing directory.
pub mod Laws
use aegis_workers.Base.{
  String, Bool, true, false, not, Option, none, some, List, ◌===◌, if◌then◌else◌, given, truthy,
  trim, split,
}
use aegis_workers.Json.{Json, obj, end, str, Parsed, parsed, invalid}
use aegis_workers.Config.Keys.{is_valid_config_key, suggestion}
use aegis_workers.Config.Paths.{Assigned, done, type_error, set_path, get_path}
use aegis_workers.Config.Values.{parse_value}
use aegis_workers.Config.NewProject.{Home, build_new_project_config}

pub data ConfigFile : Type 0 where
  missing malformed : ConfigFile
  holds : Json → ConfigFile

-- `.planning/` with its `config.json`
pub data Planning : Type 0 where
  absent : Planning
  present : ConfigFile → Planning

-- What a command does besides writing: it prints a result, exits with an error, or throws.
pub data Reply : Type 0 where
  created already_exists : Reply
  updated : (key : String) (value previous : Option Json) → Reply
  value : Json → Reply
  usage : Reply
  did_you_mean : (key suggested : String) → Reply
  unknown_key : String → Reply
  invalid_json : String → Reply
  not_readable not_writable no_config thrown : Reply
  key_not_found : String → Reply

-- `fs.existsSync(configPath)`
abbrev pub config_of : Planning → ConfigFile
config_of absent = missing
config_of (present f) = f

abbrev create_from : Home → Json → Reply × Planning
create_from h choices = elim (build_new_project_config h choices) [
  | none ↦ (thrown, present missing)
  | some ms ↦ (created, present (holds (obj ms)))
]

abbrev choices_of : (String → Parsed) → Option String → Parsed
choices_of parse none = parsed (obj end)
choices_of parse (some text) = if truthy (trim text) then parse text else parsed (obj end)

-- The part of `cmdConfigNewProject` behind the test that the file is missing.
abbrev new_project : Home → Planning → Parsed → Reply × Planning
new_project h p (invalid message) = (invalid_json message, p)
new_project h p (parsed choices) = create_from h choices

unfoldable pub cmd_config_new_project :
    (String → Parsed) → Home → Option String → Planning → Reply × Planning
cmd_config_new_project parse h choices p = elim (config_of p) [
  | missing ↦ new_project h p (choices_of parse choices)
  | malformed ↦ (already_exists, p)
  | holds c ↦ (already_exists, p)
]

unfoldable pub ensure_config_file : Home → Planning → Reply × Planning
ensure_config_file h p = elim (config_of p) [
  | missing ↦ create_from h (obj end)
  | malformed ↦ (already_exists, p)
  | holds c ↦ (already_exists, p)
]

abbrev ensured : Reply → Option String
ensured created = some "created"
ensured already_exists = some "exists"
ensured r = none

-- What `config-ensure-section` prints in raw form, where the file could be ensured.
unfoldable pub cmd_config_ensure_section : Home → Planning → Option String × Planning
unfolding ensure_config_file
cmd_config_ensure_section h p = let (reply, q) = ensure_config_file h p in (ensured reply, q)

-- The write at the end of `setConfigValue`, which does not make the directory.
abbrev write_config : String → Option Json → Planning → Assigned → Reply × Planning
write_config key v p type_error = (thrown, p)
write_config key v absent (done previous c) = (not_writable, absent)
write_config key v (present f) (done previous c) = (updated key v previous, present (holds c))

unfoldable pub set_config_value : String → Option Json → Planning → Reply × Planning
set_config_value key v p = elim (config_of p) [
  | missing ↦ write_config key v p (set_path (split b'.' key) v (obj end))
  | malformed ↦ (not_readable, p)
  | holds c ↦ write_config key v p (set_path (split b'.' key) v c)
]

unfoldable pub cmd_config_set :
    (float : String → Option String)
    → (String → Parsed)
    → Option String
    → Option String
    → Planning
    → Reply × Planning
cmd_config_set float parse none v p = (usage, p)
cmd_config_set float parse (some key) v p =
    if not (truthy key) then (usage, p) else elim (suggestion key) [
      | some suggested ↦ (did_you_mean key suggested, p)
      | none ↦
          if is_valid_config_key key
          then set_config_value key (parse_value float parse v) p
          else (unknown_key key, p)
    ]

abbrev found_at : String → Option Json → Reply
found_at key none = key_not_found key
found_at key (some v) = value v

unfoldable pub cmd_config_get : Option String → Planning → Reply
cmd_config_get none p = usage
cmd_config_get (some key) p = if not (truthy key) then usage else elim (config_of p) [
  | missing ↦ no_config
  | malformed ↦ not_readable
  | holds c ↦ found_at key (get_path (split b'.' key) c)
]
