-- ===== src/Security/JsonSafety.antt =====
-- `safeJsonParse` of security.cjs over any `JSON.parse`.
use aegis_workers.Base.{
  ℕ, ◌+◌, String, Option, none, some, [], ◌∷◌, ltb, if◌then◌else◌, Text, codes, truthy, ◌==◌, not,
}
use aegis_workers.Json.{
  Json, JsonError, empty_input, too_long, parse_error, Parsed, parsed, invalid,
}

-- `s.length`: a character outside the basic plane takes two code units.
unfoldable pub units : Text → ℕ
units [] = 0
units (c ∷ s) = (if ltb c 0x10000 then 1 else 2) + units s

pub data SafeJson : Type 0 where
  ok : Json → SafeJson
  failed : JsonError → SafeJson

abbrev caught : String → Parsed → SafeJson
caught label (parsed v) = ok v
caught label (invalid message) = failed (parse_error label message)

-- `opts.maxLength || 1048576`
abbrev limit_of : Option ℕ → ℕ
limit_of none = 1048576
limit_of (some n) = if n == 0 then 1048576 else n

-- `opts.label || 'JSON'`
abbrev label_of : Option String → String
label_of none = "JSON"
label_of (some l) = if truthy l then l else "JSON"

-- `text` is undefined, null or a string.
unfoldable pub safe_json_parse :
    (String → Parsed) → Option String → (max_length : Option ℕ) (label : Option String) → SafeJson
unfolding units
safe_json_parse parse none max_length label = failed (empty_input (label_of label))
safe_json_parse parse (some text) max_length label =
    if not (truthy text)
    then failed (empty_input (label_of label))
    else if ltb (limit_of max_length) (units (codes text))
    then failed (too_long (label_of label) (limit_of max_length) (units (codes text)))
    else caught (label_of label) (parse text)
