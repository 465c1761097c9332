-- ===== src/Config/Paths.antt =====
-- Reading and writing along a dotted key path: the loops of `setConfigValue` and `cmdConfigGet` of
-- config.cjs, on the parsed configuration. Writing gives the configuration as it reads back from
-- the file: `JSON.stringify` drops an undefined member and an array's named properties, and prints
-- null for a hole. The properties that a value inherits (`constructor`, `__proto__`) are left out,
-- and so are writes to an array past its end or to its `length`.
pub mod Laws
use aegis_workers.Base.{
  ℕ, ◌+◌, String, Bool, true, false, Option, none, some, List, [], ◌∷◌, ◌===◌, if◌then◌else◌, show,
  split,
}
use aegis_workers.Json.{
  Json, null, bool, num, str, arr, obj, Items, nil, cons, Members, end, member, get_member,
  set_member, remove_member,
}

-- `xs[k]` on an array whose first item has the index `i`
unfoldable pub get_item : String → ℕ → Items → Option Json
get_item k i nil = none
get_item k i (cons v vs) = if show i === k then some v else get_item k (i + 1) vs

-- `xs[k] = v` for an index within the array; other names leave the items alone.
unfoldable pub set_item : String → Json → ℕ → Items → Items
set_item k w i nil = nil
set_item k w i (cons v vs) = if show i === k then cons w vs else cons v (set_item k w (i + 1) vs)

-- `undefined` in an array is printed as null.
abbrev or_null : Option Json → Json
or_null none = null
or_null (some v) = v

-- `o[k] = v` where `v` may be undefined
abbrev pub write_member : String → Option Json → Members → Members
write_member k none ms = remove_member k ms
write_member k (some v) ms = set_member k v ms

-- `undefined` or no object is replaced by `{}`; null is an object to `typeof`.
abbrev pub object_or_new : Option Json → Json
object_or_new (some null) = null
object_or_new (some (arr vs)) = arr vs
object_or_new (some (obj ms)) = obj ms
object_or_new _ = obj end

pub data Assigned : Type 0 where
  done : (previous : Option Json) → Json → Assigned
  type_error : Assigned

abbrev pub in_place : (Json → Json) → Assigned → Assigned
in_place put (done p v) = done p (put v)
in_place put type_error = type_error

unfoldable pub set_path : List String → Option Json → Json → Assigned
unfolding get_item set_item
set_path [] v c = done none c
set_path (k ∷ []) v null = type_error
set_path (k ∷ []) v (obj ms) = done (get_member k ms) (obj (write_member k v ms))
set_path (k ∷ []) v (arr vs) = done (get_item k 0 vs) (arr (set_item k (or_null v) 0 vs))
set_path (k ∷ []) v c = done none c
set_path (k ∷ j ∷ ks) v (obj ms) =
    in_place (λ c. obj (set_member k c ms)) (set_path (j ∷ ks) v (object_or_new (get_member k ms)))
set_path (k ∷ j ∷ ks) v (arr vs) =
    in_place (λ c. arr (set_item k c 0 vs)) (set_path (j ∷ ks) v (object_or_new (get_item k 0 vs)))
set_path (k ∷ j ∷ ks) v c = type_error

-- The loop of `cmdConfigGet`: none is `error('Key not found: …')`.
unfoldable pub get_path : List String → Json → Option Json
unfolding get_item
get_path [] c = some c
get_path (k ∷ ks) (obj ms) = elim (get_member k ms) [ none ↦ none | some v ↦ get_path ks v ]
get_path (k ∷ ks) (arr vs) = elim (get_item k 0 vs) [ none ↦ none | some v ↦ get_path ks v ]
get_path (k ∷ ks) c = none
