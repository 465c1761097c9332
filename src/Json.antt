-- ===== src/Json.antt =====
-- The values of JavaScript that JSON can hold; an object keeps its keys in the order of insertion.
-- A number is the text that `String` prints for it.
pub mod Laws
use aegis_workers.Base.{
  ℕ, ◌+◌, show, String, Bool, true, false, not, Option, none, some, ◌===◌, if◌then◌else◌, truthy,
}

mutual
  pub data Json : Type 0 where
    null : Json
    bool : Bool → Json
    num : String → Json
    str : String → Json
    arr : Items → Json
    obj : Members → Json

  pub data Items : Type 0 where
    nil : Items
    cons : Json → Items → Items

  pub data Members : Type 0 where
    end : Members
    member : String → Json → Members → Members

pub data JsonError : Type 0 where
  empty_input : String → JsonError
  too_long : (label : String) (limit got : ℕ) → JsonError
  parse_error : (label message : String) → JsonError

-- `JSON.parse` returns a value or throws an error with a message.
pub data Parsed : Type 0 where
  parsed : Json → Parsed
  invalid : String → Parsed

-- `o[k]` for an own property of an object
unfoldable pub get_member : String → Members → Option Json
get_member k end = none
get_member k (member j v ms) = if j === k then some v else get_member k ms

-- `o[k] = v`: in place if the key is there, else behind the others
unfoldable pub set_member : String → Json → Members → Members
set_member k v end = member k v end
set_member k v (member j w ms) = if j === k then member k v ms else member j w (set_member k v ms)

-- `delete o[k]`; every member of that name goes, a real object has one at most
unfoldable pub remove_member : String → Members → Members
remove_member k end = end
remove_member k (member j w ms) =
    let rest = remove_member k ms in if j === k then rest else member j w rest

-- `{ ...a, ...b }` for objects
unfoldable pub spread : Members → Members → Members
unfolding set_member
spread a end = a
spread a (member k v ms) = spread (set_member k v a) ms

-- `k in o`
abbrev pub has_member : String → Members → Bool
has_member k ms = elim (get_member k ms) [ none ↦ false | some v ↦ true ]

-- A value that may be undefined counts as true.
abbrev pub is_truthy : Option Json → Bool
is_truthy none = false
is_truthy (some null) = false
is_truthy (some (bool b)) = b
is_truthy (some (num s)) = not (s === "0")
is_truthy (some (str s)) = truthy s
is_truthy (some v) = true

-- The members of an array and of a string, from the index `i` on
abbrev item_members : ℕ → Items → Members
item_members i nil = end
item_members i (cons v vs) = member (show i) v (item_members (i + 1) vs)

abbrev char_members : ℕ → String → Members
char_members i String.[] = end
char_members i (String.◌∷◌ c s) =
    member (show i) (str (String.◌∷◌ c String.[])) (char_members (i + 1) s)

-- The members that `...v` adds to an object
abbrev pub own_members : Option Json → Members
own_members (some (obj ms)) = ms
own_members (some (arr vs)) = item_members 0 vs
own_members (some (str s)) = char_members 0 s
own_members _ = end
