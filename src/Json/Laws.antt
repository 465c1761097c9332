-- ===== src/Json/Laws.antt =====
-- The laws of reading and writing members.
use aegis_workers.Base.{
  Bool-cases, inl, inr, eq_refl, ◌≡◌, refl, String, Option, none, some, ◌===◌, eq_iff, arith,
  if◌then◌else◌,
}
use aegis_workers.Json.{Json, Members, end, member, get_member, set_member, remove_member, spread}

pub get_member-set_member :
    (j k : String) (v : Json) (ms : Members)
    → get_member j (set_member k v ms) ≡ (if k === j then some v else get_member j ms)
unfolding get_member set_member
get_member-set_member j k v end = refl
get_member-set_member j k v (member i w ms) =
    ground (arith, eq_iff k j, eq_iff i k, eq_iff i j, get_member-set_member j k v ms)

pub get_member-remove_member :
    (j k : String) (ms : Members)
    → get_member j (remove_member k ms) ≡ (if k === j then none else get_member j ms)
unfolding get_member remove_member
get_member-remove_member j k end = ground arith
get_member-remove_member j k (member i w ms) =
    ground (arith, eq_iff k j, eq_iff i k, eq_iff i j, get_member-remove_member j k ms)

-- No key occurs twice, as in every object of JavaScript.
abbrev pub HasUniqueKeys : Members → Type 0
HasUniqueKeys end = Unit
HasUniqueKeys (member k v ms) = (get_member k ms ≡ none) × HasUniqueKeys ms

-- `x ?? y` on members
abbrev pub or_member : Option Json → Option Json → Option Json
or_member none y = y
or_member (some v) y = some v

-- What a spread leaves under a key: the right object's member if it has one.
pub get_member-spread :
    (k : String) (a b : Members)
    → HasUniqueKeys b
    → get_member k (spread a b) ≡ or_member (get_member k b) (get_member k a)
unfolding spread get_member
get_member-spread k a end u = refl
get_member-spread k a (member j v b) (fresh, u) = elim (Bool-cases (j === k)) [
  | inl same ↦
      rw (get_member-spread k (set_member j v a) b u, same, ← (eq_iff j k).0 same)
        (rw (fresh, get_member-set_member j j v a, eq_refl j))
  | inr other ↦
      rw (get_member-spread k (set_member j v a) b u, other, get_member-set_member k j v a, other)
]
