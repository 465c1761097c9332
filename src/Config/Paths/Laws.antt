-- ===== src/Config/Paths/Laws.antt =====
-- A value that was written is read back, and paths that part from it are not changed.
use aegis_workers.Base.{
  sym, ◌≡◌, ◌≢◌, ◌⊎◌, inl, inr, refl, ◌∙◌, String, Option, none, some, List, [], ◌∷◌, eq_iff, arith,
  Option-cases,
}
use aegis_workers.Json.{Json, null, bool, num, str, arr, obj, Members, get_member, set_member}
use aegis_workers.Json.Laws.{get_member-set_member, get_member-remove_member}
use aegis_workers.Config.Paths.{write_member, object_or_new, done, set_path, get_path}

-- Every value that the path goes through is an object, or is missing, or will be replaced by one.
abbrev pub ObjectsOnly : List String → Json → Type 0
ObjectsOnly [] c = Unit
ObjectsOnly (k ∷ ks) (obj ms) = ObjectsOnly ks (object_or_new (get_member k ms))
ObjectsOnly (k ∷ ks) c = ⊥

-- At some point the paths take different keys.
abbrev pub Diverge : List String → List String → Type 0
Diverge [] js = ⊥
Diverge (k ∷ ks) [] = ⊥
Diverge (k ∷ ks) (j ∷ js) = (k ≢ j) ⊎ ((k ≡ j) × Diverge ks js)

get_path-object_or_new :
    (j : String) (js : List String) (o : Option Json)
    → get_path (j ∷ js) (object_or_new o) ≡ elim o [ none ↦ none | some v ↦ get_path (j ∷ js) v ]
unfolding get_path get_member
get_path-object_or_new j js none = refl
get_path-object_or_new j js (some null) = refl
get_path-object_or_new j js (some (bool b)) = refl
get_path-object_or_new j js (some (num n)) = refl
get_path-object_or_new j js (some (str s)) = refl
get_path-object_or_new j js (some (arr vs)) = refl
get_path-object_or_new j js (some (obj ms)) = refl

get_member-write_member :
    (j k : String) (v : Option Json) (ms : Members)
    → k ≢ j
    → get_member j (write_member k v ms) ≡ get_member j ms
get_member-write_member j k none ms n = ground (arith, get_member-remove_member j k ms, eq_iff k j)
get_member-write_member j k (some v) ms n =
    ground (arith, get_member-set_member j k v ms, eq_iff k j)

get_member-write_member_self :
    (k : String) (v : Option Json) (ms : Members) → get_member k (write_member k v ms) ≡ v
get_member-write_member_self k none ms = ground (arith, get_member-remove_member k k ms, eq_iff k k)
get_member-write_member_self k (some v) ms =
    ground (arith, get_member-set_member k k v ms, eq_iff k k)

get_path-below :
    (k i : String) (ks : List String) (ms : Members)
    → get_path (k ∷ i ∷ ks) (obj ms) ≡ get_path (i ∷ ks) (object_or_new (get_member k ms))
get_path-below k i ks ms = unfold get_path in sym (get_path-object_or_new i ks (get_member k ms))

get_path-put :
    (k : String) (ks : List String) (x : Json) (ms : Members)
    → get_path (k ∷ ks) (obj (set_member k x ms)) ≡ get_path ks x
unfolding get_path
get_path-put k ks x ms = ground (arith, get_member-set_member k k x ms, eq_iff k k)

-- What `set_path` made of `c`: `after`, and the value that was there before.
pub record Wrote (ks : List String) (v : Option Json) (c : Json) : Type 0 where
  pub after : Json
  pub written : set_path ks v c ≡ done (get_path ks c) after
  pub found : get_path ks after ≡ v
  pub framed : (js : List String) → Diverge ks js → get_path js after ≡ get_path js c

get_path_at :
    (k : String) (ks : List String) (ms ms' : Members)
    → get_member k ms ≡ get_member k ms'
    → get_path (k ∷ ks) (obj ms) ≡ get_path (k ∷ ks) (obj ms')
unfolding get_path
get_path_at k ks ms ms' e = rw (e, get_path)

Wrote-single : (k : String) (v : Option Json) (ms : Members) → Wrote (k ∷ []) v (obj ms)
unfolding set_path
Wrote-single k v ms = record {
  after = obj (write_member k v ms);
  written =
      unfold get_path in
      elim (Option-cases (get_member k ms)) [
        | inl e ↦ rw (e, get_path) refl
        | inr (w, e) ↦ rw (e, get_path) refl
      ];
  found = unfold get_path in ground (arith, get_member-write_member_self k v ms);
  framed = λ js d. apart js d;
}
  where
    apart :
        (js : List String)
        → Diverge (k ∷ []) js
        → get_path js (obj (write_member k v ms)) ≡ get_path js (obj ms)
    apart [] d = absurd d
    apart (j ∷ js) (inl n) = get_path_at j js _ _ (get_member-write_member j k v ms n)
    apart (j ∷ js) (inr (same, d)) = absurd d

-- One step down: what was written below the member `k` is put back under it.
Wrote-below :
    (k i : String) (ks : List String) (v : Option Json) (ms : Members)
    → Wrote (i ∷ ks) v (object_or_new (get_member k ms))
    → Wrote (k ∷ i ∷ ks) v (obj ms)
unfolding set_path
Wrote-below k i ks v ms w = record {
  after = obj (set_member k w.after ms);
  written = rw (w.written) (rw (get_path-below k i ks ms));
  found = get_path-put k (i ∷ ks) w.after ms ∙ w.found;
  framed = λ js d. below js d;
}
  where
    below :
        (js : List String)
        → Diverge (k ∷ i ∷ ks) js
        → get_path js (obj (set_member k w.after ms)) ≡ get_path js (obj ms)
    below [] d = absurd d
    below (j ∷ js) (inl n) = get_path_at j js _ _ (get_member-write_member j k (some w.after) ms n)
    below (j ∷ []) (inr (same, d)) = absurd d
    below (j ∷ l ∷ js) (inr (same, d)) =
        rw (← same) (
          get_path-put k (l ∷ js) w.after ms ∙ w.framed (l ∷ js) d ∙ sym (get_path-below k l js ms))

-- Where the path meets objects only (what is missing or no object becomes one), nothing throws; the
-- previous value is the one that reading the path found; reading it afterwards finds exactly what
-- was written (nothing, after a write of undefined); and no path that parts from it is changed.
pub set_path-Wrote :
    (k : String) (ks : List String) (v : Option Json) (c : Json)
    → ObjectsOnly (k ∷ ks) c
    → Wrote (k ∷ ks) v c
set_path-Wrote k [] v (obj ms) h = Wrote-single k v ms
set_path-Wrote k (i ∷ ks) v (obj ms) h =
    Wrote-below k i ks v ms (set_path-Wrote i ks v (object_or_new (get_member k ms)) h)
set_path-Wrote k ks v c h = absurd h
