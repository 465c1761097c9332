-- ===== src/State/Shares.antt =====
-- What the replacement of a field of STATE.md leaves as it was.
use aegis_workers.Base.{
  ℕ, ◌≤◌, ◌≡◌, refl, sym, ap, inl, inr, ◌⊎◌, Bool, true, ◌||◌, not, none, some, [], ◌∷◌, ◌++◌, Text,
  Bool-cases, Option-cases, never, some-inj, length, arith,
}
use mathlib.Core.Path.{subst}
use aegis_workers.Phase.Renumber.{is_plain_char}
use aegis_workers.State.{
  match_name, spaces, behind_spaces, behind_line, Key, match_key, with_value, replace_value,
}
use aegis_workers.State.Laws.{match_name-front, match_name-short}

-- The texts begin alike, for as many characters as a name has.
pub record Shares (name s t : Text) : Type 0 where
  pub front : Text
  pub left : Text
  pub right : Text
  pub starts : s ≡ front ++ left
  pub ends : t ≡ front ++ right
  pub covers : length name ≤ length front

pub match_key-cases :
    (k : Key) (start : Bool) (s : Text)
    → (match_key k start s ≡ none)
      ⊎ ((r : Text × Text) × (((not k.anchored || start) ≡ true) × (match_name k.name s ≡ some r)))
match_key-cases k start s = elim (Bool-cases (not k.anchored || start)) [
  | inr e ↦ inl (rw e refl)
  | inl e ↦ elim (Option-cases (match_name k.name s)) [
    | inl f ↦ inl (rw e (rw f refl))
    | inr (r, f) ↦ inr (r, (e, f))
  ]
]

pub match_key-of :
    (k : Key) (start : Bool) (s : Text) (r : Text × Text)
    → (not k.anchored || start) ≡ true
    → match_name k.name s ≡ some r
    → match_key k start s ≡ some r
match_key-of k start s r e f = rw e f

pub match_key-short :
    (k : Key) (start : Bool) (s t : Text)
    → Shares k.name s t
    → match_key k start s ≡ none
    → match_key k start t ≡ none
match_key-short k start s t h e = elim (Bool-cases (not k.anchored || start)) [
  | inr f ↦ rw f refl
  | inl f ↦ rw f (
      subst (λ x. match_name k.name x ≡ none) (sym h.ends)
        (match_name-short k.name h.front h.left h.right h.covers
          (subst (λ x. match_name k.name x ≡ none) h.starts (rw f at e))))
]

pub Shares-with_value :
    (name s v : Text) (r : Text × Text)
    → match_name name s ≡ some r
    → Shares name s (with_value v r)
Shares-with_value name s v (m, rest) e =
    let (front, size) = match_name-front name s m rest e in
    record {
      front = m;
      left = rest;
      right = spaces rest ++ (v ++ behind_line (behind_spaces rest));
      starts = front;
      ends = refl;
      covers = omega arith;
    }

pub Shares-cons : (name s t : Text) (c : ℕ) → Shares name s t → Shares name (c ∷ s) (c ∷ t)
Shares-cons name s t c h = record {
  front = c ∷ h.front;
  left = h.left;
  right = h.right;
  starts = ap (λ x. c ∷ x) h.starts;
  ends = ap (λ x. c ∷ x) h.ends;
  covers = let g = h.covers in omega arith;
}

-- The two results of a replacement behind a first character
pub replace_value-cons :
    (k : Key) (v : Text) (start : Bool) (c : ℕ) (s t : Text)
    → match_key k start (c ∷ s) ≡ none
    → replace_value k v start (c ∷ s) ≡ some t
    → (u : Text) × ((replace_value k v (not (is_plain_char c)) s ≡ some u) × (c ∷ u ≡ t))
unfolding replace_value
replace_value-cons k v start c s t e f =
    elim (Option-cases (replace_value k v (not (is_plain_char c)) s)) [
      | inl g ↦ absurd (never (rw (g, replace_value) at (rw (e, replace_value) at f)))
      | inr (u, g) ↦ (u, (g, some-inj (rw g at (rw (e, replace_value) at f))))
    ]

pub replace_value-head :
    (k : Key) (v : Text) (start : Bool) (s t : Text) (r : Text × Text)
    → match_key k start s ≡ some r
    → replace_value k v start s ≡ some t
    → t ≡ with_value v r
unfolding replace_value
replace_value-head k v start [] t r e f = sym (some-inj (rw e at f))
replace_value-head k v start (c ∷ s) t r e f = sym (some-inj (rw (e, replace_value) at f))

pub replace_value-Shares :
    (k : Key) (v : Text) (start : Bool) (s t : Text)
    → replace_value k v start s ≡ some t
    → Shares k.name s t
unfolding replace_value
replace_value-Shares k v start [] t f = elim (match_key-cases k start []) [
  | inl e ↦ absurd (never (rw e at f))
  | inr (r, (b, e)) ↦
      subst (Shares k.name [])
        (sym (replace_value-head k v start [] t r (match_key-of k start [] r b e) f))
        (Shares-with_value k.name [] v r e)
]
replace_value-Shares k v start (c ∷ s) t f = elim (match_key-cases k start (c ∷ s)) [
  | inl e ↦
      let (u, (p, same)) = replace_value-cons k v start c s t e f in
      subst (Shares k.name (c ∷ s)) same
        (Shares-cons k.name s u c (replace_value-Shares k v (not (is_plain_char c)) s u p))
  | inr (r, (b, e)) ↦
      subst (Shares k.name (c ∷ s))
        (sym (replace_value-head k v start (c ∷ s) t r (match_key-of k start (c ∷ s) r b e) f))
        (Shares-with_value k.name (c ∷ s) v r e)
]
