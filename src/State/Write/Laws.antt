-- ===== src/State/Write/Laws.antt =====
-- The wait for the lock of STATE.md ends.
use aegis_workers.Base.{
  ℕ, zero, suc, ◌+◌, ◌-◌, ◌≤◌, ◌≡◌, refl, ◌∙◌, sym, inl, inr, ◌⊎◌, Option, Bool, true, false, ◌&&◌,
  ◌==◌, Bool-cases, arith, Text,
}
use aegis_workers.Markdown.{normalize_md, to_lf}
use aegis_workers.Markdown.Laws.{HasNoReturn, normalize_md_idempotent}
use aegis_workers.State.Write.{
  Round, created, held, denied, Effort, is_stale, cleared, waited, acquire, max_retries, no_effort,
  write_state_md,
}

Round-cases :
    (r : Round) → (r ≡ created) ⊎ ((r ≡ denied) ⊎ ((a : Option ℕ) × ((b : Bool) × (r ≡ held a b))))
Round-cases created = inl refl
Round-cases denied = inr (inl refl)
Round-cases (held a b) = inr (inr (a, (b, refl)))

acquire-waits :
    (rounds : ℕ → Round) (left i : ℕ) (t : Effort)
    → (acquire rounds left i t).waits ≤ t.waits + (left - 1)
unfolding acquire
acquire-waits rounds zero i t = omega arith
acquire-waits rounds (suc zero) i t = elim (Round-cases (rounds i)) [
  | inl e ↦ rw (e, acquire) (omega arith)
  | inr (inl e) ↦ rw (e, acquire) (omega arith)
  | inr (inr (age, (removable, e))) ↦ elim (Bool-cases (is_stale age && removable)) [
    | inl f ↦ rw (e, acquire) (rw f (omega arith))
    | inr f ↦ rw (e, acquire) (rw f (omega arith))
  ]
]
acquire-waits rounds (suc (suc n)) i t =
    let again = acquire-waits rounds (suc n) (i + 1) (cleared true t) in
    let later = acquire-waits rounds (suc n) (i + 1) (waited t) in
    let more : (suc n == 0) ≡ false = ground arith in
    elim (Round-cases (rounds i)) [
      | inl e ↦ rw (e, acquire) (omega arith)
      | inr (inl e) ↦ rw (e, acquire) (omega arith)
      | inr (inr (age, (removable, e))) ↦ elim (Bool-cases (is_stale age && removable)) [
        | inl f ↦ rw (e, acquire) (rw f (omega (arith, again)))
        | inr f ↦ rw (e, acquire) (rw f (rw more (omega (arith, later))))
      ]
    ]

-- The lock file was created in a round from the `i`th on.
abbrev pub IsCreated : (ℕ → Round) → ℕ → Type 0
IsCreated rounds i = (j : ℕ) × ((i ≤ j) × (rounds j ≡ created))

IsCreated-earlier : (rounds : ℕ → Round) (i : ℕ) → IsCreated rounds (i + 1) → IsCreated rounds i
IsCreated-earlier rounds i (j, (h, e)) = (j, (omega arith, e))

acquire-IsCreated :
    (rounds : ℕ → Round) (left i : ℕ) (t : Effort)
    → t.owns ≡ false
    → (acquire rounds left i t).owns ≡ true
    → IsCreated rounds i
unfolding acquire
acquire-IsCreated rounds zero i t h k = absurd (differ (sym h ∙ k))
  where
    differ : false ≡ true → ⊥
    differ q = cc
acquire-IsCreated rounds (suc left) i t h k =
    let again = acquire-IsCreated rounds left (i + 1) (cleared true t) h in
    let later = acquire-IsCreated rounds left (i + 1) (waited t) h in
    elim (Round-cases (rounds i)) [
      | inl e ↦ (i, (omega arith, e))
      | inr (inl e) ↦ absurd (differ (sym h ∙ (rw (e, acquire) at k)))
      | inr (inr (age, (removable, e))) ↦ elim (Bool-cases (is_stale age && removable)) [
        | inl f ↦ IsCreated-earlier rounds i (again (rw f at (rw (e, acquire) at k)))
        | inr f ↦ elim (Bool-cases (left == 0)) [
          | inl g ↦ absurd (differ (sym h ∙ (rw g at (rw f at (rw (e, acquire) at k)))))
          | inr g ↦ IsCreated-earlier rounds i (later (rw g at (rw f at (rw (e, acquire) at k))))
        ]
      ]
    ]
  where
    differ : false ≡ true → ⊥
    differ q = cc

-- Whatever the rounds meet, the call waits nine times at most, and it writes a text that `normalizeMd`
-- leaves as it is, where each carriage return of the synchronised text stands before a line feed.
-- The call does not own the lock, or a round created it.
pub write_state_md-bounds :
    (sync : Text → Text) (rounds : ℕ → Round) (content : Text)
    → HasNoReturn (to_lf (sync content))
    → ((write_state_md sync rounds content).effort.waits ≤ 9)
      × (normalize_md (write_state_md sync rounds content).text
          ≡ (write_state_md sync rounds content).text)
      × (((write_state_md sync rounds content).effort.owns ≡ false) ⊎ IsCreated rounds 0)
unfolding write_state_md
write_state_md-bounds sync rounds content h =
    (acquire-waits rounds max_retries 0 no_effort, normalize_md_idempotent (sync content) h, owner)
  where
    owner : ((acquire rounds max_retries 0 no_effort).owns ≡ false) ⊎ IsCreated rounds 0
    owner = elim (Bool-cases (acquire rounds max_retries 0 no_effort).owns) [
      | inl e ↦ inr (acquire-IsCreated rounds max_retries 0 no_effort refl e)
      | inr e ↦ inl e
    ]
