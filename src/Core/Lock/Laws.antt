-- ===== src/Core/Lock/Laws.antt =====
-- How often the callback of `withPlanningLock` runs, and which error is thrown where it does not.
use aegis_workers.Base.{
  ℕ, zero, suc, ◌≡◌, ◌⊎◌, inl, inr, refl, false, Option, none, some, if◌then◌else◌, String, List,
  [], ◌∷◌, Bool-cases, length, All,
}
use aegis_workers.Core.Lock.{
  Outcome, returned, thrown, Attempt, created, denied, Round, Trace, Locked, unlink, contend,
  is_eexist, with_planning_lock,
}

Attempt-cases : (a : Attempt) → (a ≡ created) ⊎ ((c : String) × (a ≡ denied c))
Attempt-cases created = inl refl
Attempt-cases (denied c) = inr (c, refl)

Outcome-cases {ℓ} :
    {R : Type ℓ} (o : Outcome R) → ((x : R) × (o ≡ returned x)) ⊎ ((c : String) × (o ≡ thrown c))
Outcome-cases (returned x) = inl (x, refl)
Outcome-cases (thrown c) = inr (c, refl)

-- The code of the error that refuses the lock file: the first error of an attempt that is not
-- EEXIST, before any attempt succeeds. None, if an attempt succeeds first or the rounds are over.
abbrev pub refusal : List Round → Option String
refusal [] = none
refusal (r ∷ rs) =
    let rest = refusal rs in
    elim r.attempt [ created ↦ none | denied c ↦ if is_eexist c then rest else some c ]

module _ {ℓ κ} {R : Type ℓ} {S : Type κ} (run : S → Outcome R × S) where
  -- One run of the callback gave the result, where no error refuses the lock file; otherwise that
  -- error is thrown and the state is left as it was.
  abbrev pub RanOnce : Option String → S → Locked R S → Type (ℓ ⊔ κ)
  RanOnce none s l = (l.outcome ≡ (run s).0) × (l.state ≡ (run s).1)
  RanOnce (some c) s l = (l.outcome ≡ thrown c) × (l.state ≡ s)

  -- The callback throws no error with the code `EEXIST`.
  abbrev pub NeverExists : Type (ℓ ⊔ κ)
  NeverExists = (s : S) (c : String) → (run s).0 ≡ thrown c → is_eexist c ≡ false

  -- If the callback throws no error with the code EEXIST, then, whatever the rounds of the loop
  -- meet: where an attempt to create the lock file fails with another error than EEXIST before any
  -- attempt succeeds, the first such error is thrown and the state is left as it was. Otherwise,
  -- be it that an attempt succeeds or that the time is up, outcome and state are those of exactly
  -- one run of the callback on the given state.
  pub with_planning_lock-once :
      NeverExists
      → (rounds : List Round) (s : S) (t : Trace)
      → RanOnce (refusal rounds) s (with_planning_lock run rounds s t)
  unfolding with_planning_lock
  with_planning_lock-once never [] s t = (refl, refl)
  with_planning_lock-once never (r ∷ rs) s t = elim (Attempt-cases r.attempt) [
    | inl made ↦ elim (Outcome-cases (run s).0) [
      | inl (x, e) ↦ rw (made, with_planning_lock, e) (refl, refl)
      | inr (c, e) ↦ rw (made, with_planning_lock, e, never s c e) (refl, refl)
    ]
    | inr (c, refused) ↦ elim (Bool-cases (is_eexist c)) [
      | inl e ↦ rw (refused, e) (with_planning_lock-once never rs s (contend r.age t))
      | inr e ↦ rw (refused, e) (refl, refl)
    ]
  ]

  abbrev pub AlwaysExists : Type (ℓ ⊔ κ)
  AlwaysExists = (s : S) → (run s).0 ≡ thrown "EEXIST"

  abbrev pub run_times : ℕ → S → S
  run_times zero s = s
  run_times (suc n) s = run_times n (run s).1

  -- If every run of the callback throws an error with the code EEXIST and every attempt to create
  -- the lock file succeeds, the callback runs in each round of the loop and once more after it.
  pub with_planning_lock-reruns :
      AlwaysExists
      → (rounds : List Round) → All (λ r. r.attempt ≡ created) rounds
      → (s : S) (t : Trace)
      → (with_planning_lock run rounds s t).state ≡ run_times (suc (length rounds)) s
  unfolding with_planning_lock
  with_planning_lock-reruns always [] h s t = refl
  with_planning_lock-reruns always (r ∷ rs) (e, h) s t =
      rw (e, with_planning_lock, always s)
        (with_planning_lock-reruns always rs h (run s).1 (contend r.age (unlink t)))
