-- ===== src/Core/Lock.antt =====
-- `withPlanningLock` of core.cjs. The loop's rounds are those that begin before the time is up;
-- each tells what the attempt to create the lock file met. The code goes on without the lock
-- when no round is left, so a run of the loop is a list of rounds.
pub mod Laws
use aegis_workers.Base.{
  ℕ, suc, Bool, true, false, not, ◌===◌, String, List, [], ◌∷◌, if◌then◌else◌, ltb, Option, none,
  some,
}

-- What a callback did: it returned, or it threw an error with a code.
pub data Outcome {ℓ} (R : Type ℓ) : Type ℓ where
  returned : R → Outcome R
  thrown : (error_code : String) → Outcome R

-- The exclusive creation of the lock file.
pub data Attempt : Type 0 where
  created : Attempt
  denied : (error_code : String) → Attempt

-- A round of the loop: the attempt, and the lock file's age in milliseconds that `statSync` gives
-- if the round comes to ask for it, where it can be read.
pub record Round : Type 0 where
  pub attempt : Attempt
  pub age : Option ℕ

-- How often the code removed the lock file and how often it slept.
pub record Trace : Type 0 where
  pub unlinked : ℕ
  pub slept : ℕ

pub record Locked {ℓ κ} (R : Type ℓ) (S : Type κ) : Type (ℓ ⊔ κ) where
  pub outcome : Outcome R
  pub state : S
  pub trace : Trace

abbrev pub unlink : Trace → Trace
unlink t = record { unlinked = suc t.unlinked; slept = t.slept }

-- A lock that is older than 30 seconds is removed; the code waits for another one.
unfoldable pub contend : Option ℕ → Trace → Trace
contend none t = t
contend (some age) t =
    if ltb 30000 age then unlink t else record { unlinked = t.unlinked; slept = suc t.slept }

-- `err.code === 'EEXIST'`
abbrev pub is_eexist : String → Bool
is_eexist c = c === "EEXIST"

module _ {ℓ κ} {R : Type ℓ} {S : Type κ} (run : S → Outcome R × S) where
  -- The loop and what follows it; the second argument is the state that the callback changes.
  unfoldable pub with_planning_lock : List Round → S → Trace → Locked R S
  unfolding contend
  with_planning_lock [] s t =
      let (outcome, after) = run s in record { outcome = outcome; state = after; trace = unlink t }
  with_planning_lock (r ∷ rs) s t = elim r.attempt [
    | denied c ↦
        let again = with_planning_lock rs s (contend r.age t) in
        if is_eexist c then again else record { outcome = thrown c; state = s; trace = t }
    | created ↦
        let (outcome, after) = run s in
        elim outcome [
          | returned x ↦ record { outcome = returned x; state = after; trace = unlink t }
          | thrown c ↦
              let again = with_planning_lock rs after (contend r.age (unlink t)) in
              if is_eexist c
              then again
              else record { outcome = thrown c; state = after; trace = unlink t }
        ]
  ]
