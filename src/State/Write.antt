-- ===== src/State/Write.antt =====
-- `writeStateMd` of state.cjs: the lock file beside STATE.md, and the write. What the lock's calls meet
-- is a list of rounds; `syncStateFrontmatter` is a parameter. The write of the process's number into
-- the lock file succeeds.
pub mod Laws
use aegis_workers.Base.{
  ℕ, zero, suc, ◌+◌, Bool, true, false, ◌&&◌, Option, none, some, ◌==◌, if◌then◌else◌, ltb, Text,
}
use aegis_workers.Markdown.{normalize_md}

-- What a round meets: the lock file is created; it is there, with its age unless it is gone by then,
-- and can be removed or not; or the file system refuses it for another reason.
pub data Round : Type 0 where
  created : Round
  held : (age : Option ℕ) → (removable : Bool) → Round
  denied : Round

-- The waits, the lock files that were removed, and whether this process created the one that is there
pub record Effort : Type 0 where
  pub waits : ℕ
  pub removed : ℕ
  pub owns : Bool

abbrev is_stale : Option ℕ → Bool
is_stale none = false
is_stale (some age) = ltb 10000 age

abbrev waited : Effort → Effort
waited t = record { waits = suc t.waits; removed = t.removed; owns = t.owns }

abbrev cleared : Bool → Effort → Effort
cleared removable t = record {
  waits = t.waits;
  removed = if removable then suc t.removed else t.removed;
  owns = t.owns;
}

abbrev owned : Effort → Effort
owned t = record { waits = t.waits; removed = t.removed; owns = true }

-- The loop, with the number of rounds that are left and that of the round. A stale lock that was
-- removed is tried again at once; the last round removes the lock and goes on.
unfoldable pub acquire : (ℕ → Round) → ℕ → ℕ → Effort → Effort
acquire rounds zero i t = t
acquire rounds (suc left) i t = elim (rounds i) [
  | created ↦ owned t
  | denied ↦ t
  | held age removable ↦
      let again = acquire rounds left (i + 1) (cleared true t) in
      let later = acquire rounds left (i + 1) (waited t) in
      if is_stale age && removable then again else if left == 0 then cleared removable t else later
]

abbrev pub max_retries : ℕ
max_retries = 10

abbrev pub no_effort : Effort
no_effort = record { waits = 0; removed = 0; owns = false }

-- STATE.md after the call, and whether the lock file is there: the call removes it at the end, whoever
-- created it.
pub record StateFile : Type 0 where
  pub text : Text
  pub locked : Bool
  pub effort : Effort

unfoldable pub write_state_md : (Text → Text) → (ℕ → Round) → Text → StateFile
unfolding acquire normalize_md
write_state_md sync rounds content = record {
  text = normalize_md (sync content);
  locked = false;
  effort = acquire rounds max_retries 0 no_effort;
}
