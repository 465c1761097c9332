-- ===== src/Tests/State.antt =====
-- The fields of STATE.md at concrete texts.
use aegis_workers.Cli.Number.{int, scan_digits}
use aegis_workers.State.Advance.{advanced, cmd_state_advance_plan, update_current_position_fields}
use aegis_workers.Markdown.{normalize_md, to_lf}
use aegis_workers.State.Write.{Round, held, write_state_md}
use aegis_workers.State.Write.Laws.{IsCreated, write_state_md-bounds}
use aegis_workers.Base.{
  ℕ, ◌⊎◌, ◌==◌, if◌then◌else◌, ◌≤◌, false, none, number_text, ◌≡◌, refl, inl, true, some, [], ◌∷◌,
  codes, Text,
}
use aegis_workers.Security.Names.{is_field_name}
use aegis_workers.State.{trim_last, has_key, bold, state_replace_field}
use aegis_workers.State.Laws.{IsValue}
use aegis_workers.State.Commands.{
  part, updated, patched, cmd_state_get, cmd_state_update, cmd_state_patch,
}
use aegis_workers.State.Commands.Laws.{cmd_state_get-cmd_state_update}

abbrev state_text : Text
state_text = codes "# State\n\n**Status:** Planning\nStatus: old\n"

abbrev new_text : Text
new_text = codes "# State\n\n**Status:** Ready to execute\nStatus: old\n"

ready-IsValue : IsValue (codes "Ready to execute")
unfolding trim_last
ready-IsValue = record {
  head = b'R';
  tail = codes "eady to execute";
  filled = refl;
  begins = refl;
  one_line = (
    refl,
    (
      refl,
      (
        refl,
        (
          refl,
          (
            refl,
            (
              refl,
              (refl, (refl, (refl, (refl, (refl, (refl, (refl, (refl, (refl, (refl, tt)))))))))),
            ),
          ),
        ),
      ),
    ),
  );
  trimmed = refl;
}

status_updated :
    cmd_state_update (some state_text) (some (codes "status")) (some (codes "Ready to execute"))
    ≡ updated new_text
unfolding cmd_state_update is_field_name
status_updated = refl

bold_found : has_key (bold (codes "status")) true state_text ≡ true
unfolding has_key
bold_found = refl

cmd_state_get-cmd_state_update_example :
    cmd_state_get (some new_text) (some (codes "status")) ≡ part (codes "Ready to execute")
cmd_state_get-cmd_state_update_example =
    cmd_state_get-cmd_state_update state_text (codes "Ready to execute") new_text b's'
      (codes "tatus") ready-IsValue status_updated (inl bold_found)

section_printed :
    cmd_state_get
      (some (codes "# State\n\n## Blockers\n\nNone yet.\n\n## Next\n"))
      (some (codes "blockers"))
    ≡ part (codes "None yet.")
unfolding cmd_state_get
section_printed = refl

fields_patched :
    cmd_state_patch
      (some (codes "Status: old\n"))
      ((codes "Status", codes "new") ∷ (codes "Phase", codes "2") ∷ [])
    ≡ patched (codes "Status" ∷ []) (codes "Phase" ∷ []) (some (codes "Status: new\n"))
unfolding cmd_state_patch is_field_name
fields_patched = refl

-- White space in the pattern crosses the end of the line: a field without a value takes the next line's place.
empty_field_replaced :
    state_replace_field (codes "Stopped at:\nStatus: done\n") (codes "Stopped at") (codes "Task 2")
    ≡ some (codes "Stopped at:\nTask 2\n")
unfolding state_replace_field
empty_field_replaced = refl

abbrev plan_text : Text
plan_text =
    codes
      "Status: Executing\nPlan: 2 of 3 in current phase\n\n## Current Position\n\nPlan: 2 of 3\nStatus: Executing\n\n## Next\n"

abbrev next_plan_text : Text
next_plan_text =
    codes
      "Status: Ready to execute\nPlan: 3 of 3 in current phase\n\n## Current Position\n\nPlan: 3 of 3 in current phase\nStatus: Ready to execute\n\n## Next\n"

plan_advanced :
    cmd_state_advance_plan (codes "2026-01-02") (some plan_text)
    ≡ advanced (int false 2) (codes "3") (int false 3) next_plan_text
unfolding cmd_state_advance_plan number_text scan_digits
plan_advanced = refl

-- The section's text is put in as a replacement text, so a dollar in it is not kept.
dollar_lost :
    update_current_position_fields
      (codes "done")
      (codes "today")
      none
      []
      (codes "## Current Position\n\nCost: $$5 and $1\n")
    ≡ codes "## Current Position\n\nCost: $5 and ## Current Position\n\n\n"
unfolding update_current_position_fields
dollar_lost = refl

abbrev same_text : Text → Text
same_text s = s

-- Another process holds the lock in every round, and the lock file is new.
abbrev busy : ℕ → Round
busy i = held (some 5) true

write_state_md-bounds_example :
    ((write_state_md same_text busy (codes "a")).effort.waits ≤ 9)
    × (normalize_md (write_state_md same_text busy (codes "a")).text
        ≡ (write_state_md same_text busy (codes "a")).text)
    × (((write_state_md same_text busy (codes "a")).effort.owns ≡ false) ⊎ IsCreated busy 0)
unfolding to_lf
write_state_md-bounds_example = write_state_md-bounds same_text busy (codes "a") (refl, tt)

-- The call goes on without the lock, and has removed that of the other process.
busy_written :
    (write_state_md same_text busy (codes "a")).effort
    ≡ record { waits = 9; removed = 1; owns = false }
unfolding write_state_md
busy_written = refl

-- A stale lock that is removed in the last round is not tried again.
abbrev late_stale : ℕ → Round
late_stale i = if i == 9 then held (some 10001) true else held (some 5) true

late_stale_written :
    (write_state_md same_text late_stale (codes "a")).effort
    ≡ record { waits = 9; removed = 1; owns = false }
unfolding write_state_md
late_stale_written = refl
