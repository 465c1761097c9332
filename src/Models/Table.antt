-- ===== src/Models/Table.antt =====
-- The table of agents and models as text: `formatAgentToModelMapAsTable` of model-profiles.cjs and
-- `getCmdConfigSetModelProfileResultMessage` of config.cjs. A text's width is its number of characters.
use Prim.Native.String.{count}
use aegis_workers.Base.{
  ℕ, zero, suc, ◌+◌, ◌-◌, String, ◌<>◌, List, [], ◌∷◌, ltb, if◌then◌else◌, ◌===◌, not, join,
}

abbrev larger : ℕ → ℕ → ℕ
larger m n = if ltb m n then n else m

-- `Math.max(start, ...texts.map((t) => t.length))`
abbrev pub widest : ℕ → List String → ℕ
widest start [] = start
widest start (t ∷ ts) = widest (larger start (count t)) ts

-- `s.repeat(n)`
abbrev pub repeat : ℕ → String → String
repeat zero s = ""
repeat (suc n) s = s <> repeat n s

-- `s.padEnd(n)`
abbrev pub pad_end : ℕ → String → String
pad_end n s = s <> repeat (n - count s) " "

abbrev names : List (String × String) → List String
names [] = []
names ((agent, model) ∷ rest) = agent ∷ names rest

abbrev model_names : List (String × String) → List String
model_names [] = []
model_names ((agent, model) ∷ rest) = model ∷ model_names rest

abbrev row : ℕ → ℕ → String → String → String
row agent_width model_width agent model =
    " " <> pad_end agent_width agent <> " │ " <> pad_end model_width model

abbrev rows : ℕ → ℕ → List (String × String) → String
rows agent_width model_width [] = ""
rows agent_width model_width ((agent, model) ∷ rest) =
    row agent_width model_width agent model <> "\n" <> rows agent_width model_width rest

unfoldable pub format_agent_to_model_map_as_table : List (String × String) → String
format_agent_to_model_map_as_table entries =
    let agent_width = widest (count "Agent") (names entries) in
    let model_width = widest (count "Model") (model_names entries) in
    row agent_width model_width "Agent" "Model"
    <> "\n"
    <> repeat (agent_width + 2) "─"
    <> "┼"
    <> repeat (model_width + 2) "─"
    <> "\n"
    <> rows agent_width model_width entries

-- The message for a profile, the text of the previous one, and the table.
unfoldable pub set_model_profile_message : String → String → List (String × String) → String
unfolding format_agent_to_model_map_as_table
set_model_profile_message profile previous entries =
    let table = format_agent_to_model_map_as_table entries in
    if not (previous === profile)
    then join "\n\n" (
        ("✓ Model profile set to: " <> profile <> " (was: " <> previous <> ")")
        ∷ "Agents will now use:"
        ∷ table
        ∷ "Next spawned agents will use the new profile."
        ∷ [])
    else join "\n\n"
        (("✓ Model profile is already set to: " <> profile) ∷ "Agents are using:" ∷ table ∷ [])
