-- ===== src/Config/Profile.antt =====
-- `cmdConfigSetModelProfile` of config.cjs: the command that chooses the profile of the models.
use aegis_workers.Base.{
  String, Option, none, some, List, codes, text_eq, find, truthy, if◌then◌else◌,
}
use aegis_workers.Json.{Json, str, is_truthy}
use aegis_workers.Security.Names.{trim_text}
use aegis_workers.Models.{to_lower, valid_profiles, get_agent_to_model_map_for_profile}
use aegis_workers.Config.NewProject.{Home}
use aegis_workers.Config.Commands.{
  Reply, Planning, thrown, updated, ensure_config_file, set_config_value,
}

-- The result that is printed, or the error; `stopped` is an error of a step on the config file.
pub data ProfileReply : Type 0 where
  no_profile : ProfileReply
  invalid_profile : String → ProfileReply
  stopped : Reply → ProfileReply
  profile_set :
      (profile : String) (previous : Json) (table : List (String × Option String)) → ProfileReply

-- `previousValue || 'balanced'`
abbrev previous_profile : Option Json → Json
previous_profile none = str "balanced"
previous_profile (some v) = if is_truthy (some v) then v else str "balanced"

-- The valid profile that `profile.toLowerCase().trim()` is.
unfoldable pub normalized_profile : String → Option String
unfolding valid_profiles
normalized_profile profile =
    let name = trim_text (to_lower (codes profile)) in
    find (λ p. text_eq (codes p) name) valid_profiles

abbrev report : String → Reply × Planning → ProfileReply × Planning
report name (updated key v previous, p) = (
  profile_set name (previous_profile previous) (get_agent_to_model_map_for_profile (codes name)),
  p,
)
report name (r, p) = (stopped r, p)

-- What follows once the config file is ensured.
abbrev set_profile : String → Reply × Planning → ProfileReply × Planning
set_profile name (thrown, p) = (stopped thrown, p)
set_profile name (r, p) = report name (set_config_value "model_profile" (some (str name)) p)

unfoldable pub cmd_config_set_model_profile :
    Home → Option String → Planning → ProfileReply × Planning
unfolding normalized_profile ensure_config_file set_config_value
cmd_config_set_model_profile h none p = (no_profile, p)
cmd_config_set_model_profile h (some profile) p =
    if truthy profile
    then elim (normalized_profile profile) [
      | none ↦ (invalid_profile profile, p)
      | some name ↦ set_profile name (ensure_config_file h p)
    ]
    else (no_profile, p)
