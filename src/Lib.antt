-- ===== src/Lib.antt =====
-- A model of gsd-tools, the command line tool under .github/get-shit-done/bin that keeps a
-- project's planning directory, and of the library modules that it calls.
--
-- `gsd-tools.cjs` takes the global options out of the arguments, sets the directory and the
-- workstream, and routes the command to a handler of `lib/`. The handlers read and write the files
-- of `.planning/` through the helpers of `lib/core.cjs`, with the configuration of `lib/config.cjs`.
--
-- Which file models what (paths from .github/get-shit-done/bin):
--   Base, Json        arrays, strings and JSON values as the sources use them
--   Cli/Args          gsd-tools.cjs: parseNamedArgs, parseMultiwordArg, the files of `commit`
--   Cli/Options       gsd-tools.cjs: main up to the command (--cwd, --ws, --raw, --pick)
--   Cli/Route         gsd-tools.cjs: runCommand; each call of a handler is a value of Cli/Call
--   Cli/Pick          gsd-tools.cjs: extractField, and what --pick prints
--   Core/Worktree     lib/core.cjs: execGit, resolveWorktreeRoot, isGitIgnored
--   Core/Root         lib/core.cjs: findProjectRoot
--   Core/Lock         lib/core.cjs: withPlanningLock
--   Core/Workstream   lib/core.cjs: planningDir, planningPaths, the active workstream
--   Phase/Number      lib/core.cjs: normalizePhaseName, comparePhaseNum
--   Phase/Files       lib/core.cjs: filterPlanFiles, filterSummaryFiles, getPhaseFileStats
--   Phase/Directories lib/core.cjs: readSubdirectories
--   Phase/Folders     lib/phase.cjs: the directories, and the loop of renames
--   Phase/Groups      lib/core.cjs: the patterns of searchPhaseInDir
--   Phase/Search      lib/core.cjs: searchPhaseInDir, findPhaseInternal
--   Phase/Renumber    lib/phase.cjs: renameDecimalPhases, renameIntegerPhases
--   Phase/Insert      lib/phase.cjs: cmdPhaseNextDecimal, the number and directory of cmdPhaseInsert;
--                     lib/core.cjs: generateSlugInternal
--   Phase/Remove      lib/phase.cjs: cmdPhaseRemove on the directories
--   Markdown          lib/core.cjs: normalizeMd
--   State             lib/state.cjs: stateExtractField, stateReplaceField and its fallback
--   State/Commands    lib/state.cjs: cmdStateGet, cmdStateUpdate, cmdStatePatch
--   State/Advance     lib/state.cjs: updateCurrentPositionFields, cmdStateAdvancePlan
--   State/Write       lib/state.cjs: writeStateMd
--   Models            lib/model-profiles.cjs and lib/core.cjs: resolveModelInternal, checkAgentsInstalled
--   Models/Table      the text table of the models, and the message of lib/config.cjs
--   Security          lib/security.cjs: paths, shell arguments, identifiers, field names, JSON
--   Config/Keys       lib/config.cjs: which keys `config-set` takes
--   Config/Paths      lib/config.cjs: the loops of setConfigValue and cmdConfigGet
--   Config/Values     lib/config.cjs: how cmdConfigSet reads a value
--   Config/NewProject lib/config.cjs: buildNewProjectConfig
--   Config/Commands   lib/config.cjs: the commands on config.json; Config/Profile: the profile's
--   Config/Load       lib/core.cjs: detectSubRepos, loadConfig
--   Tests             the theorems at concrete inputs
--
-- A program that exits with a message, or throws, returns a value that says so. Node's path
-- functions, `JSON.parse`, `localeCompare`, git and the file system are parameters. Numbers are
-- natural numbers without a bound where the code reads digits; a number in JSON is its printed
-- text. What `Number` makes of a text is computed for the integers that JavaScript holds exactly
-- and for the infinite numbers; the printed text of another number is a parameter. What a
-- regular expression takes, where the code puts an identifier with special characters into it
-- unescaped, is a parameter too.
-- The lock's loop runs over the list of the rounds that begin before its time is up. The search for
-- the project's root runs on fuel above the length of the path, which is enough, since each parent is
-- shorter. Printing a number has fuel above the number. Every other loop is structural recursion.
--
-- Not modelled: the handlers behind the router but for the configuration's and the parts of those on
-- phases and on STATE.md named above, the capture of the output for `--pick` and its indirection
-- through a file, the scan for prompt injection; names that every JavaScript object inherits; the
-- frontmatter that writeStateMd adds; the Python service, and the texts of agents and workflows.
pub mod Base
pub mod Json
pub mod Core
pub mod Security
pub mod Config
pub mod Phase
pub mod Models
pub mod Markdown
pub mod State
pub mod Cli
mod Tests
