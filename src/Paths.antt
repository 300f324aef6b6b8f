-- ===== src/Paths.antt =====
-- Absolute paths as package path/filepath cleans them, by their parts; and internal/memory/paths.go, the
-- directories of a team and of an agent, for a home that is an absolute path.
pub mod Clean
pub mod Escape
use Prim.Native.Char.{code}
use Prim.Native.String.{◌++◌ as str_append}
use agentary.Prelude.{
  ℕ, String, Option, none, some, Bool, true, false, ◌&&◌, ◌||◌, List, [], ◌∷◌, ◌++◌, ◌==◌, eqb,
  if◌then◌else◌, split, cut_prefix, trim_space,
}

abbrev pub without_last : List String → List String
without_last [] = []
without_last (p ∷ []) = []
without_last (p ∷ q ∷ rest) = p ∷ without_last (q ∷ rest)

-- What filepath.Clean makes of further parts behind a clean absolute path.
unfoldable pub clean_onto : List String → List String → List String
clean_onto done [] = done
clean_onto done (p ∷ rest) =
    let dropped = clean_onto done rest in
    let up = clean_onto (without_last done) rest in
    let down = clean_onto (done ++ p ∷ []) rest in
    if p == "" || p == "." then dropped else if p == ".." then up else down

-- filepath.Join of a clean absolute path and a text.
unfoldable pub join : List String → String → List String
unfolding clean_onto
join dir path = clean_onto dir (split 47 path)

-- filepath.Abs of a path, in the working directory `cwd`.
unfoldable pub absolute : List String → String → List String
unfolding join cut_prefix
absolute cwd path = elim (cut_prefix "/" path) [ some rest ↦ join [] rest | none ↦ join cwd path ]

-- Is the path below `dir`, or `dir` itself, by its parts?
unfoldable pub starts_with_parts : List String → List String → Bool
starts_with_parts [] path = true
starts_with_parts (d ∷ dir) [] = false
starts_with_parts (d ∷ dir) (p ∷ path) = let rest = starts_with_parts dir path in d == p && rest

-- `abs == dir || strings.HasPrefix(abs, dir+"/")`; below "/" the prefix would be "//".
unfoldable pub is_under : List String → List String → Bool
unfolding starts_with_parts
is_under [] [] = true
is_under [] (p ∷ path) = false
is_under (d ∷ dir) path = starts_with_parts (d ∷ dir) path

-- strings.ReplaceAll(s, " ", "_")
unfoldable pub underscored : String → String
underscored String.[] = String.[]
underscored (String.◌∷◌ c s) =
    let rest = underscored s in if eqb (code c) 32 then str_append "_" rest else String.◌∷◌ c rest

-- SafeTeamName, SafeAgentName
unfoldable pub safe_name : String → String
unfolding underscored trim_space
safe_name name = underscored (trim_space name)

-- TeamDir
unfoldable pub team_dir : List String → String → List String
unfolding clean_onto safe_name
team_dir home name = clean_onto home ("teams" ∷ split 47 (safe_name name))

-- AgentDir
unfoldable pub agent_dir : List String → String → List String
unfolding clean_onto safe_name
agent_dir team name = clean_onto team ("agents" ∷ split 47 (safe_name name))
