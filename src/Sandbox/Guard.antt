-- ===== src/Sandbox/Guard.antt =====
-- internal/sandbox/guard.go: WriteGuard.
use agentary.Prelude.{
  String, Option, none, some, Bool, true, false, not, ◌||◌, ◌≡◌, ◌≢◌, List, [], ◌∷◌, ◌==◌,
  if◌then◌else◌, any, All, split, eq_iff, arith,
}
use agentary.Paths.{absolute, is_under, clean_onto}
use agentary.Paths.Clean.{IsName, absolute-All}

pub record WriteGuard : Type 0 where
  pub role : String
  pub agent_name : String
  pub team_dir : String
  pub worktree_dirs : List String

-- normalizeDir: `none` for "".
unfoldable pub normalize_dir : List String → String → Option (List String)
unfolding absolute
normalize_dir cwd dir = if dir == "" then none else some (absolute cwd dir)

-- `d != "" && (abs == d || …)`
abbrev pub in_dir : Option (List String) → List String → Bool
in_dir none path = false
in_dir (some dir) path = is_under dir path

-- The directories of an engineer, below the team's; without a team's directory they are relative,
-- and no absolute path is below them.
abbrev pub in_own : Option (List String) → String → List String → Bool
in_own none name path = false
in_own (some team) name path =
    is_under (clean_onto team ("agents" ∷ split 47 name)) path
    || is_under (clean_onto team ("shared" ∷ [])) path

-- `teamDir != "" && abs != teamDir && …`
abbrev pub outside_team : Option (List String) → List String → Bool
outside_team none path = false
outside_team (some team) path = not (is_under team path)

-- AllowWrite, in the working directory `cwd`.
unfoldable pub allow_write : WriteGuard → List String → String → Bool
unfolding normalize_dir is_under clean_onto
allow_write g cwd path =
    let abs = absolute cwd path in
    let team = normalize_dir cwd g.team_dir in
    if path == ""
    then false
    else if outside_team team abs
    then false
    else if g.role == "manager"
    then true
    else if in_own team g.agent_name abs
    then true
    else any (λ wd. in_dir (normalize_dir cwd wd) abs) g.worktree_dirs

normalize_dir-some :
    (cwd : List String) (dir : String) → dir ≢ "" → normalize_dir cwd dir ≡ some (absolute cwd dir)
unfolding normalize_dir
normalize_dir-some cwd dir n = ground (arith, eq_iff dir "")

inside :
    (e : Bool) (team : Option (List String)) (dir abs : List String) (x : Bool)
    → team ≡ some dir
    → (if e then false else if outside_team team abs then false else x) ≡ true
    → is_under dir abs ≡ true
inside e team dir abs x t a = inside_dir e (is_under dir abs) x (rw t at a)
  where
    inside_dir :
        (e u x : Bool) → (if e then false else if not u then false else x) ≡ true → u ≡ true
    inside_dir e u x a = ground (arith, a)

-- A path that the guard lets anybody write to, with ".." taken into account, is the team's
-- directory or below it: the parts of the directory are its first parts, and no part of it is "..", ".",
-- or empty. The guard has a team directory, and the working directory is clean.
pub allowed_writes_stay :
    (g : WriteGuard) (cwd : List String) (path : String)
    → All IsName cwd
    → g.team_dir ≢ ""
    → allow_write g cwd path ≡ true
    → (is_under (absolute cwd g.team_dir) (absolute cwd path) ≡ true)
      × All IsName (absolute cwd path)
unfolding allow_write
allowed_writes_stay g cwd path clean n a = (
  inside (path == "") (normalize_dir cwd g.team_dir) (absolute cwd g.team_dir) (absolute cwd path) _
      (normalize_dir-some cwd g.team_dir n) a,
  absolute-All cwd path clean,
)
