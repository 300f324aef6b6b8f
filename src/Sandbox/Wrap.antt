-- ===== src/Sandbox/Wrap.antt =====
-- internal/sandbox/sandbox.go: WrapCommand, as the program and the arguments of the command it makes.
use agentary.Prelude.{
  String, Option, none, some, Bool, false, not, ◌||◌, ◌&&◌, List, [], ◌∷◌, ◌++◌, ◌==◌,
  if◌then◌else◌, byte_len, utf8_len, leb, ltb, eqb,
}
use Prim.Native.Nat.{ℕ, ◌-◌}
use Prim.Native.Char.{code}
use Prim.Native.String.{◌++◌ as str_append}
use agentary.Paths.{absolute}

-- exec.Cmd, as exec.CommandContext makes it.
pub record Cmd : Type 0 where
  pub path : String
  pub args : List String

-- What WrapCommand asks the system: runtime.GOOS == "linux", exec.LookPath("bwrap") (`none` is its
-- error) and the working directory.
pub record System : Type 0 where
  pub linux : Bool
  pub bwrap : Option String
  pub cwd : List String

-- The text of an absolute path.
unfoldable pub path_text : List String → String
path_text [] = "/"
path_text (a ∷ []) = str_append "/" a
path_text (a ∷ b ∷ rest) = str_append "/" (str_append a (path_text (b ∷ rest)))

-- s[n] == '/', by bytes; false past the end.
unfoldable pub slash_at : ℕ → String → Bool
slash_at n String.[] = false
slash_at n (String.◌∷◌ c s) =
    let rest = slash_at (n - utf8_len (code c)) s in
    if eqb n 0 then eqb (code c) 47 else if leb (utf8_len (code c)) n then rest else false

-- The test on absTeam at line 30.
unfoldable pub team_is_inside : String → String → Bool
unfolding slash_at byte_len
team_is_inside home team =
    not (team == "")
    && (team == home || (ltb (byte_len home) (byte_len team) && slash_at (byte_len home) team))

abbrev pub system_args : List String
system_args =
    "--ro-bind" ∷ "/usr" ∷ "/usr" ∷ "--ro-bind" ∷ "/lib" ∷ "/lib" ∷ "--ro-bind" ∷ "/lib64"
    ∷ "/lib64" ∷ "--dev" ∷ "/dev" ∷ "--proc" ∷ "/proc" ∷ "--tmpfs" ∷ "/tmp" ∷ "--unshare-pid" ∷ []

abbrev pub restricted_args : String → String → List String
restricted_args home team = "--ro-bind" ∷ home ∷ home ∷ "--bind" ∷ team ∷ team ∷ system_args

abbrev pub whole_home_args : String → List String
whole_home_args home = "--bind" ∷ home ∷ home ∷ system_args

-- bwrapArgs, before the command is appended. filepath.Abs fails only where the working directory is
-- not known.
unfoldable pub bwrap_args : List String → String → String → List String
unfolding path_text team_is_inside
bwrap_args cwd home team =
    let abs_home = path_text (absolute cwd home) in
    let abs_team = path_text (absolute cwd team) in
    if not (team == "") && team_is_inside abs_home abs_team
    then restricted_args abs_home abs_team
    else whole_home_args abs_home

-- The command without a sandbox, and with one.
abbrev pub plain_command : String → List String → Cmd
plain_command binary args = record { path = binary; args = args }

abbrev pub sandboxed : List String → String → List String → Option String → Cmd
sandboxed wrap binary args none = plain_command binary args
sandboxed wrap binary args (some bwrap) = record {
  path = bwrap;
  args = wrap ++ "--" ∷ binary ∷ args;
}

-- WrapCommand
unfoldable pub wrap_command : System → String → String → String → List String → Cmd
unfolding bwrap_args
wrap_command sys home team binary args =
    if home == "" || not (sys.linux)
    then plain_command binary args
    else sandboxed (bwrap_args (sys.cwd) home team) binary args (sys.bwrap)
