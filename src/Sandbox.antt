-- ===== src/Sandbox.antt =====
-- internal/sandbox: the deny lists (deny.go), the write guard (guard.go) and the sandbox (sandbox.go).
pub mod Guard
pub mod Wrap
pub mod Mounts
pub mod Below
use agentary.Prelude.{
  String, Bool, true, false, ◌||◌, List, [], ◌∷◌, any, lower, starts_with, contains, trim_space,
}
use Prim.Native.String.{◌++◌ as str_append}

-- bashDenyList
abbrev pub bash_deny_list : List String
bash_deny_list =
    "sqlite3" ∷ "DROP TABLE" ∷ "DELETE FROM" ∷ "rm -rf .git" ∷ "rm -rf .git/" ∷ "chmod 777"
    ∷ "curl | sh" ∷ "wget | sh" ∷ "curl | bash" ∷ "wget | bash" ∷ "| sh" ∷ "| bash" ∷ "eval $("
    ∷ "> /dev/sd" ∷ "mkfs." ∷ ":(){ :|:& };:" ∷ []

-- disallowedGitCommands
abbrev pub disallowed_git_commands : List String
disallowed_git_commands =
    "git rebase" ∷ "git merge" ∷ "git pull" ∷ "git push" ∷ "git fetch" ∷ "git checkout"
    ∷ "git switch" ∷ "git reset --hard" ∷ "git worktree" ∷ "git branch " ∷ "git branch -"
    ∷ "git remote" ∷ "git filter-branch" ∷ "git reflog expire" ∷ []

-- BlockedShellCommand
unfoldable pub blocked_shell_command : String → Bool
unfolding lower contains trim_space
blocked_shell_command cmd_line =
    any (λ deny. contains (lower deny) (lower (trim_space cmd_line))) bash_deny_list

-- strings.Join(args, " ")
unfoldable pub joined : List String → String
joined [] = ""
joined (a ∷ []) = a
joined (a ∷ b ∷ rest) = str_append a (str_append " " (joined (b ∷ rest)))

-- BlockedGitCommand
unfoldable pub blocked_git_command : List String → Bool
unfolding lower starts_with trim_space joined
blocked_git_command [] = false
blocked_git_command (a ∷ rest) =
    any
      (λ dis. starts_with (lower dis) (lower (str_append "git " (trim_space (joined (a ∷ rest))))))
      disallowed_git_commands
