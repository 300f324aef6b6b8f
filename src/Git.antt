-- ===== src/Git.antt =====
-- internal/git/git.go: what the daemon does with git in a task's worktree. The programs that it starts
-- are the host's.
pub mod Success
use Prim.Native.String.{◌++◌ as str_append}
use agentary.Prelude.{
  String, Bool, true, false, not, ◌||◌, List, [], ◌∷◌, if◌then◌else◌, ◌==◌, trim_space,
}
use agentary.Host.{Host}
use agentary.Exec.{
  Exec, Result, ok, err, Error, external, wrapped, required, pure, fail, ◌>>=◌, ◌>>◌, attempt,
  ignore,
}

-- `return fmt.Errorf(text, err)`
abbrev pub wrap : {A : Type 0} → String → Exec A → (A → Exec Unit) → Exec Unit
wrap text m k = attempt m λ r. elim r [ ok a ↦ k a | err e ↦ fail (wrapped text e) ]

module _ (host : Host) where
  abbrev pub git : String → List String → Exec String
  git dir args = host.command dir ("git" ∷ args)

  -- The first command, and the second if it fails.
  abbrev pub git_or : String → List String → List String → Exec String
  git_or dir args args' =
      attempt (git dir args) λ r. elim r [ ok out ↦ pure out | err e ↦ git dir args' ]

  -- RebaseOntoMain
  unfoldable pub rebase_onto_main : String → String → Exec Unit
  rebase_onto_main worktree_path branch_name =
      if worktree_path == "" || branch_name == ""
      then pure tt
      else wrap "git checkout" (git worktree_path ("checkout" ∷ branch_name ∷ [])) λ _.
        wrap "git fetch origin" (git worktree_path ("fetch" ∷ "origin" ∷ [])) λ _.
          wrap "git rebase origin/main"
            (git_or worktree_path ("rebase" ∷ "origin/main" ∷ []) ("rebase" ∷ "origin/master" ∷ []))
            λ _. pure tt

  -- MergeInWorktree
  unfoldable pub merge_in_worktree : String → String → Exec Unit
  merge_in_worktree worktree_path branch_name =
      if worktree_path == "" || branch_name == ""
      then pure tt
      else wrap "git checkout main/master"
          (git_or worktree_path ("checkout" ∷ "main" ∷ []) ("checkout" ∷ "master" ∷ []))
          λ _. wrap "git merge" (git worktree_path ("merge" ∷ branch_name ∷ [])) λ _. pure tt

  -- RunTestCmd
  unfoldable pub run_test_cmd : String → String → Exec Unit
  run_test_cmd worktree_path test_cmd =
      if worktree_path == "" || test_cmd == ""
      then pure tt
      else wrap "test_cmd" (host.command worktree_path ("sh" ∷ "-c" ∷ test_cmd ∷ [])) λ _. pure tt

  -- DeleteWorktree
  unfoldable pub delete_worktree : String → Exec Unit
  delete_worktree worktree_path = if worktree_path == "" then pure tt else do
    absent ← host.is_absent worktree_path
    if absent then pure tt else host.remove_all worktree_path

  -- `strings.TrimSpace(git rev-parse HEAD)`
  abbrev pub head_sha : String → Exec String
  head_sha worktree_path = do
    out ← git worktree_path ("rev-parse" ∷ "HEAD" ∷ [])
    pure (trim_space out)

  -- git checkout -b; a clone on which it fails is removed.
  unfoldable pub checkout_new : String → String → Exec Unit
  checkout_new worktree_path branch_name =
      attempt (git worktree_path ("checkout" ∷ "-b" ∷ branch_name ∷ [])) λ r. elim r [
        | ok out ↦ pure tt
        | err e ↦ do ignore (host.remove_all worktree_path); fail (wrapped "git checkout -b" e)
      ]

  -- CreateWorktree: the commit of the branch, or of the worktree that is there already.
  unfoldable pub create_worktree : String → String → String → Exec String
  unfolding checkout_new
  create_worktree worktree_path source_url branch_name =
      if worktree_path == "" || source_url == "" || branch_name == ""
      then fail (required "worktree_path, source_url, and branch_name")
      else do
        host.mkdir_all (host.dir_of worktree_path)
        there ← host.stat_ok worktree_path
        if there then head_sha worktree_path else do
          wrap "git clone" (git "" ("clone" ∷ "--depth" ∷ "1" ∷ source_url ∷ worktree_path ∷ []))
              λ _. pure tt
          checkout_new worktree_path branch_name
          head_sha worktree_path

  -- Diff
  unfoldable pub diff : String → String → String → Exec String
  diff worktree_path base_sha head_ref =
      if worktree_path == ""
      then pure ""
      else let head_ref' = if head_ref == "" then "HEAD" else head_ref in
        let base_sha' = if base_sha == "" then "HEAD~1" else base_sha in
        attempt (git worktree_path ("diff" ∷ str_append (str_append base_sha' "..") head_ref' ∷ []))
          λ r. elim r [ ok out ↦ pure out | err e ↦ fail (wrapped "git diff" e) ]
