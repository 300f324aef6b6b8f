-- ===== src/Git/Success.antt =====
-- The git operations and the test command when every program that they start succeeds.
use agentary.Prelude.{
  String, Bool, true, false, ◌||◌, ◌≡◌, refl, ◌∙◌, List, [], ◌∷◌, if◌then◌else◌, ◌==◌,
}
use agentary.Host.{Host}
use agentary.Git.{
  wrap, git, git_or, rebase_onto_main, run_test_cmd, merge_in_worktree, delete_worktree,
}
use agentary.Exec.{World, ok, Exec, pure}
use agentary.Exec.Run.{bind_run, attempt_run}

-- Every program that the worker starts succeeds, and none touches the store.
abbrev pub Succeeds : Host → Type 0
Succeeds host =
    ((dir : String) (args : List String) (w : World)
      → (out : String) × (host.command dir args w ≡ (ok out, w)))
    × ((path : String) (w : World) → (b : Bool) × (host.is_absent path w ≡ (ok b, w)))
    × ((path : String) (w : World) → host.remove_all path w ≡ (ok tt, w))

pub skip_run :
    (b : Bool) (m : Exec Unit) (w : World)
    → m w ≡ (ok tt, w)
    → (if b then pure tt else m) w ≡ (ok tt, w)
unfolding pure
skip_run true m w e = refl
skip_run false m w e = e

module _ (host : Host) (good : Succeeds host) where
  wrapped_run :
      (text dir : String) (args : List String) (k : String → Exec Unit) (w : World)
      → ((out : String) → k out w ≡ (ok tt, w))
      → wrap text (git host dir args) k w ≡ (ok tt, w)
  wrapped_run text dir args k w e =
      let (out, run) = good.0 dir ("git" ∷ args) w in attempt_run _ _ w w (ok out) run ∙ e out

  either_run :
      (text dir : String) (args args' : List String) (k : String → Exec Unit) (w : World)
      → ((out : String) → k out w ≡ (ok tt, w))
      → wrap text (git_or host dir args args') k w ≡ (ok tt, w)
  unfolding pure
  either_run text dir args args' k w e =
      let (out, run) = good.0 dir ("git" ∷ args) w in
      attempt_run _ _ w w (ok out) (attempt_run _ _ w w (ok out) run) ∙ e out

  pub rebase_succeeds :
      (path branch : String) (w : World) → rebase_onto_main host path branch w ≡ (ok tt, w)
  unfolding rebase_onto_main pure
  rebase_succeeds path branch w = skip_run (path == "" || branch == "") _ w (
      wrapped_run _ path _ _ w
        λ _. wrapped_run _ path _ _ w λ _. either_run _ path _ _ _ w λ _. refl)

  pub merge_succeeds :
      (path branch : String) (w : World) → merge_in_worktree host path branch w ≡ (ok tt, w)
  unfolding merge_in_worktree pure
  merge_succeeds path branch w =
      skip_run (path == "" || branch == "") _ w
        (either_run _ path _ _ _ w λ _. wrapped_run _ path _ _ w λ _. refl)

  pub tests_succeed : (path cmd : String) (w : World) → run_test_cmd host path cmd w ≡ (ok tt, w)
  unfolding run_test_cmd pure
  tests_succeed path cmd w =
      let (out, run) = good.0 path ("sh" ∷ "-c" ∷ cmd ∷ []) w in
      skip_run (path == "" || cmd == "") _ w (attempt_run _ _ w w (ok out) run)

  pub delete_succeeds : (path : String) (w : World) → delete_worktree host path w ≡ (ok tt, w)
  unfolding delete_worktree
  delete_succeeds path w =
      let (b, run) = good.1 path w in
      skip_run (path == "") _ w (bind_run _ _ w w b run ∙ skip_run b _ w (good.2 path w))
