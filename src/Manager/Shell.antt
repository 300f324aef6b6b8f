-- ===== src/Manager/Shell.antt =====
-- `/shell` in the manager's inbox.
use agentary.Prelude.{
  String, Option, none, some, false, ◌≡◌, refl, ap, ◌==◌, List, [], ◌∷◌, trim_space, cut_prefix,
  if◌then◌else◌, inl, inr, Bool-cases,
}
use Prim.Native.String.{◌++◌ as str_append}
use agentary.Store.Model.{Message}
use agentary.Store.Teams.{TeamSummary, list_teams}
use agentary.Store.Messages.{mark_message_processed, list_unprocessed_messages}
use agentary.Exec.{Exec, pure, ok, err, attempt, ignore, ◌>>=◌, ◌>>◌}
use agentary.Sandbox.{blocked_shell_command}
use agentary.Engine.{or_zero}
use agentary.Manager.{
  Desk, answer_content, handle_inbox_message, handle_messages, shell_reply, reply_to_sender,
  poll_teams, poll_inbox, acknowledge, run_shell_command,
}

-- The manager with another shell.
abbrev pub with_shell : Desk → (String → Exec String) → Desk
with_shell desk other = record desk { shell = other }

module _ (desk : Desk) (other : String → Exec String)
    (agree : (c : String) → blocked_shell_command c ≡ false → desk.shell c ≡ other c) where
  shell_reply_same : (c : String) → shell_reply desk c ≡ shell_reply (with_shell desk other) c
  unfolding shell_reply run_shell_command
  shell_reply_same c = elim (Bool-cases (blocked_shell_command c)) [
    | inl b ↦ rw b refl
    | inr b ↦ rw b (
        ap
          (λ (run : Exec String).
            if c == ""
            then pure "usage: /shell <command>"
            else attempt (run >>= λ out. pure (trim_space out)) (λ r. elim r [
              | ok out ↦ pure out
              | err e ↦ pure (str_append "error: " (desk.error_text e))
            ]))
          (agree c b))
  ]

  handle_inbox_message_same :
      (team : String) (m : Message)
      → handle_inbox_message desk team m ≡ handle_inbox_message (with_shell desk other) team m
  unfolding handle_inbox_message acknowledge reply_to_sender
  handle_inbox_message_same team m = by_content (cut_prefix "/shell " (trim_space m.content))
    where
      by_content :
          (o : Option String)
          → answer_content desk team m.sender (trim_space m.content) o
            ≡ answer_content (with_shell desk other) team m.sender (trim_space m.content) o
      by_content none = refl
      by_content (some rest) =
          ap (λ answer. answer >>= λ reply. reply_to_sender desk team m.sender reply)
            (shell_reply_same (trim_space rest))

  handle_messages_same :
      (team : String) (ms : List Message)
      → handle_messages desk team ms ≡ handle_messages (with_shell desk other) team ms
  unfolding handle_messages
  handle_messages_same team [] = refl
  handle_messages_same team (m ∷ rest) = λ i.
      handle_inbox_message_same team m i
      >> (ignore (mark_message_processed m.message_id) >> handle_messages_same team rest i)

  poll_teams_same :
      (recipient : String) (ts : List TeamSummary)
      → poll_teams desk recipient ts ≡ poll_teams (with_shell desk other) recipient ts
  unfolding poll_teams
  poll_teams_same recipient [] = refl
  poll_teams_same recipient (t ∷ rest) = λ i.
      attempt (list_unprocessed_messages t.team.name recipient 10) (or_zero []) >>= λ messages.
      handle_messages_same t.team.name messages i >> poll_teams_same recipient rest i

  -- A command that the deny list blocks is never run: a poll of the inboxes is the same with every
  -- shell that does the same on the commands that the list does not block, whatever it does on those
  -- that it blocks, and whatever the messages, their senders and the teams are.
  pub blocked_never_runs :
      (recipient : String)
      → poll_inbox desk recipient ≡ poll_inbox (with_shell desk other) recipient
  unfolding poll_inbox
  blocked_never_runs recipient = λ i. attempt list_teams (or_zero []) >>= λ teams.
      poll_teams_same (if recipient == "" then "manager" else recipient) teams i
