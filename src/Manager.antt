-- ===== src/Manager.antt =====
-- internal/manager/manager.go: the manager, which answers events and the messages of its inbox.
pub mod Shell
pub mod Inbox
pub mod Llm
pub mod Tools
use Prim.Native.String.{◌++◌ as str_append}
use agentary.Prelude.{
  ℕ, String, Option, none, some, Bool, true, false, ◌&&◌, not, List, [], ◌∷◌, ◌==◌, if◌then◌else◌,
  ltb, trim_space, cut_prefix, byte_len,
}
use agentary.Store.Model.{Task, Message}
use agentary.Store.Teams.{TeamSummary, list_teams}
use agentary.Store.Tasks.{create_task, update_task, requeue_task, get_task_by_id_and_team}
use agentary.Store.Workflows.{get_workflow_id_by_team_and_name}
use agentary.Store.Messages.{create_message, list_unprocessed_messages, mark_message_processed}
use agentary.Exec.{
  Exec, Event, Error, Result, ok, err, pure, publish, ignore, attempt, task_update, message, ◌>>=◌,
  ◌>>◌,
}
use agentary.Engine.{or_zero}
use agentary.Sandbox.{blocked_shell_command}

-- What the manager uses of the machine: `sh -c` with the output and the error of the command, the
-- texts of errors and of numbers (fmt.Sprintf "%d"), and the Slack capability if there is one.
pub record Desk : Type 0 where
  pub shell : String → Exec String
  pub error_text : Error → String
  pub format_task_id : ℕ → String
  pub slack : Option (String → Exec Unit)

abbrev pub default_manager_recipient : String
default_manager_recipient = "manager"

-- The id of the team's workflow "default", version 1, if it has one.
unfoldable pub default_workflow : String → Exec (Option String)
default_workflow team = do
  id ← attempt (get_workflow_id_by_team_and_name team "default" 1) (or_zero "")
  pure (if id == "" then none else some id)

-- CreateTaskForTeam
unfoldable pub create_task_for_team : String → String → String → Exec ℕ
unfolding default_workflow
create_task_for_team team title status = do
  workflow ← default_workflow team
  create_task team title (if status == "" then "todo" else status) workflow

-- AssignTask
unfoldable pub assign_task : ℕ → String → Exec Unit
assign_task id assignee = update_task id "" (some assignee)

-- AdvanceTask: another status is no error, and does nothing.
unfoldable pub advance_task : ℕ → String → Option String → Exec Unit
advance_task id status assignee =
    if status == "todo"
    then update_task id status assignee
    else if status == "in_progress"
    then update_task id status assignee
    else if status == "done"
    then update_task id status assignee
    else if status == "failed"
    then update_task id status assignee
    else if status == "cancelled"
    then update_task id status assignee
    else pure tt

-- shouldRequeueFailed
abbrev pub should_requeue_failed : Bool
should_requeue_failed = false

abbrev pub starts_with_slash : String → Bool
starts_with_slash content = elim (cut_prefix "/" content) [ none ↦ false | some rest ↦ true ]

module _ (desk : Desk) where
  abbrev pub notify : Option (String → Exec Unit) → String → Exec Unit
  notify none text = pure tt
  notify (some post) text = ignore (post text)

  -- The follow-up of a task that is done.
  unfoldable pub follow_up : String → Task → Exec Unit
  unfolding default_workflow
  follow_up team task = do
    workflow ← default_workflow team
    id ← create_task team (str_append "Review: " task.title) "todo" workflow
    publish (task_update team id none none none)
    notify desk.slack (
        str_append "Task completed: " (
          str_append task.title (
            str_append " (follow-up Review task #"
              (str_append (desk.format_task_id id) " created)"))))

  abbrev pub task_done : String → Result (Option Task) → Exec Unit
  task_done team (err e) = pure tt
  task_done team (ok none) = pure tt
  task_done team (ok (some task)) = ignore (follow_up team task)

  abbrev pub status_changed : String → ℕ → Option String → Exec Unit
  status_changed team id none = pure tt
  status_changed team id (some status) =
      if status == "done"
      then attempt (get_task_by_id_and_team team id) (task_done team)
      else if status == "failed" && should_requeue_failed
      then ignore (requeue_task team id) >> publish (task_update team id (some "todo") none none)
      else pure tt

  -- handleEvent
  unfoldable pub handle_event : Event → Exec Unit
  unfolding follow_up
  handle_event (task_update team id status assignee stage) =
      if team == "" then pure tt else status_changed team id status
  handle_event e = pure tt

  -- replyToSender
  unfoldable pub reply_to_sender : String → String → String → Exec Unit
  reply_to_sender team sender body = do
    ignore (create_message team default_manager_recipient sender body)
    publish (message team default_manager_recipient sender)

  -- runShellCommand
  unfoldable pub run_shell_command : String → Exec String
  run_shell_command cmd_line = do out ← desk.shell cmd_line; pure (trim_space out)

  -- What `/shell` answers to a command.
  unfoldable pub shell_reply : String → Exec String
  unfolding run_shell_command blocked_shell_command
  shell_reply cmd_line =
      if cmd_line == ""
      then pure "usage: /shell <command>"
      else if blocked_shell_command cmd_line
      then pure "error: command not allowed"
      else attempt (run_shell_command cmd_line) λ r. elim r [
        | ok out ↦ pure out
        | err e ↦ pure (str_append "error: " (desk.error_text e))
      ]

  -- The acknowledgement, with a task for what looks like a request.
  unfoldable pub acknowledge : String → String → Exec String
  unfolding create_task_for_team byte_len
  acknowledge team content =
      if ltb 10 (byte_len content) && not (starts_with_slash content)
      then attempt (create_task_for_team team content "todo") (λ r. elim r [
        | ok id ↦ pure (str_append "Created task #" (desk.format_task_id id))
        | err e ↦ pure (str_append "Got: " content)
      ])
      else pure (str_append "Got: " content)

  abbrev pub answer_content : String → String → String → Option String → Exec Unit
  answer_content team sender content (some rest) = do
    reply ← shell_reply (trim_space rest)
    reply_to_sender team sender reply
  answer_content team sender content none = do
    reply ← acknowledge team content
    reply_to_sender team sender reply
    publish (message team default_manager_recipient sender)

  -- handleInboxMessage
  unfoldable pub handle_inbox_message : String → Message → Exec Unit
  unfolding reply_to_sender shell_reply acknowledge trim_space cut_prefix
  handle_inbox_message team m =
      let content = trim_space m.content in
      answer_content team m.sender content (cut_prefix "/shell " content)

  -- The messages of one team's inbox.
  unfoldable pub handle_messages : String → List Message → Exec Unit
  unfolding handle_inbox_message
  handle_messages team [] = pure tt
  handle_messages team (m ∷ rest) = do
    handle_inbox_message team m
    ignore (mark_message_processed m.message_id)
    handle_messages team rest

  unfoldable pub poll_teams : String → List TeamSummary → Exec Unit
  unfolding handle_messages
  poll_teams recipient [] = pure tt
  poll_teams recipient (t ∷ rest) = do
    messages ← attempt (list_unprocessed_messages t.team.name recipient 10) (or_zero [])
    handle_messages t.team.name messages
    poll_teams recipient rest

  -- One tick of PollInbox; `recipient` is "manager" where it is given as "".
  unfoldable pub poll_inbox : String → Exec Unit
  unfolding poll_teams
  poll_inbox recipient = do
    teams ← attempt list_teams (or_zero [])
    poll_teams (if recipient == "" then default_manager_recipient else recipient) teams
