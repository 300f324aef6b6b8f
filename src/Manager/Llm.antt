-- ===== src/Manager/Llm.antt =====
-- internal/manager/llm.go: the manager that asks a language model, and the tools that the model may
-- call.
use Prim.Native.String.{◌++◌ as str_append}
use agentary.Prelude.{ℕ, String, Option, none, some, List, [], ◌∷◌, ◌==◌, if◌then◌else◌, or_empty}
use agentary.Store.Tasks.{update_task}
use agentary.Store.Messages.{create_message}
use agentary.Exec.{
  Exec, Event, Result, ok, err, pure, publish, ignore, attempt, task_update, message,
  message_created, ◌>>=◌, ◌>>◌,
}
use agentary.Manager.{create_task_for_team}

-- What the assertion of a type finds in a tool's arguments: a string, a number by its whole part
-- (one below 0, which no task has, as 0), or neither.
pub data Argument : Type 0 where
  text : String → Argument
  number : ℕ → Argument
  neither : Argument

-- A tool call; `none` for arguments that are no JSON object.
pub record ToolCall : Type 0 where
  pub name : String
  pub arguments : Option (String → Argument)

abbrev pub string_argument : Argument → String
string_argument (text s) = s
string_argument (number n) = ""
string_argument neither = ""

abbrev pub number_argument : Argument → ℕ
number_argument (text s) = 0
number_argument (number n) = n
number_argument neither = 0

abbrev pub or_default : String → String → String
or_default standard s = if s == "" then standard else s

-- A message from the manager, announced if it is stored.
unfoldable pub post_reply : String → (String → Argument) → Exec Unit
post_reply default_team args =
    let team = or_default default_team (string_argument (args "team")) in
    let recipient = string_argument (args "recipient") in
    ignore (
      create_message team "manager" recipient (string_argument (args "content"))
      >> publish (message team "manager" recipient))

-- The tools; the events of the second and the third have no team.
unfoldable pub run_tool : String → String → (String → Argument) → Exec Unit
unfolding post_reply create_task_for_team
run_tool default_team name args =
    let team = or_default default_team (string_argument (args "team")) in
    let id = number_argument (args "task_id") in
    let status = string_argument (args "status") in
    let assignee = string_argument (args "assignee") in
    if name == "create_task"
    then ignore (
        create_task_for_team team (string_argument (args "title")) (or_default "todo" status)
        >>= (λ new. publish (task_update team new none none none)))
    else if name == "advance_task"
    then ignore (update_task id status none >> publish (task_update "" id (some status) none none))
    else if name == "assign_task"
    then ignore
        (update_task id "" (some assignee) >> publish (task_update "" id none (some assignee) none))
    else if name == "reply"
    then post_reply default_team args
    else if name == "message_agent"
    then post_reply default_team args
    else pure tt

-- executeLLMTool
unfoldable pub execute_llm_tool : String → ToolCall → Exec Unit
unfolding run_tool
execute_llm_tool default_team call = elim call.arguments [
  | none ↦ pure tt
  | some args ↦ run_tool default_team call.name args
]

unfoldable pub execute_all : String → List ToolCall → Exec Unit
unfolding execute_llm_tool
execute_all team [] = pure tt
execute_all team (c ∷ rest) = execute_llm_tool team c >> execute_all team rest

-- `ask` is the request to the model with the text of the event, and the tool calls of its first
-- choice; `format` is fmt.Sprintf "%.0f" of a task's number.
module _ (ask : String → Exec (List ToolCall)) (format : ℕ → String) where
  abbrev pub follow : String → Result (List ToolCall) → Exec Unit
  follow team (err e) = pure tt
  follow team (ok calls) = execute_all team calls

  abbrev pub asked : String → String → Exec Unit
  asked team content = if team == "" then pure tt else attempt (ask content) (follow team)

  -- handleLLMEvent, for the events that RunLLM passes on.
  unfoldable pub handle_llm_event : Event → Exec Unit
  unfolding execute_all
  handle_llm_event (task_update team id status assignee stage) = asked team (
      str_append "Event: task_update team=" (
        str_append team (
          str_append " task_id="
            (str_append (format id) (str_append " status=" (or_empty status))))))
  handle_llm_event (message team from to) = asked team (
      str_append "Event: message team="
        (str_append team (str_append " from=" (str_append from (str_append " to=" to)))))
  handle_llm_event (message_created team id) =
      asked team (str_append "Event: message team=" (str_append team (str_append " from=" " to=")))
  handle_llm_event e = pure tt
