-- ===== src/Toolkit.antt =====
-- internal/mcp/toolkit.go: the tools of an agent; its name and its team are part of every call.
pub mod Identity
use agentary.Prelude.{ℕ, zero, suc, ℤ, pos, negsuc, String, none, List}
use agentary.Store.Model.{Task, Message}
use agentary.Store.Tasks.{create_task}
use agentary.Store.TaskLists.{list_tasks}
use agentary.Store.Messages.{create_message, list_messages}
use agentary.Exec.{Exec}

-- MCPToolkit
pub record Toolkit : Type 0 where
  pub agent_name : String
  pub team_name : String

-- The limit, or the default for one that is not above 0.
abbrev pub limit_or : ℕ → ℤ → ℕ
limit_or standard (pos zero) = standard
limit_or standard (pos (suc n)) = suc n
limit_or standard (negsuc n) = standard

-- MCPToolkit.CreateTask
unfoldable pub create_own_task : Toolkit → String → Exec ℕ
create_own_task t title = create_task t.team_name title "todo" none

-- MCPToolkit.SendMessage
unfoldable pub send_message : Toolkit → String → String → Exec ℕ
send_message t recipient content = create_message t.team_name t.agent_name recipient content

-- MCPToolkit.ListTasks
unfoldable pub list_team_tasks : Toolkit → ℤ → Exec (List Task)
list_team_tasks t limit = list_tasks t.team_name (pos (limit_or 500 limit))

-- MCPToolkit.ListMessages
unfoldable pub list_team_messages : Toolkit → String → ℤ → Exec (List Message)
list_team_messages t recipient limit = list_messages t.team_name recipient (limit_or 100 limit)
