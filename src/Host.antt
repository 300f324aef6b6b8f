-- ===== src/Host.antt =====
-- What the daemon uses of the machine it runs on, and the runtime that an agent's turn is handed to
-- (internal/agent/runtime). Every action may take time, and other callers may use the store meanwhile:
-- it is an action on the whole world, about which nothing is assumed here.
use agentary.Prelude.{ℕ, String, Option, Bool, List}
use agentary.Exec.{Exec}

pub record TurnRequest : Type 0 where
  pub team : String
  pub agent : String
  pub task_id : ℕ
  pub input : String
  pub network_allowlist : List String
  pub model : String
  pub max_tokens : ℕ

pub record AgentConfig : Type 0 where
  pub model : String
  pub max_tokens : ℕ

-- `Patterns` is not set by the caller.
pub record JournalEntry : Type 0 where
  pub task_id : ℕ
  pub task_title : String
  pub outcome : String
  pub created_at : ℕ

-- TurnResult.Output, or the error of the turn.
abbrev pub Runtime : Type 0
Runtime = TurnRequest → Exec String

pub record Host : Type 0 where
  -- exec.CommandContext(argv) in a directory, with CombinedOutput
  pub command : String → List String → Exec String
  -- whether os.Stat of a path succeeds, and whether it reports that the path does not exist
  pub stat_ok : String → Exec Bool
  pub is_absent : String → Exec Bool
  -- os.MkdirAll and os.RemoveAll
  pub mkdir_all : String → Exec Unit
  pub remove_all : String → Exec Unit
  -- filepath.Dir
  pub dir_of : String → String
  -- an agent's config.yaml and journal.md, by team and agent
  pub load_agent_config : String → String → Exec (Option AgentConfig)
  pub append_journal : String → String → JournalEntry → Exec Unit
  -- whether Engine.Home is set
  pub has_home : Bool
