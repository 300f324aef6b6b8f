-- ===== src/Memory.antt =====
-- internal/memory: the files of a team and of its agents. What the operating system, YAML and the
-- format of a time do is a parameter; the paths are those of Paths.antt.
pub mod Stored
use Prim.Native.String.{◌++◌ as str_append}
use agentary.Prelude.{
  ℕ, String, Option, none, some, Bool, ◌||◌, List, [], ◌∷◌, ◌++◌, ◌==◌, eqb, leb, if◌then◌else◌,
  byte_len, trim_space,
}
use agentary.Paths.{agent_dir}
use agentary.Exec.{Exec, ok, err, external, pure, fail, found, ◌>>=◌, ◌>>◌}
use agentary.Host.{AgentConfig, JournalEntry}

pub record Files : Type 0 where
  pub mkdir_all : List String → Exec Unit
  -- `none` if os.IsNotExist
  pub read_file : List String → Exec (Option String)
  pub write_file : List String → String → Exec Unit
  -- O_APPEND|O_CREATE
  pub append_file : List String → String → Exec Unit
  pub decode_config : String → Option AgentConfig
  pub encode_config : AgentConfig → String
  -- Format("2006-01-02 15:04"), and fmt "%d"
  pub format_time : ℕ → String
  pub format_int : ℕ → String

-- SharedDir, CharterPath, JournalPath, NotesDir, AgentConfigPath
abbrev pub shared_dir : List String → List String
shared_dir team = team ++ "shared" ∷ []

abbrev pub charter_path : List String → List String
charter_path team = team ++ "charter.md" ∷ []

abbrev pub journal_path : List String → List String
journal_path agent = agent ++ "journal.md" ∷ []

abbrev pub notes_dir : List String → List String
notes_dir agent = agent ++ "notes" ∷ []

abbrev pub agent_config_path : List String → List String
agent_config_path agent = agent ++ "config.yaml" ∷ []

abbrev pub text_or_empty : Option String → String
text_or_empty none = ""
text_or_empty (some s) = s

-- A line of the block, left out where its value is "".
abbrev pub item : String → String → String
item label value =
    if value == ""
    then ""
    else str_append "- **" (str_append label (str_append ":** " (str_append value "\n")))

-- The last `limit` bytes; a character that the cut goes through is left out.
unfoldable pub tail_bytes : ℕ → String → String
unfolding byte_len
tail_bytes limit String.[] = String.[]
tail_bytes limit (String.◌∷◌ c s) =
    let rest = tail_bytes limit s in
    if leb (byte_len (String.◌∷◌ c s)) limit then String.◌∷◌ c s else rest

module _ (files : Files) where
  -- ReadCharter
  unfoldable pub read_charter : List String → Exec String
  read_charter team = do file ← files.read_file (charter_path team); pure (text_or_empty file)

  -- WriteCharter
  unfoldable pub write_charter : List String → String → Exec Unit
  write_charter team content = do files.mkdir_all team; files.write_file (charter_path team) content

  -- EnsureAgentDir
  unfoldable pub ensure_agent_dir : List String → String → Exec Unit
  unfolding agent_dir
  ensure_agent_dir team agent = do
    files.mkdir_all (agent_dir team agent)
    files.mkdir_all (notes_dir (agent_dir team agent))

  -- EnsureTeamDirs
  unfoldable pub ensure_team_dirs : List String → Exec Unit
  ensure_team_dirs team = do files.mkdir_all team; files.mkdir_all (shared_dir team)

  -- The texts of formatJournalBlock; Decisions and Patterns are "" in every entry.
  abbrev pub heading : JournalEntry → String
  heading e = str_append "\n---\n\n## " (
      str_append (files.format_time e.created_at)
        (if e.task_title == "" then "\n\n" else str_append " — " (str_append e.task_title "\n\n")))

  unfoldable pub format_journal_block : JournalEntry → String
  format_journal_block e = str_append (heading e) (
      str_append (if eqb e.task_id 0 then "" else item "Task" (files.format_int e.task_id))
        (str_append (item "Outcome" e.outcome) "\n"))

  -- Journal.Append
  unfoldable pub append_journal : List String → String → JournalEntry → Exec Unit
  unfolding format_journal_block agent_dir
  append_journal team agent entry = do
    files.mkdir_all (agent_dir team agent)
    files.append_file (journal_path (agent_dir team agent)) (format_journal_block entry)

  -- Journal.Read
  unfoldable pub read_journal : List String → String → ℕ → Exec String
  unfolding tail_bytes agent_dir
  read_journal team agent limit = do
    file ← files.read_file (journal_path (agent_dir team agent))
    let s = text_or_empty file
    pure (if eqb limit 0 || leb (byte_len s) limit then s else tail_bytes limit s)

  -- Journal.Summary
  unfoldable pub journal_summary : List String → String → ℕ → Exec String
  unfolding read_journal trim_space
  journal_summary team agent most = do
    s ← read_journal team agent (if eqb most 0 then 4000 else most)
    pure (if trim_space s == "" then "(no journal entries yet)" else trim_space s)

  abbrev pub decoded_config : Option String → Exec (Option AgentConfig)
  decoded_config none = pure none
  decoded_config (some file) = do
    c ← found (external "yaml") (files.decode_config file)
    pure (some c)

  -- LoadAgentConfig
  unfoldable pub load_agent_config : List String → Exec (Option AgentConfig)
  load_agent_config agent = do file ← files.read_file (agent_config_path agent); decoded_config file

  -- SaveAgentConfig
  unfoldable pub save_agent_config : List String → AgentConfig → Exec Unit
  save_agent_config agent config = do
    files.mkdir_all agent
    files.write_file (agent_config_path agent) (files.encode_config config)
