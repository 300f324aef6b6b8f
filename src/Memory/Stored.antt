-- ===== src/Memory/Stored.antt =====
-- Work on files keeps what the operating system's calls keep.
use agentary.Prelude.{ℕ, String, Option, none, some, List}
use agentary.Store.Model.{Db}
use agentary.Exec.Keeps.{Keeps, keeps_rules}
use agentary.Memory.{
  Files, read_charter, write_charter, ensure_agent_dir, ensure_team_dirs, read_journal,
  decoded_config, load_agent_config,
}

pub record KeepsFiles {ℓ} (P : Db → Type ℓ) (files : Files) : Type ℓ where
  pub mkdirs : (path : List String) → Keeps P (files.mkdir_all path)
  pub reads : (path : List String) → Keeps P (files.read_file path)
  pub writes : (path : List String) (text : String) → Keeps P (files.write_file path text)

module _ {ℓ} {P : Db → Type ℓ} (files : Files) (kept : KeepsFiles P files) where
  pub read_charter-Keeps : (team : List String) → Keeps P (read_charter files team)
  unfolding read_charter
  read_charter-Keeps team = search (keeps_rules, kept.reads)

  pub write_charter-Keeps :
      (team : List String) (text : String) → Keeps P (write_charter files team text)
  unfolding write_charter
  write_charter-Keeps team text = search (keeps_rules, kept.mkdirs, kept.writes)

  pub ensure_agent_dir-Keeps :
      (team : List String) (agent : String) → Keeps P (ensure_agent_dir files team agent)
  unfolding ensure_agent_dir
  ensure_agent_dir-Keeps team agent = search (keeps_rules, kept.mkdirs)

  pub ensure_team_dirs-Keeps : (team : List String) → Keeps P (ensure_team_dirs files team)
  unfolding ensure_team_dirs
  ensure_team_dirs-Keeps team = search (keeps_rules, kept.mkdirs)

  pub read_journal-Keeps :
      (team : List String) (agent : String) (limit : ℕ)
      → Keeps P (read_journal files team agent limit)
  unfolding read_journal
  read_journal-Keeps team agent limit = search (keeps_rules, kept.reads)

  decoded_config-Keeps : (file : Option String) → Keeps P (decoded_config files file)
  decoded_config-Keeps none = search keeps_rules
  decoded_config-Keeps (some file) = search keeps_rules

  pub load_agent_config-Keeps : (agent : List String) → Keeps P (load_agent_config files agent)
  unfolding load_agent_config
  load_agent_config-Keeps agent = search (keeps_rules, kept.reads, decoded_config-Keeps)

pub ruleset file_rules = (
  read_charter-Keeps, write_charter-Keeps, ensure_agent_dir-Keeps, ensure_team_dirs-Keeps,
  read_journal-Keeps, load_agent_config-Keeps,
)
