-- ===== src/Tests/Tools.antt =====
-- The manager, the sandbox, the paths, an agent's tools and the demonstration data.
use agentary.Manager.Llm.{ToolCall, text, number}
use agentary.Manager.Tools.{heard, llm_tools-IsConfined, IsConfined}
use agentary.Exec.{Exec, World, task_update}
use agentary.Prelude.{if◌then◌else◌, arith, some, ◌==◌}
use agentary.Prelude.{
  false, ap, eq_iff, Bool, sym, negsuc, ◌≤◌, String, none, true, ◌≡◌, refl, List, [], ◌∷◌, ◌++◌,
  All, arith, cut_prefix, trim_space, byte_len, split,
}
use agentary.Store.Model.{Message}
use agentary.Exec.{ok, err, external}
use agentary.Sandbox.{blocked_shell_command}
use agentary.Sandbox.Wrap.{System, restricted_args, wrap_command}
use agentary.Sandbox.Guard.{WriteGuard, allow_write, allowed_writes_stay}
use agentary.Paths.{absolute, is_under, agent_dir, safe_name}
use agentary.Paths.Clean.{IsName}
use agentary.Paths.Escape.{agent_dir-named, agent_dir_escapes}
use agentary.Manager.{poll_inbox, Desk, handle_inbox_message}
use agentary.Manager.Shell.{blocked_never_runs, with_shell}
use agentary.Manager.Inbox.{plain_message_lem, told, replied}
use agentary.Toolkit.{Toolkit, list_team_tasks}
use agentary.Toolkit.Identity.{send_all, no_impersonation, AtMostHundred, list_team_tasks-bounded}
use agentary.Tests.Example.{core, ready}

abbrev desk : Desk
desk = record {
  shell = λ cmd w. (err (external "not run"), w);
  error_text = λ e. "failed";
  format_task_id = λ n. "1";
  slack = none;
}

abbrev mail : String → String → Message
mail sender content = record {
  message_id = 0;
  team_id = "t1";
  sender = sender;
  recipient = "manager";
  content = content;
  created_at = 1;
  processed_at = none;
}

-- A model that always moves task 1 on.
abbrev advancing : String → Exec (List ToolCall)
advancing content w = (
  ok (
      record {
        name = "advance_task";
        arguments = some (λ key. if key == "task_id" then number 1 else text "paused");
      }
      ∷ []),
  w,
)

llm_tools-IsConfined_example :
    IsConfined ready.db
      (heard advancing (λ n. "1") (task_update "core" 1 (some "done") none none ∷ []) ready).db
llm_tools-IsConfined_example =
    llm_tools-IsConfined advancing (λ n. "1") (λ P s. record { kept = λ w h. h })
      (task_update "core" 1 (some "done") none none ∷ []) ready tt

-- A shell that succeeds on "sqlite3", which the deny list blocks, and fails as the desk's on the rest.
abbrev other_shell : String → Exec String
other_shell cmd w = if cmd == "sqlite3" then (ok "rows", w) else (err (external "not run"), w)

sqlite3_blocked : (c : String) → c ≡ "sqlite3" → blocked_shell_command c ≡ true
unfolding blocked_shell_command
sqlite3_blocked c e = ap blocked_shell_command e

differs : (c : String) → blocked_shell_command c ≡ false → (c == "sqlite3") ≡ false
differs c b = ground (arith, b, eq_iff c "sqlite3", sqlite3_blocked c)

other_shell_agrees : (c : String) → blocked_shell_command c ≡ false → desk.shell c ≡ other_shell c
other_shell_agrees c b =
    ap {B = Exec String}
      (λ (e : Bool) (w : World). if e then (ok "rows", w) else (err (external "not run"), w))
      (sym (differs c b))

blocked_never_runs_example :
    poll_inbox desk "manager" ≡ poll_inbox (with_shell desk other_shell) "manager"
blocked_never_runs_example = blocked_never_runs desk other_shell other_shell_agrees "manager"

plain_message_lem_example :
    handle_inbox_message desk "core" (mail "ann" " thanks") ready
    ≡ (ok tt, told "core" "ann" (told "core" "ann" (replied core "ann" "Got: thanks" ready)))
unfolding cut_prefix trim_space byte_len
plain_message_lem_example =
    plain_message_lem desk ready "core" core refl refl (mail "ann" " thanks") refl refl

abbrev tools : Toolkit
tools = record { agent_name = "ann"; team_name = "core" }

no_impersonation_example :
    All
      (λ (m : Message). 1 ≤ m.message_id → m.sender ≡ "ann")
      (send_all tools (("bob", "hello") ∷ ("nobody", "") ∷ []) ready).db.messages
no_impersonation_example = no_impersonation tools (("bob", "hello") ∷ ("nobody", "") ∷ []) ready tt

list_team_tasks-bounded_example : AtMostHundred (list_team_tasks tools (negsuc 4) ready).0
list_team_tasks-bounded_example = list_team_tasks-bounded tools (negsuc 4) ready

abbrev guard : WriteGuard
guard = record {
  role = "engineer";
  agent_name = "ann";
  team_dir = "/data/teams/core";
  worktree_dirs = [];
}

allowed_writes_stay_example :
    (is_under (absolute [] "/data/teams/core") (absolute [] "/data/teams/core/x/../shared/plan.md")
      ≡ true)
    × All IsName (absolute [] "/data/teams/core/x/../shared/plan.md")
unfolding allow_write absolute split
allowed_writes_stay_example =
    allowed_writes_stay guard [] "/data/teams/core/x/../shared/plan.md" tt (λ e. absurd (cc)) refl

abbrev team_path : List String
team_path = "data" ∷ "teams" ∷ "core" ∷ []

agent_dir-named_example : agent_dir team_path "Jane Doe" ≡ team_path ++ "agents" ∷ "Jane_Doe" ∷ []
unfolding safe_name split
agent_dir-named_example = agent_dir-named team_path "Jane Doe" "Jane_Doe" refl refl

agent_dir_escapes_example :
    (agent_dir team_path "../../other" ≡ "data" ∷ "teams" ∷ "other" ∷ [])
    × (is_under team_path (agent_dir team_path "../../other") ≡ false)
unfolding safe_name split
agent_dir_escapes_example =
    agent_dir_escapes ("data" ∷ "teams" ∷ []) [] "core" "other" "../../other" refl (refl, tt)
      (λ e. absurd (cc))

abbrev system : System
system = record { linux = true; bwrap = some "/usr/bin/bwrap"; cwd = [] }

-- A directory beside the home, whose path has a slash where the home's ends, is writable too.
beside_example :
    (wrap_command system "/data" "/work/x" "agent" []).args
    ≡ restricted_args "/data" "/work/x" ++ "--" ∷ "agent" ∷ []
unfolding wrap_command absolute split
beside_example = refl
