-- ===== src/Manager/Tools.antt =====
-- What a language model can and cannot change by the tools it is given.
use agentary.Prelude.{
  ℕ, String, Option, none, some, ◌≡◌, refl, ◌<◌, List, [], ◌∷◌, All, All-snoc, arith,
}
use agentary.Store.Model.{Db, Message}
use agentary.Store.Tasks.{create_task, update_task, insert_task, set_stage}
use agentary.Store.Messages.{create_message, insert_message}
use agentary.Store.Workflows.{get_workflow_initial_stage}
use agentary.Store.Reads.{read_rules, get_team_by_name-Keeps}
use agentary.Toolkit.Identity.{FromAgent, before-All}
use agentary.Exec.{
  Exec, Event, World, Result, ok, err, pure, sql, task_update, message, message_created,
}
use agentary.Exec.Keeps.{Keeps, Keeps-bind, Keeps-execute, Keeps-sql, Keeps-ignore, keeps_rules}
use agentary.Engine.{or_zero}
use agentary.Manager.{create_task_for_team, default_workflow}
use agentary.Manager.Llm.{
  ToolCall, Argument, post_reply, run_tool, execute_llm_tool, execute_all, follow, asked,
  handle_llm_event,
}

-- What was not for a tool to change is as in the first database, and every message is from the
-- manager or was there with a number below the first new one.
abbrev pub IsConfined : Db → Db → Type 0
IsConfined first d =
    (d.teams ≡ first.teams)
    × (d.agents ≡ first.agents)
    × (d.repos ≡ first.repos)
    × (d.workflows ≡ first.workflows)
    × (d.stages ≡ first.stages)
    × (d.transitions ≡ first.transitions)
    × (d.reviews ≡ first.reviews)
    × (d.dependencies ≡ first.dependencies)
    × (d.comments ≡ first.comments)
    × (d.attachments ≡ first.attachments)
    × (d.allowlist ≡ first.allowlist)
    × (FromAgent "manager" first.next_message d)

module _ (first : Db) where
  update_any-Keeps :
      (id : ℕ) (status : String) (assignee : Option String)
      → Keeps (IsConfined first) (update_task id status assignee)
  unfolding update_task
  update_any-Keeps id status assignee =
      Keeps-bind _ _ (search keeps_rules) (λ at. Keeps-execute _ (λ d h. h))

  set_stage-Keeps :
      (id : ℕ) (workflow : Option String) (initial : Result String) (at : ℕ)
      → Keeps (IsConfined first) (set_stage id workflow initial at)
  unfolding set_stage
  set_stage-Keeps id workflow (err e) at = search keeps_rules
  set_stage-Keeps id workflow (ok initial) at = Keeps-ignore _ (Keeps-execute _ (λ d h. h))

  insert_task-Keeps :
      (team title status : String) (at : ℕ)
      → Keeps (IsConfined first) (sql (insert_task team title status at))
  unfolding insert_task
  insert_task-Keeps team title status at = Keeps-sql _ (λ d h. h)

  insert_message-Keeps :
      (team recipient content : String) (at : ℕ)
      → Keeps (IsConfined first) (sql (insert_message team "manager" recipient content at))
  unfolding insert_message
  insert_message-Keeps team recipient content at =
      Keeps-sql _ (λ d (a, b, c, e, f, g, i, j, k, l, m, (n, o)). (
        a,
        b,
        c,
        e,
        f,
        g,
        i,
        j,
        k,
        l,
        m,
        (omega (arith, n), All-snoc _ d.messages _ o (λ _. refl)),
      ))

  initial-Keeps :
      (workflow : String) → Keeps (IsConfined first) (get_workflow_initial_stage workflow)
  unfolding get_workflow_initial_stage
  initial-Keeps workflow = search (keeps_rules, read_rules) depth 14

  create_any-Keeps :
      (team title status : String) (workflow : Option String)
      → Keeps (IsConfined first) (create_task team title status workflow)
  unfolding create_task
  create_any-Keeps team title status workflow =
      search
        (
          keeps_rules, read_rules, get_team_by_name-Keeps, initial-Keeps, set_stage-Keeps,
          insert_task-Keeps,
        )
        depth 14

  send_any-Keeps :
      (team recipient text : String)
      → Keeps (IsConfined first) (create_message team "manager" recipient text)
  unfolding create_message
  send_any-Keeps team recipient text =
      search (keeps_rules, get_team_by_name-Keeps, insert_message-Keeps)

  or_zero-Keeps : {A : Type 0} (zero : A) (r : Result A) → Keeps (IsConfined first) (or_zero zero r)
  or_zero-Keeps zero (ok a) = search keeps_rules
  or_zero-Keeps zero (err e) = search keeps_rules

  ruleset rules =
      (keeps_rules, read_rules, update_any-Keeps, create_any-Keeps, send_any-Keeps, or_zero-Keeps)

  create_for_team-Keeps :
      (team title status : String)
      → Keeps (IsConfined first) (create_task_for_team team title status)
  unfolding create_task_for_team default_workflow
  create_for_team-Keeps team title status = search rules depth 12

  post_reply-Keeps :
      (team : String) (args : String → Argument) → Keeps (IsConfined first) (post_reply team args)
  unfolding post_reply
  post_reply-Keeps team args = search rules depth 12

  run_tool-Keeps :
      (team name : String) (args : String → Argument)
      → Keeps (IsConfined first) (run_tool team name args)
  unfolding run_tool
  run_tool-Keeps team name args = search (rules, create_for_team-Keeps, post_reply-Keeps) depth 20

  execute_tool-Keeps :
      (team : String) (c : ToolCall) → Keeps (IsConfined first) (execute_llm_tool team c)
  unfolding execute_llm_tool
  execute_tool-Keeps team c = of_arguments c.arguments
    where
      of_arguments :
          (o : Option (String → Argument))
          → Keeps
              (IsConfined first)
              (elim o [ none ↦ pure tt | some args ↦ run_tool team c.name args ])
      of_arguments none = search rules
      of_arguments (some args) = run_tool-Keeps team c.name args

  execute_all-Keeps :
      (team : String) (cs : List ToolCall) → Keeps (IsConfined first) (execute_all team cs)
  unfolding execute_all
  execute_all-Keeps team [] = search rules
  execute_all-Keeps team (c ∷ rest) =
      Keeps-bind _ _ (execute_tool-Keeps team c) (λ _. execute_all-Keeps team rest)

  module _ (ask : String → Exec (List ToolCall)) (format : ℕ → String)
      (asking : (s : String) → Keeps (IsConfined first) (ask s)) where
    follow-Keeps :
        (team : String) (r : Result (List ToolCall))
        → Keeps (IsConfined first) (follow ask format team r)
    follow-Keeps team (ok cs) = execute_all-Keeps team cs
    follow-Keeps team (err e) = search rules

    asked-Keeps : (team content : String) → Keeps (IsConfined first) (asked ask format team content)
    asked-Keeps team content = search (rules, follow-Keeps)

    handle_llm-Keeps : (e : Event) → Keeps (IsConfined first) (handle_llm_event ask format e)
    unfolding handle_llm_event
    handle_llm-Keeps (task_update team id status assignee stage) = asked-Keeps team _
    handle_llm-Keeps (message team from to) = asked-Keeps team _
    handle_llm-Keeps (message_created team id) = asked-Keeps team _
    handle_llm-Keeps e = search rules

-- The events that RunLLM takes from its channel, one after another.
unfoldable pub heard : (String → Exec (List ToolCall)) → (ℕ → String) → List Event → World → World
heard ask format [] w = w
heard ask format (e ∷ rest) w = heard ask format rest (handle_llm_event ask format e w).1

heard-IsConfined :
    (first : Db) (ask : String → Exec (List ToolCall)) (format : ℕ → String)
    → ((s : String) → Keeps (IsConfined first) (ask s))
    → (es : List Event) (w : World) → IsConfined first w.db
    → IsConfined first (heard ask format es w).db
unfolding heard
heard-IsConfined first ask format asking [] w h = h
heard-IsConfined first ask format asking (e ∷ rest) w h =
    heard-IsConfined first ask format asking rest (handle_llm_event ask format e w).1
      ((handle_llm-Keeps first ask format asking e).kept w h)

-- Whatever tools a language model calls, with whatever arguments, on however many events, and
-- whichever statements the driver fails: the teams, agents, repos, workflows with their stages and
-- transitions, reviews, dependencies, comments, attachments and the network allowlist are as they
-- were, and every message with a number from the first new one on has the manager as its sender. The
-- request to the model itself leaves the database alone, and the numbers of the messages that were
-- there are below the first new one.
pub llm_tools-IsConfined :
    (ask : String → Exec (List ToolCall)) (format : ℕ → String)
    → ((P : Db → Type 0) (s : String) → Keeps P (ask s))
    → (es : List Event) (w : World)
    → All (λ (m : Message). m.message_id < w.db.next_message) w.db.messages
    → IsConfined w.db (heard ask format es w).db
llm_tools-IsConfined ask format asking es w before =
    heard-IsConfined w.db ask format (asking _) es w (
      refl,
      refl,
      refl,
      refl,
      refl,
      refl,
      refl,
      refl,
      refl,
      refl,
      refl,
      (omega arith, before-All "manager" w.db.next_message w.db.messages before),
    )
