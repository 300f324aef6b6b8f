-- ===== src/Toolkit/Identity.antt =====
-- Whom an agent's messages come from, and how much its lists hold.
use agentary.Prelude.{
  ℕ, pos, ℤ, String, ◌≡◌, refl, ◌≤◌, ◌<◌, List, [], ◌∷◌, length, All, All-snoc, arith,
}
use agentary.Store.Model.{Message, Task, Db}
use agentary.Store.Messages.{create_message, insert_message}
use agentary.Store.TaskLists.{list_tasks}
use agentary.Store.Listing.{IsWithin, list_tasks-IsWithin}
use agentary.Store.Reads.{get_team_by_name-Keeps}
use agentary.Exec.{World, Result, ok, err, sql}
use agentary.Exec.Keeps.{Keeps, Keeps-sql, keeps_rules}
use agentary.Toolkit.{Toolkit, send_message, list_team_tasks, limit_or}

-- Every message is from the agent, or was there with the number below `next`.
abbrev pub FromAgent : String → ℕ → Db → Type 0
FromAgent agent next d =
    (next ≤ d.next_message)
    × All (λ (m : Message). (next ≤ m.message_id) → m.sender ≡ agent) d.messages

insert_message-FromAgent :
    (agent : String) (next : ℕ) (team recipient content : String) (at : ℕ)
    → Keeps (FromAgent agent next) (sql (insert_message team agent recipient content at))
unfolding insert_message
insert_message-FromAgent agent next team recipient content at =
    Keeps-sql _ (λ d h. (omega (arith, h.0), All-snoc _ d.messages _ h.1 (λ n. refl)))

send-Keeps :
    (t : Toolkit) (next : ℕ) (recipient content : String)
    → Keeps (FromAgent t.agent_name next) (send_message t recipient content)
unfolding send_message create_message
send-Keeps t next recipient content =
    search (keeps_rules, get_team_by_name-Keeps, insert_message-FromAgent)

-- One message after another, to these recipients with these contents.
unfoldable pub send_all : Toolkit → List (String × String) → World → World
send_all t [] w = w
send_all t (m ∷ rest) w = send_all t rest (send_message t m.0 m.1 w).1

send_all-FromAgent :
    (t : Toolkit) (next : ℕ) (ms : List (String × String)) (w : World)
    → FromAgent t.agent_name next w.db
    → FromAgent t.agent_name next (send_all t ms w).db
unfolding send_all
send_all-FromAgent t next [] w h = h
send_all-FromAgent t next (m ∷ rest) w h =
    send_all-FromAgent t next rest (send_message t m.0 m.1 w).1
      ((send-Keeps t next m.0 m.1).kept w h)

pub before-All :
    (agent : String) (next : ℕ) (ms : List Message)
    → All (λ (m : Message). m.message_id < next) ms
    → All (λ (m : Message). next ≤ m.message_id → m.sender ≡ agent) ms
before-All agent next [] h = tt
before-All agent next (m ∷ ms) h =
    ((λ n. absurd (omega (arith, h.0, n))), before-All agent next ms h.1)

-- An agent's tool sends no message in another's name: whatever recipients and contents an agent
-- gives, one message after another, and whichever statements the driver fails, every message with a
-- number from the first new one on has the agent as its sender. The numbers of the messages that
-- were there are below it.
pub no_impersonation :
    (t : Toolkit) (ms : List (String × String)) (w : World)
    → All (λ (m : Message). m.message_id < w.db.next_message) w.db.messages
    → All
        (λ (m : Message). w.db.next_message ≤ m.message_id → m.sender ≡ t.agent_name)
        (send_all t ms w).db.messages
no_impersonation t ms w h =
    (send_all-FromAgent t w.db.next_message ms w
      (omega arith, before-All t.agent_name w.db.next_message w.db.messages h)).1

-- What an agent's list of tasks may be: at most 100 tasks.
abbrev pub AtMostHundred : Result (List Task) → Type 0
AtMostHundred (ok ts) = length ts ≤ 100
AtMostHundred (err e) = Unit

-- An agent's tool lists at most 100 tasks, whatever its limit is, 0 and below 0 included.
pub list_team_tasks-bounded :
    (t : Toolkit) (limit : ℤ) (w : World) → AtMostHundred (list_team_tasks t limit w).0
unfolding list_team_tasks
list_team_tasks-bounded t limit w =
    within (list_tasks t.team_name (pos (limit_or 500 limit)) w).0
      (list_tasks-IsWithin w t.team_name (limit_or 500 limit))
  where
    within : (r : Result (List Task)) → IsWithin (limit_or 500 limit) r → AtMostHundred r
    within (ok ts) h = h.0
    within (err e) h = tt
