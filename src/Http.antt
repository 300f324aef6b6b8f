-- ===== src/Http.antt =====
-- internal/httpapi/server.go: what its handlers share. A handler reads a request and the world of
-- the Store's methods, and answers.
pub mod Input
pub mod Links
pub mod Reviews
pub mod Tasks
pub mod Resources
pub mod Network
pub mod Pages
pub mod Routes
pub mod Handles
pub mod Writes
pub mod Kept
pub mod Statuses
pub mod Safety
pub mod Approval
pub mod Creation
use agentary.Prelude.{ℕ, ℤ, String, Option, none, some, Bool, List}
use agentary.Store.Model.{
  Team, Agent, Task, TaskComment, TaskAttachment, TaskReview, Repo, Workflow, Message,
}
use agentary.Store.Teams.{TeamSummary}
use agentary.Exec.{Error, Result, ok, err, World, Exec}
use agentary.Memory.{Files}
use agentary.Host.{Host, AgentConfig}

-- What encoding/json finds for a field of a struct: nothing or null, a string, a number written
-- as an integer, or a value of another kind.
pub data Json : Type 0 where
  nothing : Json
  text : String → Json
  number : ℤ → Json
  other : Json

-- `query` is r.URL.Query().Get, "" for a parameter that is not there. `body` gives the values of
-- the body's object by the names of the fields; for the body `null`, which
-- decodes as an object without fields, every value is `nothing`; it is `none` if the body
-- starts with neither within the first MiB, which the body's limit lets through.
pub record Request : Type 0 where
  pub method : String
  pub path : String
  pub query : String → String
  pub api_key_header : String
  pub body : Option (String → Json)

-- The configuration that handleBootstrap and /config answer.
pub record Config : Type 0 where
  pub hc_home : String
  pub bootstrap_id : String

pub record Bootstrap : Type 0 where
  pub config : Config
  pub teams : List TeamSummary
  pub initial_team : Option String
  pub tasks : List Task
  pub agents : List Agent
  pub repos : List Repo
  pub workflows : List Workflow
  pub allowlist : List String

-- The four gauges of /metrics.
pub record TaskCounts : Type 0 where
  pub todo : ℕ
  pub in_progress : ℕ
  pub finished : ℕ
  pub failures : ℕ

-- What a handler writes: `failure` and `failure_of` are {"error": …} of a text and of an error, `number_of`
-- is an object of one number under its key.
pub data Body : Type 0 where
  failure : String → Body
  failure_of : Error → Body
  accepted : Body
  health : Body
  staged_at : String → Body
  updated_task : ℕ → Body
  number_of : String → ℕ → Body
  team_list : List TeamSummary → Body
  one_team : Team → Body
  task_list : List Task → Body
  one_task : Task → Body
  comment_list : List TaskComment → Body
  attachment_list : List TaskAttachment → Body
  depends_on : List ℕ → Body
  diff_text : String → Body
  review_list : List TaskReview → Body
  agent_list : List Agent → Body
  agent_config : String → ℕ → Body
  content : String → Body
  repo_list : List Repo → Body
  workflow_list : List Workflow → Body
  message_list : List Message → Body
  allowed_domains : List String → Body
  configuration : Config → Body
  bootstrap : Bootstrap → Body
  metrics : TaskCounts → Body
  event_stream : Body
  web_ui : Body
  empty : Body

pub record Response : Type 0 where
  pub status : ℕ
  pub body : Body

abbrev pub Handler : Type 0
Handler = World → Response × World

-- What NewApp closes over: its options, the home as a path, and the machine.
pub record Server : Type 0 where
  pub home : String
  pub api_key : String
  pub dev : Bool
  pub host : Host
  pub metrics_handler : Option Handler
  pub home_path : List String
  pub files : Files

-- writeJSON, whose status is 200
abbrev pub write_json : Body → Handler
write_json b w = (record { status = 200; body = b }, w)

-- writeJSONError
abbrev pub write_json_error : ℕ → String → Handler
write_json_error code what w = (record { status = code; body = failure what }, w)

-- writeJSONError(w, code, err.Error())
abbrev pub refuse : ℕ → Error → Handler
refuse code e w = (record { status = code; body = failure_of e }, w)

abbrev pub method_not_allowed : Handler
method_not_allowed = write_json_error 405 "method not allowed"

abbrev pub not_found : Handler
not_found = write_json_error 404 "not found"

module _ {A : Type 0} where
  -- What follows a call, where its error is answered.
  abbrev pub answer : ℕ → (A → Handler) → Result A → Handler
  answer code f (ok a) = f a
  answer code f (err e) = refuse code e

  -- `x, err := m; if err != nil { writeJSONError(w, code, err.Error()); return }`
  abbrev pub checked : ℕ → Exec A → (A → Handler) → Handler
  checked code m f w = let (r, w') = m w in answer code f r w'

  -- The same, where the result is the answer.
  abbrev pub listed : ℕ → Exec A → (A → Body) → Handler
  listed code m body = checked code m λ a. write_json (body a)

  -- What the call returns beside an error that is not looked at.
  abbrev pub result_or : A → Result A → A
  result_or zero (ok a) = a
  result_or zero (err e) = zero

  -- `x, _ := m`, with the value that m returns beside an error.
  abbrev pub unchecked : A → Exec A → (A → Handler) → Handler
  unchecked zero m f w = let (r, w') = m w in f (result_or zero r) w'

  -- `_ = m`
  abbrev pub silently : Exec A → Handler → Handler
  silently m h w = let (r, w') = m w in h w'

  -- `if err := json.NewDecoder(r.Body).Decode(&body); err != nil { … }`
  abbrev pub decoded : Option A → (A → Handler) → Handler
  decoded none f = write_json_error 400 "invalid json"
  decoded (some a) f = f a
