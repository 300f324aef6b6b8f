-- ===== src/Lib.antt =====
-- Agentary's daemon, modelled from its Go source: the store, the workflow engine, the scheduler, the
-- merge worker, reviews, the git operations, the HTTP server and its
-- event hub, the manager, the sandbox and the agents' tools.
--
-- The program. Teams have agents and tasks. A task may follow a workflow, a graph of stages joined by
-- the outcomes of their turns. In each tick the scheduler (internal/daemon/scheduler.go) takes one
-- runnable task per team, claims it for an agent and hands it to the workflow engine
-- (internal/workflow/engine.go), which runs a turn of the stage: an agent's turn by the runtime, a merge, or
-- a stage that goes on by itself. Reviews (internal/review/review.go) choose a reviewer and move the
-- task on; the merge worker (internal/merge/worker.go) merges the tasks at the stage "Merging" with
-- git (internal/git/git.go). All of them keep their state in the store
-- (internal/store/queries.go, with the prepared statements of internal/store/store.go).
--
-- The HTTP server (internal/httpapi/server.go) is the way in for people and for the CLI: it decodes a
-- request, calls the store and announces what changed to the subscribers of its event hub
-- (internal/httpapi/sse.go).
--
-- The manager (internal/manager/manager.go) answers the messages of its mailbox and the events of tasks
-- that are done, by rules or by a language model (internal/manager/llm.go); internal/sandbox has the deny lists, the guard of writes and the sandbox of a command, internal/mcp/toolkit.go what
-- an agent may call, internal/memory has its files.
--
-- The files. Exec.antt is the shape of all methods: an action on a world that holds the database, the
-- readings of the clock and the random ids still to come, the published events, and which of the
-- statements to come the database driver fails; what was written before an error stays written.
-- Exec/Ensures and Exec/Keeps are rules for what holds after an action whatever fails, Exec/Run what
-- an action does while nothing fails. Store/Model has the tables as lists of rows in the order of
-- insertion; Store/Teams, Workflows, Tasks, TaskLists, TaskLinks, Records, Network and Messages have
-- one function per method of the Store, named as the method is (ClaimTask is claim_task), its SQL statements as
-- functions on the tables; Store/Calls has the methods that write as data, so that a list of calls is
-- one interleaving of any number of callers. The other modules below Store hold proofs, named for what
-- they are about. Host.antt has the parameters: the runtime, which may be any action on the
-- world, and the machine, whose commands and files are arbitrary actions too. Git, Engine, Review,
-- Merge and Scheduler model the files named above, and the modules below them hold their proofs.
-- Hub models the event hub. Http has what the handlers share: a handler takes a world to a response and a
-- world; Http/Input decodes bodies and numbers, Http/Links, Reviews, Tasks, Resources, Network and
-- Pages have one function per endpoint and method, and Http/Routes the mux and the middlewares.
-- Http/Handles and Kept carry invariants of the store over every handler; Http/Safety, Approval and
-- Creation have the results.
-- Engine/Moves says in the words of a workflow's rows where an outcome leads and what a move leaves of
-- a task, and Sandbox/Mounts which mounts a list of bubblewrap's options asks for; the results are stated
-- with these and not with the code's own searches.
-- Manager, Sandbox, Toolkit, Memory and Paths model the files of those names, Store/Demo the data that a first start
-- makes.
-- Tests has a run of each result at a small installation. Prelude has the statements of SQL on lists, the
-- texts and the lemmas that the parts share.
--
-- Choices. A number is a native natural: a version is taken to be at least 0, and a limit is an integer where a request gives it. A time is its
-- Unix second. ORDER BY keeps the order of insertion among equal keys, which SQL leaves open. Whether
-- foreign keys are enforced is a field of the world, since PRAGMA foreign_keys is set for one
-- connection of the pool. Every loop is structural recursion on a list, so no fuel is used. The
-- goroutines of a tick run one after another; a single turn is stated for an arbitrary world.
-- The engine's write to the task's field CurrentStage is not read after it and is left out. The texts
-- of errors are constructors of one type, and the result true of Engine.RunTurn beside an error, which
-- its callers take for granted, is left out.
--
-- A request's body is what encoding/json finds for the names of the fields, and paths are those that the
-- mux of net/http does not redirect. Two requests are served one after the other.
--
-- Not modelled: opening the database, and migrations; the PostgreSQL store, which repeats the
-- statements; the runtimes, which are I/O around what is modelled; the ticker, the semaphore and the telemetry of the
-- scheduler; the log of requests and the wiring of the HTTP server; the CLI, the client and the web UI.
pub mod Prelude
pub mod Exec
pub mod Store
pub mod Host
pub mod Git
pub mod Engine
pub mod Review
pub mod Merge
pub mod Paths
pub mod Memory
pub mod Sandbox
pub mod Manager
pub mod Toolkit
pub mod Hub
pub mod Http
pub mod Scheduler
pub mod Tests
