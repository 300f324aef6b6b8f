-- ===== src/Store.antt =====
-- internal/store: the tables and the operations on them.
pub mod Model
pub mod Teams
pub mod Workflows
pub mod Tasks
pub mod TaskLinks
pub mod TaskLists
pub mod Records
pub mod Network
pub mod Messages
pub mod Calls
pub mod Reads
pub mod Demo
pub mod Evolves
pub mod TaskInvariant
pub mod History
pub mod Claims
pub mod TaskRuns
pub mod WorkflowRuns
pub mod InitialStage
pub mod DefaultWorkflow
pub mod OwnWorkflow
pub mod NextRunnable
pub mod Listing
pub mod Dependencies
pub mod Winner
