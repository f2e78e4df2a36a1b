-- ===== src/Executor.antt =====
-- The execution of one action (app/decision_intelligence/action_executor.py), with the registry of
-- adapters of tool_adapters.py and the durable approvals of app/database/repositories.py.
pub mod Adapters
pub mod Approvals
pub mod Outcomes
pub mod Gate
pub mod Execute
pub mod Moves
pub mod Runs
pub mod Dispatches
pub mod Traces
pub mod Cleared
pub mod Completed
pub mod Raises
pub mod Durable
