-- ===== src/Examples.antt =====
-- Tests by evaluation, and the theorems at concrete inputs.
mod Samples
mod Machines
mod AuthorityCases
mod Permissions
mod Approvals
mod Recovering
mod Budgets
mod Eligible
mod Missions
mod Plans
mod Executions
mod Routes
mod Reports
