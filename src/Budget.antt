-- ===== src/Budget.antt =====
-- Durable budgets (app/decision_intelligence/budget.py).
pub mod Ledger
pub mod Consume
pub mod Limits
pub mod Overspend
pub mod Replay
