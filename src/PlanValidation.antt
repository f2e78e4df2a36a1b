-- ===== src/PlanValidation.antt =====
-- The structural checks of a plan (app/decision_intelligence/plan_validation.py).
pub mod Cycles
pub mod Checks
pub mod Walks
pub mod Search
pub mod Acyclic
pub mod Clean
pub mod Runnable
