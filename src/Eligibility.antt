-- ===== src/Eligibility.antt =====
-- Which action of a plan may go next (app/decision_intelligence/action_eligibility.py).
pub mod Evaluate
pub mod Ready
