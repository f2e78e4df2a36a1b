-- ===== src/PlanQa.antt =====
-- The report on the outcome of a plan (app/decision_intelligence/plan_qa.py).
pub mod Report
pub mod Classified
pub mod Truthful
