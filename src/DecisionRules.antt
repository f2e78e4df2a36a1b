-- ===== src/DecisionRules.antt =====
-- The lifecycle of decisions and the boundary to plans
-- (app/decision_intelligence/decision_rules.py).
pub mod Rules
pub mod Readiness
