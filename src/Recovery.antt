-- ===== src/Recovery.antt =====
-- What may follow a failure: the recovery policy and the retry controller of
-- app/decision_intelligence.
pub mod Policy
pub mod Retry
pub mod Once
