-- ===== src/Schemas.antt =====
-- The domain contracts of app/decision_intelligence/schemas.py, and the enums of
-- app/database/models.py that they use.
mod Status
mod Policy
mod Records
pub use Status.*
unfoldable pub use Policy.{executor_failure_category, failure_code_value, failure_code_of}
pub use Policy.*
pub use Records.*
