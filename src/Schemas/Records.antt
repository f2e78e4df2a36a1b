-- ===== src/Schemas/Records.antt =====
-- The domain models of app/decision_intelligence/schemas.py. Times are microseconds; costs and
-- confidences, floats in the source, are scaled to whole units; counters are naturals.
use mr_enderson.Base.{ℕ, String, Bool, Option, List}
use mr_enderson.Schemas.Status.{
  DecisionStatus, ActionPlanStatus, ActionStatus, ApprovalRequestStatus,
}
use mr_enderson.Schemas.Policy.{PermissionLevel, RiskLevel, FailureCategory}

-- A JSON value: the `dict[str, Any]` of the inputs and results.
mutual
  pub data Json : Type 0 where
    null : Json
    flag : Bool → Json
    number : ℕ → Json
    text : String → Json
    array : JsonItems → Json
    object : JsonFields → Json

  pub data JsonItems : Type 0 where
    no_items : JsonItems
    item : Json → JsonItems → JsonItems

  pub data JsonFields : Type 0 where
    no_fields : JsonFields
    field : String → Json → JsonFields → JsonFields

pub record Decision : Type 0 where
  pub id : String
  pub project_id : String
  pub title : String
  pub statement : String
  pub status : DecisionStatus
  pub confidence : ℕ
  pub evidence_ids : List String
  pub assumptions : List String
  pub unresolved_gaps : List String
  pub risks : List String
  pub alternatives_considered : List String
  pub rationale : String
  pub comparison_ready : Bool
  pub actionable : Bool
  pub recommended_next_step : Option String
  pub created_by : String
  pub created_at : ℕ

pub record Action : Type 0 where
  pub id : String
  pub action_plan_id : String
  pub sequence : ℕ
  pub action_type : String
  pub title : String
  pub description : String
  pub agent_type : String
  pub tool_name : Option String
  pub inputs : Json
  pub risk_level : RiskLevel
  pub permission_level : PermissionLevel
  pub approval_required : Bool
  pub approval_id : Option String
  pub estimated_cost : Option ℕ
  pub dependencies : List String
  pub expected_result : String
  pub success_criteria : String
  pub verification_method : String
  pub status : ActionStatus
  pub started_at : Option ℕ
  pub completed_at : Option ℕ
  pub result : Option Json
  pub error : Option String
  pub retry_count : ℕ
  pub max_retries : ℕ
  pub superseded_by : Option String

pub record ActionPlan : Type 0 where
  pub id : String
  pub decision_id : String
  pub project_id : Option String
  pub title : String
  pub description : String
  pub actions : List Action
  pub estimated_cost : Option ℕ
  pub estimated_model_calls : Option ℕ
  pub success_criteria : String
  pub failure_policy : String
  pub status : ActionPlanStatus
  pub created_by : String
  pub created_at : ℕ
  pub revision : ℕ

-- The parts from which the text of `risk_summary` is formatted.
pub record RiskSummary : Type 0 where
  pub risk_level : RiskLevel
  pub outcome : String
  pub reasons : List String

pub record ApprovalRequest : Type 0 where
  pub id : String
  pub action_id : String
  pub requested_by : String
  pub reason : String
  pub action_summary : String
  pub risk_summary : RiskSummary
  pub permission_level : PermissionLevel
  pub estimated_cost : Option ℕ
  pub proposed_inputs : Json
  pub expected_effect : String
  pub action_hash : String
  pub status : ApprovalRequestStatus
  pub requested_at : ℕ
  pub decided_at : Option ℕ
  pub decided_by : Option String
  pub expires_at : Option ℕ
  pub consumed : Bool
  pub consumed_at : Option ℕ

pub record ExecutionResult : Type 0 where
  pub action_id : String
  pub tool_name : Option String
  pub started_at : ℕ
  pub completed_at : ℕ
  pub success : Bool
  pub provider_status : Option String
  pub output : Option Json
  pub side_effects : List String
  pub cost : Option ℕ
  pub error_type : Option FailureCategory
  pub error_message : Option String
  pub execution_attempt_id : Option String
  pub error_code : Option String
  pub side_effect_occurred : Bool
  pub adapter_version : Option String

pub record VerificationResult : Type 0 where
  pub action_id : String
  pub method : String
  pub expected : Option String
  pub observed : Option String
  pub passed : Bool
  pub confidence : ℕ
  pub issues : List String
  pub verified_at : ℕ
