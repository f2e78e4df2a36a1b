-- ===== src/Schemas/Policy.antt =====
-- Permission and risk levels (app/database/models.py), and the failure taxonomy
-- (app/decision_intelligence/schemas.py).
use mr_enderson.Base.{
  Eq, eq_of_discrete, String, Option, none, some, ◌==◌, string_eq, if◌then◌else◌,
}

pub data PermissionLevel : Type 0 where
  read write external_action financial_action admin : PermissionLevel

pub data RiskLevel : Type 0 where
  low medium high critical : RiskLevel

pub data FailureCategory : Type 0 where
  transient validation permission approval tool verification budget security unknown :
      FailureCategory

pub data ExecutorFailureCode : Type 0 where
  validation_failure permission_failure approval_failure adapter_not_found : ExecutorFailureCode
  sandbox_violation tool_execution_failure verification_failure : ExecutorFailureCode
  internal_failure : ExecutorFailureCode

abbrev pub PermissionLevel-discrete : Discrete PermissionLevel
PermissionLevel-discrete = hlevel

abbrev pub RiskLevel-discrete : Discrete RiskLevel
RiskLevel-discrete = hlevel

abbrev pub FailureCategory-discrete : Discrete FailureCategory
FailureCategory-discrete = hlevel

instance abbrev pub permission_level_eq : Eq PermissionLevel
permission_level_eq = eq_of_discrete PermissionLevel-discrete

instance abbrev pub risk_level_eq : Eq RiskLevel
risk_level_eq = eq_of_discrete RiskLevel-discrete

instance abbrev pub failure_category_eq : Eq FailureCategory
failure_category_eq = eq_of_discrete FailureCategory-discrete

-- `EXECUTOR_FAILURE_CATEGORY`
unfoldable pub executor_failure_category : ExecutorFailureCode → FailureCategory
executor_failure_category ExecutorFailureCode.validation_failure = FailureCategory.validation
executor_failure_category ExecutorFailureCode.permission_failure = FailureCategory.permission
executor_failure_category ExecutorFailureCode.approval_failure = FailureCategory.approval
executor_failure_category ExecutorFailureCode.adapter_not_found = FailureCategory.tool
executor_failure_category ExecutorFailureCode.sandbox_violation = FailureCategory.security
executor_failure_category ExecutorFailureCode.tool_execution_failure = FailureCategory.tool
executor_failure_category ExecutorFailureCode.verification_failure = FailureCategory.verification
executor_failure_category ExecutorFailureCode.internal_failure = FailureCategory.unknown

-- The value of each code.
unfoldable pub failure_code_value : ExecutorFailureCode → String
failure_code_value ExecutorFailureCode.validation_failure = "VALIDATION_FAILURE"
failure_code_value ExecutorFailureCode.permission_failure = "PERMISSION_FAILURE"
failure_code_value ExecutorFailureCode.approval_failure = "APPROVAL_FAILURE"
failure_code_value ExecutorFailureCode.adapter_not_found = "ADAPTER_NOT_FOUND"
failure_code_value ExecutorFailureCode.sandbox_violation = "SANDBOX_VIOLATION"
failure_code_value ExecutorFailureCode.tool_execution_failure = "TOOL_EXECUTION_FAILURE"
failure_code_value ExecutorFailureCode.verification_failure = "VERIFICATION_FAILURE"
failure_code_value ExecutorFailureCode.internal_failure = "INTERNAL_FAILURE"

-- `ExecutorFailureCode(value)`; `none` is its ValueError.
unfoldable pub failure_code_of : String → Option ExecutorFailureCode
failure_code_of value =
    if value == "VALIDATION_FAILURE"
    then some ExecutorFailureCode.validation_failure
    else if value == "PERMISSION_FAILURE"
    then some ExecutorFailureCode.permission_failure
    else if value == "APPROVAL_FAILURE"
    then some ExecutorFailureCode.approval_failure
    else if value == "ADAPTER_NOT_FOUND"
    then some ExecutorFailureCode.adapter_not_found
    else if value == "SANDBOX_VIOLATION"
    then some ExecutorFailureCode.sandbox_violation
    else if value == "TOOL_EXECUTION_FAILURE"
    then some ExecutorFailureCode.tool_execution_failure
    else if value == "VERIFICATION_FAILURE"
    then some ExecutorFailureCode.verification_failure
    else if value == "INTERNAL_FAILURE"
    then some ExecutorFailureCode.internal_failure
    else none
