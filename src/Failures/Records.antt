-- ===== src/Failures/Records.antt =====
-- Classifying a failure, building its record, and writing it to and reading it from the table
-- (app/decision_intelligence/failure_intelligence.py; `FailureRecord` of app/database/models.py and
-- `FailureRecordRepository` of app/database/repositories.py). Ids and times are arguments, and so is
-- what the database driver makes of a time: SQLite's gives a datetime back without its zone.
use mr_enderson.Base.{
  ℕ, String, Bool, false, Option, none, some, List, [], ◌∷◌, ◌++◌, ◌==◌, string_eq, keep, leb,
  sorted, if◌then◌else◌, map, any, Outcome, ok, raise_if, ◌>>◌,
}
use mr_enderson.Authority.Contracts.{Datetime}
use mr_enderson.Schemas.{
  Action, ExecutionResult, FailureCategory, executor_failure_category, failure_code_of,
}

-- The domain record.
pub record FailureRecord : Type 0 where
  pub id : String
  pub action_id : String
  pub plan_id : String
  pub execution_attempt_id : Option String
  pub category : FailureCategory
  pub code : Option String
  pub message : Option String
  pub side_effect_occurred : Bool
  pub retry_safe : Bool
  pub reconciliation_required : Bool
  pub retry_count_at_failure : ℕ
  pub created_at : Datetime

-- The row: its category is a text.
pub record FailureRow : Type 0 where
  pub id : String
  pub action_id : String
  pub plan_id : String
  pub execution_attempt_id : Option String
  pub category : String
  pub code : Option String
  pub message : Option String
  pub side_effect_occurred : Bool
  pub retry_safe : Bool
  pub reconciliation_required : Bool
  pub retry_count_at_failure : ℕ
  pub created_at : Datetime

-- The value of each category, and `FailureCategory(value)`, whose ValueError is `none`.
unfoldable pub category_value : FailureCategory → String
category_value FailureCategory.transient = "TRANSIENT"
category_value FailureCategory.validation = "VALIDATION"
category_value FailureCategory.permission = "PERMISSION"
category_value FailureCategory.approval = "APPROVAL"
category_value FailureCategory.tool = "TOOL"
category_value FailureCategory.verification = "VERIFICATION"
category_value FailureCategory.budget = "BUDGET"
category_value FailureCategory.security = "SECURITY"
category_value FailureCategory.unknown = "UNKNOWN"

abbrev pub category_among : String → List FailureCategory → Option FailureCategory
category_among value [] = none
category_among value (c ∷ rest) =
    if value == category_value c then some c else category_among value rest

abbrev pub all_categories : List FailureCategory
all_categories =
    FailureCategory.transient ∷ FailureCategory.validation ∷ FailureCategory.permission
    ∷ FailureCategory.approval ∷ FailureCategory.tool ∷ FailureCategory.verification
    ∷ FailureCategory.budget ∷ FailureCategory.security ∷ FailureCategory.unknown ∷ []

unfoldable pub category_of : String → Option FailureCategory
unfolding category_value
category_of value = category_among value all_categories

abbrev pub or_category : Option FailureCategory → FailureCategory → FailureCategory
or_category none fallback = fallback
or_category (some c) fallback = c

-- An absent or empty code is no code, nor is one that names no `ExecutorFailureCode`.
unfoldable pub category_of_code : Option String → Option FailureCategory
category_of_code none = none
category_of_code (some code) =
    if code == ""
    then none
    else (elim (failure_code_of code) [ none ↦ none | some c ↦ some (executor_failure_category c) ])

unfoldable pub classify_failure : Option ExecutionResult → FailureCategory → FailureCategory
unfolding category_of_code
classify_failure none fallback = fallback
classify_failure (some r) fallback =
    or_category (category_of_code r.error_code) (or_category r.error_type fallback)

-- `text or None`
abbrev pub or_none : Option String → Option String
or_none none = none
or_none (some text) = if text == "" then none else some text

abbrev pub message_of : Option ExecutionResult → Action → Option String
message_of none action = action.error
message_of (some r) action = r.error_message

abbrev pub attempt_of : Option ExecutionResult → Option String
attempt_of none = none
attempt_of (some r) = r.execution_attempt_id

abbrev pub code_of : Option ExecutionResult → Option String
code_of none = none
code_of (some r) = r.error_code

abbrev pub effect_of : Option ExecutionResult → Bool
effect_of none = false
effect_of (some r) = r.side_effect_occurred

unfoldable pub build_failure_record :
    (fresh : String) (now : Datetime)
    → Action
    → (plan_id : String) → Option ExecutionResult
    → (retry_safe reconciliation_required : Bool) → FailureCategory
    → FailureRecord
unfolding classify_failure
build_failure_record fresh now action plan_id result retry_safe reconciliation_required fallback =
    record {
      id = fresh;
      action_id = action.id;
      plan_id = plan_id;
      execution_attempt_id = attempt_of result;
      category = classify_failure result fallback;
      code = code_of result;
      message = or_none (message_of result action);
      side_effect_occurred = effect_of result;
      retry_safe = retry_safe;
      reconciliation_required = reconciliation_required;
      retry_count_at_failure = action.retry_count;
      created_at = now;
    }

unfoldable pub failure_record_to_fields : FailureRecord → FailureRow
unfolding category_value
failure_record_to_fields r = record {
  id = r.id;
  action_id = r.action_id;
  plan_id = r.plan_id;
  execution_attempt_id = r.execution_attempt_id;
  category = category_value r.category;
  code = r.code;
  message = r.message;
  side_effect_occurred = r.side_effect_occurred;
  retry_safe = r.retry_safe;
  reconciliation_required = r.reconciliation_required;
  retry_count_at_failure = r.retry_count_at_failure;
  created_at = r.created_at;
}

abbrev pub with_category : FailureRow → Option FailureCategory → Option FailureRecord
with_category row none = none
with_category row (some category) = some (record {
  id = row.id;
  action_id = row.action_id;
  plan_id = row.plan_id;
  execution_attempt_id = row.execution_attempt_id;
  category = category;
  code = row.code;
  message = row.message;
  side_effect_occurred = row.side_effect_occurred;
  retry_safe = row.retry_safe;
  reconciliation_required = row.reconciliation_required;
  retry_count_at_failure = row.retry_count_at_failure;
  created_at = row.created_at;
})

-- `none` where the text of the category is unknown, the ValueError of the source.
unfoldable pub row_to_failure_record : FailureRow → Option FailureRecord
unfolding category_of
row_to_failure_record row = with_category row (category_of row.category)

-- A row whose primary key is taken.
pub data IntegrityError : Type 0 where
  duplicate_id : String → IntegrityError

-- The table, in the order of its insertions.
unfoldable pub create_failure :
    List FailureRow → FailureRow → Outcome IntegrityError (List FailureRow)
create_failure table row = do
  raise_if (any (λ old. old.id == row.id) table) (duplicate_id row.id)
  ok (table ++ (row ∷ []))

unfoldable pub persist_failure_record :
    List FailureRow → FailureRecord → Outcome IntegrityError (List FailureRow)
unfolding create_failure failure_record_to_fields
persist_failure_record table r = create_failure table (failure_record_to_fields r)

abbrev pub earlier : FailureRow → FailureRow → Bool
earlier a b = leb a.created_at.instant b.created_at.instant

module _ (stored : Datetime → Datetime) where
  -- A row as the driver gives it back.
  abbrev pub fetched : FailureRow → FailureRow
  fetched row = record row { created_at = stored row.created_at }

  unfoldable pub list_for_action : List FailureRow → String → List FailureRow
  list_for_action table action_id =
      sorted earlier (map fetched (keep (λ row. row.action_id == action_id) table))

  unfoldable pub list_for_plan : List FailureRow → String → List FailureRow
  list_for_plan table plan_id =
      sorted earlier (map fetched (keep (λ row. row.plan_id == plan_id) table))
