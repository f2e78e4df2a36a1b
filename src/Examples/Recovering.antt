-- ===== src/Examples/Recovering.antt =====
-- Decisions, the recovery policy and the retry controller at concrete values.
use mr_enderson.Base.{
  ◌≡◌, refl, ◌≢◌, ◌↔◌, ◌<◌, ◌⊎◌, true, false, [], ◌∷◌, arith, ok, none, some, string_eq, nat_eq,
}
use mr_enderson.Schemas.{
  Decision, DecisionStatus, decision_status_eq, FailureCategory, failure_category_eq, ActionStatus,
  action_status_eq,
}
use mr_enderson.DecisionRules.Rules.{apply_decision_transition}
use mr_enderson.DecisionRules.Readiness.{apply_all, ready_was_compared}
use mr_enderson.Recovery.Policy.{evaluate_recovery, is_potentially_retryable, retry, retry_iff}
use mr_enderson.Recovery.Retry.{
  ActionRow, Rows, authorize_retry, update_if_version_matches, is_retry_exhausted,
}
use mr_enderson.Recovery.Once.{authorized_once}

abbrev draft : Decision
draft = record {
  id = "d1";
  project_id = "p1";
  title = "Launch";
  statement = "Launch in May";
  status = DecisionStatus.proposed;
  confidence = 80;
  evidence_ids = [];
  assumptions = [];
  unresolved_gaps = [];
  risks = [];
  alternatives_considered = [];
  rationale = "";
  comparison_ready = true;
  actionable = false;
  recommended_next_step = none;
  created_by = "strategy";
  created_at = 0;
}

abbrev ready_draft : Decision
ready_draft = record draft { status = DecisionStatus.ready_for_action }

abbrev agreed : Decision
agreed = record draft { status = DecisionStatus.approved }

agreed_path :
    apply_all draft (DecisionStatus.ready_for_action ∷ DecisionStatus.approved ∷ []) ≡ ok agreed
unfolding apply_all apply_decision_transition
agreed_path = refl

ready_was_compared_example : agreed.comparison_ready ≡ true
ready_was_compared_example =
    ready_was_compared (DecisionStatus.ready_for_action ∷ DecisionStatus.approved ∷ []) draft agreed
      refl agreed_path refl

retry_iff_example :
    (((evaluate_recovery FailureCategory.tool false 1 2 false true).decision ≡ retry) ↔ (
      ((FailureCategory.tool ≡ FailureCategory.transient)
        ⊎ (FailureCategory.tool ≡ FailureCategory.tool))
      × (false ≡ false)
      × (1 < 2)
      × (false ≡ false)))
    × (((evaluate_recovery FailureCategory.tool false 1 2 false true).retry_permitted ≡ true)
        ↔ ((evaluate_recovery FailureCategory.tool false 1 2 false true).decision ≡ retry))
    × ((evaluate_recovery FailureCategory.tool false 1 2 false true).decision ≡ retry
        → is_potentially_retryable FailureCategory.tool ≡ true)
retry_iff_example = retry_iff FailureCategory.tool false 1 2 false true

abbrev failed_row : ActionRow
failed_row = record {
  id = "a1";
  status = ActionStatus.failed;
  retry_count = 0;
  max_retries = 2;
  version = 7;
  last_error = some "timeout";
  started_at = some 10;
  completed_at = some 20;
}

abbrev again : ActionRow
again = record failed_row {
  status = ActionStatus.validated;
  retry_count = 1;
  version = 8;
  last_error = none;
  started_at = none;
  completed_at = none;
}

abbrev rows : Rows
rows = ("a1", failed_row) ∷ []

abbrev rows_after : Rows
rows_after = ("a1", again) ∷ []

first_retry : authorize_retry rows failed_row ≡ ok (again, rows_after)
unfolding authorize_retry update_if_version_matches is_retry_exhausted
first_retry = refl

authorized_once_example : authorize_retry rows_after failed_row ≢ ok (again, rows_after)
authorized_once_example =
    authorized_once rows rows_after rows_after failed_row again failed_row again refl (omega arith)
      first_retry
