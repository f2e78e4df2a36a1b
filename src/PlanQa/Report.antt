-- ===== src/PlanQa/Report.antt =====
-- `_classify` and `build_qa_report` of app/decision_intelligence/plan_qa.py. The texts of `detail`
-- are left out.
use mr_enderson.Base.{
  ℕ, ◌+◌, String, Bool, ◌&&◌, not, none, some, List, [], ◌∷◌, Eq, eq_of_discrete, ◌==◌, string_eq,
  contains, keep, all, any, is_empty, is_some, map, Dict, lookup, insert, nat_beq, ltb, sorted,
  codes_le, if◌then◌else◌,
}
use mr_enderson.Schemas.{
  Action, ActionPlan, ActionStatus, action_status_eq, PermissionLevel, permission_level_eq,
}
use mr_enderson.Authority.Identifiers.{codes}
use mr_enderson.Eligibility.Evaluate.{
  ActionEligibility, action_eligibility_eq, evaluate_action_eligibility, waiting_for_dependencies,
  blocked_by_failed_dependency, blocked_by_rejected_dependency, reconciliation_required,
}
use mr_enderson.PlanValidation.Checks.{index_actions}

pub data PlanQaStatus : Type 0 where
  completed waiting_for_approval blocked_by_dependency failed : PlanQaStatus
  superseded not_executed human_review : PlanQaStatus

abbrev pub PlanQaStatus-discrete : Discrete PlanQaStatus
PlanQaStatus-discrete = hlevel

instance abbrev pub plan_qa_status_eq : Eq PlanQaStatus
plan_qa_status_eq = eq_of_discrete PlanQaStatus-discrete

pub record ActionQaEntry : Type 0 where
  pub action_id : String
  pub title : String
  pub action_type : String
  pub permission_level : PermissionLevel
  pub status : PlanQaStatus

pub record PlanQaReport : Type 0 where
  pub plan_id : String
  pub plan_revision : ℕ
  pub generated_at : ℕ
  pub entries : List ActionQaEntry
  pub counts : Dict PlanQaStatus ℕ
  pub fully_completed : Bool
  pub external_action_executed : Bool
  pub financial_action_executed : Bool

-- `_TERMINAL_BAD`, `_HUMAN_REVIEW_STATUSES` and `_BLOCKED_ELIGIBILITY`
abbrev pub terminal_bad : List ActionStatus
terminal_bad = ActionStatus.failed ∷ ActionStatus.rejected ∷ []

abbrev pub human_review_statuses : List ActionStatus
human_review_statuses = ActionStatus.cancelled ∷ ActionStatus.blocked ∷ []

abbrev pub blocked_eligibility : List ActionEligibility
blocked_eligibility =
    waiting_for_dependencies ∷ blocked_by_failed_dependency ∷ blocked_by_rejected_dependency ∷ []

abbrev pub classify_eligibility : ActionEligibility → PlanQaStatus
classify_eligibility eligibility =
    if contains eligibility blocked_eligibility
    then blocked_by_dependency
    else if eligibility == reconciliation_required
    then human_review
    else not_executed

unfoldable pub classify : Action → Dict String Action → PlanQaStatus
classify action actions_by_id =
    if is_some action.superseded_by
    then superseded
    else if action.status == ActionStatus.completed
    then completed
    else if action.status == ActionStatus.waiting_for_approval
    then waiting_for_approval
    else if contains action.status terminal_bad
    then failed
    else if contains action.status human_review_statuses
    then human_review
    else classify_eligibility (evaluate_action_eligibility action actions_by_id)

-- The order of `(a.sequence, a.id)`.
abbrev pub by_sequence : Action → Action → Bool
by_sequence a b =
    if nat_beq a.sequence b.sequence
    then codes_le (codes a.id) (codes b.id)
    else ltb a.sequence b.sequence

unfoldable pub entry_of : Dict String Action → Action → ActionQaEntry
unfolding classify
entry_of actions_by_id action = record {
  action_id = action.id;
  title = action.title;
  action_type = action.action_type;
  permission_level = action.permission_level;
  status = classify action actions_by_id;
}

-- `Counter`
abbrev pub count_statuses : List ActionQaEntry → Dict PlanQaStatus ℕ → Dict PlanQaStatus ℕ
count_statuses [] counts = counts
count_statuses (e ∷ rest) counts =
    count_statuses rest
      (insert e.status (elim (lookup e.status counts) [ none ↦ 1 | some n ↦ n + 1 ]) counts)

abbrev pub is_active : ActionQaEntry → Bool
is_active e = not (e.status == superseded)

abbrev pub is_completed : ActionQaEntry → Bool
is_completed e = e.status == completed

abbrev pub external_or_higher : List PermissionLevel
external_or_higher =
    PermissionLevel.external_action ∷ PermissionLevel.financial_action ∷ PermissionLevel.admin ∷ []

unfoldable pub report_of : ActionPlan → (revision now : ℕ) → List ActionQaEntry → PlanQaReport
report_of plan revision now entries = record {
  plan_id = plan.id;
  plan_revision = revision;
  generated_at = now;
  entries = entries;
  counts = count_statuses entries [];
  fully_completed =
      not (is_empty (keep is_active entries)) && all is_completed (keep is_active entries);
  external_action_executed =
      any (λ e. is_completed e && contains e.permission_level external_or_higher) entries;
  financial_action_executed =
      any (λ e. is_completed e && e.permission_level == PermissionLevel.financial_action) entries;
}

unfoldable pub build_qa_report : ActionPlan → (revision now : ℕ) → PlanQaReport
unfolding report_of entry_of
build_qa_report plan revision now =
    report_of plan revision now
      (map (entry_of (index_actions plan.actions [])) (sorted by_sequence plan.actions))
