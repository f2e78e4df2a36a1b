-- ===== src/Recovery/Policy.antt =====
-- app/decision_intelligence/recovery_policy.py and retry_policy.py. The text of `explanation` is
-- left out.
use mr_enderson.Base.{
  ℕ, ◌<◌, ◌≡◌, ◌↔◌, ◌⊎◌, Bool, true, false, List, [], ◌∷◌, arith, ◌==◌, contains, leb,
  if◌then◌else◌,
}
use mr_enderson.Schemas.{FailureCategory, failure_category_eq}

pub data RecoveryDecision : Type 0 where
  retry replan wait_for_approval reconcile human_review stop : RecoveryDecision
  budget_exhausted security_blocked no_action : RecoveryDecision

-- The texts that `evaluate_recovery` appends to `reason_codes`.
pub data RecoveryReason : Type 0 where
  category_of : FailureCategory → RecoveryReason
  security_never_retries budget_is_exhausted permission_policy_must_be_resolved : RecoveryReason
  approval_cannot_be_manufactured approval_required_no_automatic_retry : RecoveryReason
  side_effect_may_have_occurred retry_budget_exhausted side_effect_known_absent : RecoveryReason
  retry_budget_available validation_candidate_for_replan replan_budget_exhausted : RecoveryReason
  verification_must_reconcile_first unknown_never_blindly_retries : RecoveryReason

pub record RecoveryEvaluation : Type 0 where
  pub decision : RecoveryDecision
  pub reason_codes : List RecoveryReason
  pub retry_permitted : Bool
  pub replan_permitted : Bool

-- `_DEFAULT_DECISION_BY_CATEGORY`
unfoldable pub default_decision_by_category : FailureCategory → RecoveryDecision
default_decision_by_category FailureCategory.transient = reconcile
default_decision_by_category FailureCategory.tool = reconcile
default_decision_by_category FailureCategory.validation = replan
default_decision_by_category FailureCategory.permission = stop
default_decision_by_category FailureCategory.approval = stop
default_decision_by_category FailureCategory.verification = reconcile
default_decision_by_category FailureCategory.budget = budget_exhausted
default_decision_by_category FailureCategory.security = security_blocked
default_decision_by_category FailureCategory.unknown = reconcile

-- `_RETRY_CANDIDATE_CATEGORIES`
abbrev pub retry_candidate_categories : List FailureCategory
retry_candidate_categories = FailureCategory.transient ∷ FailureCategory.tool ∷ []

-- An evaluation that permits neither a retry nor a replan.
abbrev pub evaluated : FailureCategory → RecoveryDecision → List RecoveryReason → RecoveryEvaluation
evaluated category decision reasons = record {
  decision = decision;
  reason_codes = category_of category ∷ reasons;
  retry_permitted = false;
  replan_permitted = false;
}

-- The branch for the categories in which a retry is conceivable.
unfoldable pub evaluate_candidate :
    FailureCategory
    → (side_effect_occurred : Bool) → (retry_count max_retries : ℕ) → RecoveryEvaluation
evaluate_candidate category side_effect_occurred retry_count max_retries =
    if side_effect_occurred
    then evaluated category reconcile (side_effect_may_have_occurred ∷ [])
    else if leb max_retries retry_count
    then evaluated category budget_exhausted (retry_budget_exhausted ∷ [])
    else record (evaluated category retry
        (side_effect_known_absent ∷ retry_budget_available ∷ [])) { retry_permitted = true }

unfoldable pub evaluate_recovery :
    FailureCategory
    → (side_effect_occurred : Bool) → (retry_count max_retries : ℕ)
    → (approval_required replan_permitted : Bool) → RecoveryEvaluation
unfolding evaluate_candidate default_decision_by_category
evaluate_recovery category side_effect_occurred retry_count max_retries approval_required
      replan_permitted =
    if category == FailureCategory.security
    then evaluated category security_blocked (security_never_retries ∷ [])
    else if category == FailureCategory.budget
    then evaluated category budget_exhausted (budget_is_exhausted ∷ [])
    else if category == FailureCategory.permission
    then evaluated category stop (permission_policy_must_be_resolved ∷ [])
    else if category == FailureCategory.approval
    then evaluated category stop (approval_cannot_be_manufactured ∷ [])
    else if approval_required
    then evaluated category human_review (approval_required_no_automatic_retry ∷ [])
    else if contains category retry_candidate_categories
    then evaluate_candidate category side_effect_occurred retry_count max_retries
    else if category == FailureCategory.validation
    then (if replan_permitted
        then record (evaluated category replan (validation_candidate_for_replan ∷ [])) {
          replan_permitted = true;
        }
        else evaluated category stop (replan_budget_exhausted ∷ []))
    else if category == FailureCategory.verification
    then evaluated category reconcile (verification_must_reconcile_first ∷ [])
    else evaluated category (default_decision_by_category category)
        (unknown_never_blindly_retries ∷ [])

-- `_POTENTIALLY_RETRYABLE` of retry_policy.py
abbrev pub potentially_retryable : List FailureCategory
potentially_retryable =
    FailureCategory.transient ∷ FailureCategory.tool ∷ FailureCategory.verification ∷ []

unfoldable pub is_potentially_retryable : FailureCategory → Bool
is_potentially_retryable category = contains category potentially_retryable

unfoldable pub is_replannable : FailureCategory → Bool
is_replannable category = category == FailureCategory.verification

-- The policy decides for a retry exactly where the failure is TRANSIENT or TOOL, no side effect
-- occurred, the retry budget has room, and the action needed no approval; only then does it
-- permit one, and the coarser retry policy then calls the category retryable.
pub retry_iff :
    (category : FailureCategory) (side : Bool) (retries most : ℕ) (gated replanning : Bool)
    → (((evaluate_recovery category side retries most gated replanning).decision ≡ retry) ↔ (
        ((category ≡ FailureCategory.transient) ⊎ (category ≡ FailureCategory.tool))
        × (side ≡ false)
        × (retries < most)
        × (gated ≡ false)))
      × (((evaluate_recovery category side retries most gated replanning).retry_permitted ≡ true)
          ↔ ((evaluate_recovery category side retries most gated replanning).decision ≡ retry))
      × ((evaluate_recovery category side retries most gated replanning).decision ≡ retry
          → is_potentially_retryable category ≡ true)
unfolding evaluate_recovery is_potentially_retryable
retry_iff category side retries most gated replanning = ground arith

-- The policy decides for a replan, and permits one, exactly where the failure is VALIDATION, the
-- action needed no approval and replanning is permitted.
pub replan_iff :
    (category : FailureCategory) (side : Bool) (retries most : ℕ) (gated replanning : Bool)
    → (((evaluate_recovery category side retries most gated replanning).decision ≡ replan)
        ↔ ((category ≡ FailureCategory.validation) × (gated ≡ false) × (replanning ≡ true)))
      × (((evaluate_recovery category side retries most gated replanning).replan_permitted ≡ true)
          ↔ ((evaluate_recovery category side retries most gated replanning).decision ≡ replan))
unfolding evaluate_recovery
replan_iff category side retries most gated replanning = ground arith
