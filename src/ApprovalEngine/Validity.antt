-- ===== src/ApprovalEngine/Validity.antt =====
-- The authoritative validity gate, authorization, finalization and consumption
-- (app/decision_intelligence/approval_engine.py). The text of `explanation` is left out.
use mr_enderson.Base.{
  ℕ, Bool, true, false, not, Option, none, some, List, [], ◌∷◌, ◌++◌, ◌==◌, string_eq, Outcome, ok,
  raise, raise_if, ◌>>◌, is_empty, contains, Eq, eq_of_discrete, if◌then◌else◌,
}
use mr_enderson.Schemas.{
  ActionStatus, ApprovalRequestStatus, approval_request_status_eq, Action, ApprovalRequest,
}
use mr_enderson.ApprovalEngine.Hash.{Digest, compute_action_hash}
use mr_enderson.ApprovalEngine.Requests.{
  ApprovalError, action_id_mismatch, hash_mismatch, not_approved, already_consumed, expired,
  outcome_not_final, transition, terminal_action_target, is_expired,
}

pub data ValidityReason : Type 0 where
  not_approved_code action_id_mismatch_code hash_mismatch_code : ValidityReason
  already_consumed_code expired_code : ValidityReason

abbrev pub ValidityReason-discrete : Discrete ValidityReason
ValidityReason-discrete = hlevel

instance abbrev pub validity_reason_eq : Eq ValidityReason
validity_reason_eq = eq_of_discrete ValidityReason-discrete

-- `_VALIDITY_REASON_PRIORITY`
abbrev pub validity_reason_priority : List ValidityReason
validity_reason_priority =
    not_approved_code ∷ action_id_mismatch_code ∷ hash_mismatch_code ∷ already_consumed_code
    ∷ expired_code ∷ []

pub record ApprovalValidityResult : Type 0 where
  pub valid : Bool
  pub reason_codes : List ValidityReason
  pub checked_at : ℕ

-- `if failed: reasons.append(reason)`
abbrev pub when_failed : Bool → ValidityReason → List ValidityReason
when_failed failed reason = if failed then reason ∷ [] else []

-- `_raise_for_validity_reason`
unfoldable pub error_of_reason : ValidityReason → ApprovalError
error_of_reason not_approved_code = not_approved
error_of_reason action_id_mismatch_code = action_id_mismatch
error_of_reason hash_mismatch_code = hash_mismatch
error_of_reason already_consumed_code = already_consumed
error_of_reason expired_code = expired

-- The loop over the priorities: the first reason that was recorded. The source marks the end
-- of it as unreachable.
unfoldable pub first_reason : List ValidityReason → List ValidityReason → Option ValidityReason
first_reason [] reasons = none
first_reason (p ∷ ps) reasons =
    let rest = first_reason ps reasons in if contains p reasons then some p else rest

module _ (digest : Digest) where
  -- The two checks that are made only where an action is given.
  unfoldable pub wrong_action : ApprovalRequest → Option Action → Bool
  wrong_action request none = false
  wrong_action request (some action) = not (request.action_id == action.id)

  unfoldable pub wrong_hash : ApprovalRequest → Option Action → Bool
  wrong_hash request none = false
  wrong_hash request (some action) = not (compute_action_hash digest action == request.action_hash)

  unfoldable pub validity_reasons : ApprovalRequest → Option Action → ℕ → List ValidityReason
  unfolding wrong_action wrong_hash
  validity_reasons request action now =
      when_failed (not (request.status == ApprovalRequestStatus.approved)) not_approved_code
      ++ (when_failed (wrong_action request action) action_id_mismatch_code
          ++ (when_failed (wrong_hash request action) hash_mismatch_code
              ++ (when_failed request.consumed already_consumed_code
                  ++ when_failed (is_expired request now) expired_code)))

  unfoldable pub check_approval_validity :
      ApprovalRequest → Option Action → ℕ → ApprovalValidityResult
  check_approval_validity request action now = record {
    valid = is_empty (validity_reasons request action now);
    reason_codes = validity_reasons request action now;
    checked_at = now;
  }

  unfoldable pub validate_approval_for_action :
      ApprovalRequest → Action → ℕ → ApprovalValidityResult
  unfolding check_approval_validity
  validate_approval_for_action request action now =
      check_approval_validity request (some action) now

  unfoldable pub assert_approval_valid :
      ApprovalRequest → Option Action → ℕ → Outcome ApprovalError ApprovalValidityResult
  unfolding check_approval_validity first_reason error_of_reason
  assert_approval_valid request action now =
      let result = check_approval_validity request action now in
      if result.valid
      then ok result
      else (elim (first_reason validity_reason_priority result.reason_codes) [
        | none ↦ raise not_approved
        | some reason ↦ raise (error_of_reason reason)
      ])

  unfoldable pub authorize_action : Action → ApprovalRequest → ℕ → Outcome ApprovalError Action
  authorize_action action request now = do
    assert_approval_valid request (some action) now
    transition action.status ActionStatus.approved
    ok (record action { status = ActionStatus.approved })

  unfoldable pub consume_approval :
      ApprovalRequest → Option Action → ℕ → Outcome ApprovalError ApprovalRequest
  consume_approval request action now = do
    assert_approval_valid request action now
    ok (record request { consumed = true; consumed_at = some now })

unfoldable pub finalize_action_from_approval_outcome :
    Action → ApprovalRequest → Outcome ApprovalError Action
unfolding terminal_action_target
finalize_action_from_approval_outcome action request =
    elim (terminal_action_target request.status) [
      | none ↦ raise outcome_not_final
      | some target ↦ do
        raise_if (not (request.action_id == action.id)) action_id_mismatch
        transition action.status target
        ok (record action { status = target })
    ]
