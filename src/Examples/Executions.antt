-- ===== src/Examples/Executions.antt =====
-- The executor with adapters that count their calls.
use mr_enderson.Base.{ℕ, suc, ◌≡◌, refl, sym, ap, arith, true, [], ◌∷◌, some, none, ok, raise}
use mr_enderson.Schemas.{ActionStatus, ExecutionResult, VerificationResult}
use mr_enderson.StateMachines.Action.{assert_transition, can_transition, valid_transitions}
use mr_enderson.ToolRegistry.Operations.{resolve, get_tool}
use mr_enderson.ApprovalEngine.Hash.{compute_action_hash, canonical_action_payload}
use mr_enderson.ApprovalEngine.Requests.{is_expired}
use mr_enderson.ApprovalEngine.Validity.{
  validate_approval_for_action, check_approval_validity, validity_reasons, wrong_action, wrong_hash,
}
use mr_enderson.Executor.Adapters.{
  AdapterException, ToolAdapter, Adapters, has_adapter, get_adapter,
}
use mr_enderson.Executor.Approvals.{Approvals, load_approval_request, consume_if_valid, matches}
use mr_enderson.Executor.Outcomes.{ExecutionOutcome, Texts, Readings, State}
use mr_enderson.Executor.Gate.{
  gates, use_approval, use_row, consume_row, check_validity, resolve_tool,
}
use mr_enderson.Executor.Execute.{
  before_verification, after_verification, judge, after_execution, run_adapter, start, dispatch,
  execute_action,
}
use mr_enderson.Executor.Completed.{IsEarned, completed_was_verified}
use mr_enderson.Executor.Durable.{KeepsUsed, one_run_per_approval}
use mr_enderson.Examples.Samples.{registry}
use mr_enderson.Examples.Approvals.{digest, decision, cleared, granted}

abbrev result : ExecutionResult
result = record {
  action_id = "a1";
  tool_name = some "communication.send_email";
  started_at = 310;
  completed_at = 320;
  success = true;
  provider_status = none;
  output = none;
  side_effects = [];
  cost = none;
  error_type = none;
  error_message = none;
  execution_attempt_id = some "t1";
  error_code = none;
  side_effect_occurred = true;
  adapter_version = some "1";
}

abbrev verdict : VerificationResult
verdict = record {
  action_id = "a1";
  method = "log";
  expected = none;
  observed = none;
  passed = true;
  confidence = 100;
  issues = [];
  verified_at = 330;
}

abbrev mailer : ToolAdapter ℕ
mailer = record {
  execute = λ action context sent. (suc sent, ok result);
  verify = λ action r context sent. (sent, ok verdict);
}

abbrev adapters : Adapters ℕ
adapters = ("communication.send_email", mailer) ∷ []

abbrev texts : Texts
texts = record {
  invalid_approval = λ _. "invalid";
  approval_error = λ _. "approval";
  tool_error = λ _. "tool";
  missing_adapter = λ name. name;
  joined = λ _. "issues";
}

abbrev readings : Readings
readings = record {
  failing = 300;
  validating = 300;
  consuming = 300;
  starting = 300;
  in_context = 300;
}

abbrev rows : Approvals
rows = ("r1", granted) ∷ []

abbrev used_rows : Approvals
used_rows = ("r1", record granted { consumed = true; consumed_at = some 300 }) ∷ []

abbrev unsent : State ℕ
unsent = record { approvals = some rows; world = 0 }

abbrev idle : Approvals → Approvals
idle x = x

abbrev finished : ExecutionOutcome
finished = record {
  action = record cleared {
    status = ActionStatus.completed;
    started_at = some 300;
    completed_at = some 320;
    result = none;
  };
  execution_result = some result;
  verification_result = some verdict;
}

run-finished :
    execute_action digest texts readings idle registry adapters "t1"
      (some granted)
      cleared
      decision
      unsent
    ≡ (record { approvals = some used_rows; world = 1 }, ok finished)
unfolding execute_action gates use_approval use_row consume_row check_validity resolve_tool
    load_approval_request consume_if_valid matches dispatch start run_adapter after_execution judge
    before_verification after_verification assert_transition can_transition valid_transitions
    resolve get_tool has_adapter get_adapter validate_approval_for_action check_approval_validity
    validity_reasons wrong_action wrong_hash is_expired compute_action_hash canonical_action_payload
run-finished = refl

-- It sends the mail and then fails to answer.
abbrev crash : AdapterException
crash = record { error_type = "TimeoutError"; message = "no answer" }

abbrev crasher : ToolAdapter ℕ
crasher = record {
  execute = λ action context sent. (suc sent, raise crash);
  verify = λ action r context sent. (sent, ok verdict);
}

abbrev crashing : Adapters ℕ
crashing = ("communication.send_email", crasher) ∷ []

completed_was_verified_example :
    IsEarned digest texts readings idle registry adapters "t1"
      (some granted)
      cleared
      decision
      unsent
      finished
completed_was_verified_example =
    completed_was_verified digest texts readings idle registry adapters "t1" (some granted) cleared
      decision unsent (record { approvals = some used_rows; world = 1 }) finished run-finished
      (λ e. cc) refl

one_run_per_approval_example :
    (execute_action digest texts readings idle registry adapters "t2"
      (some granted)
      cleared
      decision
      (record { approvals = some used_rows; world = 1 })).0.world
    ≡ 1
one_run_per_approval_example =
    one_run_per_approval digest texts readings readings idle idle idle registry registry adapters
      adapters "t1" "t2" granted cleared cleared decision decision rows used_rows 0 1 refl refl
      (unfold KeepsUsed in (λ x id used. used))
      (λ current e. let same : granted ≡ current = cc (e) in ap (λ r. r.id) (sym same))
      (λ e. absurd (omega (arith, rw run-finished at e))) (rw run-finished refl)
