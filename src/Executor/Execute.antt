-- ===== src/Executor/Execute.antt =====
-- `execute_action` of app/decision_intelligence/action_executor.py. Audit events are left out. What
-- an adapter raises goes through to the caller. The clock is read at named places.
use mr_enderson.Base.{
  String, not, Option, none, some, ◌==◌, string_eq, Outcome, ok, raise, ◌>>=◌, if◌then◌else◌,
}
use mr_enderson.Schemas.{
  Action, ActionStatus, action_status_eq, ApprovalRequest, ExecutionResult, VerificationResult,
  ExecutorFailureCode,
}
use mr_enderson.ToolRegistry.Operations.{Tools}
use mr_enderson.PermissionEngine.Levels.{permission_outcome_eq}
use mr_enderson.PermissionEngine.Decisions.{PermissionDecision}
use mr_enderson.ApprovalEngine.Hash.{Digest}
use mr_enderson.Executor.Adapters.{
  ExecutionContext, AdapterException, ToolAdapter, Adapters, has_adapter, get_adapter,
}
use mr_enderson.Executor.Approvals.{Approvals}
use mr_enderson.Executor.Outcomes.{
  ExecutorError, adapter_raised, action_decision_mismatch, ExecutionOutcome, fail_outcome, Texts,
  Readings, move, no_adapter, State,
}
use mr_enderson.Executor.Gate.{gates, resolve_tool}

-- The adapter failed.
unfoldable pub after_failure : Action → ExecutionResult → Outcome ExecutorError ExecutionOutcome
after_failure executing result = do
  failed ← move executing ActionStatus.failed
  ok (record {
    action = record failed {
      completed_at = some result.completed_at;
      error = result.error_message;
      result = result.output;
    };
    execution_result = some result;
    verification_result = none;
  })

-- The adapter succeeded: up to VERIFYING.
unfoldable pub before_verification : Action → ExecutionResult → Outcome ExecutorError Action
before_verification executing result = do
  succeeded ← move executing ActionStatus.execution_succeeded
  move (record succeeded { completed_at = some result.completed_at; result = result.output })
      ActionStatus.verifying

module _ (texts : Texts) where
  -- From the verdict of the adapter on.
  unfoldable pub after_verification :
      Action → ExecutionResult → VerificationResult → Outcome ExecutorError ExecutionOutcome
  after_verification verifying result verdict = do
    final ←
        (if verdict.passed
          then (do
            verified ← move verifying ActionStatus.verified
            move verified ActionStatus.completed)
          else (do
            unverified ← move verifying ActionStatus.verification_failed
            failed ← move unverified ActionStatus.failed
            ok (record failed { error = some (texts.joined verdict.issues) })))
    ok (record {
      action = final;
      execution_result = some result;
      verification_result = some verdict;
    })

  -- The adapter's verdict.
  unfoldable pub judge :
      Action
      → ExecutionResult
      → Outcome AdapterException VerificationResult
      → Outcome ExecutorError ExecutionOutcome
  unfolding after_verification
  judge verifying result (raise e) = raise (adapter_raised e)
  judge verifying result (ok verdict) = after_verification verifying result verdict

module _ {World : Type 0} (digest : Digest) (texts : Texts) (at : Readings) where
  -- From the return of the adapter's first call on.
  unfoldable pub after_execution :
      ToolAdapter World
      → ExecutionContext
      → Action
      → ExecutionResult
      → World
      → World × Outcome ExecutorError ExecutionOutcome
  unfolding after_failure before_verification judge
  after_execution adapter context executing result world =
      if result.success
      then (elim (before_verification executing result) [
        | raise e ↦ (world, raise e)
        | ok verifying ↦
            let (world', verdict) = adapter.verify verifying result context world in
            (world', judge texts verifying result verdict)
      ])
      else (world, after_failure executing result)

  -- The adapter's two calls.
  unfoldable pub run_adapter :
      ToolAdapter World
      → ExecutionContext
      → Action
      → World
      → World × Outcome ExecutorError ExecutionOutcome
  unfolding after_execution
  run_adapter adapter context executing world =
      let (world', called) = adapter.execute executing context world in
      elim called [
        | raise e ↦ (world', raise (adapter_raised e))
        | ok result ↦ after_execution adapter context executing result world'
      ]

  -- From EXECUTING on.
  unfoldable pub start :
      ToolAdapter World
      → (attempt_id : String) → Action
      → World
      → World × Outcome ExecutorError ExecutionOutcome
  unfolding run_adapter
  start adapter attempt_id action world = elim (move action ActionStatus.executing) [
    | raise e ↦ (world, raise e)
    | ok executing ↦
        run_adapter adapter (record { now = at.in_context; attempt_id = attempt_id })
          (record executing { started_at = some at.starting }) world
  ]

  -- After the gates: the tool, its adapter, the run.
  unfoldable pub dispatch :
      Tools
      → Adapters World
      → (attempt_id : String) → Action
      → World
      → World × Outcome ExecutorError ExecutionOutcome
  unfolding start
  dispatch tools adapters attempt_id action world = elim (resolve_tool texts tools action) [
    | raise refusal ↦ (world, ok (fail_outcome action refusal at.failing))
    | ok name ↦
        if not (has_adapter adapters name)
        then (
          world,
          ok (
              fail_outcome action
                (record {
                  code = ExecutorFailureCode.adapter_not_found;
                  message = texts.missing_adapter name;
                })
                at.failing),
        )
        else (elim (get_adapter adapters name) [
          | raise e ↦ (world, raise (no_adapter e))
          | ok adapter ↦ start adapter attempt_id action world
        ])
  ]

  unfoldable pub execute_action :
      (others : Approvals → Approvals)
      → Tools
      → Adapters World
      → (attempt_id : String) → Option ApprovalRequest
      → Action
      → PermissionDecision
      → State World
      → State World × Outcome ExecutorError ExecutionOutcome
  unfolding gates dispatch
  execute_action others tools adapters attempt_id request action decision st =
      if not (decision.action_id == action.id)
      then (st, raise (action_decision_mismatch action.id decision.action_id))
      else if action.status == ActionStatus.completed
      then (
        st,
        ok (record { action = action; execution_result = none; verification_result = none }),
      )
      else let (repo, gate) = gates digest texts at others st.approvals request action decision in
        elim gate [
          | raise refusal ↦
              (record st { approvals = repo }, ok (fail_outcome action refusal at.failing))
          | ok _ ↦
              let (world, outcome) = dispatch tools adapters attempt_id action st.world in
              (record { approvals = repo; world = world }, outcome)
        ]
