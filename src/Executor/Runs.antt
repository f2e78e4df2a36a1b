-- ===== src/Executor/Runs.antt =====
-- The run of an adapter never meets a status change that the table forbids, so that the assertions
-- of the executor can be left out.
use mr_enderson.Base.{
  ◌≡◌, refl, ap, ◌⊎◌, inl, inr, String, Bool, true, false, Option, some, arith, ◌==◌, string_eq,
  ==→≡, Outcome, ok, raise, Bool-cases, if◌then◌else◌,
}
use mr_enderson.Schemas.{
  Action, ActionStatus, action_status_eq, ApprovalRequest, ExecutionResult, VerificationResult,
}
use mr_enderson.StateMachines.Action.{assert_transition, can_transition, valid_transitions}
use mr_enderson.PermissionEngine.Levels.{permission_outcome_eq}
use mr_enderson.PermissionEngine.Decisions.{PermissionDecision}
use mr_enderson.ApprovalEngine.Hash.{Digest}
use mr_enderson.Executor.Adapters.{ExecutionContext, AdapterException, ToolAdapter}
use mr_enderson.Executor.Approvals.{Approvals}
use mr_enderson.Executor.Outcomes.{ExecutorError, adapter_raised, ExecutionOutcome, Texts, Readings}
use mr_enderson.Executor.Gate.{gates}
use mr_enderson.Executor.Execute.{
  after_failure, before_verification, judge, after_execution, run_adapter, start,
}
use mr_enderson.Executor.Moves.{
  failed_run, verifying_action, judged_run, after_failure_ok, before_verification_ok,
  after_verification_ok,
}

module _ (digest : Digest) (texts : Texts) (at : Readings) where
  -- What the gates let through may start.
  pub gates-status :
      (others : Approvals → Approvals) (repo : Option Approvals) (request : Option ApprovalRequest)
      (action : Action) (decision : PermissionDecision)
      → (gates digest texts at others repo request action decision).1 ≡ ok tt
      → (action.status ≡ ActionStatus.approved) ⊎ (action.status ≡ ActionStatus.permission_checked)
  unfolding gates
  gates-status others repo request action decision h =
      elim (Bool-cases (action.status == ActionStatus.approved)) [
        | inl e ↦ inl (==→≡ action.status ActionStatus.approved e)
        | inr n ↦ elim (Bool-cases (action.status == ActionStatus.permission_checked)) [
          | inl e ↦ inr (==→≡ action.status ActionStatus.permission_checked e)
          | inr m ↦ absurd (ground (arith, h, n, m))
        ]
      ]

-- The action that the adapter gets.
abbrev pub started_action : Readings → Action → Action
started_action at action = record action {
  status = ActionStatus.executing;
  started_at = some at.starting;
}

-- What the second call of the adapter leaves.
abbrev pub judged :
    Texts
    → Action
    → ExecutionResult
    → Outcome AdapterException VerificationResult
    → Outcome ExecutorError ExecutionOutcome
judged texts verifying result (raise e) = raise (adapter_raised e)
judged texts verifying result (ok verdict) = ok (judged_run texts verifying result verdict)

module _ {World : Type 0} (digest : Digest) (texts : Texts) (at : Readings) where
  -- The run of the adapter with the assertions left out.
  abbrev pub concluded :
      Bool
      → ToolAdapter World
      → ExecutionContext
      → Action
      → World
      → ExecutionResult
      → World × Outcome ExecutorError ExecutionOutcome
  concluded true adapter context executing world result =
      let (world', verdict) =
        adapter.verify (verifying_action executing result) result context world in
      (world', judged texts (verifying_action executing result) result verdict)
  concluded false adapter context executing world result = (world, ok (failed_run executing result))

  abbrev pub called :
      Outcome AdapterException ExecutionResult
      → ToolAdapter World
      → ExecutionContext
      → Action
      → World
      → World × Outcome ExecutorError ExecutionOutcome
  called (raise e) adapter context executing world = (world, raise (adapter_raised e))
  called (ok result) adapter context executing world =
      concluded result.success adapter context executing world result

  abbrev pub ran :
      ToolAdapter World
      → ExecutionContext
      → Action
      → World
      → World × Outcome ExecutorError ExecutionOutcome
  ran adapter context executing world =
      let (world', result) = adapter.execute executing context world in
      called result adapter context executing world'

  after_execution_ok :
      (adapter : ToolAdapter World) (context : ExecutionContext) (executing : Action)
      (result : ExecutionResult) (world : World)
      → executing.status ≡ ActionStatus.executing
      → after_execution digest texts at adapter context executing result world
        ≡ concluded result.success adapter context executing world result
  unfolding after_execution judge
  after_execution_ok adapter context executing result world h = go result.success
    where
      verifying : Action
      verifying = verifying_action executing result

      judge_ok :
          (v : Outcome AdapterException VerificationResult)
          → judge texts verifying result v ≡ judged texts verifying result v
      judge_ok (raise e) = refl
      judge_ok (ok verdict) = after_verification_ok texts verifying result verdict refl

      go :
          (b : Bool)
          → (if b
              then (elim (before_verification executing result) [
                | raise e ↦ (world, raise e)
                | ok verifying ↦
                    let (w, verdict) = adapter.verify verifying result context world in
                    (w, judge texts verifying result verdict)
              ])
              else (world, after_failure executing result))
            ≡ concluded b adapter context executing world result
      go true = rw (before_verification_ok executing result h) (
          ap (λ o. ((adapter.verify verifying result context world).0, o))
            (judge_ok (adapter.verify verifying result context world).1))
      go false = rw (after_failure_ok executing result h) refl

  pub run_adapter_ok :
      (adapter : ToolAdapter World) (context : ExecutionContext) (executing : Action)
      (world : World)
      → executing.status ≡ ActionStatus.executing
      → run_adapter digest texts at adapter context executing world
        ≡ ran adapter context executing world
  unfolding run_adapter
  run_adapter_ok adapter context executing world h =
      let (world', result) = adapter.execute executing context world in go world' result
    where
      go :
          (w : World) (r : Outcome AdapterException ExecutionResult)
          → (elim r [
            | raise e ↦ (w, raise (adapter_raised e))
            | ok result ↦ after_execution digest texts at adapter context executing result w
          ])
            ≡ called r adapter context executing w
      go w (raise e) = refl
      go w (ok result) = after_execution_ok adapter context executing result w h

  pub start_ok :
      (adapter : ToolAdapter World) (attempt_id : String) (action : Action) (world : World)
      → (action.status ≡ ActionStatus.approved) ⊎ (action.status ≡ ActionStatus.permission_checked)
      → start digest texts at adapter attempt_id action world
        ≡ ran adapter
            (record { now = at.in_context; attempt_id = attempt_id })
            (started_action at action)
            world
  unfolding start
  start_ok adapter attempt_id action world h =
      rw (start, allowed h)
        (run_adapter_ok adapter (record { now = at.in_context; attempt_id = attempt_id })
          (started_action at action) world refl)
    where
      allowed :
          (action.status ≡ ActionStatus.approved)
            ⊎ (action.status ≡ ActionStatus.permission_checked)
          → assert_transition action.status ActionStatus.executing ≡ ok tt
      allowed (inl e) = rw e (unfold assert_transition can_transition valid_transitions in refl)
      allowed (inr e) = rw e (unfold assert_transition can_transition valid_transitions in refl)
