-- ===== src/Executor/Raises.antt =====
-- Why an execution raises.
use mr_enderson.Base.{◌≡◌, ◌≢◌, String, true, Option, string_eq, ok, raise}
use mr_enderson.Schemas.{Action, ApprovalRequest, ExecutionResult}
use mr_enderson.ToolRegistry.Operations.{Tools}
use mr_enderson.PermissionEngine.Decisions.{PermissionDecision}
use mr_enderson.ApprovalEngine.Hash.{Digest}
use mr_enderson.Executor.Adapters.{AdapterException, ToolAdapter, Adapters}
use mr_enderson.Executor.Approvals.{Approvals}
use mr_enderson.Executor.Outcomes.{
  ExecutorError, adapter_raised, action_decision_mismatch, Texts, Readings, State,
}
use mr_enderson.Executor.Gate.{gates}
use mr_enderson.Executor.Moves.{verifying_action}
use mr_enderson.Executor.Runs.{started_action}
use mr_enderson.Executor.Dispatches.{context, HasAdapter}
use mr_enderson.Executor.Cleared.{IsCleared}

module _ {World : Type 0} (digest : Digest) (texts : Texts) (at : Readings)
    (others : Approvals → Approvals) (tools : Tools) (adapters : Adapters World)
    (attempt_id : String) (request : Option ApprovalRequest) (action : Action)
    (decision : PermissionDecision) where
  -- Why an execution raises, and the state that it leaves.
  pub data HasCause (st : State World) : State World → ExecutorError → Type 0 where
    other_action :
        decision.action_id ≢ action.id
        → HasCause st st (action_decision_mismatch action.id decision.action_id)
    in_execute :
        IsCleared digest texts at others st.approvals request action decision
        → (adapter : ToolAdapter World)
        → HasAdapter digest texts at tools adapters attempt_id action adapter
        → (world : World) (e : AdapterException)
        → adapter.execute
            (started_action at action)
            (context digest texts at tools adapters attempt_id action)
            st.world
          ≡ (world, raise e)
        → HasCause st
            (record {
              approvals = (gates digest texts at others st.approvals request action decision).0;
              world = world;
            })
            (adapter_raised e)
    in_verify :
        IsCleared digest texts at others st.approvals request action decision
        → (adapter : ToolAdapter World)
        → HasAdapter digest texts at tools adapters attempt_id action adapter
        → (world world' : World) (result : ExecutionResult) (e : AdapterException)
        → adapter.execute
            (started_action at action)
            (context digest texts at tools adapters attempt_id action)
            st.world
          ≡ (world, ok result)
        → result.success ≡ true
        → adapter.verify
            (verifying_action (started_action at action) result)
            result
            (context digest texts at tools adapters attempt_id action)
            world
          ≡ (world', raise e)
        → HasCause st
            (record {
              approvals = (gates digest texts at others st.approvals request action decision).0;
              world = world';
            })
            (adapter_raised e)
