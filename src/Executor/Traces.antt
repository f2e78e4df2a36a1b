-- ===== src/Executor/Traces.antt =====
-- The four ways in which an execution ends, with what each of them needs.
use mr_enderson.Base.{
  ◌≡◌, refl, inl, inr, String, true, false, Option, none, ◌==◌, string_eq, ==→≡, Outcome, ok, raise,
  Bool-cases,
}
use mr_enderson.Schemas.{Action, ActionStatus, action_status_eq, ApprovalRequest}
use mr_enderson.ToolRegistry.Operations.{Tools}
use mr_enderson.PermissionEngine.Decisions.{PermissionDecision}
use mr_enderson.ApprovalEngine.Hash.{Digest}
use mr_enderson.Executor.Adapters.{ToolAdapter, Adapters}
use mr_enderson.Executor.Approvals.{Approvals}
use mr_enderson.Executor.Outcomes.{
  ExecutorError, ExecutionOutcome, Refusal, Texts, Readings, State, fail_outcome,
  action_decision_mismatch,
}
use mr_enderson.Executor.Gate.{gates}
use mr_enderson.Executor.Execute.{dispatch, execute_action}
use mr_enderson.Executor.Runs.{gates-status, started_action, ran}
use mr_enderson.Executor.Dispatches.{
  context, HasAdapter, Dispatched, unavailable, started, dispatched,
}

module _ {World : Type 0} (digest : Digest) (texts : Texts) (at : Readings)
    (others : Approvals → Approvals) (tools : Tools) (adapters : Adapters World)
    (attempt_id : String) (request : Option ApprovalRequest) (action : Action)
    (decision : PermissionDecision) where
  pub data Executed (st : State World)
      : State World × Outcome ExecutorError ExecutionOutcome → Type 0 where
    mismatched :
        (decision.action_id == action.id) ≡ false
        → Executed st (st, raise (action_decision_mismatch action.id decision.action_id))
    already_completed :
        (decision.action_id == action.id) ≡ true
        → action.status ≡ ActionStatus.completed
        → Executed st (
          st,
          ok (record { action = action; execution_result = none; verification_result = none }),
        )
    refused :
        (decision.action_id == action.id) ≡ true
        → (refusal : Refusal)
        → Executed st (
          record st {
            approvals = (gates digest texts at others st.approvals request action decision).0;
          },
          ok (fail_outcome action refusal at.failing),
        )
    executed :
        (decision.action_id == action.id) ≡ true
        → (gates digest texts at others st.approvals request action decision).1 ≡ ok tt
        → (adapter : ToolAdapter World)
        → HasAdapter digest texts at tools adapters attempt_id action adapter
        → Executed st (
            let q =
              ran digest texts at adapter
                (context digest texts at tools adapters attempt_id action)
                (started_action at action)
                st.world in
            (
              record {
                approvals = (gates digest texts at others st.approvals request action decision).0;
                world = q.0;
              },
              q.1,
            ))

  pub execution :
      (st : State World)
      → Executed st (
          execute_action digest texts at others tools adapters attempt_id request action decision
            st)
  unfolding execute_action
  execution st = elim (Bool-cases (decision.action_id == action.id)) [
    | inr e ↦ rw e (mismatched e)
    | inl e ↦ elim (Bool-cases (action.status == ActionStatus.completed)) [
      | inl d ↦ rw (e, d) (already_completed e (==→≡ action.status ActionStatus.completed d))
      | inr d ↦
          rw (e, d)
            (gated e (gates digest texts at others st.approvals request action decision).1 refl)
    ]
  ]
    where
      gated :
          (decision.action_id == action.id) ≡ true
          → (g : Outcome Refusal (Unit {0}))
          → (gates digest texts at others st.approvals request action decision).1 ≡ g
          → Executed st (elim g [
            | raise refusal ↦ (
              record st {
                approvals = (gates digest texts at others st.approvals request action decision).0;
              },
              ok (fail_outcome action refusal at.failing),
            )
            | ok _ ↦
                let (world, outcome) =
                  dispatch digest texts at tools adapters attempt_id action st.world in
                (
                  record {
                    approvals =
                        (gates digest texts at others st.approvals request action decision).0;
                    world = world;
                  },
                  outcome,
                )
          ])
      gated e (raise refusal) q = refused e refusal
      gated e (ok tt) q =
          sent (dispatch digest texts at tools adapters attempt_id action st.world) (
            dispatched digest texts at tools adapters attempt_id action st.world
              (gates-status digest texts at others st.approvals request action decision q))
        where
          sent :
              (d : World × Outcome ExecutorError ExecutionOutcome)
              → Dispatched digest texts at tools adapters attempt_id action st.world d
              → Executed st (
                record {
                  approvals = (gates digest texts at others st.approvals request action decision).0;
                  world = d.0;
                },
                d.1,
              )
          sent d (unavailable refusal) = refused e refusal
          sent d (started adapter has) = executed e q adapter has
