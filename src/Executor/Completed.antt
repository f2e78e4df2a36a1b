-- ===== src/Executor/Completed.antt =====
-- What an execution shows of its gates, its tool and its verification.
use mr_enderson.Base.{
  ◌≡◌, ◌≢◌, refl, sym, ap, ◌∙◌, inl, inr, String, Bool, true, false, Option, none, some, arith,
  string_eq, Outcome, ok, raise, Bool-cases,
}
use mr_enderson.Schemas.{
  Action, ActionStatus, action_status_eq, ApprovalRequest, ExecutionResult, VerificationResult,
}
use mr_enderson.StateMachines.Action.{can_transition}
use mr_enderson.ToolRegistry.Operations.{Tools}
use mr_enderson.PermissionEngine.Decisions.{PermissionDecision}
use mr_enderson.ApprovalEngine.Hash.{Digest}
use mr_enderson.Executor.Adapters.{ExecutionContext, AdapterException, ToolAdapter, Adapters}
use mr_enderson.Executor.Approvals.{Approvals}
use mr_enderson.Executor.Outcomes.{
  ExecutorError, ExecutionOutcome, Refusal, Texts, Readings, State, fail_outcome, failed_action,
  failed_to, fail_target_by_source,
}
use mr_enderson.Executor.Execute.{execute_action}
use mr_enderson.Executor.Moves.{verifying_action, failed_run, judged_run}
use mr_enderson.Executor.Runs.{started_action, judged, concluded, called, ran}
use mr_enderson.Executor.Dispatches.{context, HasAdapter}
use mr_enderson.Executor.Traces.{
  Executed, mismatched, already_completed, refused, executed, execution,
}
use mr_enderson.Executor.Cleared.{IsCleared, gates-IsCleared}

target_ne_completed :
    (s t : ActionStatus) → fail_target_by_source s ≡ some t → t ≢ ActionStatus.completed
unfolding fail_target_by_source
target_ne_completed s t h = ground (arith, h)

refused_ne_completed :
    (action : Action) (refusal : Refusal) (now : _)
    → action.status ≢ ActionStatus.completed
    → (fail_outcome action refusal now).action.status ≢ ActionStatus.completed
unfolding fail_outcome failed_action failed_to
refused_ne_completed action refusal now open_still = go (fail_target_by_source action.status) refl
  where
    go :
        (o : Option ActionStatus)
        → fail_target_by_source action.status ≡ o
        → (failed_to o action refusal.message now).status ≢ ActionStatus.completed
    go none e = open_still
    go (some t) e = elim (Bool-cases (can_transition action.status t)) [
      | inl may ↦ rw may (target_ne_completed action.status t e)
      | inr not_may ↦ rw not_may open_still
    ]

judged-passed :
    (texts : Texts) (verifying : Action) (result : ExecutionResult) (verdict : VerificationResult)
    → (judged_run texts verifying result verdict).action.status ≡ ActionStatus.completed
    → verdict.passed ≡ true
judged-passed texts verifying result verdict h = elim (Bool-cases verdict.passed) [
  | inl t ↦ t
  | inr f ↦ absurd (cc (rw f at h))
]

module _ {World : Type 0} (digest : Digest) (texts : Texts) (at : Readings)
    (others : Approvals → Approvals) (tools : Tools) (adapters : Adapters World)
    (attempt_id : String) (request : Option ApprovalRequest) (action : Action)
    (decision : PermissionDecision) where
  -- Where the world changed, the gates and the lookup of the tool let the action through.
  pub world_change_was_cleared :
      (st : State World)
      → (execute_action digest texts at others tools adapters attempt_id request action decision
          st).0.world
        ≢ st.world
      → IsCleared digest texts at others st.approvals request action decision
        × ((adapter : ToolAdapter World) × HasAdapter digest texts at tools adapters attempt_id
              action adapter)
  world_change_was_cleared st =
      go _ (execution digest texts at others tools adapters attempt_id request action decision st)
    where
      go :
          (r : State World × Outcome ExecutorError ExecutionOutcome)
          → Executed digest texts at others tools adapters attempt_id request action decision st r
          → r.0.world ≢ st.world
          → IsCleared digest texts at others st.approvals request action decision
            × ((adapter : ToolAdapter World) × HasAdapter digest texts at tools adapters attempt_id
                  action adapter)
      go r (mismatched e) changed = absurd (changed refl)
      go r (already_completed e s) changed = absurd (changed refl)
      go r (refused e refusal) changed = absurd (changed refl)
      go r (executed e g adapter has) changed = (
        gates-IsCleared digest texts at others st.approvals request action decision g,
        (adapter, has),
      )

  -- How a completed action got there.
  pub record IsEarned (st : State World) (out : ExecutionOutcome) : Type 0 where
    pub cleared : IsCleared digest texts at others st.approvals request action decision
    pub adapter : ToolAdapter World
    pub available : HasAdapter digest texts at tools adapters attempt_id action adapter
    pub world : World
    pub result : ExecutionResult
    pub verdict : VerificationResult
    pub execution :
        adapter.execute
          (started_action at action)
          (context digest texts at tools adapters attempt_id action)
          st.world
        ≡ (world, ok result)
    pub succeeded : result.success ≡ true
    pub verification :
        (adapter.verify
          (verifying_action (started_action at action) result)
          result
          (context digest texts at tools adapters attempt_id action)
          world).1
        ≡ ok verdict
    pub passed : verdict.passed ≡ true
    pub reported : out.execution_result ≡ some result
    pub verdict_reported : out.verification_result ≡ some verdict

  run-IsEarned :
      (st : State World) (out : ExecutionOutcome) (adapter : ToolAdapter World)
      → IsCleared digest texts at others st.approvals request action decision
      → HasAdapter digest texts at tools adapters attempt_id action adapter
      → (ran digest texts at adapter
          (context digest texts at tools adapters attempt_id action)
          (started_action at action)
          st.world).1
        ≡ ok out
      → out.action.status ≡ ActionStatus.completed
      → IsEarned st out
  run-IsEarned st out adapter cleared has same done =
      let (w, r) = adapter.execute executing here st.world in go w r refl same
    where
      executing : Action
      executing = started_action at action

      here : ExecutionContext
      here = context digest texts at tools adapters attempt_id action

      verified :
          (w : World) (result : ExecutionResult) (v : Outcome AdapterException VerificationResult)
          → adapter.execute executing here st.world ≡ (w, ok result)
          → result.success ≡ true
          → (adapter.verify (verifying_action executing result) result here w).1 ≡ v
          → judged texts (verifying_action executing result) result v ≡ ok out
          → IsEarned st out
      verified w result (raise x) q s k m = cc (m)
      verified w result (ok verdict) q s k m =
          let out_is : judged_run texts (verifying_action executing result) result verdict ≡ out =
            cc (m) in
          record {
            cleared = cleared;
            adapter = adapter;
            available = has;
            world = w;
            result = result;
            verdict = verdict;
            execution = q;
            succeeded = s;
            verification = k;
            passed =
                judged-passed texts (verifying_action executing result) result verdict
                  (ap (λ o. o.action.status) out_is ∙ done);
            reported = sym (ap (λ o. o.execution_result) out_is);
            verdict_reported = sym (ap (λ o. o.verification_result) out_is);
          }

      judge_it :
          (w : World) (result : ExecutionResult) (b : Bool)
          → adapter.execute executing here st.world ≡ (w, ok result)
          → result.success ≡ b
          → (concluded digest texts at b adapter here executing w result).1 ≡ ok out
          → IsEarned st out
      judge_it w result false q s k =
          let out_is : failed_run executing result ≡ out = cc (k) in
          absurd (cc (ap (λ o. o.action.status) out_is, done))
      judge_it w result true q s k =
          verified w result (adapter.verify (verifying_action executing result) result here w).1 q s
            refl k

      go :
          (w : World) (r : Outcome AdapterException ExecutionResult)
          → adapter.execute executing here st.world ≡ (w, r)
          → (called digest texts at r adapter here executing w).1 ≡ ok out
          → IsEarned st out
      go w (raise x) q k = cc (k)
      go w (ok result) q k = judge_it w result result.success q refl k

  -- An action that was not COMPLETED before and is COMPLETED after an execution passed the
  -- permission gate and, where an approval is required, the approval gate; its tool is registered
  -- and has an adapter, whose execution succeeded and whose verification of it passed, and these are
  -- the two results that the outcome reports.
  pub completed_was_verified :
      (st st' : State World) (out : ExecutionOutcome)
      → execute_action digest texts at others tools adapters attempt_id request action decision st
        ≡ (st', ok out)
      → action.status ≢ ActionStatus.completed
      → out.action.status ≡ ActionStatus.completed
      → IsEarned st out
  completed_was_verified st st' out run fresh done =
      go _ (execution digest texts at others tools adapters attempt_id request action decision st)
        run
    where
      go :
          (r : State World × Outcome ExecutorError ExecutionOutcome)
          → Executed digest texts at others tools adapters attempt_id request action decision st r
          → r ≡ (st', ok out)
          → IsEarned st out
      go r (mismatched e) k = absurd (cc (k))
      go r (already_completed e s) k = absurd (fresh s)
      go r (refused e refusal) k =
          let same : fail_outcome action refusal at.failing ≡ out = cc (k) in
          absurd (refused_ne_completed action refusal at.failing fresh (rw (← same) at done))
      go r (executed e g adapter has) k =
          run-IsEarned st out adapter
            (gates-IsCleared digest texts at others st.approvals request action decision g) has
            (cc (k)) done
