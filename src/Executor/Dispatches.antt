-- ===== src/Executor/Dispatches.antt =====
-- What becomes of an action after the gates: it is refused for want of a tool or an adapter, or run.
use mr_enderson.Base.{
  ◌≡◌, refl, subst, ◌⊎◌, String, not, Option, none, some, string_eq, Outcome, ok, raise,
  if◌then◌else◌, lookup,
}
use mr_enderson.Schemas.{Action, ActionStatus, action_status_eq, ExecutorFailureCode}
use mr_enderson.ToolRegistry.Operations.{Tools, ToolDefinition, ToolError, resolve}
use mr_enderson.ApprovalEngine.Hash.{Digest}
use mr_enderson.Executor.Adapters.{
  ExecutionContext, ToolAdapter, Adapters, has_adapter, get_adapter,
}
use mr_enderson.Executor.Outcomes.{
  ExecutorError, ExecutionOutcome, Refusal, Texts, Readings, fail_outcome, no_adapter,
}
use mr_enderson.Executor.Gate.{resolve_tool, refuse}
use mr_enderson.Executor.Execute.{start, dispatch}
use mr_enderson.Executor.Runs.{started_action, ran, start_ok}

module _ {World : Type 0} (digest : Digest) (texts : Texts) (at : Readings) (tools : Tools)
    (adapters : Adapters World) (attempt_id : String) (action : Action) where
  abbrev pub context : ExecutionContext
  context = record { now = at.in_context; attempt_id = attempt_id }

  -- The tool of the action is registered, enabled, supports the action, and has an adapter.
  pub record HasAdapter (adapter : ToolAdapter World) : Type 0 where
    pub name : String
    pub tool : ToolDefinition
    pub named : action.tool_name ≡ some name
    pub resolved : resolve tools name action.action_type ≡ ok tool
    pub registered : lookup name adapters ≡ some adapter

  pub data Dispatched (world : World)
      : World × Outcome ExecutorError ExecutionOutcome → Type 0 where
    unavailable :
        (refusal : Refusal) → Dispatched world (world, ok (fail_outcome action refusal at.failing))
    started :
        (adapter : ToolAdapter World)
        → HasAdapter adapter
        → Dispatched world (ran digest texts at adapter context (started_action at action) world)

  resolved_lem :
      (name : String)
      → resolve_tool texts tools action ≡ ok name
      → (tool : ToolDefinition) × (action.tool_name ≡ some name)
        × (resolve tools name action.action_type ≡ ok tool)
  unfolding resolve_tool
  resolved_lem name h = go action.tool_name refl h
    where
      found :
          (n : String) (r : Outcome ToolError ToolDefinition)
          → action.tool_name ≡ some n
          → resolve tools n action.action_type ≡ r
          → (elim r [
            | ok _ ↦ ok n
            | raise e ↦ refuse ExecutorFailureCode.adapter_not_found (texts.tool_error e)
          ])
            ≡ ok name
          → (tool : ToolDefinition) × (action.tool_name ≡ some name)
            × (resolve tools name action.action_type ≡ ok tool)
      found n (ok tool) e q k =
          let same : n ≡ name = cc (k) in
          (
            tool,
            subst (λ m. action.tool_name ≡ some m) same e,
            subst (λ m. resolve tools m action.action_type ≡ ok tool) same q,
          )
      found n (raise x) e q k = cc

      go :
          (o : Option String)
          → action.tool_name ≡ o
          → (elim o [
            | none ↦
                refuse ExecutorFailureCode.adapter_not_found
                  (texts.tool_error (ToolError.unknown_tool ""))
            | some n ↦ elim (resolve tools n action.action_type) [
              | ok _ ↦ ok n
              | raise e ↦ refuse ExecutorFailureCode.adapter_not_found (texts.tool_error e)
            ]
          ])
            ≡ ok name
          → (tool : ToolDefinition) × (action.tool_name ≡ some name)
            × (resolve tools name action.action_type ≡ ok tool)
      go none e k = cc
      go (some n) e k = found n (resolve tools n action.action_type) e refl k

  pub dispatched :
      (world : World)
      → (action.status ≡ ActionStatus.approved) ⊎ (action.status ≡ ActionStatus.permission_checked)
      → Dispatched world (dispatch digest texts at tools adapters attempt_id action world)
  unfolding dispatch has_adapter get_adapter
  dispatched world may = go (resolve_tool texts tools action) refl
    where
      with_adapter :
          (name : String) (o : Option (ToolAdapter World))
          → resolve_tool texts tools action ≡ ok name
          → lookup name adapters ≡ o
          → Dispatched world (
              if not (has_adapter adapters name)
              then (
                world,
                ok (
                    fail_outcome action
                      (record {
                        code = ExecutorFailureCode.adapter_not_found;
                        message = texts.missing_adapter name;
                      })
                      at.failing),
              )
              else (elim (get_adapter adapters name) [
                | raise e ↦ (world, raise (no_adapter e))
                | ok adapter ↦ start digest texts at adapter attempt_id action world
              ]))
      with_adapter name none e q = rw q (
          unavailable (record {
            code = ExecutorFailureCode.adapter_not_found;
            message = texts.missing_adapter name;
          }))
      with_adapter name (some adapter) e q =
          let (tool, named, known) = resolved_lem name e in
          rw (q, start_ok digest texts at adapter attempt_id action world may)
            (started adapter (record {
              name = name;
              tool = tool;
              named = named;
              resolved = known;
              registered = q;
            }))

      go :
          (r : Outcome Refusal String)
          → resolve_tool texts tools action ≡ r
          → Dispatched world (elim r [
            | raise refusal ↦ (world, ok (fail_outcome action refusal at.failing))
            | ok name ↦
                if not (has_adapter adapters name)
                then (
                  world,
                  ok (
                      fail_outcome action
                        (record {
                          code = ExecutorFailureCode.adapter_not_found;
                          message = texts.missing_adapter name;
                        })
                        at.failing),
                )
                else (elim (get_adapter adapters name) [
                  | raise e ↦ (world, raise (no_adapter e))
                  | ok adapter ↦ start digest texts at adapter attempt_id action world
                ])
          ])
      go (raise refusal) e = unavailable refusal
      go (ok name) e = with_adapter name (lookup name adapters) e refl
