-- ===== src/Executor/Durable.antt =====
-- With durable approvals, one approval lets one run through.
use mr_enderson.Base.{
  ◌≡◌, ◌≢◌, refl, sym, ap, subst, ◌∙◌, inl, inr, String, true, Option, none, some, string_eq,
  Outcome, ok, Bool-cases, lookup, lookup-insert_self, ◌==◌,
}
use mr_enderson.Schemas.{Action, ActionStatus, action_status_eq, ApprovalRequest}
use mr_enderson.ToolRegistry.Operations.{Tools}
use mr_enderson.PermissionEngine.Levels.{require_approval, permission_outcome_eq}
use mr_enderson.PermissionEngine.Decisions.{PermissionDecision}
use mr_enderson.ApprovalEngine.Hash.{Digest}
use mr_enderson.Executor.Adapters.{Adapters}
use mr_enderson.Executor.Approvals.{Approvals, load_approval_request, consume_if_valid, matches}
use mr_enderson.Executor.Outcomes.{ExecutorError, ExecutionOutcome, Texts, Readings, State}
use mr_enderson.Executor.Gate.{gates, use_approval, use_row}
use mr_enderson.Executor.Execute.{execute_action}
use mr_enderson.Executor.Traces.{
  Executed, mismatched, already_completed, refused, executed, execution,
}
use mr_enderson.Executor.Cleared.{IsCleared, gates-IsCleared, use_row_ok}

-- The row is there and used up.
unfoldable pub IsUsed : Approvals → String → Type 0
IsUsed rows id = (r : ApprovalRequest) × (lookup id rows ≡ some r) × (r.consumed ≡ true)

update-IsUsed :
    (rows : Approvals) (id action_id action_hash : String) (now : _)
    → (consume_if_valid rows id action_id action_hash now).1 ≡ true
    → IsUsed (consume_if_valid rows id action_id action_hash now).0 id
unfolding consume_if_valid IsUsed
update-IsUsed rows id action_id action_hash now h = go (lookup id rows) refl
  where
    go :
        (o : Option ApprovalRequest)
        → lookup id rows ≡ o
        → IsUsed (consume_if_valid rows id action_id action_hash now).0 id
    go none e = absurd (cc (rw (consume_if_valid, e) at h))
    go (some row) e = elim (Bool-cases (matches row action_id action_hash now)) [
      | inl m ↦
          rw (consume_if_valid, e, m)
            (
              record row { consumed = true; consumed_at = some now },
              lookup-insert_self id (record row { consumed = true; consumed_at = some now }) rows,
              refl,
            )
      | inr m ↦ absurd (cc (rw (consume_if_valid, e, m) at h))
    ]

-- What other callers do keeps used rows used.
unfoldable pub KeepsUsed : (Approvals → Approvals) → Type 0
KeepsUsed later = (rows : Approvals) (id : String) → IsUsed rows id → IsUsed (later rows) id

module _ (digest : Digest) (texts : Texts) where
  -- What the gates leave of the row.
  gates-IsUsed :
      (at : Readings) (others : Approvals → Approvals) (given : ApprovalRequest) (action : Action)
      (decision : PermissionDecision) (rows : Approvals)
      → decision.outcome ≡ require_approval
      → ((current : ApprovalRequest) → lookup given.id rows ≡ some current → current.id ≡ given.id)
      → (gates digest texts at others (some rows) (some given) action decision).1 ≡ ok tt
      → (rows' : Approvals) × ((gates digest texts at others
            (some rows)
            (some given)
            action
            decision).0
          ≡ some rows')
        × IsUsed rows' given.id
  unfolding gates use_approval use_row load_approval_request
  gates-IsUsed at others given action decision rows asks keyed h =
      elim (Bool-cases (action.status == ActionStatus.approved)) [
        | inr n ↦ absurd (cc (rw (asks, n) at h))
        | inl a ↦ rw (asks, a) (go (lookup given.id rows) refl (rw (asks, a) at h))
      ]
    where
      go :
          (o : Option ApprovalRequest)
          → lookup given.id rows ≡ o
          → (use_row digest texts at others rows o action).1 ≡ ok tt
          → (rows' : Approvals) × ((use_row digest texts at others rows o action).0 ≡ some rows')
            × IsUsed rows' given.id
      go none e k = absurd (cc (k))
      go (some current) e k =
          let (valid, left, matched) = use_row_ok digest texts at others rows current action k in
          (
            (consume_if_valid (others rows) current.id action.id current.action_hash
                at.consuming).0,
            left,
            subst
                (IsUsed
                  (consume_if_valid (others rows) current.id action.id current.action_hash
                    at.consuming).0)
                (keyed current e)
                (update-IsUsed (others rows) current.id action.id current.action_hash at.consuming
                  matched),
          )

module _ {World : Type 0} (digest : Digest) (texts : Texts) where
  -- A used row lets nothing through.
  used-blocks :
      (at : Readings) (others : Approvals → Approvals) (tools : Tools) (adapters : Adapters World)
      (attempt_id : String) (given : ApprovalRequest) (action : Action)
      (decision : PermissionDecision) (rows : Approvals) (world : World)
      → IsUsed rows given.id
      → decision.outcome ≡ require_approval
      → (execute_action digest texts at others tools adapters attempt_id
          (some given)
          action
          decision
          (record { approvals = some rows; world = world })).0.world
        ≡ world
  unfolding IsUsed
  used-blocks at others tools adapters attempt_id given action decision rows world (r, found, used)
        asks =
      go _ (
        execution digest texts at others tools adapters attempt_id (some given) action decision
          (record { approvals = some rows; world = world }))
    where
      spent : IsCleared digest texts at others (some rows) (some given) action decision → ⊥
      spent (inr (_, free, _)) = free asks
      spent (inl (_, _, a)) =
          let same : given ≡ a.given = cc (a.supplied) in
          let row : some r ≡ some a.current =
            sym found ∙ (ap (λ g. lookup g.id rows) same ∙ a.found) in
          let one : r ≡ a.current = cc (row) in
          absurd (cc (used, a.usable.unused, ap (λ x. x.consumed) one))

      go :
          (q : State World × Outcome ExecutorError ExecutionOutcome)
          → Executed digest texts at others tools adapters attempt_id
              (some given)
              action
              decision
              (record { approvals = some rows; world = world })
              q
          → q.0.world ≡ world
      go q (mismatched e) = refl
      go q (already_completed e s) = refl
      go q (refused e refusal) = refl
      go q (executed e g adapter has) = absurd (
          spent (gates-IsCleared digest texts at others (some rows) (some given) action decision g))

  -- An approval that is kept in the database lets one execution through. Where an execution with an
  -- approval has changed the world and left the rows `rows'`, no later execution that needs an
  -- approval and gets the same request changes it, whatever its action, decision, tools, adapters
  -- and clock are, and whatever other callers do in the meantime, provided that the first execution
  -- read the row back under its own id and that no other caller resets the mark of a used row.
  pub one_run_per_approval :
      (at at' : Readings) (others others' later : Approvals → Approvals) (tools tools' : Tools)
      (adapters adapters' : Adapters World) (attempt_id attempt_id' : String)
      (given : ApprovalRequest) (action action' : Action) (decision decision' : PermissionDecision)
      (rows rows' : Approvals) (world world' : World)
      → decision.outcome ≡ require_approval
      → decision'.outcome ≡ require_approval
      → KeepsUsed later
      → ((current : ApprovalRequest) → lookup given.id rows ≡ some current → current.id ≡ given.id)
      → (execute_action digest texts at others tools adapters attempt_id
          (some given)
          action
          decision
          (record { approvals = some rows; world = world })).0.world
        ≢ world
      → (execute_action digest texts at others tools adapters attempt_id
          (some given)
          action
          decision
          (record { approvals = some rows; world = world })).0.approvals
        ≡ some rows'
      → (execute_action digest texts at' others' tools' adapters' attempt_id'
          (some given)
          action'
          decision'
          (record { approvals = some (later rows'); world = world' })).0.world
        ≡ world'
  unfolding KeepsUsed
  one_run_per_approval at at' others others' later tools tools' adapters adapters' attempt_id
        attempt_id' given action action' decision decision' rows rows' world world' asks asks' keeps
        keyed changed left =
      used-blocks at' others' tools' adapters' attempt_id' given action' decision' (later rows')
        world'
        (keeps rows' given.id (
          go _
            (execution digest texts at others tools adapters attempt_id (some given) action decision
              (record { approvals = some rows; world = world }))
            changed left))
        asks'
    where
      go :
          (q : State World × Outcome ExecutorError ExecutionOutcome)
          → Executed digest texts at others tools adapters attempt_id
              (some given)
              action
              decision
              (record { approvals = some rows; world = world })
              q
          → q.0.world ≢ world
          → q.0.approvals ≡ some rows'
          → IsUsed rows' given.id
      go q (mismatched e) c l = absurd (c refl)
      go q (already_completed e s) c l = absurd (c refl)
      go q (refused e refusal) c l = absurd (c refl)
      go q (executed e g adapter has) c l =
          let (kept, shape, used) =
            gates-IsUsed digest texts at others given action decision rows asks keyed g in
          let same : kept ≡ rows' = cc (shape, l) in subst (λ x. IsUsed x given.id) same used
