-- ===== src/PermissionEngine/Floors.antt =====
-- A decision that does not block rests on the floor of the action type and of the tool.
use mr_enderson.Base.{
  ℕ, ◌≤◌, ◌≡◌, refl, ◌≢◌, ◌↔◌, ◌⊎◌, inl, inr, String, true, false, Option, none, some, arith, ◌==◌,
  string_eq, Outcome, ok, raise, Bool-cases,
}
use mr_enderson.Schemas.{PermissionLevel, RiskLevel, Action}
use mr_enderson.ToolRegistry.Operations.{ToolDefinition, Tools, ToolError, resolve}
use mr_enderson.PermissionEngine.Levels.{
  allow, allow_with_audit, require_approval, block, permission_rank, risk_rank, max_permission,
  max_risk, floor_of, outcome_by_permission, requires_tool, permission_outcome_eq,
}
use mr_enderson.PermissionEngine.Decisions.{
  PermissionDecision, allow_without_tool, evaluate_with_tool, evaluate_resolved, evaluate_named,
  evaluate_floored, evaluate_permission,
}

-- How a decision comes about, branch by branch.
pub data Decided (now : ℕ) (a : Action) (reg : Tools) (d : PermissionDecision) : Type 0 where
  no_tool : requires_tool a.action_type ≡ false → d ≡ allow_without_tool now a → Decided now a reg d
  with_tool :
      (p : PermissionLevel) (r : RiskLevel) (name : String) (tool : ToolDefinition)
      → requires_tool a.action_type ≡ true
      → floor_of a.action_type ≡ some (p, r)
      → a.tool_name ≡ some name
      → resolve reg name a.action_type ≡ ok tool
      → d ≡ evaluate_with_tool now a p r tool
      → Decided now a reg d
  refused : d.outcome ≡ block → d.approval_required ≡ false → Decided now a reg d

module _ (now : ℕ) (a : Action) (reg : Tools) where
  named-Decided :
      (p : PermissionLevel) (r : RiskLevel) (t : Option String)
      → requires_tool a.action_type ≡ true
      → floor_of a.action_type ≡ some (p, r)
      → a.tool_name ≡ t
      → Decided now a reg (evaluate_named now a reg p r t)
  unfolding evaluate_named
  named-Decided p r none rt fl tn = refused refl refl
  named-Decided p r (some name) rt fl tn = elim (Bool-cases (name == "")) [
    | inl empty ↦ rw empty (refused refl refl)
    | inr given ↦ rw given (go (resolve reg name a.action_type) refl)
  ]
    where
      go :
          (o : Outcome ToolError ToolDefinition)
          → resolve reg name a.action_type ≡ o
          → Decided now a reg (evaluate_resolved now a p r o)
      go (ok tool) e = with_tool p r name tool rt fl tn e refl
      go (raise x) e = refused refl refl

  pub evaluate-Decided : Decided now a reg (evaluate_permission now a reg)
  unfolding evaluate_permission
  evaluate-Decided = elim (Bool-cases (requires_tool a.action_type)) [
    | inr none_needed ↦ rw none_needed (no_tool none_needed refl)
    | inl needed ↦ rw needed (go (floor_of a.action_type) refl needed)
  ]
    where
      go :
          (f : Option (PermissionLevel × RiskLevel))
          → floor_of a.action_type ≡ f
          → requires_tool a.action_type ≡ true
          → Decided now a reg (evaluate_floored now a reg f)
      go none e needed = refused refl refl
      go (some (p, r)) e needed = named-Decided p r a.tool_name needed e refl

max_permission-le :
    (p q : PermissionLevel)
    → (permission_rank p ≤ permission_rank (max_permission p q))
      × (permission_rank q ≤ permission_rank (max_permission p q))
unfolding max_permission
max_permission-le p q = ground arith

max_risk-le :
    (p q : RiskLevel)
    → (risk_rank p ≤ risk_rank (max_risk p q)) × (risk_rank q ≤ risk_rank (max_risk p q))
unfolding max_risk
max_risk-le p q = ground arith

-- The decision `d` is at or above the floor of the action's type and of a tool of the registry
-- that is enabled, supports the type and carries the action's tool name.
pub record MeetsFloors (a : Action) (reg : Tools) (d : PermissionDecision) : Type 0 where
  pub type_permission : PermissionLevel
  pub type_risk : RiskLevel
  pub name : String
  pub tool : ToolDefinition
  pub type_floor : floor_of a.action_type ≡ some (type_permission, type_risk)
  pub named : a.tool_name ≡ some name
  pub resolved : resolve reg name a.action_type ≡ ok tool
  pub above_type : permission_rank type_permission ≤ permission_rank d.permission_level
  pub above_tool :
      permission_rank tool.default_permission_level ≤ permission_rank d.permission_level
  pub risk_above_type : risk_rank type_risk ≤ risk_rank d.risk_level
  pub risk_above_tool : risk_rank tool.default_risk_level ≤ risk_rank d.risk_level
  pub by_level : d.outcome ≡ outcome_by_permission d.permission_level

-- Unless the engine blocks an action, either its type needs no tool, and then it is allowed at
-- READ and LOW, or its tool resolves and the decision's permission and risk lie at or above the
-- floors of the action type and of the tool, with the outcome that the permission calls for.
pub unblocked-MeetsFloors :
    (now : ℕ) (a : Action) (reg : Tools)
    → (evaluate_permission now a reg).outcome ≢ block
    → ((requires_tool a.action_type ≡ false)
        × ((evaluate_permission now a reg).outcome ≡ allow)
        × ((evaluate_permission now a reg).permission_level ≡ PermissionLevel.read)
        × ((evaluate_permission now a reg).risk_level ≡ RiskLevel.low))
      ⊎ MeetsFloors a reg (evaluate_permission now a reg)
unblocked-MeetsFloors now a reg open_outcome =
    go (evaluate_permission now a reg) (evaluate-Decided now a reg) open_outcome
  where
    go :
        (d : PermissionDecision)
        → Decided now a reg d
        → d.outcome ≢ block
        → ((requires_tool a.action_type ≡ false)
            × (d.outcome ≡ allow)
            × (d.permission_level ≡ PermissionLevel.read)
            × (d.risk_level ≡ RiskLevel.low))
          ⊎ MeetsFloors a reg d
    go d (no_tool free e) h = rw e (unfold allow_without_tool in inl (free, refl, refl, refl))
    go d (refused e _) h = absurd (h e)
    go d (with_tool p r name tool needed fl tn res e) h = rw e (
        inr (
          unfold evaluate_with_tool in
          record {
            type_permission = p;
            type_risk = r;
            name = name;
            tool = tool;
            type_floor = fl;
            named = tn;
            resolved = res;
            above_type = (max_permission-le p tool.default_permission_level).0;
            above_tool = (max_permission-le p tool.default_permission_level).1;
            risk_above_type = (max_risk-le r tool.default_risk_level).0;
            risk_above_tool = (max_risk-le r tool.default_risk_level).1;
            by_level = refl;
          }))

-- What an outcome says of the permission level, and when approval is required.
abbrev pub Consistent : PermissionDecision → Type 0
Consistent d =
    ((d.approval_required ≡ true) ↔ (d.outcome ≡ require_approval))
    × (d.outcome ≡ allow → d.permission_level ≡ PermissionLevel.read)
    × (d.outcome ≡ allow_with_audit → d.permission_level ≡ PermissionLevel.write)
    × (d.outcome ≡ require_approval
        → (d.permission_level ≡ PermissionLevel.external_action)
          ⊎ (d.permission_level ≡ PermissionLevel.financial_action))
    × (d.permission_level ≡ PermissionLevel.admin → d.outcome ≡ block)

with_tool-Consistent :
    (now : ℕ) (a : Action) (p : PermissionLevel) (r : RiskLevel) (tool : ToolDefinition)
    → Consistent (evaluate_with_tool now a p r tool)
unfolding evaluate_with_tool outcome_by_permission
with_tool-Consistent now a p r tool = go (max_permission p tool.default_permission_level)
  where
    go :
        (level : PermissionLevel)
        → (((outcome_by_permission level == require_approval) ≡ true)
            ↔ (outcome_by_permission level ≡ require_approval))
          × (outcome_by_permission level ≡ allow → level ≡ PermissionLevel.read)
          × (outcome_by_permission level ≡ allow_with_audit → level ≡ PermissionLevel.write)
          × (outcome_by_permission level ≡ require_approval
              → (level ≡ PermissionLevel.external_action)
                ⊎ (level ≡ PermissionLevel.financial_action))
          × (level ≡ PermissionLevel.admin → outcome_by_permission level ≡ block)
    go level = ground arith

no_tool-Consistent : (now : ℕ) (a : Action) → Consistent (allow_without_tool now a)
unfolding allow_without_tool
no_tool-Consistent now a = ground arith

refused-Consistent :
    (d : PermissionDecision) → d.outcome ≡ block → d.approval_required ≡ false → Consistent d
refused-Consistent d e f = ground (arith, e, f)

-- A decision asks for approval exactly when its outcome is REQUIRE_APPROVAL; ALLOW is given at
-- READ only, ALLOW_WITH_AUDIT at WRITE only, REQUIRE_APPROVAL at EXTERNAL_ACTION and
-- FINANCIAL_ACTION only, and ADMIN always blocks.
pub outcome_fits_level :
    (now : ℕ) (a : Action) (reg : Tools) → Consistent (evaluate_permission now a reg)
outcome_fits_level now a reg = go (evaluate_permission now a reg) (evaluate-Decided now a reg)
  where
    go : (d : PermissionDecision) → Decided now a reg d → Consistent d
    go d (no_tool _ e) = rw e (no_tool-Consistent now a)
    go d (with_tool p r name tool _ _ _ _ e) = rw e (with_tool-Consistent now a p r tool)
    go d (refused e f) = refused-Consistent d e f
