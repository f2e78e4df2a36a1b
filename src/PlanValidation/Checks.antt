-- ===== src/PlanValidation/Checks.antt =====
-- The other checks of app/decision_intelligence/plan_validation.py and its readiness report. A
-- text of the report is a constructor with the values that the text shows.
use mr_enderson.Base.{
  String, Bool, true, false, ◌&&◌, not, Option, none, some, List, [], ◌∷◌, ◌++◌, ◌==◌, string_eq,
  keep, map, contains, is_empty, Dict, lookup, insert, ltb, Outcome, ok, raise_if, ◌>>◌,
  if◌then◌else◌,
}
use mr_enderson.Schemas.{
  Action, ActionStatus, action_status_eq, ActionPlan, RiskLevel, risk_level_eq,
}
use mr_enderson.Authority.Identifiers.{Unicode, codes, strip}
use mr_enderson.PermissionEngine.Levels.{requires_tool}
use mr_enderson.PlanValidation.Cycles.{detect_dependency_cycle}

-- The loop of `duplicate_action_ids`.
unfoldable pub duplicates_loop : List Action → (seen duplicates : List String) → List String
duplicates_loop [] seen duplicates = duplicates
duplicates_loop (a ∷ rest) seen duplicates = duplicates_loop rest (a.id ∷ seen) (
    if contains a.id seen && not (contains a.id duplicates)
    then duplicates ++ (a.id ∷ [])
    else duplicates)

unfoldable pub duplicate_action_ids : List Action → List String
unfolding duplicates_loop
duplicate_action_ids actions = duplicates_loop actions [] []

abbrev pub ids : List Action → List String
ids actions = map (λ a. a.id) actions

-- The pairs of one action.
abbrev pub missing_of : List String → String → List String → List (String × String)
missing_of known id deps = map (λ d. (id, d)) (keep (λ d. not (contains d known)) deps)

abbrev pub missing_in : List String → List Action → List (String × String)
missing_in known [] = []
missing_in known (a ∷ rest) = missing_of known a.id a.dependencies ++ missing_in known rest

unfoldable pub unknown_dependency_ids : List Action → List (String × String)
unknown_dependency_ids actions = missing_in (ids actions) actions

unfoldable pub self_dependencies : List Action → List String
self_dependencies actions = ids (keep (λ a. contains a.id a.dependencies) actions)

-- `{a.id: a for a in actions}`
abbrev pub index_actions : List Action → Dict String Action → Dict String Action
index_actions [] d = d
index_actions (a ∷ rest) d = index_actions rest (insert a.id a d)

abbrev pub is_later : Dict String Action → Action → String → Bool
is_later by_id a dep = elim (lookup dep by_id) [ none ↦ false | some d ↦ ltb a.sequence d.sequence ]

abbrev pub later_in : Dict String Action → List Action → List (String × String)
later_in by_id [] = []
later_in by_id (a ∷ rest) =
    map (λ d. (a.id, d)) (keep (is_later by_id a) a.dependencies) ++ later_in by_id rest

unfoldable pub forward_only_dependency_violations : List Action → List (String × String)
forward_only_dependency_violations actions = later_in (index_actions actions []) actions

pub data PlanError : Type 0 where
  duplicate_ids self_dependent : List String → PlanError
  unknown_dependencies : List (String × String) → PlanError
  cyclic : List String → PlanError

-- `validate_dependencies`, which raises.
unfoldable pub validate_dependencies : List Action → Outcome PlanError (Unit {0})
validate_dependencies actions = do
  raise_if (not (is_empty (duplicate_action_ids actions)))
      (duplicate_ids (duplicate_action_ids actions))
  raise_if (not (is_empty (self_dependencies actions))) (self_dependent (self_dependencies actions))
  raise_if (not (is_empty (unknown_dependency_ids actions)))
      (unknown_dependencies (unknown_dependency_ids actions))
  elim (detect_dependency_cycle actions) [
    | none ↦ ok tt
    | some cycle ↦ raise_if (not (is_empty cycle)) (cyclic cycle)
  ]

pub data Blocker : Type 0 where
  no_actions : Blocker
  structural : PlanError → Blocker
  later_dependencies : List (String × String) → Blocker
  impossible_state no_expected_result no_success_criteria : String → Blocker
  no_verification_method no_declared_tool : String → Blocker

pub data Warning : Type 0 where
  approval_at_low_risk too_many_retries : String → Warning

-- `_IMPOSSIBLE_FOR_READY`
abbrev pub impossible_for_ready : List ActionStatus
impossible_for_ready =
    ActionStatus.failed ∷ ActionStatus.cancelled ∷ ActionStatus.rejected ∷ ActionStatus.blocked
    ∷ ActionStatus.verification_failed ∷ []

-- `if xs: blockers.append(...)`
abbrev pub when_any {ℓ} : {A : Type ℓ} → List A → Blocker → List Blocker
when_any [] b = []
when_any (_ ∷ _) b = b ∷ []

abbrev pub when {ℓ} : {A : Type ℓ} → Bool → A → List A
when test b = if test then b ∷ [] else []

-- The cycle, if one was looked for and found: ids that are duplicated or dangling skip it.
unfoldable pub cycle_blockers : List Action → List Blocker
cycle_blockers actions =
    if is_empty (duplicate_action_ids actions) && is_empty (unknown_dependency_ids actions)
    then (elim (detect_dependency_cycle actions) [
      | none ↦ []
      | some cycle ↦ when_any cycle (structural (cyclic cycle))
    ])
    else []

-- `PlanReadinessResult`, with the messages as constructors.
pub record Readiness : Type 0 where
  pub ready : Bool
  pub blockers : List Blocker
  pub warnings : List Warning

abbrev pub tool_unset : Option String → Bool
tool_unset none = true
tool_unset (some name) = name == ""

module _ (u : Unicode) where
  -- `not text.strip()`
  unfoldable pub is_blank : String → Bool
  is_blank text = is_empty (strip u (codes text))

  -- The checks of one action.
  unfoldable pub action_blockers : Action → List Blocker
  action_blockers a =
      when (contains a.status impossible_for_ready) (impossible_state a.id)
      ++ (when (is_blank a.expected_result) (no_expected_result a.id)
          ++ (when (is_blank a.success_criteria) (no_success_criteria a.id)
              ++ (when (is_blank a.verification_method) (no_verification_method a.id)
                  ++ when (requires_tool a.action_type && tool_unset a.tool_name)
                      (no_declared_tool a.id))))

  abbrev pub all_action_blockers : List Action → List Blocker
  all_action_blockers [] = []
  all_action_blockers (a ∷ rest) = action_blockers a ++ all_action_blockers rest

  unfoldable pub blockers_of : List Action → List Blocker
  unfolding cycle_blockers
  blockers_of actions =
      when_any (duplicate_action_ids actions)
        (structural (duplicate_ids (duplicate_action_ids actions)))
      ++ (when_any (self_dependencies actions)
            (structural (self_dependent (self_dependencies actions)))
          ++ (when_any (unknown_dependency_ids actions)
                (structural (unknown_dependencies (unknown_dependency_ids actions)))
              ++ (cycle_blockers actions
                  ++ (when_any (forward_only_dependency_violations actions)
                        (later_dependencies (forward_only_dependency_violations actions))
                      ++ all_action_blockers actions))))

  abbrev pub warnings_of : List Action → List Warning
  warnings_of [] = []
  warnings_of (a ∷ rest) =
      when (a.approval_required && a.risk_level == RiskLevel.low) (approval_at_low_risk a.id)
      ++ (when (ltb a.max_retries a.retry_count) (too_many_retries a.id) ++ warnings_of rest)

  unfoldable pub evaluate_plan_readiness : ActionPlan → Readiness
  unfolding blockers_of
  evaluate_plan_readiness plan =
      if is_empty plan.actions
      then record { ready = false; blockers = no_actions ∷ []; warnings = [] }
      else record {
        ready = is_empty (blockers_of plan.actions);
        blockers = blockers_of plan.actions;
        warnings = warnings_of plan.actions;
      }
